-- ===== src/Server/Routes.antt =====
-- internal/server/server.go: the routes that New registers, with the authentication that stands before
-- each handler, and the middleware around them all. Parameters are the handlers, and `mux`, the choice
-- of a pattern by http.ServeMux, with the answer `unmatched` that it gives where there is none.
pub mod Passage
use spark_db.Prelude.{ℕ, String, List, [], ◌∷◌, ◌++◌, Option, none, some, errorf, if◌then◌else◌}
use spark_db.Auth.Authenticator.{Services, Authenticator}
use spark_db.Server.Middleware.{
  Request, Reply, Outcome, World, Handler, error_reply, rate_limiting, cors, body_limit, recovery,
  logging, require_auth, optional_auth,
}

pub data Route : Type 0 where
  query : Route
  transaction : Route
  backup : Route
  restore : Route
  list_backups : Route
  delete_backup : Route
  login : Route
  change_password : Route
  create_api_key : Route
  list_api_keys : Route
  delete_api_key : Route
  reveal_api_key : Route
  create_user : Route
  list_users : Route
  set_user_role : Route
  set_username : Route
  set_user_password : Route
  delete_user : Route
  audit_logs : Route
  health : Route
  create_database : Route
  list_databases : Route
  stats : Route
  metrics : Route
  replication_log : Route
  shutdown : Route
  web : Route

pub data Access : Type 0 where
  -- requireAuth, optionalAuth, neither
  required : Access
  optional : Access
  open_to_all : Access

abbrev pub access : Route → Access
access login = optional
access health = optional
access metrics = optional
access web = open_to_all
access _ = required

-- a handler, which sees neither the limiters nor the log
abbrev pub run_handler : {B S : Type 0} → (Request → S → Outcome B × S) → Handler B S
run_handler handle r w =
    let (outcome, state) = handle r w.state in (outcome, record w { state = state })

module _ {B S : Type 0} (s : Services) (authenticator : S → Authenticator) (now : ℕ) where
  abbrev pub behind : Access → Handler B S → Handler B S
  behind required next = require_auth s authenticator now next
  behind optional next = optional_auth s authenticator now next
  behind open_to_all next = next

  module _ (mux : String → String → Option Route) (unmatched : Reply B)
      (handle : Route → Request → S → Outcome B × S) where
    unfoldable pub dispatch : Handler B S
    unfolding require_auth optional_auth
    dispatch r w = elim (mux r.method r.path) [
      | none ↦ (Outcome.replied unmatched, w)
      | some route ↦ behind (access route) (run_handler (handle route)) r w
    ]

    -- the handler of the server: rate limit, CORS, the limit of the body, recovery, logging
    unfoldable pub serve : List String → Handler B S
    unfolding dispatch rate_limiting cors body_limit recovery logging
    serve allowed_origins =
        rate_limiting now (cors allowed_origins (body_limit 1048576 (recovery (logging dispatch))))
