-- ===== src/Server/Administration.antt =====
-- The server with its handlers of accounts behind the middleware: internal/server/server.go with the
-- account handlers of routes.go. `decode` stands for what a handler takes from the path and the JSON
-- body, `other` for the handlers of the other routes.
pub mod Access
mod Tests
use spark_db.Prelude.{ℕ, String, Bool, true, false, List, Option, none, some}
use spark_db.Text.{Text}
use spark_db.Auth.Authenticator.{Services, Authenticator, AuthUser, LoginRequest}
use spark_db.Server.Users.{
  Body, Answer, UserRequest, handle_user_request, handle_change_password, handle_login,
}
use spark_db.Server.Middleware.{Request, Reply, Content, Outcome, replied, World, Handler}
use spark_db.Server.Routes.{
  Route, login, change_password, create_user, list_users, set_user_role, set_username,
  set_user_password, delete_user, serve,
}

pub record Decoders : Type 0 where
  pub user_request : Route → Request → UserRequest
  pub login_request : Request → Option LoginRequest
  -- the old and the new password
  pub passwords : Request → Option (Text × Text)

-- writeJSON
abbrev pub json_reply : Answer → Outcome Body
json_reply answer =
    replied (record {
      status = answer.status;
      allow_origin = none;
      content = Content.payload answer.body;
    })

abbrev pub is_account_route : Route → Bool
is_account_route create_user = true
is_account_route list_users = true
is_account_route set_user_role = true
is_account_route set_username = true
is_account_route set_user_password = true
is_account_route delete_user = true
is_account_route _ = false

module _ (s : Services) (decode : Decoders)
    (other : Route → Request → Authenticator → Outcome Body × Authenticator) (now : ℕ) where
  unfoldable pub manage : Route → Request → Authenticator → Outcome Body × Authenticator
  manage route r a =
      let (answer, db) =
        handle_user_request s now r.user (decode.user_request route r) a.system_db in
      (json_reply answer, record a { system_db = db })

  unfoldable pub change_own : Request → Authenticator → Outcome Body × Authenticator
  change_own r a =
      let (answer, db) = handle_change_password s r.user (decode.passwords r) a.system_db in
      (json_reply answer, record a { system_db = db })

  unfoldable pub log_in : Request → Authenticator → Outcome Body × Authenticator
  log_in r a =
      let (answer, a') = handle_login s now (decode.login_request r) a in (json_reply answer, a')

  abbrev pub handlers : Route → Request → Authenticator → Outcome Body × Authenticator
  handlers create_user r a = manage create_user r a
  handlers list_users r a = manage list_users r a
  handlers set_user_role r a = manage set_user_role r a
  handlers set_username r a = manage set_username r a
  handlers set_user_password r a = manage set_user_password r a
  handlers delete_user r a = manage delete_user r a
  handlers login r a = log_in r a
  handlers change_password r a = change_own r a
  handlers route r a = other route r a

  unfoldable pub serve_accounts :
      (String → String → Option Route) → Reply Body → List String → Handler Body Authenticator
  serve_accounts mux unmatched origins = serve s (λ a. a) now mux unmatched handlers origins
