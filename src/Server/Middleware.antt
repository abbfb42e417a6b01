-- ===== src/Server/Middleware.antt =====
-- internal/server/middleware.go, less rateLimitMiddleware, which is Server/RateLimit. A handler is a
-- function of the request and of the state `S` behind the server; its answer is `panicked` where it
-- panics, before it has written anything. `now` is the clock of the request.
pub mod Origins
use spark_db.Prelude.{
  ℕ, String, Bool, true, false, List, [], ◌∷◌, ◌++◌, any, Option, none, some, Error, errorf, ok,
  err, str_eq, if◌then◌else◌,
}
use spark_db.Text.{Text}
use spark_db.Disk.{Bytes}
use spark_db.Auth.Authenticator.{Services, Authenticator, AuthUser, authenticate_request}
use spark_db.Server.RateLimit.{Limiters, rate_limit}

pub record Request : Type 0 where
  pub method : String
  pub path : String
  pub address : String
  pub origin : String
  pub api_key : Text
  pub authorization : Text
  pub body : Bytes
  -- how much of the body can be read, if that is limited
  pub readable : Option ℕ
  -- the user of the context
  pub user : Option AuthUser

pub data Content (B : Type 0) : Type 0 where
  error_body : Error → Content B
  no_content : Content B
  payload : B → Content B

pub record Reply (B : Type 0) : Type 0 where
  pub status : ℕ
  pub allow_origin : Option String
  pub content : Content B

pub data Outcome (B : Type 0) : Type 0 where
  replied : Reply B → Outcome B
  panicked : Outcome B

pub record LogLine : Type 0 where
  pub method : String
  pub path : String
  pub status : ℕ

pub record World (S : Type 0) : Type 0 where
  pub limiters : Limiters
  pub log : List LogLine
  pub state : S

abbrev pub Handler : Type 0 → Type 0 → Type 0
Handler B S = Request → World S → Outcome B × World S

abbrev pub error_reply : {B : Type 0} → ℕ → Error → Outcome B
error_reply status e =
    replied (record { status = status; allow_origin = none; content = Content.error_body e })

-- the origin that corsMiddleware names: the one of the request if it is listed, else the first
unfoldable pub origin_for : List String → String → String
origin_for [] origin = "*"
origin_for (first ∷ rest) origin =
    let found = if any (λ o. str_eq o origin) (first ∷ rest) then origin else "" in
    if str_eq first "*" then "*" else if str_eq found "" then first else found

module _ {B S : Type 0} where
  abbrev pub log_line : Request → Outcome B × World S → Outcome B × World S
  log_line r (replied reply, w) = (
    replied reply,
    record w {
      log = w.log ++ record { method = r.method; path = r.path; status = reply.status } ∷ [];
    },
  )
  log_line r (panicked, w) = (panicked, w)

  -- loggingMiddleware, less the duration
  unfoldable pub logging : Handler B S → Handler B S
  logging next r w = log_line r (next r w)

  abbrev pub recovered : Outcome B × World S → Outcome B × World S
  recovered (replied reply, w) = (replied reply, w)
  recovered (panicked, w) = (error_reply 500 (errorf "internal server error"), w)

  unfoldable pub recovery : Handler B S → Handler B S
  recovery next r w = recovered (next r w)

  abbrev pub with_origin : String → Outcome B × World S → Outcome B × World S
  with_origin origin (replied reply, w) = (replied (record reply { allow_origin = some origin }), w)
  with_origin origin (panicked, w) = (panicked, w)

  unfoldable pub cors : List String → Handler B S → Handler B S
  cors allowed_origins next r w = with_origin (origin_for allowed_origins r.origin) (
      if str_eq r.method "OPTIONS"
      then (replied (record { status = 204; allow_origin = none; content = Content.no_content }), w)
      else next r w)

  unfoldable pub body_limit : ℕ → Handler B S → Handler B S
  body_limit max_bytes next r w = next (record r { readable = some max_bytes }) w

  -- rateLimitMiddleware around a handler
  unfoldable pub rate_limiting : ℕ → Handler B S → Handler B S
  rate_limiting now next r w =
      let (passed, limiters) = rate_limit now r.address r.user w.limiters in
      if passed
      then next r (record w { limiters = limiters })
      else (error_reply 429 (errorf "rate limit exceeded"), record w { limiters = limiters })

  module _ (s : Services) (authenticator : S → Authenticator) (now : ℕ) where
    unfoldable pub require_auth : Handler B S → Handler B S
    require_auth next r w =
        elim (authenticate_request s now r.api_key r.authorization (authenticator w.state)) [
          | err e ↦ (error_reply 401 e, w)
          | ok u ↦ next (record r { user = some u }) w
        ]

    unfoldable pub optional_auth : Handler B S → Handler B S
    optional_auth next r w =
        elim (authenticate_request s now r.api_key r.authorization (authenticator w.state)) [
          | err e ↦ next r w
          | ok u ↦ next (record r { user = some u }) w
        ]
