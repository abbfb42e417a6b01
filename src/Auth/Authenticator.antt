-- ===== src/Auth/Authenticator.antt =====
-- internal/auth/auth.go, with the parts of jwt.go, session.go and apikey.go that it calls: logging
-- in, authenticating a request, and changing accounts. The clock reading of a request is `now`. The
-- cryptography is the parameter `Services`; error texts are the source's.
pub mod Login
pub mod Lockout
pub mod Tokens
pub mod Examples
mod Tests
use Prim.Native.String
use spark_db.Prelude.{
  ℕ, ◌+◌, String, Bool, true, false, not, Option, none, some, ltb, ◌==◌, List, [], ◌∷◌, map, leb,
  Result, ok, err, ◌>>=◌, wrap, errorf, if◌then◌else◌,
}
use spark_db.Text.{Text, codes, is_empty, text_eq, to_lower, split_2}
use spark_db.Database.System.{User, SystemDb}
use spark_db.Database.System.Users.{
  get_user, get_user_by_username, create_user, update_user_role, update_username,
  update_user_password, set_password_change_required, delete_user,
}
use spark_db.Database.System.Credentials.{find_user_by_api_key, validate_session}
use spark_db.Auth.LoginLimiter.{LoginRateLimiter, is_locked, record_fail, reset}
use spark_db.Auth.Strength.{validate_password_strength}

pub record Claims : Type 0 where
  pub user_id : ℕ
  pub username : String
  pub role : String
  pub expires_at : ℕ
  pub issued_at : ℕ
  pub issuer : String

-- Password hashing, token signatures and SHA-256, which the handlers only call.
pub record Services : Type 0 where
  -- HashPassword
  pub hash_password : Text → Result String
  -- VerifyPassword(password, encoded)
  pub verify_password : Text → String → Result Bool
  -- token.SignedString(secret)
  pub sign : Text → Claims → Result Text
  -- jwt.ParseWithClaims at a clock reading, with the secret
  pub parse : ℕ → Text → Text → Result Claims
  -- hex.EncodeToString(sha256.Sum256(…))
  pub sha256_hex : Text → String

pub record Authenticator : Type 0 where
  pub system_db : SystemDb
  pub login_limiter : LoginRateLimiter
  pub secret : Text
  pub duration : ℕ

pub record AuthUser : Type 0 where
  pub id : ℕ
  pub username : String
  pub role : String
  pub auth_type : String

pub record LoginRequest : Type 0 where
  pub username : String
  pub password : Text

pub record LoginResponse : Type 0 where
  pub token : Text
  pub token_type : String
  pub user : AuthUser
  pub password_change_required : Bool

-- the user that a row stands for, as authenticated by `auth_type`
abbrev pub auth_user : String → User → AuthUser
auth_user auth_type u = record {
  id = u.id;
  username = u.username;
  role = u.role;
  auth_type = auth_type;
}

-- `user.LockedUntil != nil && time.Now().Before(*user.LockedUntil)`
abbrev pub before : ℕ → Option ℕ → Bool
before now none = false
before now (some until) = ltb now until

abbrev pub is_user_locked : ℕ → User → Bool
is_user_locked now u = before now u.locked_until

-- the negation of `err != nil || !valid`
abbrev pub verified : Result Bool → Bool
verified (ok b) = b
verified (err e) = false

abbrev pub lock_key : String → String
lock_key username = String.◌++◌ "login:" username

module _ (s : Services) where
  -- `JWTManager.Generate`
  unfoldable pub generate : ℕ → Text → ℕ → User → Result Text
  generate now secret duration u = wrap "sign token" (
      s.sign secret (record {
        user_id = u.id;
        username = u.username;
        role = u.role;
        expires_at = now + duration;
        issued_at = now;
        issuer = "sparkdb";
      }))

  -- the end of `Login`, once the password is verified
  unfoldable pub respond : ℕ → User → Authenticator → Result LoginResponse
  unfolding generate
  respond now u a = do
    token ← wrap "generate token" (generate now a.secret a.duration u)
    ok (record {
      token = token;
      token_type = "bearer";
      user = auth_user "jwt" u;
      password_change_required = u.password_change_required;
    })

  -- the account is not locked by attempts; `l` is the limiter after that check
  unfoldable pub check_password :
      ℕ → LoginRequest → LoginRateLimiter → Authenticator → Result LoginResponse × Authenticator
  check_password now req l a =
      let failed = record a { login_limiter = record_fail now (lock_key req.username) l } in
      let passed = record a { login_limiter = reset (lock_key req.username) l } in
      elim (get_user_by_username req.username a.system_db) [
        | err e ↦ (err (errorf "invalid credentials"), failed)
        | ok u ↦
            if is_user_locked now u
            then (err (errorf "account is locked"), record a { login_limiter = l })
            else if verified (s.verify_password req.password u.password_hash)
            then (respond now u a, passed)
            else (err (errorf "invalid credentials"), failed)
      ]

  unfoldable pub login : ℕ → LoginRequest → Authenticator → Result LoginResponse × Authenticator
  login now req a =
      let (l, locked) = is_locked now (lock_key req.username) a.login_limiter in
      if locked
      then (
        err (errorf "account temporarily locked due to too many failed attempts"),
        record a { login_limiter = l },
      )
      else check_password now req l a

  unfoldable pub authenticate_jwt : ℕ → Text → Authenticator → Result AuthUser
  authenticate_jwt now token a = do
    c ← wrap "invalid token" (wrap "parse token" (s.parse now a.secret token))
    ok (record { id = c.user_id; username = c.username; role = c.role; auth_type = "jwt" })

  abbrev pub unless_locked : ℕ → String → User → Result AuthUser
  unless_locked now auth_type u =
      if is_user_locked now u
      then err (errorf "user account is locked")
      else ok (auth_user auth_type u)

  abbrev pub or_invalid_key : Result User → Result User
  or_invalid_key (ok u) = ok u
  or_invalid_key (err e) = err (errorf "invalid API key")

  unfoldable pub authenticate_api_key : ℕ → Text → Authenticator → Result AuthUser
  authenticate_api_key now key a = do
    u ← or_invalid_key (find_user_by_api_key now (s.sha256_hex key) a.system_db)
    unless_locked now "apikey" u

  unfoldable pub authenticate_session : ℕ → Text → Authenticator → Result AuthUser
  authenticate_session now token a = do
    id ← wrap "invalid session" (validate_session now (s.sha256_hex token) a.system_db)
    u ← wrap "get user" (get_user id a.system_db)
    unless_locked now "session" u

  -- the scheme and the token of the Authorization header
  abbrev pub authenticate_header : ℕ → Authenticator → Option (Text × Text) → Result AuthUser
  authenticate_header now a none = err (errorf "invalid authorization header")
  authenticate_header now a (some (scheme, token)) =
      if text_eq (to_lower scheme) (codes "bearer")
      then authenticate_jwt now token a
      else if text_eq (to_lower scheme) (codes "session")
      then authenticate_session now token a
      else err (errorf "unsupported authorization type")

  -- `AuthenticateRequest` on the headers X-API-Key and Authorization, empty where they are missing
  unfoldable pub authenticate_request : ℕ → Text → Text → Authenticator → Result AuthUser
  authenticate_request now api_key auth_header a =
      if not (is_empty api_key)
      then authenticate_api_key now api_key a
      else if not (is_empty auth_header)
      then authenticate_header now a (split_2 b' ' auth_header)
      else err (errorf "no authentication provided")
