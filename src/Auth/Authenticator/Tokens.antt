-- ===== src/Auth/Authenticator/Tokens.antt =====
-- What the three kinds of credentials prove.
use spark_db.Prelude.{
  ℕ, ◌+◌, ◌<◌, String, ◌≡◌, ◌≢◌, refl, ◌∙◌, false, [], ◌++◌, arith, Option, none, some, ok, err,
  Bool-cases, Result-cases, inl, inr,
}
use spark_db.Text.{Text, codes, is_empty, text_eq, lower, to_lower, split_2}
use spark_db.Database.System.{User, SystemDb}
use spark_db.Database.System.Users.{get_user, get_user_by_username}
use spark_db.Database.System.Users.Rows.{get_user-id}
use spark_db.Database.System.Credentials.{find_user_by_api_key, validate_session}
use spark_db.Database.System.Credentials.Validity.{find_user_by_api_key_sound}
use spark_db.Auth.Authenticator.{
  Services, Claims, Authenticator, LoginRequest, LoginResponse, AuthUser, auth_user, is_user_locked,
  respond, check_password, login, authenticate_jwt, authenticate_api_key, authenticate_session,
  authenticate_request, authenticate_header, unless_locked,
}

-- What the token library promises: a token that was signed is read back, with its claims, by the
-- same secret until it expires.
pub record SignsTokens (s : Services) : Type 0 where
  pub parse-sign :
      (now : ℕ) (secret token : Text) (c : Claims)
      → s.sign secret c ≡ ok token
      → now < c.expires_at
      → s.parse now secret token ≡ ok c

-- The header of a bearer token.
abbrev pub bearer : Text → Text
bearer token = codes "Bearer " ++ token

module _ (s : Services) where
  abbrev with_db : SystemDb → Authenticator → Authenticator
  with_db db a = record a { system_db = db }

  bearer_request :
      (now : ℕ) (token : Text) (a : Authenticator)
      → authenticate_request s now [] (bearer token) a ≡ authenticate_jwt s now token a
  unfolding authenticate_request lower
  bearer_request now token a = refl

  respond-token :
      (law : SignsTokens s) (now later : ℕ) (u : User) (a b : Authenticator) (res : LoginResponse)
      → respond s now u a ≡ ok res
      → b.secret ≡ a.secret
      → later < now + a.duration
      → authenticate_jwt s later res.token b ≡ ok res.user
  unfolding respond authenticate_jwt
  respond-token law now later u a b res h e lt = rw e (
      ground (
        arith,
        law.parse-sign later a.secret res.token (record {
          user_id = u.id;
          username = u.username;
          role = u.role;
          expires_at = now + a.duration;
          issued_at = now;
          issuer = "sparkdb";
        }),
      ))

  login-respond :
      (now : ℕ) (req : LoginRequest) (a : Authenticator) (res : LoginResponse)
      → (login s now req a).0 ≡ ok res
      → (u : User) × (respond s now u a ≡ ok res)
  unfolding login check_password
  login-respond now req a res h =
      elim (Result-cases (get_user_by_username req.username a.system_db)) [
        | inl (u, e) ↦ (u, ground arith)
        | inr (e, missing) ↦ absurd (ground arith)
      ]

  -- The token of a login authenticates as the user of that login until it expires, whatever has
  -- become of the stored users meanwhile: also if the user was deleted, locked or given another role.
  pub login_token :
      (law : SignsTokens s) (now later : ℕ) (req : LoginRequest) (a : Authenticator)
      (res : LoginResponse) (db : SystemDb)
      → (login s now req a).0 ≡ ok res
      → later < now + a.duration
      → authenticate_request s later [] (bearer res.token) (with_db db a) ≡ ok res.user
  login_token law now later req a res db h lt =
      let (u, answer) = login-respond now req a res h in
      bearer_request later res.token (with_db db a)
      ∙ respond-token law now later u a (with_db db a) res answer refl lt

  -- The row that stands behind an authenticated user, found and not locked at the time.
  pub record Current (now : ℕ) (db : SystemDb) (u : AuthUser) : Type 0 where
    pub row : User
    pub found : get_user u.id db ≡ ok row
    pub unlocked : is_user_locked now row ≡ false
    pub username : u.username ≡ row.username
    pub role : u.role ≡ row.role

  unless_locked_lem :
      (now : ℕ) (auth_type : String) (w : User) (u : AuthUser)
      → unless_locked s now auth_type w ≡ ok u
      → (u ≡ auth_user auth_type w) × (is_user_locked now w ≡ false)
  unless_locked_lem now auth_type w u h = ground arith

  api_key-Current :
      (now : ℕ) (key : Text) (a : Authenticator) (u : AuthUser)
      → authenticate_api_key s now key a ≡ ok u
      → Current now a.system_db u
  unfolding authenticate_api_key
  api_key-Current now key a u h =
      elim (Result-cases (find_user_by_api_key now (s.sha256_hex key) a.system_db)) [
        | inl (w, e) ↦
            let (v, found, same) =
              find_user_by_api_key_sound now (s.sha256_hex key) a.system_db w e in
            let (is_w, free) = unless_locked_lem now "apikey" w u (ground arith) in
            record {
              row = v;
              found = ground arith;
              unlocked = ground arith;
              username = ground arith;
              role = ground arith;
            }
        | inr (e, missing) ↦ absurd (ground arith)
      ]

  session-Current :
      (now : ℕ) (token : Text) (a : Authenticator) (u : AuthUser)
      → authenticate_session s now token a ≡ ok u
      → Current now a.system_db u
  unfolding authenticate_session
  session-Current now token a u h =
      elim (Result-cases (validate_session now (s.sha256_hex token) a.system_db)) [
        | inl (id, valid) ↦ elim (Result-cases (get_user id a.system_db)) [
          | inl (w, e) ↦
              let same = get_user-id id a.system_db w e in
              let (is_w, free) = unless_locked_lem now "session" w u (ground arith) in
              record {
                row = w;
                found = ground arith;
                unlocked = free;
                username = ground arith;
                role = ground arith;
              }
          | inr (e, missing) ↦ absurd (ground arith)
        ]
        | inr (e, invalid) ↦ absurd (ground arith)
      ]

  jwt-type :
      (now : ℕ) (token : Text) (a : Authenticator) (u : AuthUser)
      → authenticate_jwt s now token a ≡ ok u
      → u.auth_type ≡ "jwt"
  unfolding authenticate_jwt
  jwt-type now token a u h = ground arith

  header-Current :
      (now : ℕ) (parts : Option (Text × Text)) (a : Authenticator) (u : AuthUser)
      → authenticate_header s now a parts ≡ ok u
      → u.auth_type ≢ "jwt"
      → Current now a.system_db u
  header-Current now none a u h ne = cc
  header-Current now (some (scheme, token)) a u h ne =
      elim (Bool-cases (text_eq (to_lower scheme) (codes "bearer"))) [
        | inl e ↦ absurd (ne (jwt-type now token a u (rw e at h)))
        | inr e ↦ elim (Bool-cases (text_eq (to_lower scheme) (codes "session"))) [
          | inl k ↦ session-Current now token a u (rw (e, k) at h)
          | inr k ↦ let absent : err _ ≡ ok u = rw (e, k) at h in cc
        ]
      ]

  -- Whoever is authenticated by an API key or a session, and not by a bearer token, is a stored user
  -- at that time, with the stored name and role, whose account is not locked.
  pub authenticate_request-Current :
      (now : ℕ) (api_key auth_header : Text) (a : Authenticator) (u : AuthUser)
      → authenticate_request s now api_key auth_header a ≡ ok u
      → u.auth_type ≢ "jwt"
      → Current now a.system_db u
  unfolding authenticate_request
  authenticate_request-Current now api_key auth_header a u h ne =
      elim (Bool-cases (is_empty api_key)) [
        | inl missing ↦ elim (Bool-cases (is_empty auth_header)) [
          | inl none_given ↦ absurd (ground arith)
          | inr given ↦ header-Current now (split_2 b' ' auth_header) a u (ground arith) ne
        ]
        | inr given ↦ api_key-Current now api_key a u (ground arith)
      ]
