-- ===== src/Auth/Authenticator/Login.antt =====
-- Logging in: whom it admits, and when it refuses everybody.
use spark_db.Prelude.{
  ℕ, ◌≡◌, Bool, true, false, ◌&&◌, not, arith, Result, ok, err, errorf, Result-cases, inl, inr,
}
use spark_db.Text.{Text}
use spark_db.Database.System.{User}
use spark_db.Database.System.Users.{get_user_by_username}
use spark_db.Auth.LoginLimiter.{is_locked, record_fail}
use spark_db.Auth.Authenticator.{
  Services, Authenticator, LoginRequest, LoginResponse, auth_user, is_user_locked, verified,
  lock_key, check_password, respond, login,
}

abbrev pub invalid_credentials : Result LoginResponse
invalid_credentials = err (errorf "invalid credentials")

abbrev pub too_many_attempts : Result LoginResponse
too_many_attempts = err (errorf "account temporarily locked due to too many failed attempts")

module _ (s : Services) where
  -- The name is unknown, or its account is not locked and the password is wrong.
  abbrev pub refused : ℕ → Text → Result User → Bool
  refused now password (err e) = true
  refused now password (ok u) =
      not (is_user_locked now u) && not (verified (s.verify_password password u.password_hash))

  -- What a successful login says of the stored user `u`.
  pub record Admitted (now : ℕ) (req : LoginRequest) (a : Authenticator) (res : LoginResponse)
      : Type 0 where
    pub row : User
    pub found : get_user_by_username req.username a.system_db ≡ ok row
    pub unlocked : is_user_locked now row ≡ false
    pub right : verified (s.verify_password req.password row.password_hash) ≡ true
    pub below_limit : (is_locked now (lock_key req.username) a.login_limiter).1 ≡ false
    pub user : res.user ≡ auth_user "jwt" row
    pub change : res.password_change_required ≡ row.password_change_required

  respond_lem :
      (now : ℕ) (u : User) (a : Authenticator) (res : LoginResponse)
      → respond s now u a ≡ ok res
      → (res.user ≡ auth_user "jwt" u) × (res.password_change_required ≡ u.password_change_required)
  unfolding respond
  respond_lem now u a res h = ground arith

  -- A login succeeds only for a stored user whose password verifies, who is not locked by the
  -- administrator or by failed attempts, and answers with that user's data.
  pub login_sound :
      (now : ℕ) (req : LoginRequest) (a : Authenticator) (res : LoginResponse)
      → (login s now req a).0 ≡ ok res
      → Admitted now req a res
  unfolding login check_password
  login_sound now req a res h =
      elim (Result-cases (get_user_by_username req.username a.system_db)) [
        | inl (u, e) ↦
            let answer : respond s now u a ≡ ok res = ground arith in
            record {
              row = u;
              found = e;
              unlocked = ground arith;
              right = ground arith;
              below_limit = ground arith;
              user = (respond_lem now u a res answer).0;
              change = (respond_lem now u a res answer).1;
            }
        | inr (e, missing) ↦ absurd (ground arith)
      ]

  -- An unknown name and a wrong password cannot be told apart: both get the same answer, and both
  -- count as a failure of the name.
  pub login-refused :
      (now : ℕ) (req : LoginRequest) (a : Authenticator)
      → (is_locked now (lock_key req.username) a.login_limiter).1 ≡ false
      → refused now req.password (get_user_by_username req.username a.system_db) ≡ true
      → login s now req a ≡ (
        invalid_credentials,
        record a {
          login_limiter =
              record_fail now
                (lock_key req.username)
                (is_locked now (lock_key req.username) a.login_limiter).0;
        },
      )
  unfolding login check_password
  login-refused now req a l r = ground arith
