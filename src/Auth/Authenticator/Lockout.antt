-- ===== src/Auth/Authenticator/Lockout.antt =====
-- Repeated failed logins of one name lock it out.
use spark_db.Prelude.{ℕ, ◌+◌, ◌≤◌, String, ◌≡◌, true, List, [], ◌∷◌, some, All}
use spark_db.Text.{Text}
use spark_db.Database.System.{SystemDb}
use spark_db.Database.System.Users.{get_user_by_username}
use spark_db.Auth.LoginLimiter.{LoginRateLimiter, is_locked, record_fail}
use spark_db.Auth.LoginLimiter.Lockout.{attempt}
use spark_db.Auth.Authenticator.{Services, Authenticator, LoginRequest, lock_key, login}
use spark_db.Auth.Authenticator.Login.{refused}

-- A failure after the check of the lock: the count goes up by one, and nothing else changes.
module _ (t : ℕ) (key : String) (l : LoginRateLimiter) where
  abbrev after : LoginRateLimiter
  after = record_fail t key (is_locked t key l).0

-- A failed login: when, and with which password.
pub record Try : Type 0 where
  pub time : ℕ
  pub password : Text

module _ (s : Services) (name : String) where
  abbrev pub request : Text → LoginRequest
  request password = record { username = name; password = password }

  -- The logins of `name` in turn.
  unfoldable pub tries : List Try → Authenticator → Authenticator
  tries [] a = a
  tries (t ∷ ts) a = tries ts (login s t.time (request t.password) a).1

  -- Every one of them is refused by the users that are stored now.
  abbrev pub AllRefused : SystemDb → List Try → Type 0
  AllRefused db = All (λ t. refused s t.time t.password (get_user_by_username name db) ≡ true)

  abbrev pub AllWithin : ℕ → ℕ → List Try → Type 0
  AllWithin first lockout = All (λ t. t.time ≤ first + lockout)

  -- `n` failures since `first`, and the rest of the authenticator as in `b`.
  record Failures (n first : ℕ) (b a : Authenticator) : Type 0 where
    at : attempt (lock_key name) a.login_limiter ≡ some (record { count = n; first_fail = first })
    same_lockout : a.login_limiter.lockout ≡ b.login_limiter.lockout
    same_limit : a.login_limiter.limit ≡ b.login_limiter.limit
    same_users : a.system_db ≡ b.system_db
