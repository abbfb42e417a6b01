-- ===== src/Auth/LoginLimiter.antt =====
-- internal/auth/password.go, the type `LoginRateLimiter`: failed logins counted for each key, from
-- the first failure on. The clock reading is the argument `now`; `limit` and `lockout` are not
-- negative, as in every call of `NewLoginRateLimiter`.
pub mod Lockout
mod Tests
use spark_db.Prelude.{
  ℕ, ◌+◌, ◌-◌, String, Bool, true, false, [], Option, none, some, ltb, leb, Assoc, lookup, insert,
  remove, if◌then◌else◌,
}

pub record LoginAttempt : Type 0 where
  pub count : ℕ
  pub first_fail : ℕ

pub record LoginRateLimiter : Type 0 where
  pub attempts : Assoc LoginAttempt
  pub limit : ℕ
  pub lockout : ℕ

unfoldable pub new_login_rate_limiter : ℕ → ℕ → LoginRateLimiter
new_login_rate_limiter limit lockout = record { attempts = []; limit = limit; lockout = lockout }

-- `time.Since(a.FirstFail) > l.lockout`
abbrev pub is_over : ℕ → ℕ → LoginAttempt → Bool
is_over lockout now a = ltb lockout (now - a.first_fail)

-- Reading the lock forgets attempts that are over.
unfoldable pub is_locked : ℕ → String → LoginRateLimiter → LoginRateLimiter × Bool
is_locked now key l = elim (lookup key l.attempts) [
  | none ↦ (l, false)
  | some a ↦
      if is_over l.lockout now a
      then (record l { attempts = remove key l.attempts }, false)
      else (l, leb l.limit a.count)
]

abbrev pub first_attempt : ℕ → LoginAttempt
first_attempt now = record { count = 1; first_fail = now }

-- the attempt that `RecordFail` leaves for the key
abbrev pub after_fail : ℕ → ℕ → Option LoginAttempt → LoginAttempt
after_fail lockout now none = first_attempt now
after_fail lockout now (some a) =
    if is_over lockout now a then first_attempt now else record a { count = a.count + 1 }

unfoldable pub record_fail : ℕ → String → LoginRateLimiter → LoginRateLimiter
record_fail now key l = record l {
  attempts = insert key (after_fail l.lockout now (lookup key l.attempts)) l.attempts;
}

unfoldable pub reset : String → LoginRateLimiter → LoginRateLimiter
reset key l = record l { attempts = remove key l.attempts }
