-- ===== src/Auth/LoginLimiter/Tests.antt =====
-- The properties of the login limiter at concrete attempts, and tests.
use spark_db.Prelude.{◌≡◌, refl, true, false, [], ◌∷◌, arith, lookup, insert, none}
use spark_db.Auth.LoginLimiter.{LoginRateLimiter, new_login_rate_limiter, is_locked, record_fail}
use spark_db.Auth.LoginLimiter.Lockout.{attempt, fails, lockout_exact}

abbrev fresh : LoginRateLimiter
fresh = record { attempts = []; limit = 3; lockout = 10 }

fresh_lem : (new_login_rate_limiter 3 10 ≡ fresh) × (attempt "a" fresh ≡ none)
unfolding new_login_rate_limiter lookup
fresh_lem = (refl, refl)

lockout_exact_example : (is_locked 11 "a" (fails (1 ∷ 2 ∷ 3 ∷ []) "a" fresh)).1 ≡ true
lockout_exact_example = lockout_exact 1 11 (2 ∷ 3 ∷ []) "a" fresh fresh_lem.1 (omega arith)

lock_ends : (is_locked 12 "a" (fails (1 ∷ 2 ∷ 3 ∷ []) "a" fresh)).1 ≡ false
unfolding is_locked fails record_fail lookup insert
lock_ends = refl
