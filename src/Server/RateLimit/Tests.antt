-- ===== src/Server/RateLimit/Tests.antt =====
-- The property of the rate limit at concrete requests, and tests.
use spark_db.Prelude.{◌≡◌, ◌≤◌, refl, ℕ, arith, true, false, [], ◌∷◌, none, lookup, insert, remove}
use spark_db.Query.RateLimiter.{RateLimiter, new_rate_limiter, allow, entries}
use spark_db.Query.RateLimiter.Window.{kept, load}
use spark_db.Server.RateLimit.{rate_limit}
use spark_db.Server.RateLimit.Windows.{Visit, passes, calls, rate_limit_window}

abbrev users : RateLimiter
users = record { attempts = []; limit = 9; window = 60 }

abbrev at_time : ℕ → Visit
at_time t = record { time = t; address = "10.0.0.1:80"; user = none }

rate_limit_window_example :
    load 5 60 "10.0.0.1:80" (
      kept
        (passes
          (record { user_limiter = users; ip_limiter = new_rate_limiter 2 60 })
          (at_time 5 ∷ at_time 6 ∷ at_time 7 ∷ []))
        (calls (at_time 5 ∷ at_time 6 ∷ at_time 7 ∷ [])))
    ≤ 2
rate_limit_window_example =
    rate_limit_window 2 60 users (at_time 5 ∷ at_time 6 ∷ at_time 7 ∷ []) "10.0.0.1:80" 5
      (omega arith, (omega arith, (omega arith, tt)))

third_waits :
    passes
      (record { user_limiter = users; ip_limiter = new_rate_limiter 2 60 })
      (at_time 5 ∷ at_time 6 ∷ at_time 7 ∷ at_time 65 ∷ [])
    ≡ true ∷ true ∷ false ∷ true ∷ []
unfolding passes rate_limit allow entries new_rate_limiter lookup insert remove
third_waits = refl
