-- ===== src/Query/RateLimiter/Tests.antt =====
-- The properties of the rate limiter at a concrete sequence of calls, and tests.
use spark_db.Prelude.{ℕ, String, ◌≡◌, refl, true, false, List, [], ◌∷◌, arith, lookup, insert}
use spark_db.Query.RateLimiter.{new_rate_limiter, allow}
use spark_db.Query.RateLimiter.History.{Call, answers, spec_answers, answers_refine}

abbrev call : ℕ → String → Call
call t k = record { time = t; key = k }

-- two calls in ten units
abbrev calls : List Call
calls = call 1 "a" ∷ call 2 "b" ∷ call 3 "a" ∷ call 5 "a" ∷ call 11 "a" ∷ call 12 "a" ∷ []

answers_run : answers (new_rate_limiter 2 10) calls ≡ true ∷ true ∷ true ∷ false ∷ true ∷ false ∷ []
unfolding answers allow new_rate_limiter lookup insert
answers_run = refl

answers_refine_example : answers (new_rate_limiter 2 10) calls ≡ spec_answers 2 10 [] calls
answers_refine_example = answers_refine 2 10 calls (omega arith)
