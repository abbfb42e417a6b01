-- ===== src/Query/RateLimiter.antt =====
-- internal/query/validator.go, the type `RateLimiter`: a sliding window of accepted calls for each
-- key. The clock reading is the argument `now`; times and durations are numbers of one unit. `limit`
-- and `window` are not negative, as in every call of `NewRateLimiter`.
pub mod Window
pub mod History
mod Tests
use spark_db.Prelude.{
  ℕ, ◌+◌, String, Bool, true, false, List, [], ◌∷◌, ◌++◌, Option, none, some, ltb, leb, length,
  filter, Assoc, lookup, insert, remove, if◌then◌else◌,
}

pub record RateLimiter : Type 0 where
  pub attempts : Assoc (List ℕ)
  pub limit : ℕ
  pub window : ℕ

unfoldable pub new_rate_limiter : ℕ → ℕ → RateLimiter
new_rate_limiter limit window = record { attempts = []; limit = limit; window = window }

-- `t.After(now.Add(-window))`
abbrev pub is_recent : ℕ → ℕ → ℕ → Bool
is_recent window now t = ltb now (t + window)

-- `r.attempts[key]`, nil for a missing key
abbrev pub times : Option (List ℕ) → List ℕ
times none = []
times (some ts) = ts

unfoldable pub entries : String → RateLimiter → List ℕ
entries key r = times (lookup key r.attempts)

unfoldable pub allow : ℕ → String → RateLimiter → RateLimiter × Bool
unfolding entries
allow now key r =
    let valid = filter (is_recent r.window now) (entries key r) in
    if leb r.limit (length valid)
    then (record r { attempts = insert key valid r.attempts }, false)
    else (record r { attempts = insert key (valid ++ now ∷ []) r.attempts }, true)

unfoldable pub reset : String → RateLimiter → RateLimiter
reset key r = record r { attempts = remove key r.attempts }
