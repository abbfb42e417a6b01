-- ===== src/Server/RateLimit.antt =====
-- internal/server/middleware.go: rateLimitMiddleware. `user` is the user of the request's context;
-- both limiters read the clock as `now`.
pub mod Windows
mod Tests
use spark_db.Prelude.{ℕ, String, Bool, true, false, Option, none, some, if◌then◌else◌}
use spark_db.Query.RateLimiter.{RateLimiter, allow}
use spark_db.Auth.Authenticator.{AuthUser}

pub record Limiters : Type 0 where
  pub user_limiter : RateLimiter
  pub ip_limiter : RateLimiter

abbrev pub limit_key : String → Option AuthUser → String
limit_key address none = address
limit_key address (some u) = u.username

-- whether the request is passed on; a refusal by the address leaves the user's limiter alone
unfoldable pub rate_limit : ℕ → String → Option AuthUser → Limiters → Bool × Limiters
rate_limit now address user l =
    let (ip, by_address) = allow now address l.ip_limiter in
    let (users, by_user) = allow now (limit_key address user) l.user_limiter in
    if by_address
    then (by_user, record { user_limiter = users; ip_limiter = ip })
    else (false, record l { ip_limiter = ip })
