-- ===== src/Query.antt =====
-- internal/query: the statement validator and the request rate limiter.
pub mod Validator
pub mod RateLimiter
