-- ===== src/Server.antt =====
-- internal/server: the handlers of requests.
pub mod Queries
pub mod Users
pub mod RateLimit
pub mod Keys
pub mod Maintenance
pub mod Middleware
pub mod Routes
pub mod Startup
pub mod Administration
pub mod Status
