-- ===== src/Database.antt =====
-- internal/database: the system database, the open databases and the statement executor.
pub mod System
pub mod Executor
pub mod Manager
