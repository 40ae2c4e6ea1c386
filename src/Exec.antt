-- ===== src/Exec.antt =====
-- exec/: the result cache, the connection pool and the guarded execution of SQL.
pub mod QueryCache
pub mod Pool
pub mod SqlText
pub mod Audit
pub mod Guards
