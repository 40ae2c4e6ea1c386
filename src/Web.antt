-- ===== src/Web.antt =====
-- web/: the background tasks.
pub mod Tasks
