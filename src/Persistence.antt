-- ===== src/Persistence.antt =====
-- persistence/: the key-value store over SQLite.
pub mod KvStore
