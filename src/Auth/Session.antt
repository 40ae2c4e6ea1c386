-- ===== src/Auth/Session.antt =====
-- auth/session.py: `SessionStore`, a dictionary, and `SqliteSessionStore`, a table whose primary key is
-- the session id. Time is handed to each operation, and so is the id that `uuid4` makes. A table is its
-- rows in the order of their insertion; a statement does to them what SQL says it does.
pub mod Memory
pub mod Sqlite
pub mod Refine
pub mod Invariant
use future_bi.Base.{
  ℕ, ◌+◌, ◌-◌, String, Bool, true, false, not, Option, none, some, List, [], ◌∷◌, ◌++◌, map, keep,
  length, leb, str_eq, if◌then◌else◌, is_some,
}
use future_bi.Base.Dict.{Dict, lookup, insert, remove}

pub record Session : Type 0 where
  pub session_id : String
  pub username : String
  pub principal : String
  pub created_at : ℕ
  pub expires_at : ℕ

-- `Session.expired`
abbrev pub is_expired : ℕ → Session → Bool
is_expired now s = leb s.expires_at now

-- the session that `create` makes; `ttl_seconds` falls back to the store's
unfoldable pub make_session : String → String → String → ℕ → ℕ → Option ℕ → Session
make_session id username principal now ttl ttl_seconds = record {
  session_id = id;
  username = username;
  principal = principal;
  created_at = now;
  expires_at = now + elim ttl_seconds [ none ↦ ttl | some t ↦ t ];
}
