-- ===== src/Exec/QueryCache.antt =====
-- exec/query_cache.py, `QueryCache`: a result cache with a TTL and least-recently-used eviction.
-- Time is a number of clock ticks, handed to each operation; the lock makes an operation one step.
pub mod Evict
pub mod Lru
use future_bi.Base.{
  ℕ, ◌-◌, ◌≤◌, ◌<◌, max, String, Bool, Option, none, some, List, [], ◌∷◌, ltb, if◌then◌else◌,
  length,
}
use future_bi.Base.Dict.{Dict, lookup, insert, remove, move_to_end, IsDistinct}

-- `(columns, rows, scan_rows)`, over a type of cell values
pub record Payload (Cell : Type 0) : Type 0 where
  pub columns : List String
  pub rows : List (List Cell)
  pub scan_rows : ℕ

pub record QueryCache (Cell : Type 0) : Type 0 where
  pub max_entries : ℕ
  pub ttl : ℕ
  pub store : Dict (ℕ × Payload Cell)

-- `while len(self._store) > self._max_entries: self._store.popitem(last=False)`
unfoldable pub evict {ℓ} : {A : Type ℓ} → ℕ → List A → List A
evict bound [] = []
evict bound (e ∷ d) = let rest = evict bound d in if ltb bound (length (e ∷ d)) then rest else e ∷ d

module _ {Cell : Type 0} where
  -- `__init__`: the capacity is at least 1
  unfoldable pub init : ℕ → ℕ → QueryCache Cell
  init max_entries ttl_seconds = record {
    max_entries = max 1 max_entries;
    ttl = ttl_seconds;
    store = [];
  }

  -- `time.monotonic() - stored_at > self._ttl`
  abbrev pub is_stale : QueryCache Cell → ℕ → ℕ → Bool
  is_stale c now stored_at = ltb c.ttl (now - stored_at)

  get_item :
      QueryCache Cell
      → ℕ
      → String
      → Option (ℕ × Payload Cell)
      → QueryCache Cell × Option (Payload Cell)
  get_item c now key none = (c, none)
  get_item c now key (some (stored_at, payload)) =
      if is_stale c now stored_at
      then (record c { store = remove key c.store }, none)
      else (record c { store = move_to_end key c.store }, some payload)

  unfoldable pub get : QueryCache Cell → ℕ → String → QueryCache Cell × Option (Payload Cell)
  unfolding get_item
  get c now key = get_item c now key (lookup key c.store)

  unfoldable pub put : QueryCache Cell → ℕ → String → Payload Cell → QueryCache Cell
  put c now key payload = record c {
    store = evict c.max_entries (move_to_end key (insert key (now, payload) c.store));
  }

  -- `clear`: the emptied cache, and how many entries it held
  unfoldable pub clear : QueryCache Cell → QueryCache Cell × ℕ
  clear c = (record c { store = [] }, length c.store)

  pub record IsValid (c : QueryCache Cell) : Type 0 where
    pub positive : 0 < c.max_entries
    pub bounded : length c.store ≤ c.max_entries
    pub distinct : IsDistinct c.store
