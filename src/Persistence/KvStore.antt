-- ===== src/Persistence/KvStore.antt =====
-- persistence/kvstore.py, `SqliteKVStore`: a table of values with the time of their last write. A
-- statement does to the rows what SQL says it does, and the lock makes an operation one step. Values go
-- in and out as they are: the JSON coding is the caller's.
use future_bi.Base.{
  ℕ, zero, suc, ◌+◌, ◌-◌, ◌≡◌, String, Bool, false, ◌&&◌, ◌||◌, Option, none, some, List, [], ◌∷◌,
  arith, all, length, leb, ltb, ◌==◌, if◌then◌else◌, is_some,
}
use future_bi.Base.Text.{codes}
use future_bi.Base.Dict.{Dict, lookup, insert, remove, lookup-insert_self}

abbrev pub Kv : Type 0 → Type 0
Kv V = Dict (V × ℕ)

is_start : ℕ → Bool
is_start c = (leb 65 c && leb c 90) || (leb 97 c && leb c 122) || (c == 95)

is_part : ℕ → Bool
is_part c = is_start c || (leb 48 c && leb c 57)

table_codes : List ℕ → Bool
table_codes [] = false
table_codes (c ∷ l) = is_start c && all is_part l

-- `_TABLE_NAME_RE.fullmatch`
unfoldable pub is_table_name : String → Bool
unfolding is_start is_part table_codes
is_table_name s = table_codes (codes s)

pub data OpenFault : Type 0 where
  bad_table bad_timeout wal_refused wal_exhausted : OpenFault

-- what one attempt to switch the journal meets
pub data Attempt : Type 0 where
  switched locked broken : Attempt

-- `_enable_wal`: at most 20 attempts; `answers` says what each of them meets
wal_rounds : ℕ → (ℕ → Attempt) → ℕ → Option OpenFault
wal_rounds zero answers n = some wal_exhausted
wal_rounds (suc left) answers n = elim (answers n) [
  | switched ↦ none
  | broken ↦ some wal_refused
  | locked ↦ wal_rounds left answers (n + 1)
]

-- the fault of the switch, if any; `is_wal` says that the journal is in that mode already
unfoldable pub enable_wal : Bool → (ℕ → Attempt) → Option OpenFault
unfolding wal_rounds
enable_wal is_wal answers = if is_wal then none else wal_rounds 20 answers 0

-- `__init__`: the checks of its arguments and the switch
unfoldable pub open_fault : String → ℕ → Bool → (ℕ → Attempt) → Option OpenFault
open_fault table timeout_ms is_wal answers =
    if is_table_name table
    then if (timeout_ms == 1000) || (timeout_ms == 3000) || (timeout_ms == 5000)
      then enable_wal is_wal answers
      else some bad_timeout
    else some bad_table

-- `time.time() - updated_at > ttl_seconds`
abbrev pub is_old : Option ℕ → ℕ → ℕ → Bool
is_old none now at = false
is_old (some ttl) now at = ltb ttl (now - at)

module _ {V : Type 0} where
  unfoldable pub get : Kv V → ℕ → String → Option ℕ → Kv V × Option V
  get kv now key ttl = elim (lookup key kv) [
    | none ↦ (kv, none)
    | some (v, at) ↦ if is_old ttl now at then (remove key kv, none) else (kv, some v)
  ]

  unfoldable pub set : Kv V → ℕ → String → V → Kv V
  set kv now key v = insert key (v, now) kv

  unfoldable pub delete : Kv V → String → Kv V × Bool
  delete kv key = (remove key kv, is_some (lookup key kv))

  unfoldable pub clear : Kv V → Kv V × ℕ
  clear kv = ([], length kv)

  -- A value is there until its TTL has passed, and never after.
  pub get-set :
      (kv : Kv V) (now later : ℕ) (key : String) (v : V) (ttl : Option ℕ)
      → (get (set kv now key v) later key ttl).1 ≡ (if is_old ttl later now then none else some v)
  unfolding get set
  get-set kv now later key v ttl = ground (arith, lookup-insert_self key (v, now) kv)
