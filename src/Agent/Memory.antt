-- ===== src/Agent/Memory.antt =====
-- agent/memory.py, `SessionStore`: the memory of conversations, in the process and, when a database is
-- configured, in a key-value store. Messages are a type `M`, queries a type `D`, active entities a type
-- `E`; what is persisted comes back as it was. Time is handed to each operation.
pub mod Isolation
pub mod Bounds
pub mod Reads
pub mod Filters
pub mod Inherit
use future_bi.Base.{
  ℕ, ◌*◌, ◌-◌, String, Bool, true, false, Option, none, some, List, [], ◌∷◌, map, keep, drop,
  length, ltb, ◌==◌, str_eq, if◌then◌else◌,
}
use future_bi.Base.Dict.{Dict, lookup, insert, remove, move_to_end}
use future_bi.Persistence.KvStore.{Kv}
use future_bi.Persistence.KvStore as Kv

pub record SessionState (M D E : Type 0) : Type 0 where
  pub session_id : String
  pub user_id : String
  pub updated_at : ℕ
  pub history : List M
  pub last_dsl : Option D
  pub active_entities : E

pub record SessionStore (M D E : Type 0) : Type 0 where
  pub ttl : ℕ
  pub max_sessions : ℕ
  pub history_turns : ℕ
  pub items : Dict (SessionState M D E)
  pub kv : Option (Kv (SessionState M D E))

-- `user_id or _ANONYMOUS`
unfoldable pub owner_of : Option String → String
owner_of none = "anonymous"
owner_of (some u) = if str_eq u "" then "anonymous" else u

-- `l[-n:]`, which is all of `l` at 0
unfoldable pub last_items {ℓ} : {A : Type ℓ} → ℕ → List A → List A
last_items n l = if n == 0 then l else drop (length l - n) l

module _ {M D E : Type 0} where
  unfoldable pub persist : SessionStore M D E → ℕ → SessionState M D E → SessionStore M D E
  persist s now state = elim s.kv [
    | none ↦ s
    | some kv ↦ record s { kv = some (Kv.set kv now state.session_id state) }
  ]

  unfoldable pub load :
      SessionStore M D E → ℕ → String → SessionStore M D E × Option (SessionState M D E)
  load s now id = elim s.kv [
    | none ↦ (s, none)
    | some kv ↦
        let (kv', found) = Kv.get kv now id (some s.ttl) in (record s { kv = some kv' }, found)
  ]

  -- `_delete_persisted`, on the store's database
  unfoldable pub delete_persisted :
      Option (Kv (SessionState M D E)) → String → Option (Kv (SessionState M D E))
  delete_persisted none id = none
  delete_persisted (some kv) id = some (Kv.delete kv id).0

  -- `time.time() - state.updated_at.timestamp() > self._ttl`
  abbrev pub is_expired : SessionStore M D E → ℕ → SessionState M D E → Bool
  is_expired s now state = ltb s.ttl (now - state.updated_at)

  -- `get`, for a session that is not in memory
  unfoldable pub restore :
      SessionStore M D E
      → ℕ
      → String
      → String
      → Option (SessionState M D E)
      → SessionStore M D E × Option (SessionState M D E)
  restore s now id owner none = (s, none)
  restore s now id owner (some state) =
      if str_eq state.user_id owner
      then if is_expired s now state
        then (record s { kv = delete_persisted s.kv id }, none)
        else (record s { items = move_to_end id (insert id state s.items) }, some state)
      else (s, none)

  -- `get`, for a session in memory
  unfoldable pub recall :
      SessionStore M D E
      → ℕ
      → String
      → String
      → SessionState M D E
      → SessionStore M D E × Option (SessionState M D E)
  recall s now id owner state =
      if str_eq state.user_id owner
      then if is_expired s now state
        then (record s { items = remove id s.items; kv = delete_persisted s.kv id }, none)
        else (record s { items = move_to_end id s.items }, some state)
      else (s, none)

  unfoldable pub get :
      SessionStore M D E
      → ℕ
      → String
      → Option String
      → SessionStore M D E × Option (SessionState M D E)
  get s now id user = elim (lookup id s.items) [
    | some state ↦ recall s now id (owner_of user) state
    | none ↦ let (s', found) = load s now id in restore s' now id (owner_of user) found
  ]

  -- the first locked block of `update`: the session that is there already
  unfoldable pub existing :
      SessionStore M D E → ℕ → String → SessionStore M D E × Option (SessionState M D E)
  existing s now id = elim (lookup id s.items) [
    | some state ↦ (s, some state)
    | none ↦ load s now id
  ]

  -- the eviction loop, which deletes what it evicts from the database too
  unfoldable pub evict :
      ℕ
      → Dict (SessionState M D E)
      → Option (Kv (SessionState M D E))
      → Dict (SessionState M D E) × Option (Kv (SessionState M D E))
  evict bound [] kv = ([], kv)
  evict bound (e ∷ d) kv =
      let rest = evict bound d (delete_persisted kv e.1.session_id) in
      if ltb bound (length (e ∷ d)) then rest else (e ∷ d, kv)

  -- the state as `update` stores it
  unfoldable pub stamped :
      SessionStore M D E → ℕ → String → String → SessionState M D E → SessionState M D E
  stamped s now id owner state = record state {
    session_id = id;
    user_id = owner;
    updated_at = now;
    history =
        if ltb (s.history_turns * 2) (length state.history)
        then last_items (s.history_turns * 2) state.history
        else state.history;
  }

  -- the second locked block of `update`, and the write to the database after it
  unfoldable pub write : SessionStore M D E → ℕ → SessionState M D E → SessionStore M D E
  write s now state =
      let (items, kv) =
        evict s.max_sessions (move_to_end state.session_id (insert state.session_id state s.items))
          s.kv in
      persist (record s { items = items; kv = kv }) now state

  unfoldable pub claim :
      SessionStore M D E
      → ℕ
      → String
      → String
      → SessionState M D E
      → Option (SessionState M D E)
      → SessionStore M D E × SessionState M D E
  claim s now id owner state none =
      (write s now (stamped s now id owner state), stamped s now id owner state)
  claim s now id owner state (some old) =
      if str_eq old.user_id owner
      then (write s now (stamped s now id owner state), stamped s now id owner state)
      else (s, old)

  -- `update`, with no other thread between its two locked blocks
  unfoldable pub update :
      SessionStore M D E
      → ℕ
      → String
      → Option String
      → SessionState M D E
      → SessionStore M D E × SessionState M D E
  update s now id user state =
      let (s', old) = existing s now id in claim s' now id (owner_of user) state old

  unfoldable pub clear : SessionStore M D E → String → Option String → SessionStore M D E × Bool
  clear s id user = elim (lookup id s.items) [
    | none ↦ (s, false)
    | some state ↦
        if str_eq state.user_id (owner_of user)
        then (record s { items = remove id s.items; kv = delete_persisted s.kv id }, true)
        else (s, false)
  ]

  unfoldable pub drop_all : List String → SessionStore M D E → SessionStore M D E
  drop_all [] s = s
  drop_all (id ∷ ids) s =
      drop_all ids (record s { items = remove id s.items; kv = delete_persisted s.kv id })

  unfoldable pub prune : SessionStore M D E → ℕ → SessionStore M D E × ℕ
  prune s now =
      let expired : List String = map (λ e. e.0) (keep (λ e. is_expired s now e.1) s.items) in
      (drop_all expired s, length expired)

  unfoldable pub clear_all : SessionStore M D E → SessionStore M D E × ℕ
  clear_all s = (record s { items = [] }, length s.items)

  -- a new process over the same database
  unfoldable pub restart : SessionStore M D E → SessionStore M D E
  restart s = record s { items = [] }
