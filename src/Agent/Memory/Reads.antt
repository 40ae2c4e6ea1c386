-- ===== src/Agent/Memory/Reads.antt =====
-- Reads of a conversation after it was updated, in the same process and in the next.
use future_bi.Base.{
  ℕ, ◌-◌, ◌<◌, String, ◌≡◌, refl, ap, ◌∙◌, inl, inr, Option, none, some, [], ◌∷◌, arith, length,
  ltb, eq_iff, Bool-cases, Option-cases, if◌then◌else◌,
}
use future_bi.Base.Dict.{
  Dict, lookup, insert, remove, push_end, move_to_end, IsDistinct, lookup-remove_self,
  lookup-insert_self,
}
use future_bi.Exec.QueryCache.Evict.{lookup-evict_end}
use future_bi.Persistence.KvStore.{Kv}
use future_bi.Persistence.KvStore as Kv
use future_bi.Agent.Memory.Bounds.{write-items, existing-same}
use future_bi.Agent.Memory.{
  SessionState, SessionStore, owner_of, get, update, load, restore, recall, existing, claim, evict,
  write, persist, delete_persisted, is_expired, stamped, restart,
}

module _ {M D E : Type 0} where
  lookup-write :
      (s : SessionStore M D E) (now : ℕ) (st : SessionState M D E)
      → IsDistinct s.items
      → 0 < s.max_sessions
      → lookup st.session_id (write s now st).items ≡ some st
  lookup-write s now st distinct pos = rw (write-items s now st) (
      lookup-evict_end s.max_sessions st.session_id st (remove st.session_id s.items) pos
        (lookup-remove_self st.session_id s.items distinct))

  write-ttl :
      (s : SessionStore M D E) (now : ℕ) (st : SessionState M D E) → (write s now st).ttl ≡ s.ttl
  unfolding write persist
  write-ttl s now st = ground arith

  get-found :
      (s : SessionStore M D E) (later : ℕ) (id : String) (user : Option String)
      (st : SessionState M D E)
      → lookup id s.items ≡ some st
      → st.user_id ≡ owner_of user
      → (get s later id user).1 ≡ (if is_expired s later st then none else some st)
  unfolding get recall
  get-found s later id user st there own =
      rw (there, get) (ground (arith, eq_iff st.user_id (owner_of user)))

  -- the database after an eviction
  evict-kv :
      (n : ℕ) (d : Dict (SessionState M D E)) (kv : Kv (SessionState M D E))
      → (kv' : Kv (SessionState M D E)) × ((evict n d (some kv)).1 ≡ some kv')
  unfolding evict delete_persisted
  evict-kv n [] kv = (kv, refl)
  evict-kv n (e ∷ d) kv = elim (Bool-cases (ltb n (length (e ∷ d)))) [
    | inl over ↦ rw over (evict-kv n d _)
    | inr fits ↦ rw fits (kv, refl)
  ]

  write-kv :
      (s : SessionStore M D E) (now : ℕ) (st : SessionState M D E) (kv : Kv (SessionState M D E))
      → s.kv ≡ some kv
      → (kv' : Kv (SessionState M D E)) × ((write s now st).kv
          ≡ some (Kv.set kv' now st.session_id st))
  unfolding write persist
  write-kv s now st kv there =
      let d = push_end st.session_id st s.items in
      let (kv', left) =
        evict-kv s.max_sessions (move_to_end st.session_id (insert st.session_id st s.items)) kv in
      (kv', rw there (rw left refl))

  existing-kv :
      (s : SessionStore M D E) (now : ℕ) (id : String) (kv : Kv (SessionState M D E))
      → s.kv ≡ some kv
      → (kv' : Kv (SessionState M D E)) × ((existing s now id).0.kv ≡ some kv')
  unfolding existing load
  existing-kv s now id kv there = elim (Option-cases (lookup id s.items)) [
    | inl missing ↦ ((Kv.get kv now id (some s.ttl)).0, rw (missing, existing) (ground arith))
    | inr (st, found) ↦ (kv, rw (found, existing) there)
  ]

  get-restart_kv :
      (s : SessionStore M D E) (now later : ℕ) (user : Option String) (st : SessionState M D E)
      (kv : Kv (SessionState M D E))
      → s.kv ≡ some (Kv.set kv now st.session_id st)
      → st.user_id ≡ owner_of user
      → st.updated_at ≡ now
      → (get (restart s) later st.session_id user).1
        ≡ (if ltb s.ttl (later - now) then none else some st)
  unfolding get restart restore load Kv.get Kv.set lookup
  get-restart_kv s now later user st kv there own made =
      ground
        (arith, lookup-insert_self st.session_id (st, now) kv, eq_iff st.user_id (owner_of user))

  claim-accepted :
      (s : SessionStore M D E) (now : ℕ) (id owner : String) (st : SessionState M D E)
      (old : Option (SessionState M D E))
      → (claim s now id owner st old).1.user_id ≡ owner
      → claim s now id owner st old
        ≡ (write s now (stamped s now id owner st), stamped s now id owner st)
  unfolding claim
  claim-accepted s now id owner st none own = refl
  claim-accepted s now id owner st (some old) own = ground (arith, eq_iff old.user_id owner)

  -- A conversation that was updated, and not refused as another user's, is read back until the TTL has
  -- passed, and never after.
  pub get-update :
      (s : SessionStore M D E) (now later : ℕ) (id : String) (user : Option String)
      (st : SessionState M D E)
      → IsDistinct s.items
      → 0 < s.max_sessions
      → (update s now id user st).1.user_id ≡ owner_of user
      → (get (update s now id user st).0 later id user).1
        ≡ (if ltb s.ttl (later - now) then none else some (update s now id user st).1)
  unfolding update stamped
  get-update s now later id user st distinct pos own =
      let s' = (existing s now id).0 in
      let (items, bound, ttl) = existing-same s now id in
      let accepted = claim-accepted s' now id (owner_of user) st (existing s now id).1 own in
      let mine = stamped s' now id (owner_of user) st in
      let there = lookup-write s' now mine (rw items distinct) (rw bound pos) in
      let found = get-found (write s' now mine) later id user mine there refl in
      rw accepted (
        found
        ∙ ap (λ (t : ℕ). if ltb t (later - now) then none else some mine)
            (write-ttl s' now mine ∙ ttl))

  -- Where there is a database, a conversation that was updated, and not refused as another user's, is read
  -- back in a new process over it until the TTL has passed, and never after.
  pub get-restart :
      (s : SessionStore M D E) (now later : ℕ) (id : String) (user : Option String)
      (st : SessionState M D E) (kv : Kv (SessionState M D E))
      → s.kv ≡ some kv
      → (update s now id user st).1.user_id ≡ owner_of user
      → (get (restart (update s now id user st).0) later id user).1
        ≡ (if ltb s.ttl (later - now) then none else some (update s now id user st).1)
  unfolding update stamped
  get-restart s now later id user st kv there own =
      let s' = (existing s now id).0 in
      let (items, bound, ttl) = existing-same s now id in
      let accepted = claim-accepted s' now id (owner_of user) st (existing s now id).1 own in
      let mine = stamped s' now id (owner_of user) st in
      let (kv1, there1) = existing-kv s now id kv there in
      let (kv2, there2) = write-kv s' now mine kv1 there1 in
      let found = get-restart_kv (write s' now mine) now later user mine kv2 there2 refl refl in
      rw accepted (
        found
        ∙ ap (λ (t : ℕ). if ltb t (later - now) then none else some mine)
            (write-ttl s' now mine ∙ ttl))
