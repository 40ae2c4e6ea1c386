-- ===== src/Agent/Memory/Bounds.antt =====
-- How many conversations are kept in memory.
use future_bi.Base.{
  ℕ, ◌+◌, ◌≤◌, String, ◌≡◌, refl, ap, ◌∙◌, inl, inr, Option, none, some, [], ◌∷◌, arith, length,
  length-append, str_eq, Bool-cases,
}
use future_bi.Base.Dict.{
  Dict, lookup, insert, push_end, move_to_end, remove_missing, move_to_end-insert,
}
use future_bi.Exec.QueryCache as QueryCache
use future_bi.Exec.QueryCache.Evict.{length-evict-le}
use future_bi.Persistence.KvStore.{Kv}
use future_bi.Agent.Memory.Isolation.{get-Holds}
use future_bi.Agent.Memory.{
  SessionState, SessionStore, owner_of, get, update, load, restore, existing, claim, evict, write,
  persist, delete_persisted,
}

module _ {M D E : Type 0} where
  -- the entries that stay are those of the query cache's eviction
  pub evict-items :
      (n : ℕ) (d : Dict (SessionState M D E)) (kv : Option (Kv (SessionState M D E)))
      → (evict n d kv).0 ≡ QueryCache.evict n d
  unfolding evict QueryCache.evict
  evict-items n [] kv = refl
  evict-items n (e ∷ d) kv = ground (arith, evict-items n d (delete_persisted kv e.1.session_id))

  persist-items :
      (s : SessionStore M D E) (now : ℕ) (st : SessionState M D E)
      → (persist s now st).items ≡ s.items
  unfolding persist
  persist-items s now st = ground arith

  pub write-items :
      (s : SessionStore M D E) (now : ℕ) (st : SessionState M D E)
      → (write s now st).items ≡ QueryCache.evict s.max_sessions (push_end st.session_id st s.items)
  unfolding write
  write-items s now st =
      let d = move_to_end st.session_id (insert st.session_id st s.items) in
      persist-items _ now st
      ∙ (evict-items s.max_sessions d s.kv
          ∙ ap (QueryCache.evict s.max_sessions) (move_to_end-insert st.session_id st s.items))

  pub length-write-le :
      (s : SessionStore M D E) (now : ℕ) (st : SessionState M D E)
      → length (write s now st).items ≤ s.max_sessions
  length-write-le s now st =
      rw (write-items s now st) (length-evict-le s.max_sessions (push_end st.session_id st s.items))

  pub existing-same :
      (s : SessionStore M D E) (now : ℕ) (id : String)
      → ((existing s now id).0.items ≡ s.items)
        × ((existing s now id).0.max_sessions ≡ s.max_sessions)
        × ((existing s now id).0.ttl ≡ s.ttl)
  unfolding existing load
  existing-same s now id = ground arith

  claim-bounded :
      (s : SessionStore M D E) (now : ℕ) (id owner : String) (st : SessionState M D E)
      (old : Option (SessionState M D E))
      → length s.items ≤ s.max_sessions
      → length (claim s now id owner st old).0.items ≤ s.max_sessions
  unfolding claim
  claim-bounded s now id owner st none h = length-write-le s now _
  claim-bounded s now id owner st (some old) h = elim (Bool-cases (str_eq old.user_id owner)) [
    | inl own ↦ rw own (length-write-le s now _)
    | inr other ↦ rw other h
  ]

  -- An update of a store within its capacity keeps it there.
  pub update-bounded :
      (s : SessionStore M D E) (now : ℕ) (id : String) (user : Option String)
      (st : SessionState M D E)
      → length s.items ≤ s.max_sessions
      → length (update s now id user st).0.items ≤ s.max_sessions
  unfolding update
  update-bounded s now id user st h =
      let (items, bound, _) = existing-same s now id in
      let start : length (existing s now id).0.items ≤ (existing s now id).0.max_sessions =
        rw (items, bound) h in
      omega (
        arith,
        bound,
        claim-bounded (existing s now id).0 now id (owner_of user) st (existing s now id).1 start,
      )

  -- A session that a read brings back from the database comes on top of those in memory: nothing is
  -- evicted for it, whatever the capacity.
  pub length-get_restored :
      (s : SessionStore M D E) (now : ℕ) (id : String) (user : Option String)
      (st : SessionState M D E)
      → lookup id s.items ≡ none
      → (get s now id user).1 ≡ some st
      → length (get s now id user).0.items ≡ length s.items + 1
  unfolding get restore
  length-get_restored s now id user st missing h =
      let v = get-Holds s now id user st h in
      elim v.there [
        | inl there ↦ absurd (ground (arith, missing))
        | inr (_, kept) ↦
            rw (missing, get)
              (rw kept (
                rw (v.owned, v.fresh)
                  (rw move_to_end-insert (
                    rw (remove_missing id s.items missing)
                      (length-append s.items ((id, st) ∷ []))))))
      ]
