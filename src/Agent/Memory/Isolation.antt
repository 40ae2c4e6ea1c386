-- ===== src/Agent/Memory/Isolation.antt =====
-- Conversations of different users do not meet.
use future_bi.Base.{
  ℕ, String, ◌≡◌, ◌≢◌, ◌⊎◌, refl, ap, ◌∙◌, subst, inl, inr, Option, none, some, arith, str_eq,
  eq_iff, Option-cases, true, false,
}
use future_bi.Base.Dict.{lookup}
use future_bi.Persistence.KvStore.{Kv}
use future_bi.Persistence.KvStore as Kv
use future_bi.Agent.Memory.{
  SessionState, SessionStore, owner_of, get, update, clear, load, restore, recall, existing, claim,
  is_expired,
}

stranger : (u v w : String) → str_eq u v ≡ true → w ≢ v → str_eq u w ≡ false
stranger u v w h other = ground (arith, eq_iff u v, eq_iff u w)

module _ {M D E : Type 0} where
  recall-some :
      (s : SessionStore M D E) (now : ℕ) (id owner : String) (state st : SessionState M D E)
      → (recall s now id owner state).1 ≡ some st
      → (state ≡ st) × (str_eq state.user_id owner ≡ true) × (is_expired s now state ≡ false)
  unfolding recall
  recall-some s now id owner state st h = ground arith

  pub restore-some :
      (s : SessionStore M D E) (now : ℕ) (id owner : String) (found : Option (SessionState M D E))
      (st : SessionState M D E)
      → (restore s now id owner found).1 ≡ some st
      → (found ≡ some st) × (str_eq st.user_id owner ≡ true) × (is_expired s now st ≡ false)
  unfolding restore
  restore-some s now id owner none st h = absurd (ground arith)
  restore-some s now id owner (some state) st h = ground arith

  -- what is loaded stays in the database
  pub load-some :
      (s : SessionStore M D E) (now : ℕ) (id : String) (st : SessionState M D E)
      → (load s now id).1 ≡ some st
      → load s now id ≡ (s, some st)
  unfolding load Kv.get
  load-some s now id st h = ground arith

  -- where a session that can be read stands
  pub record Holds (s : SessionStore M D E) (now : ℕ) (id owner : String) (st : SessionState M D E)
      : Type 0 where
    pub there :
        (lookup id s.items ≡ some st)
        ⊎ ((lookup id s.items ≡ none) × (load s now id ≡ (s, some st)))
    pub owned : str_eq st.user_id owner ≡ true
    pub fresh : is_expired s now st ≡ false

  pub get-Holds :
      (s : SessionStore M D E) (now : ℕ) (id : String) (user : Option String)
      (st : SessionState M D E)
      → (get s now id user).1 ≡ some st
      → Holds s now id (owner_of user) st
  unfolding get
  get-Holds s now id user st h = elim (Option-cases (lookup id s.items)) [
    | inr (state, there) ↦
        let (same, owned, fresh) =
          recall-some s now id (owner_of user) state st (rw (there, get) at h) in
        record { there = inl (there ∙ ap some same); owned = ground arith; fresh = ground arith }
    | inl missing ↦
        let (found, owned, fresh) =
          restore-some (load s now id).0 now id (owner_of user) (load s now id).1 st
            (rw (missing, get) at h) in
        let kept = load-some s now id st found in
        record {
          there = inr (missing, kept);
          owned = owned;
          fresh =
              subst (λ (t : SessionStore M D E). is_expired t now st ≡ false) (ap (λ p. p.0) kept)
                fresh;
        }
  ]

  -- While a user can read a session, what another user reads, writes or clears under its id leaves the
  -- whole store as it was: the other user reads nothing and clears nothing. A write is refused, and its
  -- answer is the state of the owner's session, which the other user so gets to see. That holds with
  -- other threads between the two locked blocks of the write too: the first finds the owner's session, and
  -- whatever the store has become meanwhile, the write leaves that store as it is and gives that answer.
  pub strangers_apart :
      (s : SessionStore M D E) (now : ℕ) (id : String) (user other : Option String)
      (st mine : SessionState M D E)
      → (get s now id user).1 ≡ some st
      → owner_of other ≢ owner_of user
      → (get s now id other ≡ (s, none))
        × (update s now id other mine ≡ (s, st))
        × (clear s id other ≡ (s, false))
        × (existing s now id ≡ (s, some st))
        × ((later : SessionStore M D E)
            → claim later now id (owner_of other) mine (some st) ≡ (later, st))
  unfolding get update clear existing restore recall claim
  strangers_apart s now id user other st mine h apart =
      let v = get-Holds s now id user st h in
      let no = stranger st.user_id (owner_of user) (owner_of other) v.owned apart in
      elim v.there [
        | inl there ↦ (
          rw (there, get) (rw no refl),
          rw (there, update, existing) (rw no refl),
          rw (there, clear) (rw no refl),
          rw (there, existing) refl,
          λ later. rw no refl,
        )
        | inr (missing, kept) ↦ (
          rw (missing, get) (rw kept (rw no refl)),
          rw (missing, update, existing) (rw kept (rw no refl)),
          rw (missing, clear) refl,
          rw (missing, existing) kept,
          λ later. rw no refl,
        )
      ]
