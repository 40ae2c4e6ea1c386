-- ===== src/Web/Tasks/Lifecycle.antt =====
-- Every task that any interleaving of the threads leads to is in a sound state, and only its owner reads
-- it.
use future_bi.Base.{
  ℕ, zero, suc, String, ◌≡◌, refl, ap, inl, inr, true, false, Option, none, some, List, [], ◌∷◌,
  arith, str_eq, eq_iff, is_some, Bool-cases, Option-cases, All,
}
use future_bi.Base.Dict.{
  Dict, lookup, insert, remove, IsDistinct, insert-IsDistinct, remove-IsDistinct, lookup-All,
}
use future_bi.Web.Tasks.{
  Status, Task, Manager, Outcome, returned, raised, cleanup, enter, start, finish, update, snapshot,
  pop_all, drop_overflow, is_owned, is_final,
}

-- The fields that a status comes with.
abbrev pub IsSound : {R : Type 0} → Task R → Type 0
IsSound t = elim t.status [
  | Status.pending ↦
      (is_some t.finished_at ≡ false) × (is_some t.result ≡ false) × (is_some t.error ≡ false)
  | Status.running ↦
      (is_some t.started_at ≡ true) × (is_some t.result ≡ false) × (is_some t.error ≡ false)
  | Status.success ↦
      (is_some t.finished_at ≡ true) × (is_some t.result ≡ true) × (is_some t.error ≡ false)
  | Status.failed ↦
      (is_some t.finished_at ≡ true) × (is_some t.result ≡ false) × (is_some t.error ≡ true)
]

owner_is : (o : Option String) (who : String) → is_owned o who ≡ true → o ≡ some who
owner_is none who h = absurd (ground arith)
owner_is (some o) who h = ap some ((eq_iff o who).0 h)

module _ {R : Type 0} where
  pub record IsValid (m : Manager R) : Type 0 where
    pub distinct : IsDistinct m.tasks
    pub sound : All (λ e. IsSound e.1) m.tasks

  insert-All :
      (P : Task R → Type 0) (k : String) (t : Task R) (d : Dict (Task R))
      → P t
      → All (λ e. P e.1) d
      → All (λ e. P e.1) (insert k t d)
  unfolding insert
  insert-All P k t [] p h = (p, tt)
  insert-All P k t ((j, s) ∷ d) p h = elim (Bool-cases (str_eq j k)) [
    | inl here ↦ rw here (p, h.1)
    | inr there ↦ rw there (h.0, insert-All P k t d p h.1)
  ]

  remove-All :
      (P : Task R → Type 0) (k : String) (d : Dict (Task R))
      → All (λ e. P e.1) d
      → All (λ e. P e.1) (remove k d)
  unfolding remove
  remove-All P k [] h = h
  remove-All P k ((j, s) ∷ d) h = elim (Bool-cases (str_eq j k)) [
    | inl here ↦ rw here h.1
    | inr there ↦ rw there (h.0, remove-All P k d h.1)
  ]

  -- what a step keeps of the tasks, whatever else it does
  abbrev Good : Dict (Task R) → Type 0
  Good d = IsDistinct d × All (λ e. IsSound e.1) d

  remove-Good : (k : String) (d : Dict (Task R)) → Good d → Good (remove k d)
  remove-Good k d h = (remove-IsDistinct k d h.0, remove-All IsSound k d h.1)

  pop_all-Good : (ids : List String) (d : Dict (Task R)) → Good d → Good (pop_all ids d)
  unfolding pop_all
  pop_all-Good [] d h = h
  pop_all-Good (id ∷ ids) d h = pop_all-Good ids (remove id d) (remove-Good id d h)

  drop_overflow-Good : (n : ℕ) (l d : Dict (Task R)) → Good d → Good (drop_overflow n l d)
  unfolding drop_overflow
  drop_overflow-Good n [] d h = h
  drop_overflow-Good zero (e ∷ l) d h = h
  drop_overflow-Good (suc n) (e ∷ l) d h = elim (Bool-cases (is_final e.1.status)) [
    | inl final ↦ rw final (drop_overflow-Good n l (remove e.0 d) (remove-Good e.0 d h))
    | inr live ↦ rw live (drop_overflow-Good (suc n) l d h)
  ]

  cleanup-Good : (m : Manager R) (now : ℕ) → Good m.tasks → Good (cleanup m now).tasks
  unfolding cleanup
  cleanup-Good m now h = drop_overflow-Good _ _ _ (pop_all-Good _ m.tasks h)

  insert-Good :
      (k : String) (t : Task R) (d : Dict (Task R)) → IsSound t → Good d → Good (insert k t d)
  insert-Good k t d p h = (insert-IsDistinct k t d h.0, insert-All IsSound k t d p h.1)

  update_missing :
      (id : String) (f : Task R → Task R) (m : Manager R)
      → lookup id m.tasks ≡ none
      → update id f m ≡ m
  unfolding update
  update_missing id f m missing = rw (missing, update) refl

  update_there :
      (id : String) (f : Task R → Task R) (m : Manager R) (t : Task R)
      → lookup id m.tasks ≡ some t
      → update id f m ≡ record m { tasks = insert id (f t) m.tasks }
  unfolding update
  update_there id f m t there = rw (there, update) refl

  update-Good :
      (id : String) (f : Task R → Task R) (m : Manager R)
      → ((t : Task R) → lookup id m.tasks ≡ some t → IsSound t → IsSound (f t))
      → Good m.tasks
      → Good (update id f m).tasks
  update-Good id f m keeps h = elim (Option-cases (lookup id m.tasks)) [
    | inl missing ↦ rw (update_missing id f m missing) h
    | inr (t, there) ↦ rw (update_there id f m t there) (
        insert-Good id (f t) m.tasks
          (keeps t there (lookup-All (λ k u. IsSound u) id t m.tasks h.1 there)) h)
  ]

  -- What the threads may do next, one block under the lock at a time: `submit` cleans and then enters its
  -- task, with steps of other threads between. Each id has one `_run`, which starts a pending task and finishes a
  -- running one, if no cleanup has taken it away.
  pub data Step (m : Manager R) : Manager R → Type 0 where
    enters : (now : ℕ) (id : String) (owner : Option String) → Step m (enter m now id owner)
    starts :
        (now : ℕ) (id : String)
        → ((t : Task R) → lookup id m.tasks ≡ some t → t.status ≡ Status.pending)
        → Step m (start m now id)
    finishes :
        (now : ℕ) (id : String) (o : Outcome R)
        → ((t : Task R) → lookup id m.tasks ≡ some t → t.status ≡ Status.running)
        → Step m (finish m now id o)
    cleans : (now : ℕ) → Step m (cleanup m now)

  pub data Reaches (m : Manager R) : Manager R → Type 0 where
    here : Reaches m m
    after : {u w : Manager R} → Reaches m u → Step u w → Reaches m w

  start-IsSound :
      (t : Task R) (now : ℕ)
      → t.status ≡ Status.pending
      → IsSound t
      → IsSound (record t { status = Status.running; started_at = some now })
  start-IsSound t now waits h = let waiting = rw waits at h in (refl, waiting.1, waiting.2)

  Step-Good : {m w : Manager R} → Step m w → Good m.tasks → Good w.tasks
  unfolding enter start finish
  Step-Good (enters now id owner) h = insert-Good id _ _ (refl, refl, refl) h
  Step-Good (starts now id waits) h =
      update-Good id _ _ (λ t there p. start-IsSound t now (waits t there) p) h
  Step-Good (finishes now id (returned r) runs) h =
      update-Good id _ _ (λ t there p. (refl, refl, refl)) h
  Step-Good (finishes now id (raised e) runs) h =
      update-Good id _ _ (λ t there p. (refl, refl, refl)) h
  Step-Good (cleans now) h = cleanup-Good _ now h

  Reaches-Good : {m w : Manager R} → m.tasks ≡ [] → Reaches m w → Good w.tasks
  Reaches-Good empty here = rw empty (tt, tt)
  Reaches-Good empty (after path step) = Step-Good step (Reaches-Good empty path)

  -- From a manager without tasks every interleaving leads to one without an id twice, whose tasks carry a
  -- result exactly when they succeeded and an error exactly when they failed.
  pub Reaches-IsValid : {m w : Manager R} → m.tasks ≡ [] → Reaches m w → IsValid w
  Reaches-IsValid empty path =
      let good = Reaches-Good empty path in record { distinct = good.0; sound = good.1 }

  -- A reader who names himself gets a task only if it is his own and is in the manager under that id.
  pub snapshot-owned :
      (m : Manager R) (id who : String) (t : Task R)
      → snapshot m id (some who) ≡ some t
      → (t.owner ≡ some who) × (lookup id m.tasks ≡ some t)
  unfolding snapshot
  snapshot-owned m id who t h = elim (Option-cases (lookup id m.tasks)) [
    | inl missing ↦ absurd (ground arith)
    | inr (u, there) ↦ ground (arith, owner_is u.owner who)
  ]
