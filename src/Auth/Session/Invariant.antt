-- ===== src/Auth/Session/Invariant.antt =====
-- Every operation of the dictionary keeps what the refinement rests on: entries at their own ids, no id
-- twice.
use future_bi.Base.{
  ℕ, String, ◌≡◌, refl, ◌∙◌, if◌then◌else◌, inl, inr, none, some, List, [], ◌∷◌, map, keep, arith,
  str_eq, eq_iff, Bool-cases, Option-cases,
}
use future_bi.Base.Dict.{
  lookup, insert, remove, lookup-insert, lookup-insert_self, lookup-remove_self, IsDistinct,
}
use future_bi.Auth.Session.{Session, is_expired}
use future_bi.Auth.Session.Memory
use future_bi.Auth.Session.Refine.{IsStore}

remove_still_absent :
    (d : Memory.Store) (k id : String) → lookup k d ≡ none → lookup k (remove id d) ≡ none
unfolding lookup remove
remove_still_absent [] k id h = refl
remove_still_absent ((j, s) ∷ d) k id h = ground (arith, remove_still_absent d k id)

remove-IsStore : (d : Memory.Store) (id : String) → IsStore d → IsStore (remove id d)
unfolding remove
remove-IsStore [] id h = h
remove-IsStore ((k, s) ∷ d) id h = elim (Bool-cases (str_eq k id)) [
  | inl here ↦ rw here h.2
  | inr there ↦ rw there (h.0, remove_still_absent d k id h.1, remove-IsStore d id h.2)
]

create-IsStore : (d : Memory.Store) (s : Session) → IsStore d → IsStore (Memory.create d s)
unfolding Memory.create insert lookup
create-IsStore [] s h = (refl, refl, tt)
create-IsStore ((k, r) ∷ d) s h = elim (Bool-cases (str_eq k s.session_id)) [
  | inl here ↦ rw here ((eq_iff k s.session_id).0 here, h.1, h.2)
  | inr there ↦ rw there (
    h.0,
    ground (
      arith,
      lookup-insert s.session_id k s d,
      eq_iff k s.session_id,
      eq_iff s.session_id k,
      h.1,
    ),
    create-IsStore d s h.2,
  )
]

pop_all-IsStore :
    (ids : List String) (d : Memory.Store) → IsStore d → IsStore (Memory.pop_all ids d)
unfolding Memory.pop_all
pop_all-IsStore [] d h = h
pop_all-IsStore (id ∷ ids) d h = pop_all-IsStore ids (remove id d) (remove-IsStore d id h)

get-IsStore :
    (d : Memory.Store) (now : ℕ) (id : String) → IsStore d → IsStore (Memory.get d now id).0
unfolding Memory.get
get-IsStore d now id h = elim (Option-cases (lookup id d)) [
  | inl missing ↦ rw (missing, Memory.get) h
  | inr (s, there) ↦ elim (Bool-cases (is_expired now s)) [
    | inl old ↦ rw (there, Memory.get) (rw old (remove-IsStore d id h))
    | inr live ↦ rw (there, Memory.get) (rw live h)
  ]
]

-- A login, a read, a logout and a purge keep every session at its own id, and no id twice.
pub operations-IsStore :
    (d : Memory.Store) (s : Session) (now : ℕ) (id : String)
    → IsStore d
    → IsStore (Memory.create d s)
      × IsStore (Memory.get d now id).0
      × IsStore (Memory.revoke d id).0
      × IsStore (Memory.prune d now).0
unfolding Memory.revoke Memory.prune
operations-IsStore d s now id h = (
  create-IsStore d s h,
  get-IsStore d now id h,
  remove-IsStore d id h,
  pop_all-IsStore (map (λ e. e.0) (keep (λ e. is_expired now e.1) d)) d h,
)

get-answer :
    (d : Memory.Store) (now : ℕ) (id : String)
    → (Memory.get d now id).1
      ≡ elim (lookup id d) [ none ↦ none | some s ↦ if is_expired now s then none else some s ]
unfolding Memory.get
get-answer d now id = elim (Option-cases (lookup id d)) [
  | inl missing ↦ rw (missing, Memory.get) refl
  | inr (s, there) ↦ elim (Bool-cases (is_expired now s)) [
    | inl old ↦ rw (there, Memory.get) (rw old refl)
    | inr live ↦ rw (there, Memory.get) (rw live refl)
  ]
]

IsStore→IsDistinct : (d : Memory.Store) → IsStore d → IsDistinct d
IsStore→IsDistinct [] h = tt
IsStore→IsDistinct ((k, s) ∷ d) h = (h.1, IsStore→IsDistinct d h.2)

-- After a logout no read of the session finds it, at any time.
pub get-revoke :
    (d : Memory.Store) (now : ℕ) (id : String)
    → IsStore d
    → (Memory.get (Memory.revoke d id).0 now id).1 ≡ none
unfolding Memory.revoke
get-revoke d now id h =
    get-answer (remove id d) now id ∙ rw (lookup-remove_self id d (IsStore→IsDistinct d h)) refl

-- A session that was just made is found until it expires, and never after.
pub get-create :
    (d : Memory.Store) (s : Session) (now : ℕ)
    → (Memory.get (Memory.create d s) now s.session_id).1
      ≡ (if is_expired now s then none else some s)
unfolding Memory.create
get-create d s now =
    get-answer (insert s.session_id s d) now s.session_id
    ∙ rw (lookup-insert_self s.session_id s d) refl
