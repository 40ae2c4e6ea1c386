-- ===== src/Auth/Session/Refine.antt =====
-- The two stores are one to their users: each operation of the table does to the rows what the same
-- operation of the dictionary does, with the same answer.
use future_bi.Base.{
  ℕ, ◌+◌, String, ◌≡◌, refl, sym, ap, ◌∙◌, inl, inr, Bool, false, not, none, some, List, [], ◌∷◌,
  ◌++◌, map, keep, length, arith, contains, str_eq, eq_iff, eq_refl, Bool-cases, Option-cases,
}
use future_bi.Base.Dict.{lookup, insert, remove}
use future_bi.Auth.Session.{Session, is_expired}
use future_bi.Auth.Session.Memory
use future_bi.Auth.Session.Sqlite

-- Every entry is at its own id, and no id is there twice.
abbrev pub IsStore : Memory.Store → Type 0
IsStore [] = Unit
IsStore ((id, s) ∷ d) = (id ≡ s.session_id) × (lookup id d ≡ none) × IsStore d

-- the rows of a dictionary
abbrev pub rows : Memory.Store → Sqlite.Table
rows d = map (λ e. e.1) d

select-rows : (d : Memory.Store) (id : String) → IsStore d → Sqlite.select id (rows d) ≡ lookup id d
unfolding Sqlite.select lookup
select-rows [] id h = refl
select-rows ((k, s) ∷ d) id h = rw (sym h.0, select-rows d id h.2) refl

remove_absent : (d : Memory.Store) (id : String) → lookup id d ≡ none → remove id d ≡ d
unfolding remove lookup
remove_absent [] id h = refl
remove_absent ((k, s) ∷ d) id h = ground (arith, remove_absent d id)

delete-rows :
    (d : Memory.Store) (id : String) → IsStore d → Sqlite.delete id (rows d) ≡ rows (remove id d)
unfolding Sqlite.delete remove
delete-rows [] id h = refl
delete-rows ((k, s) ∷ d) id h = elim (Bool-cases (str_eq k id)) [
  | inl here ↦ rw (sym h.0) (
      rw here
        (delete-rows d id h.2 ∙ ap rows (remove_absent d id (rw (sym ((eq_iff k id).0 here)) h.1))))
  | inr there ↦
      let own : str_eq s.session_id id ≡ false = rw (sym h.0) there in
      rw (own, there) (ap (λ t. s ∷ t) (delete-rows d id h.2))
]

insert_absent :
    (d : Memory.Store) (id : String) (s : Session)
    → lookup id d ≡ none
    → rows (insert id s d) ≡ rows d ++ s ∷ []
unfolding insert lookup
insert_absent [] id s h = refl
insert_absent ((k, r) ∷ d) id s h = elim (Bool-cases (str_eq k id)) [
  | inl here ↦ absurd (ground arith)
  | inr there ↦ rw there (ap (λ t. r ∷ t) (insert_absent d id s (ground arith)))
]

-- `create`, for an id that is new
create-rows :
    (d : Memory.Store) (s : Session)
    → IsStore d
    → lookup s.session_id d ≡ none
    → Sqlite.create (rows d) s ≡ some (rows (Memory.create d s))
unfolding Sqlite.create Memory.create
create-rows d s h new =
    rw (select-rows d s.session_id h, new) (ap some (sym (insert_absent d s.session_id s new)))

-- `get`, `revoke`
get-rows :
    (d : Memory.Store) (now : ℕ) (id : String)
    → IsStore d
    → Sqlite.get (rows d) now id ≡ (rows (Memory.get d now id).0, (Memory.get d now id).1)
unfolding Sqlite.get Memory.get
get-rows d now id h = rw (select-rows d id h) (elim (Option-cases (lookup id d)) [
  | inl missing ↦ rw missing refl
  | inr (s, there) ↦ elim (Bool-cases (is_expired now s)) [
    | inl old ↦ rw there (rw old (ap (λ t. (t, none)) (delete-rows d id h)))
    | inr live ↦ rw there (rw live refl)
  ]
])

revoke-rows :
    (d : Memory.Store) (id : String)
    → IsStore d
    → Sqlite.revoke (rows d) id ≡ (rows (Memory.revoke d id).0, (Memory.revoke d id).1)
unfolding Sqlite.revoke Memory.revoke
revoke-rows d id h = rw (select-rows d id h, delete-rows d id h) refl

pop_all_ne :
    (ids : List String) (k : String) (s : Session) (d : Memory.Store)
    → contains ids k ≡ false
    → Memory.pop_all ids ((k, s) ∷ d) ≡ (k, s) ∷ Memory.pop_all ids d
unfolding Memory.pop_all remove
pop_all_ne [] k s d h = refl
pop_all_ne (id ∷ ids) k s d h =
    let differs : str_eq k id ≡ false = ground (arith, eq_iff k id, eq_iff id k) in
    rw differs (pop_all_ne ids k s (remove id d) (ground arith))

kept_ids :
    (p : Session → Bool) (d : Memory.Store) (k : String)
    → lookup k d ≡ none
    → contains (map (λ e. e.0) (keep (λ e. p e.1) d)) k ≡ false
unfolding lookup
kept_ids p [] k h = refl
kept_ids p ((j, s) ∷ d) k h = ground (arith, kept_ids p d k)

pop_all_eq :
    (ids : List String) (k : String) (s : Session) (d : Memory.Store)
    → Memory.pop_all (k ∷ ids) ((k, s) ∷ d) ≡ Memory.pop_all ids d
unfolding Memory.pop_all remove
pop_all_eq ids k s d = rw (eq_refl k) refl

pop_expired :
    (now : ℕ) (d : Memory.Store)
    → IsStore d
    → rows (Memory.pop_all (map (λ e. e.0) (keep (λ e. is_expired now e.1) d)) d)
      ≡ keep (λ s. not (is_expired now s)) (rows d)
pop_expired now [] h = unfold Memory.pop_all in refl
pop_expired now ((k, s) ∷ d) h = elim (Bool-cases (is_expired now s)) [
  | inl old ↦ rw old (
      rw (pop_all_eq (map (λ e. e.0) (keep (λ e. is_expired now e.1) d)) k s d)
        (pop_expired now d h.2))
  | inr live ↦ rw live (
      rw
        (pop_all_ne (map (λ e. e.0) (keep (λ e. is_expired now e.1) d)) k s d
          (kept_ids (is_expired now) d k h.1))
        (ap (λ t. s ∷ t) (pop_expired now d h.2)))
]

count_kept :
    (p : Session → Bool) (d : Memory.Store)
    → length (map (λ e. e.0) (keep (λ e. p e.1) d)) + length (keep (λ s. not (p s)) (rows d))
      ≡ length (rows d)
count_kept p [] = omega arith
count_kept p ((k, s) ∷ d) = ground (arith, count_kept p d)

prune-rows :
    (d : Memory.Store) (now : ℕ)
    → IsStore d
    → Sqlite.prune (rows d) now ≡ (rows (Memory.prune d now).0, (Memory.prune d now).1)
unfolding Sqlite.prune Memory.prune
prune-rows d now h = rw (pop_expired now d h) (
    ap (λ n. (keep (λ s. not (is_expired now s)) (rows d), n))
      (omega (arith, count_kept (is_expired now) d)))

-- On a table with the rows of a valid dictionary, a read, a logout and a purge of the expired sessions answer
-- what they answer on the dictionary, and leave the rows of what the dictionary becomes.
pub table-refines :
    (d : Memory.Store) (now : ℕ) (id : String)
    → IsStore d
    → (Sqlite.get (rows d) now id ≡ (rows (Memory.get d now id).0, (Memory.get d now id).1))
      × (Sqlite.revoke (rows d) id ≡ (rows (Memory.revoke d id).0, (Memory.revoke d id).1))
      × (Sqlite.prune (rows d) now ≡ (rows (Memory.prune d now).0, (Memory.prune d now).1))
table-refines d now id h = (get-rows d now id h, revoke-rows d id h, prune-rows d now h)
