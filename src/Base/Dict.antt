-- ===== src/Base/Dict.antt =====
-- Python's `dict` and `OrderedDict` with text keys: entries in insertion order.
use future_bi.Base.Tests.{if◌then◌else◌, is_some, Bool-cases}
use mathlib.Core.Logic.{inl, inr}
use future_bi.Base.Lists.{length, All, contains}
use Prim.Native.Nat.{◌+◌, ◌≤◌}
use Prim.Native.String.{String}
use mathlib.Core.Path.{◌≡◌, refl, sym, subst}
use mathlib.Core.Option.{Option, none, some}
use mathlib.Core.List.{List, [], ◌∷◌, ◌++◌, map}
use native.Mathlib.Omega.{arith}
use text.Mathlib.Text.{◌==◌ as str_eq}
use text.Mathlib.TextEquality.{eq_iff}

abbrev pub Dict {ℓ} : Type ℓ → Type ℓ
Dict V = List (String × V)

module _ {ℓ} {V : Type ℓ} where
  -- `d.get(k)`
  unfoldable pub lookup : String → Dict V → Option V
  lookup k [] = none
  lookup k ((j, v) ∷ d) = if str_eq j k then some v else lookup k d

  -- `d[k] = v`: a known key keeps its place, a new one goes to the end
  unfoldable pub insert : String → V → Dict V → Dict V
  insert k v [] = (k, v) ∷ []
  insert k v ((j, w) ∷ d) = if str_eq j k then (j, v) ∷ d else (j, w) ∷ insert k v d

  -- `d.pop(k, None)`, `del d[k]`
  unfoldable pub remove : String → Dict V → Dict V
  remove k [] = []
  remove k ((j, w) ∷ d) = if str_eq j k then d else (j, w) ∷ remove k d

  -- `OrderedDict`: write `k` and move it to the end
  abbrev pub push_end : String → V → Dict V → Dict V
  push_end k v d = remove k d ++ (k, v) ∷ []

  -- No key twice: what makes such a list a dictionary.
  abbrev pub IsDistinct : Dict V → Type ℓ
  IsDistinct [] = Unit
  IsDistinct ((k, v) ∷ d) = (lookup k d ≡ none) × IsDistinct d

  pub lookup-insert :
      (k j : String) (v : V) (d : Dict V)
      → lookup j (insert k v d) ≡ (if str_eq k j then some v else lookup j d)
  unfolding lookup insert
  lookup-insert k j v [] = refl
  lookup-insert k j v ((i, w) ∷ d) =
      ground (arith, eq_iff k j, eq_iff i k, eq_iff i j, lookup-insert k j v d)

  pub lookup-remove :
      (k j : String) (d : Dict V)
      → IsDistinct d
      → lookup j (remove k d) ≡ (if str_eq k j then none else lookup j d)
  unfolding lookup remove
  lookup-remove k j [] h = ground arith
  lookup-remove k j ((i, w) ∷ d) h =
      ground (arith, eq_iff k j, eq_iff i k, eq_iff i j, lookup-remove k j d h.1)

  pub lookup-append :
      (j : String) (d e : Dict V)
      → lookup j (d ++ e) ≡ (if is_some (lookup j d) then lookup j d else lookup j e)
  unfolding lookup
  lookup-append j [] e = refl
  lookup-append j ((i, w) ∷ d) e = ground (arith, lookup-append j d e)

  pub lookup-insert_self : (k : String) (v : V) (d : Dict V) → lookup k (insert k v d) ≡ some v
  lookup-insert_self k v d = ground (arith, lookup-insert k k v d, eq_iff k k)

  pub lookup-remove_self : (k : String) (d : Dict V) → IsDistinct d → lookup k (remove k d) ≡ none
  lookup-remove_self k d h = ground (arith, lookup-remove k k d h, eq_iff k k)

  pub insert-IsDistinct :
      (k : String) (v : V) (d : Dict V) → IsDistinct d → IsDistinct (insert k v d)
  unfolding insert lookup
  insert-IsDistinct k v [] h = (refl, tt)
  insert-IsDistinct k v ((i, w) ∷ d) h =
      ground (arith, lookup-insert k i v d, insert-IsDistinct k v d h.1, eq_iff i k, eq_iff k i)

  pub remove-IsDistinct : (k : String) (d : Dict V) → IsDistinct d → IsDistinct (remove k d)
  unfolding remove
  remove-IsDistinct k [] h = h
  remove-IsDistinct k ((i, w) ∷ d) h =
      ground (arith, lookup-remove k i d h.1, remove-IsDistinct k d h.1, eq_iff i k)

  append-IsDistinct :
      (k : String) (v : V) (d : Dict V)
      → lookup k d ≡ none
      → IsDistinct d
      → IsDistinct (d ++ (k, v) ∷ [])
  unfolding lookup
  append-IsDistinct k v [] a h = (refl, tt)
  append-IsDistinct k v ((i, w) ∷ d) a h =
      ground
        (arith, lookup-append i d ((k, v) ∷ []), append-IsDistinct k v d, eq_iff i k, eq_iff k i)

  pub push_end-IsDistinct :
      (k : String) (v : V) (d : Dict V) → IsDistinct d → IsDistinct (push_end k v d)
  push_end-IsDistinct k v d h =
      append-IsDistinct k v (remove k d) (ground (arith, lookup-remove k k d h, eq_iff k k))
        (remove-IsDistinct k d h)

  pub lookup-push_end :
      (k j : String) (v : V) (d : Dict V)
      → IsDistinct d
      → lookup j (push_end k v d) ≡ (if str_eq k j then some v else lookup j d)
  unfolding lookup
  lookup-push_end k j v d h =
      ground (arith, lookup-append j (remove k d) ((k, v) ∷ []), lookup-remove k j d h, eq_iff k j)

  pub length-insert-le : (k : String) (v : V) (d : Dict V) → length (insert k v d) ≤ length d + 1
  unfolding insert
  length-insert-le k v [] = omega arith
  length-insert-le k v ((i, w) ∷ d) = ground (arith, length-insert-le k v d)

  pub length-remove-le : (k : String) (d : Dict V) → length (remove k d) ≤ length d
  unfolding remove
  length-remove-le k [] = omega arith
  length-remove-le k ((i, w) ∷ d) = ground (arith, length-remove-le k d)

  pub length-remove :
      (k : String) (v : V) (d : Dict V) → lookup k d ≡ some v → length (remove k d) + 1 ≡ length d
  unfolding remove lookup
  length-remove k v [] h = ground arith
  length-remove k v ((i, w) ∷ d) h = ground (arith, length-remove k v d)

module _ {ℓ} {V : Type ℓ} where
  pub remove_missing : (k : String) (d : Dict V) → lookup k d ≡ none → remove k d ≡ d
  unfolding remove lookup
  remove_missing k [] h = refl
  remove_missing k ((i, w) ∷ d) h = ground (arith, remove_missing k d)

  pub remove-insert : (k : String) (v : V) (d : Dict V) → remove k (insert k v d) ≡ remove k d
  unfolding remove insert
  remove-insert k v [] = ground (arith, eq_iff k k)
  remove-insert k v ((i, w) ∷ d) = ground (arith, remove-insert k v d)

  -- `OrderedDict.move_to_end(k)`, for a key that is there
  unfoldable pub move_to_end : String → Dict V → Dict V
  move_to_end k d = elim (lookup k d) [ none ↦ d | some v ↦ push_end k v d ]

  -- `d[k] = v; d.move_to_end(k)`
  pub move_to_end-insert :
      (k : String) (v : V) (d : Dict V) → move_to_end k (insert k v d) ≡ push_end k v d
  unfolding move_to_end
  move_to_end-insert k v d = ground (arith, lookup-insert k k v d, eq_iff k k, remove-insert k v d)

-- what holds of all entries holds of the one that is found
pub lookup-All {ℓ κ} :
    {V : Type ℓ} (P : String → V → Type κ) (k : String) (v : V) (d : Dict V)
    → All (λ e. P e.0 e.1) d
    → lookup k d ≡ some v
    → P k v
unfolding lookup
lookup-All P k v [] h e = absurd (ground arith)
lookup-All P k v ((j, w) ∷ d) h e = elim (Bool-cases (str_eq j k)) [
  | inl here ↦
      let found : w ≡ v = ground arith in
      subst (λ i. P i v) ((eq_iff j k).0 here) (subst (P j) found h.0)
  | inr there ↦ lookup-All P k v d h.1 (rw there at e)
]

pub insert-All {ℓ κ} :
    {V : Type ℓ} (P : String → V → Type κ) (k : String) (v : V) (d : Dict V)
    → P k v
    → All (λ e. P e.0 e.1) d
    → All (λ e. P e.0 e.1) (insert k v d)
unfolding insert
insert-All P k v [] p h = (p, tt)
insert-All P k v ((j, w) ∷ d) p h = elim (Bool-cases (str_eq j k)) [
  | inl here ↦ rw here (subst (λ i. P i v) (sym ((eq_iff j k).0 here)) p, h.1)
  | inr there ↦ rw there (h.0, insert-All P k v d p h.1)
]

-- a key that is there is one of the keys
pub lookup-contains {ℓ} :
    {V : Type ℓ} (k : String) (d : Dict V) → contains (map (λ e. e.0) d) k ≡ is_some (lookup k d)
unfolding lookup
lookup-contains k [] = refl
lookup-contains k ((j, v) ∷ d) = ground (arith, lookup-contains k d)
