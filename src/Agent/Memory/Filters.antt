-- ===== src/Agent/Memory/Filters.antt =====
-- agent/memory.py, the filters that a conversation carries on: one per field, and without the row rules
-- that the guard had added. Python's `==` on filters and on their values is a parameter.
pub mod OnePerField
pub mod Strip
use future_bi.Base.{
  ℕ, String, Bool, true, false, not, ◌||◌, Option, none, some, List, [], ◌∷◌, ◌++◌, any, keep,
  if◌then◌else◌,
}
use future_bi.Base.Dict.{Dict, lookup, insert}
use future_bi.Semantic.Schema.{Filter, FilterOperator, FilterValue, Scalar, QueryDsl}
use future_bi.Security.Policy.{Policy}
use future_bi.Security.Guard.{Registry, Verdict, granted, refused, row_level, ◌>>=◌}

-- Python's `==`
pub record Equality (F : Type 0) : Type 0 where
  pub same_filter : Filter F → Filter F → Bool
  pub same_value : Scalar F → Scalar F → Bool

-- what a filter is to `normalize_filters`
pub data Kind (F : Type 0) : Type 0 where
  equal : Kind F
  among : List (Scalar F) → Kind F
  different : Kind F

module _ {F : Type 0} where
  unfoldable pub kind : Filter F → Kind F
  kind f = elim f.operator [
    | FilterOperator.eq ↦ equal
    | FilterOperator.in_list ↦ elim f.value [
      | FilterValue.many l ↦ among l
      | FilterValue.one v ↦ different
    ]
    | _ ↦ different
  ]

  -- the last equality of a group
  unfoldable pub equality_of : List (Filter F) → Option (Filter F)
  equality_of [] = none
  equality_of (f ∷ g) = elim (equality_of g) [
    | some e ↦ some e
    | none ↦ elim (kind f) [ equal ↦ some f | _ ↦ none ]
  ]

  unfoldable pub in_values : List (Filter F) → List (Scalar F)
  in_values [] = []
  in_values (f ∷ g) = elim (kind f) [ among l ↦ l ++ in_values g | _ ↦ in_values g ]

  -- `others[-1]`
  unfoldable pub last_other : List (Filter F) → Option (Filter F)
  last_other [] = none
  last_other (f ∷ g) = elim (last_other g) [
    | some e ↦ some e
    | none ↦ elim (kind f) [ different ↦ some f | _ ↦ none ]
  ]

  -- `dict.fromkeys`
  unfoldable pub unique_values : Equality F → List (Scalar F) → List (Scalar F)
  unique_values e [] = []
  unique_values e (v ∷ l) = v ∷ keep (λ w. not (e.same_value v w)) (unique_values e l)

  unfoldable pub in_filter : Equality F → String → List (Scalar F) → Filter F
  in_filter e fld l = record {
    field = fld;
    operator = FilterOperator.in_list;
    value = FilterValue.many (unique_values e l);
  }

  -- the one filter that stands for a group of several; `none` is an `IndexError`
  unfoldable pub merge_group : Equality F → String → List (Filter F) → Option (Filter F)
  unfolding in_filter
  merge_group e fld g = elim (equality_of g) [
    | some f ↦ some f
    | none ↦ elim (last_other g) [
      | some f ↦ some f
      | none ↦ elim (in_values g) [ [] ↦ none | v ∷ l ↦ some (in_filter e fld (v ∷ l)) ]
    ]
  ]

  unfoldable pub merge : Equality F → String → List (Filter F) → Option (Filter F)
  merge e fld [] = merge_group e fld []
  merge e fld (f ∷ []) = some f
  merge e fld (f ∷ g ∷ l) = merge_group e fld (f ∷ g ∷ l)

  -- `grouped.setdefault(flt.field, []).append(flt)`
  unfoldable pub add_filter : Dict (List (Filter F)) → Filter F → Dict (List (Filter F))
  add_filter d f = elim (lookup f.field d) [
    | none ↦ insert f.field (f ∷ []) d
    | some g ↦ insert f.field (g ++ f ∷ []) d
  ]

  unfoldable pub grouped : Dict (List (Filter F)) → List (Filter F) → Dict (List (Filter F))
  grouped d [] = d
  grouped d (f ∷ l) = grouped (add_filter d f) l

  unfoldable pub merge_all : Equality F → Dict (List (Filter F)) → Option (List (Filter F))
  merge_all e [] = some []
  merge_all e ((fld, g) ∷ d) = elim (merge e fld g) [
    | none ↦ none
    | some f ↦ elim (merge_all e d) [ none ↦ none | some l ↦ some (f ∷ l) ]
  ]

  unfoldable pub normalize_filters : Equality F → List (Filter F) → Option (List (Filter F))
  normalize_filters e l = merge_all e (grouped [] l)

  -- `f not in extra`
  abbrev pub is_new : Equality F → List (Filter F) → Filter F → Bool
  is_new e extra f = not (any (λ g. e.same_filter g f) extra)

  unfoldable pub strip_policy :
      Equality F → Registry F → QueryDsl F → String → Policy F → Verdict (QueryDsl F)
  strip_policy e r q who p = do
    extra ← row_level r.attrs who p.row_filters
    granted (record q { filters = keep (is_new e extra) q.filters })

  unfoldable pub strip_rls_filters :
      Equality F → Registry F → QueryDsl F → Option String → Verdict (QueryDsl F)
  strip_rls_filters e r q none = granted q
  strip_rls_filters e r q (some who) = elim (lookup who r.policies) [
    | none ↦ granted q
    | some p ↦ elim p.row_filters [ [] ↦ granted q | _ ∷ _ ↦ strip_policy e r q who p ]
  ]
