-- ===== src/Agent/Memory/Filters/OnePerField.antt =====
-- What `normalize_filters` leaves: one filter for each field that was filtered on.
use future_bi.Base.{
  String, Bool, true, false, ◌||◌, ◌≡◌, refl, ap, ◌∙◌, inl, inr, ◌⊎◌, none, some, List, [], ◌∷◌,
  ◌++◌, map, arith, All, All-append, str_eq, eq_refl, Option-cases, is_some, contains,
}
use future_bi.Base.Dict.{
  Dict, lookup, insert, IsDistinct, insert-IsDistinct, lookup-insert, lookup-All, insert-All,
  lookup-contains,
}
use future_bi.Semantic.Schema.{Filter, FilterOperator, FilterValue, Scalar, check_value}
use future_bi.Agent.Memory.Filters.{
  Equality, equal, among, different, kind, equality_of, in_values, last_other, merge_group, merge,
  in_filter, add_filter, grouped, merge_all, normalize_filters,
}

-- no text twice
abbrev pub AllApart : List String → Type 0
AllApart [] = Unit
AllApart (x ∷ l) = (contains l x ≡ false) × AllApart l

module _ {F : Type 0} where
  -- every filter of a group is on the field and went through its validator
  abbrev pub IsGroup : String → List (Filter F) → Type 0
  IsGroup fld g = All (λ f. (f.field ≡ fld) × (check_value f.operator f.value ≡ true)) g

  abbrev is_filled : List (Filter F) → Bool
  is_filled [] = false
  is_filled (f ∷ g) = true

  -- the groups that the loop has made so far
  record IsGrouped (d : Dict (List (Filter F))) : Type 0 where
    distinct : IsDistinct d
    groups : All (λ e. IsGroup e.0 e.1 × (is_filled e.1 ≡ true)) d

  equality_of-field :
      (fld : String) (g : List (Filter F)) (f : Filter F)
      → IsGroup fld g
      → equality_of g ≡ some f
      → f.field ≡ fld
  unfolding equality_of
  equality_of-field fld [] f h e = absurd (ground arith)
  equality_of-field fld (x ∷ g) f h e = ground (arith, h.0.0, equality_of-field fld g f h.1)

  last_other-field :
      (fld : String) (g : List (Filter F)) (f : Filter F)
      → IsGroup fld g
      → last_other g ≡ some f
      → f.field ≡ fld
  unfolding last_other
  last_other-field fld [] f h e = absurd (ground arith)
  last_other-field fld (x ∷ g) f h e = ground (arith, h.0.0, last_other-field fld g f h.1)

  kind_shape :
      (f : Filter F) (op : FilterOperator) (value : FilterValue F)
      → f.operator ≡ op
      → f.value ≡ value
      → check_value op value ≡ true
      → ((v : Scalar F) × (l : List (Scalar F)) × (kind f ≡ among (v ∷ l)))
        ⊎ (kind f ≡ equal)
        ⊎ (kind f ≡ different)
  unfolding kind check_value
  kind_shape f FilterOperator.eq value o v valid = inr (inl (ground arith))
  kind_shape f FilterOperator.in_list (FilterValue.one x) o v valid = absurd (ground arith)
  kind_shape f FilterOperator.in_list (FilterValue.many []) o v valid = absurd (ground arith)
  kind_shape f FilterOperator.in_list (FilterValue.many (x ∷ l)) o v valid =
      inl (x, l, ground arith)
  kind_shape f op value o v valid = inr (inr (ground arith))

  -- a filter that is neither an equality nor among the others brings values
  kind-among :
      (f : Filter F)
      → check_value f.operator f.value ≡ true
      → (g : List (Filter F)) → equality_of (f ∷ g) ≡ none
      → last_other (f ∷ g) ≡ none
      → (v : Scalar F) × (l : List (Scalar F)) × (in_values (f ∷ g) ≡ v ∷ l)
  unfolding equality_of last_other in_values
  kind-among f valid g no_eq no_other = elim (kind_shape f f.operator f.value refl refl valid) [
    | inl (v, l, here) ↦ (v, l ++ in_values g, rw (here, in_values) refl)
    | inr (inl here) ↦ absurd (ground arith)
    | inr (inr here) ↦ absurd (ground arith)
  ]

  merge_group-field :
      (e : Equality F) (fld : String) (f : Filter F) (g : List (Filter F))
      → IsGroup fld (f ∷ g)
      → (m : Filter F) × (merge_group e fld (f ∷ g) ≡ some m) × (m.field ≡ fld)
  unfolding merge_group in_filter
  merge_group-field e fld f g h = elim (Option-cases (equality_of (f ∷ g))) [
    | inr (m, found) ↦ (m, rw (found, merge_group) refl, equality_of-field fld (f ∷ g) m h found)
    | inl no_eq ↦ elim (Option-cases (last_other (f ∷ g))) [
      | inr (m, found) ↦
          (m, rw (no_eq, merge_group) (rw found refl), last_other-field fld (f ∷ g) m h found)
      | inl no_other ↦
          let (v, l, values) = kind-among f h.0.1 g no_eq no_other in
          (in_filter e fld (v ∷ l), rw (no_eq, merge_group) (rw no_other (rw values refl)), refl)
    ]
  ]

  merge-field :
      (e : Equality F) (fld : String) (g : List (Filter F))
      → IsGroup fld g
      → is_filled g ≡ true
      → (m : Filter F) × (merge e fld g ≡ some m) × (m.field ≡ fld)
  unfolding merge
  merge-field e fld [] h filled = absurd (ground arith)
  merge-field e fld (f ∷ []) h filled = (f, refl, h.0.0)
  merge-field e fld (f ∷ g ∷ l) h filled = merge_group-field e fld f (g ∷ l) h

  merge_all-fields :
      (e : Equality F) (d : Dict (List (Filter F)))
      → All (λ x. IsGroup x.0 x.1 × (is_filled x.1 ≡ true)) d
      → (l : List (Filter F)) × (merge_all e d ≡ some l) × (map (λ f. f.field) l ≡ map (λ x. x.0) d)
  unfolding merge_all
  merge_all-fields e [] h = ([], refl, refl)
  merge_all-fields e ((fld, g) ∷ d) h =
      let (m, merged, at) = merge-field e fld g h.0.0 h.0.1 in
      let (l, rest, fields) = merge_all-fields e d h.1 in
      (m ∷ l, rw (merged, merge_all) (rw rest refl), rw (at, fields) refl)

  filled_end : (g : List (Filter F)) (f : Filter F) → is_filled (g ++ f ∷ []) ≡ true
  filled_end [] f = refl
  filled_end (x ∷ g) f = refl

  add_filter-IsGrouped :
      (d : Dict (List (Filter F))) (f : Filter F)
      → check_value f.operator f.value ≡ true
      → IsGrouped d
      → IsGrouped (add_filter d f)
  unfolding add_filter
  add_filter-IsGrouped d f valid h = elim (Option-cases (lookup f.field d)) [
    | inl fresh ↦
        rw (fresh, add_filter)
          (record {
            distinct = insert-IsDistinct f.field (f ∷ []) d h.distinct;
            groups =
                insert-All (λ k g. IsGroup k g × (is_filled g ≡ true)) f.field (f ∷ []) d
                  (((refl, valid), tt), refl) h.groups;
          })
    | inr (g, there) ↦
        let old =
          lookup-All (λ k g. IsGroup k g × (is_filled g ≡ true)) f.field g d h.groups there in
        rw (there, add_filter)
          (record {
            distinct = insert-IsDistinct f.field (g ++ f ∷ []) d h.distinct;
            groups =
                insert-All (λ k g. IsGroup k g × (is_filled g ≡ true)) f.field (g ++ f ∷ []) d
                  (
                    All-append (λ x. (x.field ≡ f.field) × (check_value x.operator x.value ≡ true))
                        g (f ∷ []) old.0 ((refl, valid), tt),
                    filled_end g f,
                  )
                  h.groups;
          })
  ]

  lookup-add_filter :
      (d : Dict (List (Filter F))) (f : Filter F) (x : String)
      → is_some (lookup x (add_filter d f)) ≡ (str_eq f.field x || is_some (lookup x d))
  unfolding add_filter
  lookup-add_filter d f x = elim (Option-cases (lookup f.field d)) [
    | inl fresh ↦ rw (fresh, add_filter) (ground (arith, lookup-insert f.field x (f ∷ []) d))
    | inr (g, there) ↦
        rw (there, add_filter) (ground (arith, lookup-insert f.field x (g ++ f ∷ []) d))
  ]

  grouped-IsGrouped :
      (d : Dict (List (Filter F))) (l : List (Filter F))
      → All (λ f. check_value f.operator f.value ≡ true) l
      → IsGrouped d
      → IsGrouped (grouped d l)
  unfolding grouped
  grouped-IsGrouped d [] valid h = h
  grouped-IsGrouped d (f ∷ l) valid h =
      grouped-IsGrouped (add_filter d f) l valid.1 (add_filter-IsGrouped d f valid.0 h)

  lookup-grouped :
      (d : Dict (List (Filter F))) (l : List (Filter F)) (x : String)
      → is_some (lookup x (grouped d l))
        ≡ (is_some (lookup x d) || contains (map (λ f. f.field) l) x)
  unfolding grouped
  lookup-grouped d [] x = ground arith
  lookup-grouped d (f ∷ l) x =
      ground (arith, lookup-grouped (add_filter d f) l x, lookup-add_filter d f x)

  keys-AllApart : (d : Dict (List (Filter F))) → IsDistinct d → AllApart (map (λ e. e.0) d)
  keys-AllApart [] h = tt
  keys-AllApart ((k, g) ∷ d) h = (lookup-contains k d ∙ ap is_some h.0, keys-AllApart d h.1)

  -- Of filters that went through their validators, one is left for each field that was filtered on, and
  -- none for any other.
  pub normalize_filters_total :
      (e : Equality F) (l : List (Filter F))
      → All (λ f. check_value f.operator f.value ≡ true) l
      → (m : List (Filter F)) × (normalize_filters e l ≡ some m)
        × AllApart (map (λ f. f.field) m)
        × ((x : String) → contains (map (λ f. f.field) m) x ≡ contains (map (λ f. f.field) l) x)
  unfolding normalize_filters lookup
  normalize_filters_total e l valid =
      let empty : IsGrouped [] = record { distinct = tt; groups = tt } in
      let h = grouped-IsGrouped [] l valid empty in
      let (m, merged, fields) = merge_all-fields e (grouped [] l) h.groups in
      (
        m,
        merged,
        rw fields (keys-AllApart (grouped [] l) h.distinct),
        λ x. rw fields (lookup-contains x (grouped [] l) ∙ lookup-grouped [] l x),
      )

  -- Two different conditions on one field, such as the two ends of a range, do not both survive: the
  -- first is dropped.
  pub normalize_filters-drops :
      (e : Equality F) (f g : Filter F)
      → f.field ≡ g.field
      → kind f ≡ different
      → kind g ≡ different
      → normalize_filters e (f ∷ g ∷ []) ≡ some (g ∷ [])
  unfolding normalize_filters grouped add_filter merge_all merge merge_group equality_of last_other
      insert lookup
  normalize_filters-drops e f g same first second = ground (arith, eq_refl g.field)
