-- ===== src/Security/Rows.antt =====
-- What the guard adds to a query: one filter per row rule of the policy, and nothing else.
use future_bi.Base.{String, subst, ◌≡◌, refl, true, Option, none, some, List, [], ◌∷◌, ◌++◌, arith}
use future_bi.Base.Dict.{lookup}
use future_bi.Base.Text.{drop_chars}
use future_bi.Semantic.Schema.{Filter, FilterValue, QueryDsl, check_value}
use future_bi.Security.Policy.{Policy, Attrs, RowFilter}
use future_bi.Security.Guard.{
  Registry, Verdict, granted, refused, ◌>>=◌, apply_policy, row_level, resolve_row_filter,
  model_validate, attr_of, texts,
}
use future_bi.Security.Agree.{passed}

bind-granted :
    {A B : Type 0} (o : Verdict A) (k : A → Verdict B) (b : B)
    → (o >>= k) ≡ granted b
    → (a : A) × (o ≡ granted a) × (k a ≡ granted b)
bind-granted (granted a) k b h = (a, refl, h)
bind-granted (refused e) k b h = absurd (ground arith)

module _ {F : Type 0} where
  -- what a row rule compares its field with: its own value, or the principal's attribute after
  -- `principal.`
  abbrev pub rule_value : Attrs → String → RowFilter F → Option (FilterValue F)
  rule_value attrs who rf = elim rf.param [
    | none ↦ rf.value
    | some param ↦ elim (attr_of attrs who (drop_chars 10 param)) [
      | none ↦ none
      | some l ↦ some (texts l)
    ]
  ]

  one_row :
      (attrs : Attrs) (who : String) (rf : RowFilter F) (f : Filter F)
      → (resolve_row_filter attrs who rf >>= model_validate) ≡ granted f
      → (f.field ≡ rf.field)
        × (f.operator ≡ rf.operator)
        × (some f.value ≡ rule_value attrs who rf)
        × (check_value f.operator f.value ≡ true)
  unfolding resolve_row_filter model_validate
  one_row attrs who rf f h = ground arith

  -- `f` is what the row rule asks for
  abbrev pub Follows : Attrs → String → RowFilter F → Filter F → Type 0
  Follows attrs who rf f =
      (f.field ≡ rf.field)
      × (f.operator ≡ rf.operator)
      × (some f.value ≡ rule_value attrs who rf)
      × (check_value f.operator f.value ≡ true)

  abbrev pub AllFollow : Attrs → String → List (RowFilter F) → List (Filter F) → Type 0
  AllFollow attrs who [] [] = Unit
  AllFollow attrs who (rf ∷ l) (f ∷ fs) = Follows attrs who rf f × AllFollow attrs who l fs
  AllFollow attrs who _ _ = ⊥

  row_level-AllFollow :
      (attrs : Attrs) (who : String) (l : List (RowFilter F)) (extra : List (Filter F))
      → row_level attrs who l ≡ granted extra
      → AllFollow attrs who l extra
  unfolding row_level
  row_level-AllFollow attrs who [] [] h = tt
  row_level-AllFollow attrs who [] (f ∷ fs) h = absurd (ground arith)
  row_level-AllFollow attrs who (rf ∷ l) extra h =
      let (resolved, rule, h2) = bind-granted (resolve_row_filter attrs who rf) _ extra h in
      let (f, valid, h3) = bind-granted (model_validate resolved) _ extra h2 in
      let (rest, rows, h4) = bind-granted (row_level attrs who l) _ extra h3 in
      let same : f ∷ rest ≡ extra = ground arith in
      subst (AllFollow attrs who (rf ∷ l)) same
        (one_row attrs who rf f (rw rule valid), row_level-AllFollow attrs who l rest rows)

  -- What the guard lets through is the query itself with one more filter per row rule of the policy, in
  -- their order, each on the rule's field, with its operator and its value or the principal's attribute.
  pub granted-AllFollow :
      (r : Registry F) (q q' : QueryDsl F) (who : String)
      → apply_policy r q (some who) ≡ granted q'
      → (p : Policy F) × (lookup who r.policies ≡ some p)
        × (extra : List (Filter F)) × (q' ≡ record q { filters = q.filters ++ extra })
        × AllFollow r.attrs who p.row_filters extra
  granted-AllFollow r q q' who h =
      let (p, found, (_, _, extra, rows, result)) = passed r q who q' h in
      (p, found, extra, result, row_level-AllFollow r.attrs who p.row_filters extra rows)
