-- ===== src/Security/Agree.antt =====
-- The guard and the scope agree on the fields of metrics, dimensions and filters.
use future_bi.Base.{
  String, ◌≡◌, refl, ap, subst, inl, inr, Bool, true, false, not, ◌&&◌, Option, some, List, [], ◌∷◌,
  ◌++◌, map, keep, contains, arith, eq_iff, eq_refl, str_eq, Bool-cases, Option-cases,
}
use future_bi.Base.Dict.{Dict, lookup}
use future_bi.Semantic.Schema.{Filter, QueryDsl, TimeFilter}
use future_bi.Semantic.Catalog.{FieldMeta}
use future_bi.Security.Policy.{Policy}
use future_bi.Security.Guard.{
  Registry, Verdict, Refusal, granted, refused, ◌>>=◌, apply_policy, enforce, referenced_fields,
  referenced_tables, row_level, reject, forbidden_tables, forbidden_fields,
}
use future_bi.Security.Scope.{is_field_allowed, scoped_fields, resolve_policy, in_scope, fields_of}

keep_none :
    (p : String → Bool) (x : String) (l : List String)
    → keep p l ≡ []
    → contains l x ≡ true
    → p x ≡ false
keep_none p x [] empty has = absurd (ground arith)
keep_none p x (y ∷ l) empty has = elim (Bool-cases (p y)) [
  | inl hit ↦ absurd (ground arith)
  | inr miss ↦ elim (Bool-cases (str_eq y x)) [
    | inl same ↦ subst (λ k. p k ≡ false) ((eq_iff y x).0 same) miss
    | inr other ↦ keep_none p x l (ground arith) (ground arith)
  ]
]

keep_all :
    (p : String → Bool) (l : List String)
    → ((x : String) → contains l x ≡ true → p x ≡ false)
    → keep p l ≡ []
keep_all p [] none_of = refl
keep_all p (y ∷ l) none_of =
    let rest = keep_all p l (λ x has. none_of x (ground arith)) in
    ground (arith, none_of y, eq_refl y)

contains-referenced_tables :
    (columns : Dict FieldMeta) (f : String) (meta : FieldMeta) (fields : List String)
    → lookup f columns ≡ some meta
    → contains fields f ≡ true
    → contains (referenced_tables columns fields) meta.table ≡ true
unfolding referenced_tables
contains-referenced_tables columns f meta [] known has = absurd (ground arith)
contains-referenced_tables columns f meta (g ∷ fields) known has = elim (Bool-cases (str_eq g f)) [
  | inl same ↦
      let at : lookup g columns ≡ some meta = rw ((eq_iff g f).0 same) known in
      rw (referenced_tables, at) (ground (arith, eq_refl meta.table))
  | inr other ↦
      ground (arith, contains-referenced_tables columns f meta fields known (ground arith))
]

contains-keep :
    (p : String → FieldMeta → Bool) (f : String) (meta : FieldMeta) (d : Dict FieldMeta)
    → lookup f d ≡ some meta
    → p f meta ≡ true
    → contains (map (λ e. e.0) (keep (λ e. p e.0 e.1) d)) f ≡ true
unfolding lookup
contains-keep p f meta [] known ok = absurd (ground arith)
contains-keep p f meta ((g, m) ∷ d) known ok = elim (Bool-cases (str_eq g f)) [
  | inl same ↦
      let at : m ≡ meta = ground arith in
      let hit : p g m ≡ true = rw (at, (eq_iff g f).0 same) ok in ground arith
  | inr other ↦ ground (arith, contains-keep p f meta d (ground arith) ok)
]

allowed_part : (a b : Bool) → (a && b) ≡ true → a ≡ true
allowed_part true b h = refl
allowed_part false b h = absurd (ground arith)

all_allowed :
    (columns : Dict FieldMeta) (allowed fields : List String)
    → ((f : String) (meta : FieldMeta)
        → contains fields f ≡ true
        → lookup f columns ≡ some meta
        → contains allowed meta.table ≡ true)
    → (t : String) → contains (referenced_tables columns fields) t ≡ true
    → not (contains allowed t) ≡ false
unfolding referenced_tables
all_allowed columns allowed [] every t has = absurd (ground arith)
all_allowed columns allowed (f ∷ fields) every t has = elim (Option-cases (lookup f columns)) [
  | inl unknown ↦
      all_allowed columns allowed fields (λ g meta used known. every g meta (ground arith) known) t
        (ground arith)
  | inr (meta, known) ↦ elim (Bool-cases (str_eq meta.table t)) [
    | inl same ↦
        subst (λ k. not (contains allowed k) ≡ false) ((eq_iff meta.table t).0 same)
          (ground (arith, every f meta (ground (arith, eq_refl f)) known))
    | inr other ↦
        all_allowed columns allowed fields (λ g meta used known. every g meta (ground arith) known)
          t (ground arith)
  ]
]

reject_then :
    {A : Type 0} (l : List String) (e : List String → Refusal) (k : Unit → Verdict A) (x : A)
    → (reject l e >>= k) ≡ granted x
    → (l ≡ []) × (k tt ≡ granted x)
reject_then [] e k x h = (refl, h)
reject_then (y ∷ l) e k x h = absurd (ground arith)

module _ {F : Type 0} (r : Registry F) (q : QueryDsl F) (who : String) where
  row_level_then :
      (o : Verdict (List (Filter F))) (q' : QueryDsl F)
      → (o >>= (λ extra. granted (record q { filters = q.filters ++ extra }))) ≡ granted q'
      → (extra : List (Filter F)) × (o ≡ granted extra)
        × (q' ≡ record q { filters = q.filters ++ extra })
  row_level_then (granted extra) q' h = (extra, refl, ground arith)
  row_level_then (refused e) q' h = absurd (ground arith)

  -- the policy that `apply_policy` found, and what its checks saw
  abbrev pub Passed : QueryDsl F → Policy F → Type 0
  Passed q' p =
      (keep (λ t. not (contains p.allowed_tables t))
          (referenced_tables r.columns (referenced_fields q))
        ≡ [])
      × (keep (λ f. contains p.forbidden_columns f) (referenced_fields q) ≡ [])
      × (extra : List (Filter F)) × (row_level r.attrs who p.row_filters ≡ granted extra)
      × (q' ≡ record q { filters = q.filters ++ extra })

  enforce-Passed : (p : Policy F) (q' : QueryDsl F) → enforce r q who p ≡ granted q' → Passed q' p
  unfolding enforce
  enforce-Passed p q' h =
      let (tables, h2) = reject_then _ forbidden_tables _ q' h in
      let (fields, h3) = reject_then _ forbidden_fields _ q' h2 in
      let (extra, rows, result) = row_level_then _ q' h3 in (tables, fields, extra, rows, result)

  pub passed :
      (q' : QueryDsl F)
      → apply_policy r q (some who) ≡ granted q'
      → (p : Policy F) × (lookup who r.policies ≡ some p) × Passed q' p
  unfolding apply_policy
  passed q' h = elim (Option-cases (lookup who r.policies)) [
    | inl missing ↦ absurd (ground arith)
    | inr (p, found) ↦ (p, found, enforce-Passed p q' (ground arith))
  ]

  field_allowed :
      (p : Policy F) (field : String)
      → lookup who r.policies ≡ some p
      → is_field_allowed r (some who) field ≡ granted (contains (fields_of r (some p)) field)
  unfolding is_field_allowed scoped_fields resolve_policy
  field_allowed p field found = ground arith

  offered :
      (q' : QueryDsl F) (field : String) (meta : FieldMeta)
      → apply_policy r q (some who) ≡ granted q'
      → contains (referenced_fields q) field ≡ true
      → lookup field r.columns ≡ some meta
      → is_field_allowed r (some who) field ≡ granted true
  offered q' field meta h used known =
      let (p, found, (tables, fields, _, _, _)) = passed q' h in
      let at =
        keep_none (λ t. not (contains p.allowed_tables t)) meta.table _ tables
          (contains-referenced_tables r.columns field meta (referenced_fields q) known used) in
      let free = keep_none (λ f. contains p.forbidden_columns f) field _ fields used in
      rw (field_allowed p field found)
        (ap granted (contains-keep (in_scope p) field meta r.columns known (ground arith)))

  -- the guard does not look at the time filter
  any_time :
      (q' : QueryDsl F) (t : Option TimeFilter)
      → apply_policy r q (some who) ≡ granted q'
      → apply_policy r (record q { time_filter = t }) (some who)
        ≡ granted (record q' { time_filter = t })
  unfolding apply_policy enforce referenced_fields
  any_time q' t h =
      let (p, found, (tables, fields, extra, rows, result)) = passed q' h in
      rw (found, apply_policy, enforce) (rw tables (rw fields (rw rows (rw result refl))))

  -- When the guard lets a query through, every catalogued field of its metrics, its dimensions and its
  -- filters is one that the scope offers to the same principal. The field of the time filter is not among
  -- them: the guard lets the query through just so with any other time filter.
  pub granted-InScope :
      (q' : QueryDsl F) (field : String) (meta : FieldMeta)
      → apply_policy r q (some who) ≡ granted q'
      → contains (referenced_fields q) field ≡ true
      → lookup field r.columns ≡ some meta
      → (is_field_allowed r (some who) field ≡ granted true)
        × ((t : Option TimeFilter)
            → apply_policy r (record q { time_filter = t }) (some who)
              ≡ granted (record q' { time_filter = t }))
  granted-InScope q' field meta h used known =
      (offered q' field meta h used known, λ t. any_time q' t h)

  -- For a principal with a policy whose row filters can be resolved, the guard lets a query through, with
  -- those filters appended, if the scope offers every catalogued field of the query's metrics, dimensions
  -- and filters and the policy forbids none of these fields.
  pub in_scope-granted :
      (p : Policy F) (extra : List (Filter F))
      → lookup who r.policies ≡ some p
      → ((field : String) (meta : FieldMeta)
          → contains (referenced_fields q) field ≡ true
          → lookup field r.columns ≡ some meta
          → in_scope p field meta ≡ true)
      → ((field : String)
          → contains (referenced_fields q) field ≡ true
          → contains p.forbidden_columns field ≡ false)
      → row_level r.attrs who p.row_filters ≡ granted extra
      → apply_policy r q (some who) ≡ granted (record q { filters = q.filters ++ extra })
  unfolding apply_policy enforce
  in_scope-granted p extra found offered free rows =
      rw (found, apply_policy, enforce)
        (rw
          (keep_all (λ t. not (contains p.allowed_tables t)) _
            (all_allowed r.columns p.allowed_tables (referenced_fields q)
              (λ f meta used known. allowed_part _ _ (offered f meta used known))))
          (rw (keep_all (λ f. contains p.forbidden_columns f) _ free) (rw rows refl)))
