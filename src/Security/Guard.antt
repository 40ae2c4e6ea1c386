-- ===== src/Security/Guard.antt =====
-- security/guard.py: a principal's policy applied to a query. Sets are lists that are only searched;
-- the globals are arguments.
use future_bi.Base.{
  String, not, ◌&&◌, Option, none, some, List, [], ◌∷◌, ◌++◌, map, keep, contains, if◌then◌else◌,
}
use future_bi.Base.Dict.{Dict, lookup}
use future_bi.Base.Text.{codes, is_nonempty, is_prefix, drop_chars}
use future_bi.Semantic.Schema.{Metric, Filter, FilterValue, Scalar, QueryDsl, check_value}
use future_bi.Semantic.Catalog.{FieldMeta}
use future_bi.Security.Policy.{Policy, RowFilter, Attrs}

-- `SecurityError` by its messages, which list tables and fields sorted and once, here in the order of
-- their use; and pydantic's `ValidationError` of a row filter.
pub data Refusal : Type 0 where
  unknown_principal : String → Refusal
  bad_template : String → Refusal
  missing_attr : String → Refusal
  forbidden_tables forbidden_fields : List String → Refusal
  invalid_filter : String → Refusal

pub data Verdict (A : Type 0) : Type 0 where
  granted : A → Verdict A
  refused : Refusal → Verdict A

infixl 5 ◌>>=◌
abbrev pub ◌>>=◌ : {A B : Type 0} → Verdict A → (A → Verdict B) → Verdict B
granted a >>= f = f a
refused e >>= f = refused e

pub record Registry (F : Type 0) : Type 0 where
  pub policies : Dict (Policy F)
  pub attrs : Attrs
  pub columns : Dict FieldMeta

abbrev pub texts : {F : Type 0} → List String → FilterValue F
texts l = FilterValue.many (map Scalar.text l)

-- `PRINCIPAL_ATTRS.get(principal, {})[attr]`
abbrev pub attr_of : Attrs → String → String → Option (List String)
attr_of attrs principal attr = elim (lookup principal attrs) [
  | none ↦ none
  | some d ↦ lookup attr d
]

module _ {F : Type 0} where
  abbrev with_attr : RowFilter F → String → Option (List String) → Verdict (RowFilter F)
  with_attr rf attr none = refused (missing_attr attr)
  with_attr rf attr (some l) = granted (record rf { param = none; value = some (texts l) })

  unfoldable pub resolve_row_filter : Attrs → String → RowFilter F → Verdict (RowFilter F)
  resolve_row_filter attrs principal rf = elim rf.param [
    | none ↦ granted rf
    | some param ↦
        if is_prefix (codes "principal.") (codes param)
        then with_attr rf (drop_chars 10 param) (attr_of attrs principal (drop_chars 10 param))
        else refused (bad_template param)
  ]

  abbrev check_filter : String → Filter F → Verdict (Filter F)
  check_filter field f =
      if is_nonempty field && check_value f.operator f.value
      then granted f
      else refused (invalid_filter field)

  -- `Filter.model_validate`: the field has a name, and a value is there that fits the operator
  unfoldable pub model_validate : RowFilter F → Verdict (Filter F)
  model_validate rf = elim rf.value [
    | none ↦ refused (invalid_filter rf.field)
    | some v ↦
        check_filter rf.field (record { field = rf.field; operator = rf.operator; value = v })
  ]

-- the fields of one metric
unfoldable pub metric_fields : Metric → List String
metric_fields (Metric.ratio m) = m.numerator.field ∷ m.denominator.field ∷ []
metric_fields (Metric.window m) = m.base.field ∷ []
metric_fields (Metric.aggregate m) = m.field ∷ []

unfoldable pub all_metric_fields : List Metric → List String
all_metric_fields [] = []
all_metric_fields (m ∷ l) = metric_fields m ++ all_metric_fields l

unfoldable pub referenced_fields : {F : Type 0} → QueryDsl F → List String
referenced_fields q =
    all_metric_fields q.metrics ++ (map (λ d. d.field) q.dimensions ++ map (λ f. f.field) q.filters)

-- `_referenced_tables`: unregistered fields are left to the compiler
unfoldable pub referenced_tables : Dict FieldMeta → List String → List String
referenced_tables columns [] = []
referenced_tables columns (f ∷ l) =
    let rest = referenced_tables columns l in
    elim (lookup f columns) [ none ↦ rest | some meta ↦ meta.table ∷ rest ]

abbrev pub reject : List String → (List String → Refusal) → Verdict Unit
reject [] refusal = granted tt
reject (x ∷ l) refusal = refused (refusal (x ∷ l))

module _ {F : Type 0} where
  unfoldable pub row_level : Attrs → String → List (RowFilter F) → Verdict (List (Filter F))
  row_level attrs principal [] = granted []
  row_level attrs principal (rf ∷ l) = do
    resolved ← resolve_row_filter attrs principal rf
    f ← model_validate resolved
    rest ← row_level attrs principal l
    granted (f ∷ rest)

  -- the body of `apply_policy` from the policy on
  unfoldable pub enforce : Registry F → QueryDsl F → String → Policy F → Verdict (QueryDsl F)
  enforce r q principal p =
      let fields : List String = referenced_fields q in
      do
        _ ←
            reject
              (keep (λ t. not (contains p.allowed_tables t)) (referenced_tables r.columns fields))
              forbidden_tables
        _ ← reject (keep (λ f. contains p.forbidden_columns f) fields) forbidden_fields
        extra ← row_level r.attrs principal p.row_filters
        granted (record q { filters = q.filters ++ extra })

  unfoldable pub apply_policy : Registry F → QueryDsl F → Option String → Verdict (QueryDsl F)
  apply_policy r q none = granted q
  apply_policy r q (some principal) = elim (lookup principal r.policies) [
    | none ↦ refused (unknown_principal principal)
    | some p ↦ enforce r q principal p
  ]
