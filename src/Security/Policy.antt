-- ===== src/Security/Policy.antt =====
-- security/policy.py: policies and the attributes of principals, which `policy_loader` replaces at the
-- start of the service. A Python set is a list that is only searched.
use future_bi.Base.{String, Option, none, some, List, [], ◌∷◌}
use future_bi.Base.Dict.{Dict}
use future_bi.Semantic.Schema.{FilterOperator, FilterValue}

-- An element of `row_filters`: a dictionary in the source. A `param` that is no text is refused like one
-- without the prefix, and an operator that the schema lacks fails the validation; neither is a value here.
pub record RowFilter (F : Type 0) : Type 0 where
  pub field : String
  pub operator : FilterOperator
  pub value : Option (FilterValue F)
  pub param : Option String

pub record Policy (F : Type 0) : Type 0 where
  pub name : String
  pub allowed_tables : List String
  pub forbidden_columns : List String
  pub row_filters : List (RowFilter F)

-- `ValueError` of `__post_init__`: no table at all
unfoldable pub post_init : {F : Type 0} → Policy F → Option (Policy F)
post_init p = elim p.allowed_tables [ [] ↦ none | _ ∷ _ ↦ some p ]

-- `PRINCIPAL_ATTRS`
abbrev pub Attrs : Type 0
Attrs = Dict (Dict (List String))

abbrev pub all_tables : List String
all_tables = "fact_orders" ∷ "fact_refunds" ∷ "dim_user" ∷ "dim_product" ∷ "dim_shop" ∷ []

abbrev pub builtin_attrs : Attrs
builtin_attrs =
    ("analyst", ("provinces", "广东" ∷ "浙江" ∷ "江苏" ∷ "北京" ∷ "上海" ∷ []) ∷ [])
    ∷ ("restricted", ("provinces", "广东" ∷ []) ∷ [])
    ∷ []

abbrev by_province : {F : Type 0} → RowFilter F
by_province = record {
  field = "province";
  operator = FilterOperator.in_list;
  value = none;
  param = some "principal.provinces";
}

abbrev pub builtin_policies : {F : Type 0} → Dict (Policy F)
builtin_policies =
    (
      "admin",
      record {
        name = "admin";
        allowed_tables = all_tables;
        forbidden_columns = [];
        row_filters = [];
      },
    )
    ∷ (
      "analyst",
      record {
        name = "analyst";
        allowed_tables = all_tables;
        forbidden_columns = [];
        row_filters = by_province ∷ [];
      },
    )
    ∷ (
      "restricted",
      record {
        name = "restricted";
        allowed_tables = "fact_orders" ∷ "dim_user" ∷ "dim_product" ∷ [];
        forbidden_columns = "discount_amount" ∷ "refund_amount" ∷ [];
        row_filters = by_province ∷ [];
      },
    )
    ∷ []
