-- ===== src/Security/Scope.antt =====
-- security/scope.py: what a principal may use, told to the model before it writes a query. The globals
-- are arguments, sets are lists that are only searched.
use future_bi.Base.{String, Bool, not, ◌&&◌, Option, none, some, List, map, keep, contains}
use future_bi.Base.Dict.{Dict, lookup}
use future_bi.Semantic.Catalog.{FieldMeta}
use future_bi.Security.Policy.{Policy}
use future_bi.Security.Guard.{Registry, Verdict, granted, refused, unknown_principal, ◌>>=◌}

module _ {F : Type 0} where
  -- `None` stands for no limit
  unfoldable pub resolve_policy : Registry F → Option String → Verdict (Option (Policy F))
  resolve_policy r none = granted none
  resolve_policy r (some principal) = elim (lookup principal r.policies) [
    | none ↦ refused (unknown_principal principal)
    | some p ↦ granted (some p)
  ]

  abbrev tables_of : Registry F → Option (Policy F) → List String
  tables_of r none = map (λ e. e.1.table) r.columns
  tables_of r (some p) = p.allowed_tables

  unfoldable pub scoped_tables : Registry F → Option String → Verdict (List String)
  scoped_tables r principal = do policy ← resolve_policy r principal; granted (tables_of r policy)

  abbrev pub in_scope : Policy F → String → FieldMeta → Bool
  in_scope p field meta =
      contains p.allowed_tables meta.table && not (contains p.forbidden_columns field)

  abbrev pub fields_of : Registry F → Option (Policy F) → List String
  fields_of r none = map (λ e. e.0) r.columns
  fields_of r (some p) = map (λ e. e.0) (keep (λ e. in_scope p e.0 e.1) r.columns)

  unfoldable pub scoped_fields : Registry F → Option String → Verdict (List String)
  scoped_fields r principal = do policy ← resolve_policy r principal; granted (fields_of r policy)

  unfoldable pub scoped_catalog : Registry F → Option String → Verdict (Dict FieldMeta)
  scoped_catalog r principal = do
    allowed ← scoped_fields r principal
    granted (keep (λ e. contains allowed e.0) r.columns)

  unfoldable pub is_field_allowed : Registry F → Option String → String → Verdict Bool
  is_field_allowed r principal field = do
    allowed ← scoped_fields r principal
    granted (contains allowed field)

  unfoldable pub is_table_allowed : Registry F → Option String → String → Verdict Bool
  is_table_allowed r principal table = do
    allowed ← scoped_tables r principal
    granted (contains allowed table)
