-- ===== src/Compiler/Plain.antt =====
-- compiler/sql_compiler.py, `compile_sql` from its plain path on: the plain query, with groups, windows, order and limit.
use future_bi.Base.{
  String, Bool, true, false, ◌&&◌, ◌||◌, Option, none, some, List, [], ◌∷◌, ◌++◌, map, contains,
  is_some, if◌then◌else◌,
}
use future_bi.Base.Dict.{Dict, lookup, insert}
use future_bi.Base.Text.{show, join}
use future_bi.Semantic.Schema.{
  Metric, Dimension, Granularity, OrderBy, SortDirection, QueryDsl, TimeFilter, time_fields,
}
use future_bi.Semantic.Catalog.{Catalog}
use future_bi.Compiler.Fault.{Compiled, ok, fail, ◌>>=◌, map_all, bad_order, no_time_dimension}
use future_bi.Compiler.Quote.{quote_ident}
use future_bi.Compiler.Fields.{
  Setting, concat, dimension_expr, metric_expr, window_expr, filter_sql, time_window_sql,
}
use future_bi.Compiler.From.{from_clause}

-- `f"{expr} AS {_quote_ident(alias)}"`
abbrev pub as_item : String × String → String
as_item p = concat (p.0 ∷ " AS " ∷ quote_ident p.1 ∷ [])

-- a clause that is left out when it is empty
abbrev pub clause : String → String → List String → String
clause start sep [] = ""
clause start sep (x ∷ l) = concat (start ∷ join sep (x ∷ l) ∷ [])

abbrev pub direction_text : SortDirection → String
direction_text d = elim d [ SortDirection.asc ↦ "ASC" | SortDirection.desc ↦ "DESC" ]

abbrev pub granularity_of : Option TimeFilter → Granularity
granularity_of tf = elim tf [ none ↦ Granularity.day | some t ↦ t.granularity ]

-- the expression of the last time dimension
unfoldable pub last_time_expr : List Dimension → List (String × String) → Option String
last_time_expr (d ∷ dims) (e ∷ exprs) =
    let rest = last_time_expr dims exprs in
    if is_some rest then rest else if contains time_fields d.field then some e.0 else none
last_time_expr _ _ = none

-- `dim_alias_by_field`: a later dimension of a field replaces an earlier one
unfoldable pub by_field :
    List Dimension → List (String × String) → Dict (String × String) → Dict (String × String)
by_field (d ∷ dims) (e ∷ exprs) m = by_field dims exprs (insert d.field e m)
by_field _ _ m = m

module _ (c : Catalog) where
  plain_window : Metric → Option String → Compiled (String × String)
  plain_window (Metric.window m) (some order_expr) = do
    e ← window_expr c m order_expr
    ok (e, m.alias)
  plain_window (Metric.window m) none = fail no_time_dimension
  plain_window (Metric.aggregate m) time_expr = metric_expr c (Metric.aggregate m)
  plain_window (Metric.ratio m) time_expr = metric_expr c (Metric.ratio m)

  -- the column that an order refers to: an alias, or the alias of a grouped field
  unfoldable pub order_ref :
      List String → List String → Dict (String × String) → OrderBy → Compiled String
  order_ref metric_aliases dim_aliases dims o =
      if contains metric_aliases o.field || contains dim_aliases o.field
      then ok o.field
      else if is_some (lookup o.field c.columns)
      then elim (lookup o.field dims) [ none ↦ fail (bad_order o.field) | some e ↦ ok e.1 ]
      else fail (bad_order o.field)

  unfoldable pub order_item :
      List String → List String → Dict (String × String) → OrderBy → Compiled String
  order_item metric_aliases dim_aliases dims o = do
    ref ← order_ref metric_aliases dim_aliases dims o
    ok (concat (quote_ident ref ∷ " " ∷ direction_text o.direction ∷ []))

abbrev pub is_empty {ℓ} : {A : Type ℓ} → List A → Bool
is_empty [] = true
is_empty (x ∷ l) = false

module _ {F : Type 0} (s : Setting F) where
  -- the conditions of the filters, then that of the time
  unfoldable pub where_items : QueryDsl F → Compiled (List String)
  where_items q = do
    filters ← map_all (filter_sql s) q.filters
    elim q.time_filter [
      | none ↦ ok filters
      | some tf ↦ do time ← time_window_sql s tf; ok (filters ++ time ∷ [])
    ]

  -- the order is written only for a grouped query
  unfoldable pub order_items :
      QueryDsl F → List (String × String) → List (String × String) → Compiled (List String)
  order_items q dims metrics =
      if is_empty dims
      then ok []
      else map_all
          (order_item s.catalog (map (λ p. p.1) metrics) (map (λ p. p.1) dims)
            (by_field q.dimensions dims []))
          q.order_by

  -- `LIMIT` is left out of a query for one row
  abbrev limit_clause : QueryDsl F → List (String × String) → String
  limit_clause q dims =
      if is_empty dims && is_empty q.order_by then "" else concat ("\nLIMIT " ∷ show q.limit ∷ [])

  unfoldable pub compile_plain : QueryDsl F → Compiled String
  unfolding plain_window
  compile_plain q = do
    from ← from_clause s.catalog q
    dims ← map_all (λ d. dimension_expr s.catalog d (granularity_of q.time_filter)) q.dimensions
    metrics ← map_all (λ m. plain_window s.catalog m (last_time_expr q.dimensions dims)) q.metrics
    conditions ← where_items q
    order ← order_items q dims metrics
    ok (
        concat (
          "SELECT "
          ∷ join ", " (map as_item dims ++ map as_item metrics)
          ∷ "\n"
          ∷ from
          ∷ clause "\nWHERE " " AND " conditions
          ∷ clause "\nGROUP BY " ", " (map (λ p. p.0) dims)
          ∷ clause "\nORDER BY " ", " order
          ∷ limit_clause q dims
          ∷ []))
