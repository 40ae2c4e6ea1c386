-- ===== src/Compiler/TopN.antt =====
-- compiler/sql_compiler.py, `_compile_with_top_n`: the first rows of each group, by a ranked inner query.
use future_bi.Base.{String, none, some, List, [], ◌∷◌, ◌++◌, map}
use future_bi.Base.Dict.{Dict, lookup, insert}
use future_bi.Base.Text.{show, join}
use future_bi.Semantic.Schema.{Dimension, OrderBy, QueryDsl, TopN}
use future_bi.Compiler.Fault.{Compiled, ok, fail, ◌>>=◌, map_all, bad_partition, bad_order}
use future_bi.Compiler.Quote.{quote_ident}
use future_bi.Compiler.Fields.{Setting, concat, dimension_expr, metric_expr}
use future_bi.Compiler.From.{from_clause}
use future_bi.Compiler.Plain.{
  as_item, clause, direction_text, granularity_of, by_field, where_items,
}

-- `metric_expr_by_alias`
unfoldable pub by_alias : List (String × String) → Dict String → Dict String
by_alias [] m = m
by_alias ((expr, alias) ∷ l) m = by_alias l (insert alias expr m)

-- the expression and the alias of a partition field
unfoldable pub partition_item : Dict (String × String) → String → Compiled (String × String)
partition_item dims field = elim (lookup field dims) [
  | none ↦ fail (bad_partition field)
  | some e ↦ ok e
]

unfoldable pub rank_expr : Dict String → Dict (String × String) → String → Compiled String
rank_expr metrics dims field = elim (lookup field metrics) [
  | some e ↦ ok e
  | none ↦ elim (lookup field dims) [ none ↦ fail (bad_order field) | some e ↦ ok e.0 ]
]

unfoldable pub rank_item : Dict String → Dict (String × String) → OrderBy → Compiled String
rank_item metrics dims o = do
  e ← rank_expr metrics dims o.field
  ok (concat (e ∷ " " ∷ direction_text o.direction ∷ []))

-- the alias that `dim_alias_by_field` has for a dimension
abbrev outer_alias : Dict (String × String) → Dimension → String
outer_alias dims d = elim (lookup d.field dims) [
  | none ↦ quote_ident d.field
  | some e ↦ quote_ident e.1
]

abbrev outer_order : OrderBy → String
outer_order o = concat (quote_ident o.field ∷ " " ∷ direction_text o.direction ∷ [])

module _ {F : Type 0} (s : Setting F) where
  -- the text of the query, from its parts
  top_n_text :
      QueryDsl F
      → TopN
      → Dict (String × String)
      → List (String × String)
      → List (String × String)
      → List (String × String)
      → List String
      → List String
      → String
      → String
  top_n_text q top by dims metrics partition ranks conditions from = concat (
      "SELECT "
      ∷ join ", " (map (outer_alias by) q.dimensions ++ map (λ p. quote_ident p.1) metrics)
      ∷ "\nFROM (\nSELECT "
      ∷ join ", " (map as_item dims ++ map as_item metrics)
      ∷ ",\n         ROW_NUMBER() OVER (PARTITION BY "
      ∷ join ", " (map (λ p. p.0) partition)
      ∷ " ORDER BY "
      ∷ join ", " ranks
      ∷ ") AS __rn\n"
      ∷ from
      ∷ clause "\nWHERE " " AND " conditions
      ∷ "\nGROUP BY "
      ∷ join ", " (map (λ p. p.0) dims)
      ∷ "\n) AS __ranked\nWHERE __rn <= "
      ∷ show top.n
      ∷ "\nORDER BY "
      ∷ join ", " (
          map (λ p. concat (quote_ident p.1 ∷ " ASC" ∷ [])) partition
          ++ map outer_order top.order_by)
      ∷ "\nLIMIT "
      ∷ show q.limit
      ∷ [])

  unfoldable pub compile_with_top_n : QueryDsl F → TopN → Compiled String
  unfolding top_n_text
  compile_with_top_n q top = do
    dims ← map_all (λ d. dimension_expr s.catalog d (granularity_of q.time_filter)) q.dimensions
    metrics ← map_all (metric_expr s.catalog) q.metrics
    partition ← map_all (partition_item (by_field q.dimensions dims [])) top.partition_by
    ranks ← map_all (rank_item (by_alias metrics []) (by_field q.dimensions dims [])) top.order_by
    conditions ← where_items s q
    from ← from_clause s.catalog q
    ok (
        top_n_text q top (by_field q.dimensions dims []) dims metrics partition ranks conditions
          from)
