-- ===== src/Compiler/From.antt =====
-- compiler/sql_compiler.py, `_collect_tables` to `_from_clause`: which tables a query reads, and how they are joined.
use future_bi.Base.{String, none, some, List, [], ◌∷◌, ◌++◌, map, contains, if◌then◌else◌}
use future_bi.Base.Dict.{Dict, lookup}
use future_bi.Base.Text.{join}
use future_bi.Semantic.Schema.{AggregateMetric, Metric, QueryDsl}
use future_bi.Semantic.Catalog.{Catalog, JoinRule, JoinType}
use future_bi.Compiler.Fault.{Compiled, ok, ◌>>=◌, map_all}
use future_bi.Compiler.Fields.{table_for_field, concat}

unfoldable pub aggregate_metrics : Metric → List AggregateMetric
aggregate_metrics (Metric.ratio m) = m.numerator ∷ m.denominator ∷ []
aggregate_metrics (Metric.window m) = m.base ∷ []
aggregate_metrics (Metric.aggregate m) = m ∷ []

unfoldable pub all_aggregates : List Metric → List AggregateMetric
all_aggregates [] = []
all_aggregates (m ∷ l) = aggregate_metrics m ++ all_aggregates l

module _ (c : Catalog) where
  -- the set as a list that is only searched
  unfoldable pub collect_tables : {F : Type 0} → QueryDsl F → Compiled (List String)
  collect_tables q = do
    dims ← map_all (λ d. table_for_field c d.field) q.dimensions
    filters ← map_all (λ f. table_for_field c f.field) q.filters
    metrics ← map_all (λ am. table_for_field c am.field) (all_aggregates q.metrics)
    ok (dims ++ (filters ++ metrics))

  -- `catalog.ALIASES.get(table, table)`
  abbrev pub alias_or : String → String
  alias_or table = elim (lookup table c.aliases) [ none ↦ table | some a ↦ a ]

  abbrev keyword : JoinType → String
  keyword t = elim t [ JoinType.left ↦ "LEFT JOIN" | JoinType.inner ↦ "JOIN" ]

  unfoldable pub join_sql : String → JoinRule → String
  join_sql table rule =
      let alias : String = alias_or table in
      let fact_alias : String = alias_or c.fact_table in
      concat (
        keyword rule.join_type
        ∷ " "
        ∷ table
        ∷ " "
        ∷ alias
        ∷ " ON "
        ∷ join " AND "
            (map (λ p. concat (alias ∷ "." ∷ p.0 ∷ " = " ∷ fact_alias ∷ "." ∷ p.1 ∷ [])) rule.on)
        ∷ [])

  -- the joins of the rules whose table is used
  unfoldable pub joins_of : List String → Dict JoinRule → List String
  joins_of tables [] = []
  joins_of tables ((table, rule) ∷ l) =
      let rest = joins_of tables l in
      if contains tables table then join_sql table rule ∷ rest else rest

  abbrev join_lines : List String → String
  join_lines [] = ""
  join_lines (j ∷ l) = concat ("\n" ∷ join "\n" (j ∷ l) ∷ [])

  unfoldable pub from_clause : {F : Type 0} → QueryDsl F → Compiled String
  from_clause q = do
    tables ← collect_tables q
    ok (
        concat (
          "FROM "
          ∷ c.fact_table
          ∷ " f"
          ∷ join_lines (joins_of tables c.join_rules ++ joins_of tables c.fact_join_rules)
          ∷ []))
