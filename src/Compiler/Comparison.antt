-- ===== src/Compiler/Comparison.antt =====
-- compiler/sql_compiler.py, `_compile_with_comparison`: a window and the one before it, joined on the dimensions.
use Prim.Native.String.{◌++◌ as append}
use future_bi.Base.{
  String, Bool, not, Option, none, some, List, [], ◌∷◌, ◌++◌, map, keep, contains, is_some,
  if◌then◌else◌,
}
use future_bi.Base.Text.{show, join}
use future_bi.Semantic.Schema.{
  Date, Comparison, Granularity, Dimension, Metric, OrderBy, QueryDsl, TimeFilter, time_fields,
}
use future_bi.Compiler.Fault.{Compiled, ok, fail, ◌>>=◌, map_all, bad_order, no_time_window}
use future_bi.Compiler.Dates.{resolve_window, shift_window}
use future_bi.Compiler.Quote.{quote_ident}
use future_bi.Compiler.Fields.{
  Setting, concat, qualify, dimension_expr, metric_expr, filter_sql, window_condition,
}
use future_bi.Compiler.From.{from_clause}
use future_bi.Compiler.Plain.{as_item, clause, direction_text}

unfoldable pub suffix : Comparison → String
suffix Comparison.mom = "_mom"
suffix _ = "_yoy"

unfoldable pub align_interval : Comparison → Granularity → String
align_interval Comparison.mom Granularity.quarter = "INTERVAL 3 MONTH"
align_interval Comparison.mom _ = "INTERVAL 1 MONTH"
align_interval _ _ = "INTERVAL 1 YEAR"

abbrev pub is_time : Dimension → Bool
is_time d = contains time_fields d.field

-- the last time dimension
unfoldable pub time_dim : List Dimension → Option Dimension
time_dim [] = none
time_dim (d ∷ l) =
    let rest = time_dim l in if is_some rest then rest else if is_time d then some d else none

-- an expression that may be absent
abbrev pub to_list {ℓ} : {A : Type ℓ} → Option A → List A
to_list none = []
to_list (some a) = a ∷ []

abbrev group_lines : List String → String
group_lines [] = ""
group_lines (e ∷ l) = concat ("  GROUP BY " ∷ join ", " (e ∷ l) ∷ "\n" ∷ [])

-- the three columns of a metric: current value, base value, growth
unfoldable pub metric_columns : String → String → List String
metric_columns cmp alias =
    let q : String = quote_ident alias in
    concat ("cur." ∷ q ∷ " AS " ∷ q ∷ [])
    ∷ concat ("prev." ∷ q ∷ " AS " ∷ quote_ident (append alias "_prev") ∷ [])
    ∷ concat (
        "(cur."
        ∷ q
        ∷ " - prev."
        ∷ q
        ∷ ") / NULLIF(prev."
        ∷ q
        ∷ ", 0) AS "
        ∷ quote_ident (append alias cmp)
        ∷ [])
    ∷ []

abbrev current : String → String
current alias = concat ("cur." ∷ quote_ident alias ∷ " AS " ∷ quote_ident alias ∷ [])

abbrev pub metric_alias : Metric → String
metric_alias m = elim m [
  | Metric.aggregate a ↦ a.alias
  | Metric.ratio a ↦ a.alias
  | Metric.window a ↦ a.alias
]

unfoldable pub all_columns : String → List Metric → List String
all_columns cmp [] = []
all_columns cmp (m ∷ l) = metric_columns cmp (metric_alias m) ++ all_columns cmp l

-- the columns that an order may name
unfoldable pub metric_names : String → List Metric → List String
metric_names cmp [] = []
metric_names cmp (m ∷ l) =
    metric_alias m
    ∷ append (metric_alias m) "_prev"
    ∷ append (metric_alias m) cmp
    ∷ metric_names cmp l

unfoldable pub named_order : List String → OrderBy → Compiled String
named_order allowed o =
    if contains allowed o.field
    then ok (concat (quote_ident o.field ∷ " " ∷ direction_text o.direction ∷ []))
    else fail (bad_order o.field)

abbrev joined : List String → String
joined [] = "\nFROM cur, prev"
joined (k ∷ l) =
    concat ("\nFROM cur LEFT JOIN prev USING (" ∷ join ", " (map quote_ident (k ∷ l)) ∷ ")" ∷ [])

module _ {F : Type 0} (s : Setting F) where
  -- the two expressions of the time dimension, for the window and for the one before it
  unfoldable pub time_exprs :
      TimeFilter → Option Dimension → Compiled (Option ((String × String) × String × String))
  time_exprs tf none = ok none
  time_exprs tf (some d) = do
    e ← dimension_expr s.catalog d tf.granularity
    ok (
        some (
          e,
          concat
              ("date_add(" ∷ e.0 ∷ ", " ∷ align_interval tf.comparison tf.granularity ∷ ")" ∷ []),
          e.1,
        ))

  -- `_window_block`
  unfoldable pub window_block :
      QueryDsl F
      → String
      → String
      → Date × Date
      → List (String × String)
      → List (String × String)
      → Compiled String
  window_block q time_col label w dims time = do
    metrics ← map_all (metric_expr s.catalog) q.metrics
    filters ← map_all (filter_sql s) q.filters
    from ← from_clause s.catalog q
    ok (
        concat (
          label
          ∷ " AS (\n  SELECT "
          ∷ join ", " (map as_item (dims ++ (time ++ metrics)))
          ∷ "\n  "
          ∷ from
          ∷ "\n  WHERE "
          ∷ join " AND " (filters ++ window_condition s time_col w ∷ [])
          ∷ "\n"
          ∷ group_lines (map (λ p. p.0) (dims ++ time))
          ∷ ")"
          ∷ []))

  unfoldable pub compile_comparison_in : QueryDsl F → TimeFilter → Compiled String
  compile_comparison_in q tf = do
    time_col ← qualify s.catalog tf.time_field
    cur ← resolve_window s.as_of tf
    prev ← shift_window cur.0 cur.1 tf.comparison tf.granularity
    time ← time_exprs tf (time_dim q.dimensions)
    dims ←
        map_all (λ d. dimension_expr s.catalog d tf.granularity)
          (keep (λ d. not (is_time d)) q.dimensions)
    cur_block ← window_block q time_col "cur" cur dims (map (λ t. t.0) (to_list time))
    prev_block ← window_block q time_col "prev" prev dims (map (λ t. (t.1, t.2)) (to_list time))
    order ←
        map_all
          (named_order (
            map (λ p. p.1) dims
            ++ (map (λ t. t.0.1) (to_list time) ++ metric_names (suffix tf.comparison) q.metrics)))
          q.order_by
    ok (
        concat (
          "WITH "
          ∷ cur_block
          ∷ ",\n"
          ∷ prev_block
          ∷ "\nSELECT "
          ∷ join ", " (
              map current (map (λ p. p.1) dims ++ map (λ t. t.0.1) (to_list time))
              ++ all_columns (suffix tf.comparison) q.metrics)
          ∷ joined (map (λ p. p.1) dims ++ map (λ t. t.0.1) (to_list time))
          ∷ clause "\nORDER BY " ", " order
          ∷ "\nLIMIT "
          ∷ show q.limit
          ∷ []))

  -- the caller has seen a time filter that compares
  unfoldable pub compile_with_comparison : QueryDsl F → Compiled String
  compile_with_comparison q = elim q.time_filter [
    | none ↦ fail no_time_window
    | some tf ↦ compile_comparison_in q tf
  ]
