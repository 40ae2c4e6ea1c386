-- ===== src/Compiler/Fields.antt =====
-- compiler/sql_compiler.py, `_time_field_qualify` and `_table_for_field` to `_time_dimension_expr`: the SQL of
-- fields, filters, metrics and dimensions. The catalog, the day that counts as today and the floats are one
-- record.
use future_bi.Base.{◌-◌, String, none, some, List, [], ◌∷◌, contains, if◌then◌else◌, keep}
use future_bi.Base.Dict.{lookup}
use future_bi.Base.Text.{show, join}
use future_bi.Semantic.Schema.{
  Date, TimeFilter, AggFunc, AggregateMetric, WindowMetric, WindowFunc, Metric, Dimension, Filter,
  FilterOperator, FilterValue, Granularity, QueryDsl, time_fields,
}
use future_bi.Semantic.Catalog.{Catalog, FieldMeta, Dtype}
use future_bi.Compiler.Fault.{
  Compiled, ok, fail, ◌>>=◌, map_all, unregistered, no_alias, bad_value, window_here,
  no_time_dimension, two_time_dimensions,
}
use future_bi.Compiler.Dates.{resolve_window}
use future_bi.Compiler.Quote.{Floats, literal, show_date}

pub record Setting (F : Type 0) : Type 0 where
  pub catalog : Catalog
  pub as_of : Date
  pub floats : Floats F

-- the texts one after another
abbrev pub concat : List String → String
concat l = join "" l

module _ (c : Catalog) where
  -- `COLUMNS.get(field)`, with the error that every caller raises for an unknown field
  unfoldable pub field_meta : String → Compiled FieldMeta
  field_meta field = elim (lookup field c.columns) [
    | none ↦ fail (unregistered field)
    | some m ↦ ok m
  ]

  unfoldable pub table_for_field : String → Compiled String
  table_for_field field = do m ← field_meta field; ok m.table

  -- `catalog.ALIASES[table]`
  unfoldable pub alias_of : String → Compiled String
  alias_of table = elim (lookup table c.aliases) [ none ↦ fail (no_alias table) | some a ↦ ok a ]

  unfoldable pub qualify : String → Compiled String
  qualify field = do
    m ← field_meta field
    a ← alias_of m.table
    ok (concat (a ∷ "." ∷ m.column ∷ []))

  unfoldable pub aggregate_expr : AggregateMetric → Compiled String
  aggregate_expr am = do
    col ← qualify am.field
    ok (elim am.agg [
      | AggFunc.sum ↦ concat ("SUM(" ∷ col ∷ ")" ∷ [])
      | AggFunc.count ↦ concat ("COUNT(" ∷ col ∷ ")" ∷ [])
      | AggFunc.count_distinct ↦ concat ("COUNT(DISTINCT " ∷ col ∷ ")" ∷ [])
      | AggFunc.avg ↦ concat ("AVG(" ∷ col ∷ ")" ∷ [])
      | AggFunc.min ↦ concat ("MIN(" ∷ col ∷ ")" ∷ [])
      | AggFunc.max ↦ concat ("MAX(" ∷ col ∷ ")" ∷ [])
    ])

  -- an expression and the alias that it goes by
  unfoldable pub metric_expr : Metric → Compiled (String × String)
  metric_expr (Metric.window m) = fail window_here
  metric_expr (Metric.ratio m) = do
    num ← aggregate_expr m.numerator
    den ← aggregate_expr m.denominator
    ok (concat ("COALESCE(" ∷ num ∷ ", 0) / NULLIF(" ∷ den ∷ ", 0)" ∷ []), m.alias)
  metric_expr (Metric.aggregate m) = do e ← aggregate_expr m; ok (e, m.alias)

  -- `window_size` is there for a moving average: `_check_size`
  unfoldable pub window_expr : WindowMetric → String → Compiled String
  window_expr wm order_expr = do
    base ← aggregate_expr wm.base
    elim wm.func [
      | WindowFunc.cumsum ↦
          ok (concat ("SUM(" ∷ base ∷ ") OVER (ORDER BY " ∷ order_expr ∷ ")" ∷ []))
      | WindowFunc.moving_avg ↦ elim wm.window_size [
        | none ↦ fail bad_value
        | some n ↦ ok (
            concat (
              "AVG("
              ∷ base
              ∷ ") OVER (ORDER BY "
              ∷ order_expr
              ∷ " ROWS BETWEEN "
              ∷ show (n - 1)
              ∷ " PRECEDING AND CURRENT ROW)"
              ∷ []))
      ]
    ]

  abbrev pub granularity_text : Granularity → String
  granularity_text g = elim g [
    | Granularity.day ↦ "day"
    | Granularity.week ↦ "week"
    | Granularity.month ↦ "month"
    | Granularity.quarter ↦ "quarter"
  ]

  -- `d.alias or d.field`; the pattern of aliases leaves no empty one
  abbrev pub dimension_alias : Dimension → String
  dimension_alias d = elim d.alias [ none ↦ d.field | some a ↦ a ]

  unfoldable pub dimension_expr : Dimension → Granularity → Compiled (String × String)
  dimension_expr d g = do
    qual ← qualify d.field
    ok (
      if contains time_fields d.field
          then concat ("date_trunc('" ∷ granularity_text g ∷ "', " ∷ qual ∷ ")" ∷ [])
          else qual,
      dimension_alias d,
    )

module _ {F : Type 0} (s : Setting F) where
  -- `op_map`, where the last two have no entry
  abbrev op_text : FilterOperator → String
  op_text op = elim op [
    | FilterOperator.eq ↦ "="
    | FilterOperator.ne ↦ "<>"
    | FilterOperator.gt ↦ ">"
    | FilterOperator.gte ↦ ">="
    | FilterOperator.lt ↦ "<"
    | FilterOperator.lte ↦ "<="
    | FilterOperator.in_list ↦ "IN"
    | FilterOperator.between ↦ "BETWEEN"
  ]

  -- the condition of one operator; `_check_value` gives each the shape of value that it reads
  unfoldable pub condition : String → Dtype → FilterOperator → FilterValue F → Compiled String
  condition col dtype FilterOperator.in_list (FilterValue.many l) = do
    vals ← map_all (λ v. literal s.floats v dtype) l
    ok (concat (col ∷ " IN (" ∷ join ", " vals ∷ ")" ∷ []))
  condition col dtype FilterOperator.between (FilterValue.many (lo ∷ hi ∷ [])) = do
    low ← literal s.floats lo dtype
    high ← literal s.floats hi dtype
    ok (concat (col ∷ " BETWEEN " ∷ low ∷ " AND " ∷ high ∷ []))
  condition col dtype FilterOperator.in_list (FilterValue.one v) = fail bad_value
  condition col dtype FilterOperator.between (FilterValue.one v) = fail bad_value
  condition col dtype op (FilterValue.one v) = do
    t ← literal s.floats v dtype
    ok (concat (col ∷ " " ∷ op_text op ∷ " " ∷ t ∷ []))
  condition col dtype _ _ = fail bad_value

  unfoldable pub filter_sql : Filter F → Compiled String
  filter_sql f = do
    m ← field_meta s.catalog f.field
    a ← alias_of s.catalog m.table
    condition (concat (a ∷ "." ∷ m.column ∷ [])) m.dtype f.operator f.value

  -- `col >= TIMESTAMP 'start' AND col < TIMESTAMP 'end'`
  abbrev pub window_condition : String → Date × Date → String
  window_condition col w = concat (
      col
      ∷ " >= TIMESTAMP '"
      ∷ show_date w.0
      ∷ "' AND "
      ∷ col
      ∷ " < TIMESTAMP '"
      ∷ show_date w.1
      ∷ "'"
      ∷ [])

  unfoldable pub time_window_sql : TimeFilter → Compiled String
  time_window_sql tf = do
    w ← resolve_window s.as_of tf
    col ← qualify s.catalog tf.time_field
    ok (window_condition col w)

  unfoldable pub time_dimension_expr : QueryDsl F → Granularity → Compiled (String × String)
  time_dimension_expr q g = elim (keep (λ d. contains time_fields d.field) q.dimensions) [
    | [] ↦ fail no_time_dimension
    | d ∷ [] ↦ dimension_expr s.catalog d g
    | _ ∷ _ ∷ _ ↦ fail two_time_dimensions
  ]
