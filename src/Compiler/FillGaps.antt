-- ===== src/Compiler/FillGaps.antt =====
-- compiler/sql_compiler.py, `_compile_with_fill_gaps`: one row per period of the window, with 0 where the data has none.
use future_bi.Base.{String, none, some, List, [], ◌∷◌, ◌++◌, map}
use future_bi.Base.Text.{show, join}
use future_bi.Semantic.Schema.{Date, Granularity, QueryDsl, TimeFilter}
use future_bi.Compiler.Fault.{Compiled, ok, fail, ◌>>=◌, map_all, no_time_window}
use future_bi.Compiler.Dates.{resolve_window, sub_days, sub_months}
use future_bi.Compiler.Quote.{quote_ident, show_date}
use future_bi.Compiler.Fields.{
  Setting, concat, metric_expr, filter_sql, time_window_sql, time_dimension_expr,
}
use future_bi.Compiler.From.{from_clause}
use future_bi.Compiler.Plain.{as_item}

-- the step of the series
unfoldable pub step_text : Granularity → String
step_text Granularity.day = "INTERVAL 1 DAY"
step_text Granularity.week = "INTERVAL 1 WEEK"
step_text Granularity.month = "INTERVAL 1 MONTH"
step_text Granularity.quarter = "INTERVAL 3 MONTH"

-- `end_incl`, the last element that the series may have
unfoldable pub last_step : Granularity → Date → Compiled Date
last_step Granularity.day end = sub_days 1 end
last_step Granularity.week end = sub_days 7 end
last_step Granularity.month end = sub_months end 1
last_step Granularity.quarter end = sub_months end 3

abbrev filled : String × String → String
filled m = concat ("COALESCE(a." ∷ quote_ident m.1 ∷ ", 0) AS " ∷ quote_ident m.1 ∷ [])

module _ {F : Type 0} (s : Setting F) where
  -- the text of the query, from its parts
  fill_gaps_text :
      QueryDsl F
      → TimeFilter
      → String × String
      → Date
      → Date
      → List (String × String)
      → List String
      → String
      → String
  fill_gaps_text q tf time start end_incl metrics conditions from =
      let t : String = quote_ident time.1 in
      concat (
        "WITH __spine AS (\n  SELECT UNNEST(generate_series(TIMESTAMP '"
        ∷ show_date start
        ∷ "', TIMESTAMP '"
        ∷ show_date end_incl
        ∷ "', "
        ∷ step_text tf.granularity
        ∷ ")) AS "
        ∷ t
        ∷ "\n),\n__agg AS (\n  SELECT "
        ∷ join ", " (as_item time ∷ map as_item metrics)
        ∷ "\n  "
        ∷ from
        ∷ "\n  WHERE "
        ∷ join " AND " conditions
        ∷ "\n  GROUP BY "
        ∷ time.0
        ∷ "\n)\nSELECT "
        ∷ join ", " (concat ("s." ∷ t ∷ " AS " ∷ t ∷ []) ∷ map filled metrics)
        ∷ "\nFROM __spine s\nLEFT JOIN __agg a ON a."
        ∷ t
        ∷ " = s."
        ∷ t
        ∷ "\nORDER BY s."
        ∷ t
        ∷ " ASC\nLIMIT "
        ∷ show q.limit
        ∷ [])

  unfoldable pub fill_gaps_in : QueryDsl F → TimeFilter → Compiled String
  unfolding fill_gaps_text
  fill_gaps_in q tf = do
    w ← resolve_window s.as_of tf
    time ← time_dimension_expr s q tf.granularity
    end_incl ← last_step tf.granularity w.1
    metrics ← map_all (metric_expr s.catalog) q.metrics
    filters ← map_all (filter_sql s) q.filters
    within ← time_window_sql s tf
    from ← from_clause s.catalog q
    ok (fill_gaps_text q tf time w.0 end_incl metrics (filters ++ within ∷ []) from)

  unfoldable pub compile_with_fill_gaps : QueryDsl F → Compiled String
  compile_with_fill_gaps q = elim q.time_filter [
    | none ↦ fail no_time_window
    | some tf ↦ fill_gaps_in q tf
  ]
