-- ===== src/Compiler/Sql.antt =====
-- compiler/sql_compiler.py, `compile_sql`: which of the four forms a query takes.
pub mod Known
pub mod Joins
use future_bi.Base.{
  String, Bool, true, false, ◌||◌, Option, none, some, List, any, is_some, if◌then◌else◌,
}
use future_bi.Semantic.Schema.{Comparison, Metric, QueryDsl, TimeFilter}
use future_bi.Compiler.Fault.{Compiled, fail, conflict}
use future_bi.Compiler.Fields.{Setting}
use future_bi.Compiler.Plain.{compile_plain}
use future_bi.Compiler.Comparison.{compile_with_comparison}
use future_bi.Compiler.TopN.{compile_with_top_n}
use future_bi.Compiler.FillGaps.{compile_with_fill_gaps}

-- `isinstance(m, WindowMetric)`
abbrev pub is_window : Metric → Bool
is_window m = elim m [ Metric.window w ↦ true | _ ↦ false ]

-- `comparison != Comparison.NONE`
abbrev pub compares : Option TimeFilter → Bool
compares none = false
compares (some tf) = elim tf.comparison [ Comparison.off ↦ false | _ ↦ true ]

module _ {F : Type 0} (s : Setting F) where
  unfoldable pub compile_sql : QueryDsl F → Compiled String
  compile_sql q =
      if compares q.time_filter
      then (if any is_window q.metrics || q.fill_gaps || is_some q.top_n
          then fail conflict
          else compile_with_comparison s q)
      else elim q.top_n [
        | some top ↦
            if any is_window q.metrics || q.fill_gaps
            then fail conflict
            else compile_with_top_n s q top
        | none ↦
            if q.fill_gaps
            then (if any is_window q.metrics then fail conflict else compile_with_fill_gaps s q)
            else compile_plain s q
      ]
