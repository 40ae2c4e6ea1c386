-- ===== src/Orchestrator/Nodes/RunStep.antt =====
-- core/orchestrator/nodes.py, `_run_query_step`: the DSL variants of a step, and the loop over them.
pub mod Frame
use Prim.Native.String.{◌++◌ as str_append}
use future_bi.Base.{
  ℕ, suc, ◌+◌, String, Bool, true, false, Option, none, some, List, [], ◌∷◌, ◌++◌, map, ◌&&◌, not,
  ltb, is_some, str_eq, if◌then◌else◌, length, keep,
}
use future_bi.Base.Dict.{lookup, insert}
use future_bi.Base.Text.{mentions, is_nonempty, show, join, unique}
use future_bi.Orchestrator.State.{
  AgentState, PlanStep, ToolRecord, Phase, StepStatus, ParquetRef, record_error,
}
use future_bi.Orchestrator.Nodes.{
  Services, Outcome, returned, raised, is_query, pending_query, set_status, is_truthy_text,
}

-- What a step that runs into an exception leaves behind: the state as mutated so far, and the error.
pub data StepResult (J : Type 0) : Type 0 where
  finished : AgentState J → ToolRecord J → StepResult J
  failed : AgentState J → String → StepResult J

abbrev diagnostic_words : List String
diagnostic_words = "为什么" ∷ "下滑" ∷ "下降" ∷ "下跌" ∷ "上涨" ∷ "增长" ∷ "归因" ∷ "原因" ∷ []

-- The variables of the loop over the DSL variants.
pub record Progress (J : Type 0) : Type 0 where
  pub state : AgentState J
  pub notes : List String
  pub produced : List String
  pub blocked_windows : List String

module _ {J : Type 0} (v : Services J) where
  -- the normalised DSL of the plan's other query steps without dimensions
  overview_variants : PlanStep J → List (PlanStep J) → List J
  overview_variants step [] = []
  overview_variants step (p ∷ l) =
      let rest = overview_variants step l in
      elim p.dsl [
        | none ↦ rest
        | some dsl ↦
            if is_query p.kind
              && not (str_eq p.id step.id)
              && v.is_truthy dsl
              && not (v.has_dimensions dsl)
            then v.normalize dsl ∷ rest
            else rest
      ]

  dsl_variants : AgentState J → Option J → List J
  dsl_variants s (some dsl) = v.normalize dsl ∷ []
  dsl_variants s none =
      if mentions diagnostic_words s.user_query
      then (v.diagnostic_pair s.user_query).0 ∷ (v.diagnostic_pair s.user_query).1 ∷ []
      else v.scalar_dsl s.user_query ∷ []

  align_all : List J → List J → List J × List String
  align_all overview [] = ([], [])
  align_all overview (variant ∷ l) =
      let (aligned, notes) = v.inherit_scope variant overview in
      let (rest, more) = align_all overview l in (aligned ∷ rest, notes ++ more)

  -- the variants of a step with dimensions take over the overview's scope, with a note of it
  scope_variants : AgentState J → PlanStep J → List J → AgentState J × List J
  scope_variants s step overview =
      let variants = dsl_variants s step.dsl in
      let (aligned, notes) = align_all overview variants in
      if elim step.dsl [ none ↦ false | some dsl ↦ v.has_dimensions dsl ] && ltb 0 (length overview)
      then (
        if ltb 0 (length notes)
            then record s {
              scratchpad =
                  s.scratchpad
                  ++ str_append "["
                      (str_append step.id (str_append "] 口径对齐：" (join "；" (unique notes))))
                    ∷ [];
            }
            else s,
        aligned,
      )
      else (s, variants)

  data_set_name : PlanStep J → ℕ → ℕ → String
  data_set_name step total i =
      if ltb 1 total then str_append step.id (str_append "_v" (show i)) else step.id

  result_note : String → ParquetRef J → String
  result_note name ref = str_append name (
      str_append ": " (
        str_append (show ref.rows)
          (str_append " 行 × " (str_append (show (length ref.columns)) " 列"))))

  qa_note : String → List String → List String
  qa_note name [] = []
  qa_note name (f ∷ l) = str_append name (str_append " 质检发现：" (join "；" (f ∷ l))) ∷ []

  blocked_note : String → String → String
  blocked_note name window =
      str_append name (str_append " 被时间域守卫拦截：查询时间范围 " (str_append window " 超出数仓数据域"))

  -- one round of the loop; an exception ends it with what was done before
  try_variant : PlanStep J → ℕ → ℕ → J → Progress J → Outcome (Progress J)
  try_variant step total i dsl p =
      let name = data_set_name step total i in
      elim (v.outside_window dsl) [
        | some window ↦ returned (record p {
          notes = p.notes ++ blocked_note name window ∷ [];
          blocked_windows = p.blocked_windows ++ window ∷ [];
        })
        | none ↦ elim (v.execute dsl name p.state.user_query) [
          | raised e ↦ raised e
          | returned ref ↦ returned (record p {
            state = record p.state { datasets = insert name ref p.state.datasets };
            produced = p.produced ++ name ∷ [];
            notes = p.notes ++ result_note name ref ∷ qa_note name (v.qa_notes ref.audit);
          })
        ]
      ]

  -- the state is kept beside the error, since the loop mutates it
  run_variants : PlanStep J → ℕ → ℕ → List J → Progress J → Progress J × Option String
  unfolding try_variant
  run_variants step total i [] p = (p, none)
  run_variants step total i (dsl ∷ l) p = elim (try_variant step total i dsl p) [
    | raised e ↦ (p, some e)
    | returned p' ↦ run_variants step total (suc i) l p'
  ]

  all_blocked : Progress J → Bool
  all_blocked p = ltb 0 (length p.blocked_windows) && not (ltb 0 (length p.produced))

  no_data_text : Progress J → String
  no_data_text p =
      str_append "查询时间范围 " (str_append (join "、" (unique p.blocked_windows)) " 超出数仓数据覆盖范围，该时段无任何数据")

  close_step : PlanStep J → Progress J × Option String → StepResult J
  unfolding all_blocked no_data_text
  close_step step (p, some e) = failed p.state e
  close_step step (p, none) =
      let blocked = all_blocked p in
      finished
        (record p.state {
          step_outputs = insert step.id p.produced p.state.step_outputs;
          no_data_reason = if blocked then some (no_data_text p) else none;
        })
        (record {
          step_id = step.id;
          tool = "execute_dsl_query";
          args = none;
          succeeded = not blocked;
          summary =
              if blocked
              then str_append "[" (str_append step.id (str_append "] 取数被时间域守卫拦截：" (no_data_text p)))
              else str_append "[" (str_append step.id (str_append "] 取数完成：" (join "; " p.notes)));
          error = none;
        })

  unfoldable pub run_query_step : AgentState J → PlanStep J → StepResult J
  unfolding scope_variants run_variants close_step dsl_variants align_all overview_variants
      data_set_name blocked_note result_note qa_note
  run_query_step s step =
      let (s', variants) = scope_variants s step (overview_variants step s.plan_steps) in
      close_step step (
        run_variants step (length variants) 0 variants
          (record { state = s'; notes = []; produced = []; blocked_windows = [] }))
