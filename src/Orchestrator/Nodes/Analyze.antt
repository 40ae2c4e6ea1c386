-- ===== src/Orchestrator/Nodes/Analyze.antt =====
-- core/orchestrator/nodes.py, `code_exec_node`: the pending analysis steps in turn, in the sandbox.
pub mod Progress
use Prim.Native.String.{◌++◌ as str_append}
use future_bi.Base.{
  String, Bool, true, false, Option, none, some, List, [], ◌∷◌, ◌++◌, is_some, ◌&&◌, if◌then◌else◌,
  keep, ◌⊎◌, inl, inr,
}
use future_bi.Base.Text.{is_nonempty}
use future_bi.Orchestrator.State.{
  AgentState, PlanStep, ToolRecord, Artifact, ArtifactKind, Phase, StepStatus, record_error,
}
use future_bi.Orchestrator.Nodes.{
  Services, Outcome, returned, raised, CodeResult, pending_analyze, set_status, is_truthy_text,
}

-- `result.ok and result.summary`: what there is to register
usable : {J : Type 0} → CodeResult J → Option J
usable r = if r.succeeded then r.summary else none

module _ {J : Type 0} (v : Services J) where
  code_record : PlanStep J → CodeResult J → ToolRecord J
  code_record step r = record {
    step_id = step.id;
    tool = "run_code";
    args = none;
    succeeded = r.succeeded;
    summary = elim r.summary [ none ↦ "" | some j ↦ v.summary_text j ];
    error = r.error;
  }

  -- a chart joins the artifacts unless one of the same content is there
  add_chart : List (Artifact J) → PlanStep J → Option J → List (Artifact J)
  add_chart l step none = l
  add_chart l step (some spec) =
      if v.same_chart l spec
      then l
      else l
        ++ (record {
          kind = ArtifactKind.echarts;
          name = str_append step.id "_chart";
          payload = spec;
        })
          ∷ []

  -- the branch of a step that ran and left a summary
  finish_code : AgentState J → PlanStep J → CodeResult J → J → AgentState J
  finish_code s step r summary = record s {
    artifacts =
        add_chart
          (s.artifacts
            ++ (record {
              kind = ArtifactKind.summary;
              name = step.id;
              payload = v.summary_payload summary;
            })
              ∷ [])
          step r.echarts_spec;
    plan_steps = set_status step.id StepStatus.done s.plan_steps;
    scratchpad =
        s.scratchpad
        ++ str_append "[" (str_append step.id (str_append "] 沙箱分析完成：" r.summary_title)) ∷ [];
  }

  -- `result.error or "沙箱执行失败"`
  error_text : Option String → String
  error_text none = "沙箱执行失败"
  error_text (some e) = if is_nonempty e then e else "沙箱执行失败"

  -- the branch of a step that failed: the node returns
  fail_code : AgentState J → PlanStep J → CodeResult J → AgentState J
  fail_code s step r =
      let (context, within) = record_error s.error_context (error_text r.error) in
      record s {
        error_context = context;
        plan_steps = set_status step.id StepStatus.failed s.plan_steps;
        phase = if within then Phase.plan else Phase.critique;
      }

  -- what a run of the step's code leads to: the last state of the node, or the next one of the loop
  after_code : AgentState J → PlanStep J → CodeResult J → AgentState J ⊎ AgentState J
  unfolding code_record add_chart finish_code error_text fail_code
  after_code s step r =
      let s' = record s { tool_calls = s.tool_calls ++ code_record step r ∷ [] } in
      elim (usable r) [
        | none ↦ inl (fail_code s' step r)
        | some summary ↦ inr (finish_code s' step r summary)
      ]

  -- an exception of the sandbox leaves the node
  analyze_loop : List (PlanStep J) → AgentState J → Outcome (AgentState J)
  unfolding after_code
  analyze_loop [] s = returned (record s { phase = Phase.critique })
  analyze_loop (step ∷ steps) s = elim (v.run_code s step) [
    | raised e ↦ raised e
    | returned r ↦ elim (after_code s step r) [
      | inl s' ↦ returned s'
      | inr s' ↦ analyze_loop steps s'
    ]
  ]

  unfoldable pub code_exec_node : AgentState J → Outcome (AgentState J)
  unfolding analyze_loop usable
  code_exec_node s =
      if is_truthy_text s.no_data_reason
      then returned s
      else analyze_loop (keep pending_analyze s.plan_steps) s
