-- ===== src/Orchestrator/Nodes/Query.antt =====
-- core/orchestrator/nodes.py, `dsl_query_node`: the pending query steps in turn, up to a failure.
pub mod Progress
pub mod Done
use Prim.Native.String.{◌++◌ as str_append}
use future_bi.Base.{
  ℕ, suc, ◌+◌, String, Bool, true, false, Option, none, some, List, [], ◌∷◌, ◌++◌, map, ◌&&◌, not,
  ltb, is_some, str_eq, if◌then◌else◌, length, keep,
}
use future_bi.Base.Dict.{lookup, insert}
use future_bi.Base.Text.{mentions, is_nonempty, show, join, unique}
use future_bi.Orchestrator.State.{
  AgentState, PlanStep, ToolRecord, Phase, StepStatus, ParquetRef, record_error,
}
use future_bi.Orchestrator.Nodes.{
  Services, Outcome, returned, raised, is_query, pending_query, set_status, is_truthy_text,
}
use future_bi.Orchestrator.Nodes.RunStep.{StepResult, finished, failed, run_query_step}

-- the report of a run whose budget of retries is used up
exhausted_report : String → String
exhausted_report e = str_append "取数在 3 次自愈后仍失败，已终止。\n最后一次错误：" e

module _ {J : Type 0} where
  failed_record : PlanStep J → String → ToolRecord J
  failed_record step e = record {
    step_id = step.id;
    tool = "execute_dsl_query";
    args = none;
    succeeded = false;
    summary = "";
    error = some e;
  }

  -- the `except` branch: the failure is recorded, and the node returns
  fail_query : AgentState J → PlanStep J → String → AgentState J
  fail_query s step e =
      let (context, within) = record_error s.error_context e in
      let s' = record s {
        error_context = context;
        tool_calls = s.tool_calls ++ failed_record step e ∷ [];
        plan_steps = set_status step.id StepStatus.failed s.plan_steps;
      } in
      if within
      then record s' { phase = Phase.plan }
      else record s' { phase = Phase.done; report = exhausted_report e }

  -- the bookkeeping after a step that went through
  finish_query : AgentState J → PlanStep J → ToolRecord J → AgentState J
  finish_query s step r = record s {
    tool_calls = s.tool_calls ++ r ∷ [];
    scratchpad = s.scratchpad ++ r.summary ∷ [];
    plan_steps = set_status step.id StepStatus.done s.plan_steps;
  }

  -- what a set `no_data_reason` makes of a further step
  skip_query : AgentState J → PlanStep J → AgentState J
  skip_query s step = record s { plan_steps = set_status step.id StepStatus.done s.plan_steps }

module _ {J : Type 0} (v : Services J) where
  query_loop : List (PlanStep J) → AgentState J → AgentState J
  unfolding fail_query finish_query skip_query exhausted_report failed_record
  query_loop [] s = record s { phase = Phase.analyze }
  query_loop (step ∷ steps) s =
      let skipped = query_loop steps (skip_query s step) in
      let tried : AgentState J = elim (run_query_step v s step) [
        | failed s' e ↦ fail_query s' step e
        | finished s' r ↦ query_loop steps (finish_query s' step r)
      ] in
      if is_truthy_text s.no_data_reason then skipped else tried

  unfoldable pub dsl_query_node : AgentState J → AgentState J
  unfolding query_loop
  dsl_query_node s = query_loop (keep pending_query s.plan_steps) s
