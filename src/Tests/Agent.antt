-- ===== src/Tests/Agent.antt =====
-- Runs of the orchestrator: a plan of one query and one analysis, with services that answer.
use future_bi.Base.{◌+◌, String, ◌≡◌, ◌⊎◌, inl, refl, true, false, none, some, [], ◌∷◌, All}
use future_bi.Base.Text.{is_nonempty, mentions}
use future_bi.Orchestrator.State.{
  AgentState, PlanStep, StepKind, StepStatus, Phase, ParquetRef, ArtifactKind,
}
use future_bi.Orchestrator.State.Trace.{Pruned, prune_tool_history-Pruned}
use future_bi.Orchestrator.State.{ToolRecord, prune_tool_history, prune_loop, total_weight, weight}
use future_bi.Orchestrator.Nodes.RunStep.{run_query_step}
use future_bi.Orchestrator.Graph.{NodeFn, ok}
use future_bi.Orchestrator.Nodes.{Services, returned, raised, pending_query}
use future_bi.Orchestrator.Nodes.Query.{dsl_query_node}
use future_bi.Orchestrator.Nodes.Query.Progress.{QueryEnd, dsl_query_node-QueryEnd}
use future_bi.Orchestrator.Nodes.Query.Done.{dsl_query_node-done}
use future_bi.Orchestrator.Nodes.Analyze.{code_exec_node}
use future_bi.Orchestrator.Nodes.Analyze.Progress.{Ends, code_exec_node-AnalyzeEnd}
use future_bi.Orchestrator.Nodes.Critic.{
  critic_node, has_data, has_summary, is_exhausted, all_empty,
}
use future_bi.Orchestrator.Nodes.Critic.Replan.{critic_no_progress}
use future_bi.Orchestrator.Agent.{run_agent_inner, default_iterations}
use future_bi.Orchestrator.Agent.Topology.{IsThrown}
use future_bi.Orchestrator.Graph.Run.{Ended}
use future_bi.Orchestrator.Agent.Runs.{run_agent_inner_total}

abbrev data_set : String → ParquetRef String
data_set name = record {
  name = name;
  path = "inputs/gmv.parquet";
  rows = 12;
  columns = "province" ∷ "gmv" ∷ [];
  schema = [];
  sha256 = "";
  question = "";
  dsl = "";
  masked_cells = 0;
  audit = "";
}

abbrev services : Services String
services = record {
  is_truthy = is_nonempty;
  normalize = λ j. j;
  has_dimensions = λ j. true;
  inherit_scope = λ j l. (j, []);
  diagnostic_pair = λ q. ("by month", "by province");
  scalar_dsl = λ q. "total";
  outside_window = λ j. none;
  execute = λ j name q. returned (data_set name);
  qa_notes = λ j. [];
  run_code = λ s p. returned (record {
    succeeded = true;
    summary = some "up 4%";
    summary_title = "growth";
    echarts_spec = none;
    error = none;
  });
  summary_text = λ j. j;
  summary_payload = λ j. j;
  same_chart = λ l j. false;
  reflect = λ s. returned none;
  fingerprint = λ s. "fp";
}

abbrev query_step : PlanStep String
query_step = record {
  id = "s1";
  goal = "各省份销售额";
  kind = StepKind.query;
  depends_on = [];
  dsl = some "gmv by province";
  code = none;
  status = StepStatus.pending;
}

abbrev analyze_step : PlanStep String
analyze_step = record query_step {
  id = "s2";
  kind = StepKind.analyze;
  dsl = none;
  code = some "print(1)";
}

abbrev planner : NodeFn String
planner s = ok (record s { plan_steps = query_step ∷ analyze_step ∷ [] })

abbrev synthesizer : NodeFn String
synthesizer s = ok (record s { report = "done"; phase = Phase.done })

abbrev asked : AgentState String
asked = record {
  session_id = "s";
  turn_id = "t";
  trace_id = "r";
  user_query = "2025 年各省份的销售额";
  plan_steps = query_step ∷ analyze_step ∷ [];
  clarification = none;
  human_reply = none;
  tool_calls = [];
  scratchpad = [];
  artifacts = [];
  report = "";
  phase = Phase.plan;
  error_context = record { errors = []; retries = 0 };
  datasets = [];
  step_outputs = [];
  last_replan_fingerprint = "";
  no_data_reason = none;
  iteration = 2;
}

run_agent_inner_total_example :
    Ended
      (IsThrown services planner synthesizer)
      (default_iterations + 1)
      (run_agent_inner services planner synthesizer "各省份的销售额" "s" "t" "r" none none)
run_agent_inner_total_example =
    run_agent_inner_total services planner synthesizer "各省份的销售额" "s" "t" "r" none
      (λ s. inl (record s { plan_steps = query_step ∷ analyze_step ∷ [] }, refl, refl))
      (λ s. inl (record s { report = "done"; phase = Phase.done }, refl, refl))

abbrev waiting : AgentState String
waiting = record asked { phase = Phase.clarify; human_reply = some "GMV" }

dsl_query_node-QueryEnd_example : QueryEnd asked (dsl_query_node services asked)
dsl_query_node-QueryEnd_example = dsl_query_node-QueryEnd services asked

ran : (dsl_query_node services asked).phase ≡ Phase.analyze
unfolding dsl_query_node run_query_step
ran = refl

dsl_query_node-done_example :
    All (λ p. pending_query p ≡ false) (dsl_query_node services asked).plan_steps
dsl_query_node-done_example = dsl_query_node-done services asked ran

code_exec_node-AnalyzeEnd_example : Ends services asked (code_exec_node services asked)
code_exec_node-AnalyzeEnd_example = code_exec_node-AnalyzeEnd services asked

-- the fourth round: three retries are counted
abbrev spent : AgentState String
spent = record asked { error_context = record { errors = []; retries = 3 } }

replans : critic_node services asked ≡ returned (record asked { phase = Phase.plan })
unfolding critic_node has_data is_exhausted
replans = refl

-- data and a summary at hand, nothing new since the last replanning
abbrev settled : AgentState String
settled = record asked {
  datasets = ("gmv", data_set "gmv") ∷ [];
  artifacts = (record { kind = ArtifactKind.summary; name = "s2"; payload = "up 4%" }) ∷ [];
  last_replan_fingerprint = "fp";
}

critic_no_progress_example :
    ((e : String) × (services.reflect settled ≡ raised e)
      × (critic_node services settled ≡ raised e))
    ⊎ ((s' : AgentState String) × (critic_node services settled ≡ returned s')
        × (s'.phase ≡ Phase.synthesize))
unfolding has_data has_summary
critic_no_progress_example = critic_no_progress services settled refl refl refl refl

-- the reply of a reflector that is no JSON object
abbrev malformed : Services String
malformed = record services { reflect = λ s. raised "AttributeError" }

reply_raises : critic_node malformed settled ≡ raised "AttributeError"
unfolding critic_node has_data has_summary is_exhausted all_empty mentions
reply_raises = refl

abbrev tool_call : String → ToolRecord String
tool_call text = record {
  step_id = "s1";
  tool = "execute_dsl_query";
  args = none;
  succeeded = true;
  summary = text;
  error = none;
}

abbrev busy : AgentState String
busy = record asked { tool_calls = tool_call "first" ∷ tool_call "second" ∷ tool_call "third" ∷ [] }

prune_tool_history-Pruned_example : Pruned 8 busy.tool_calls (prune_tool_history 8 busy).tool_calls
prune_tool_history-Pruned_example = prune_tool_history-Pruned 8 busy

-- of three records of 5, 6 and 5 characters one fits a budget of 8
pruned : (prune_tool_history 8 busy).tool_calls ≡ tool_call "third" ∷ []
unfolding prune_tool_history prune_loop total_weight weight
pruned = refl
