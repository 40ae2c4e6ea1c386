-- ===== src/Orchestrator/Agent.antt =====
-- core/orchestrator/agent.py: the graph of the six nodes, and the two ways `_run_agent_inner` enters it.
-- `planner_node` and `synthesize_node` are parameters.
pub mod Topology
pub mod Runs
use future_bi.Base.{
  ℕ, ◌+◌, String, Bool, true, false, Option, none, some, List, [], ◌∷◌, any, if◌then◌else◌, is_some,
}
use future_bi.Base.Dict.{Dict}
use future_bi.Orchestrator.State.{AgentState, PlanStep, Phase, ErrorContext}
use future_bi.Orchestrator.Nodes.{
  Services, Outcome, returned, raised, pending_query, pending_analyze,
}
use future_bi.Orchestrator.Nodes.Clarify.{clarify_node}
use future_bi.Orchestrator.Nodes.Query.{dsl_query_node}
use future_bi.Orchestrator.Nodes.Analyze.{code_exec_node}
use future_bi.Orchestrator.Nodes.Critic.{critic_node}
use future_bi.Orchestrator.Graph.{
  StateGraph, NodeFn, Result, ok, err, node_raised, stuck, ◌>>=◌, init, add_node, set_entry,
  add_edge, add_conditional_edges, run, resume,
}

unfoldable pub phase_name : Phase → String
phase_name Phase.clarify = "clarify"
phase_name Phase.plan = "plan"
phase_name Phase.query = "query"
phase_name Phase.analyze = "analyze"
phase_name Phase.critique = "critique"
phase_name Phase.synthesize = "synthesize"
phase_name Phase.done = "done"

-- the branches of `route_from_plan`, by whether a query and an analysis are pending
plan_choice : Bool → Bool → String
plan_choice has_query has_analysis =
    if has_query then "query" else if has_analysis then "analyze" else "critique"

module _ {J : Type 0} where
  unfoldable pub route_from_plan : AgentState J → String
  unfolding plan_choice
  route_from_plan s =
      plan_choice (any pending_query s.plan_steps) (any pending_analyze s.plan_steps)

  unfoldable pub route_from_critic : AgentState J → String
  unfolding phase_name
  route_from_critic s = phase_name s.phase

  -- `AgentState(...)` of a fresh run
  unfoldable pub start_state : String → String → String → String → Option String → AgentState J
  start_state question session_id turn_id trace_id human_reply = record {
    session_id = session_id;
    turn_id = turn_id;
    trace_id = trace_id;
    user_query = question;
    plan_steps = [];
    clarification = none;
    human_reply = human_reply;
    tool_calls = [];
    scratchpad = [];
    artifacts = [];
    report = "";
    phase = if is_some human_reply then Phase.plan else Phase.clarify;
    error_context = record { errors = []; retries = 0 };
    datasets = [];
    step_outputs = [];
    last_replan_fingerprint = "";
    no_data_reason = none;
    iteration = 0;
  }

abbrev plan_routes : Dict String
plan_routes = ("query", "query") ∷ ("analyze", "analyze") ∷ ("critique", "critique") ∷ []

abbrev critic_routes : Dict String
critic_routes = ("plan", "plan") ∷ ("synthesize", "synthesize") ∷ []

-- what a node returns or raises, for the loop of the graph
abbrev pub from_outcome : {A : Type 0} → Outcome A → Result A
from_outcome (returned a) = ok a
from_outcome (raised e) = err (node_raised e)

-- `build_graph()` has 24 iterations
abbrev pub default_iterations : ℕ
default_iterations = 24

module _ {J : Type 0} (v : Services J) (planner synthesizer : NodeFn J) where
  unfoldable pub build_graph : ℕ → Result (StateGraph J)
  build_graph max_iterations = do
    g1 ← add_node (init max_iterations) "clarify" (λ s. ok (clarify_node s))
    g2 ← add_node g1 "plan" planner
    g3 ← add_node g2 "query" (λ s. ok (dsl_query_node v s))
    g4 ← add_node g3 "analyze" (λ s. from_outcome (code_exec_node v s))
    g5 ← add_node g4 "critique" (λ s. from_outcome (critic_node v s))
    g6 ← add_node g5 "synthesize" synthesizer
    g7 ← set_entry g6 "clarify"
    g8 ← add_edge g7 "clarify" "plan"
    g9 ← add_conditional_edges g8 "plan" route_from_plan plan_routes
    g10 ← add_edge g9 "query" "analyze"
    g11 ← add_edge g10 "analyze" "critique"
    g12 ← add_conditional_edges g11 "critique" route_from_critic critic_routes
    add_edge g12 "synthesize" "END"

  unfoldable pub run_agent_inner :
      String
      → String
      → String
      → String
      → Option String
      → Option (AgentState J)
      → Result (StateGraph J × AgentState J)
  run_agent_inner question session_id turn_id trace_id human_reply (some resume_state) = do
    g ← build_graph default_iterations
    resume g resume_state
  run_agent_inner question session_id turn_id trace_id human_reply none = do
    g ← build_graph default_iterations
    run g (start_state question session_id turn_id trace_id human_reply)
