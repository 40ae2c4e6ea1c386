-- ===== src/Orchestrator/Agent/Topology.antt =====
-- The graph that `build_graph` makes: it is complete, so every run of it returns, and what follows
-- each node.
use future_bi.Base.{
  ℕ, String, ◌≡◌, refl, ap, str_eq, ◌⊎◌, inl, inr, Bool, true, false, Option, none, some, [], ◌∷◌,
  any,
}
use future_bi.Base.Dict.{Dict, lookup, lookup-All, insert}
use future_bi.Orchestrator.State.{AgentState, PlanStep, Phase}
use future_bi.Orchestrator.Nodes.{Services, raised}
use future_bi.Orchestrator.Nodes.Clarify.{clarify_node}
use future_bi.Orchestrator.Nodes.Query.{dsl_query_node}
use future_bi.Orchestrator.Nodes.Analyze.{code_exec_node}
use future_bi.Orchestrator.Nodes.Critic.{critic_node}
use future_bi.Orchestrator.Graph.{
  StateGraph, NodeFn, Edge, ok, err, node_raised, init, add_node, set_entry, add_edge,
  add_conditional_edges, first_unknown, route, follow,
}
use future_bi.Orchestrator.Nodes.{pending_query, pending_analyze}
use future_bi.Orchestrator.Nodes.Query.Done.{dsl_query_node-iteration}
use future_bi.Orchestrator.Nodes.Analyze.Progress.{code_exec_node-AnalyzeEnd}
use future_bi.Orchestrator.Nodes.Critic.Replan.{critic_node-cases}
use future_bi.Orchestrator.Nodes.Clarify.{clarify_node-iteration}
use future_bi.Orchestrator.Graph.Run.{IsComplete, Raises, IsTarget, follow-mapped}
use future_bi.Orchestrator.Agent.{
  build_graph, route_from_plan, route_from_critic, plan_choice, phase_name, plan_routes,
  critic_routes, from_outcome,
}

abbrev plain : {J : Type 0} → String → String → Edge J
plain from to = record { from_node = from; to_node = some to; router = none; route_map = [] }

abbrev routed : {J : Type 0} → String → (AgentState J → String) → Dict String → Edge J
routed from router m = record {
  from_node = from;
  to_node = none;
  router = some router;
  route_map = m;
}

module _ {J : Type 0} (v : Services J) (planner synthesizer : NodeFn J) (n : ℕ) where
  abbrev pub agent_graph : StateGraph J
  agent_graph = record {
    nodes =
        ("clarify", λ s. ok (clarify_node s))
        ∷ ("plan", planner)
        ∷ ("query", λ s. ok (dsl_query_node v s))
        ∷ ("analyze", λ s. from_outcome (code_exec_node v s))
        ∷ ("critique", λ s. from_outcome (critic_node v s))
        ∷ ("synthesize", synthesizer)
        ∷ [];
    edges =
        plain "clarify" "plan"
        ∷ routed "plan" route_from_plan plan_routes
        ∷ plain "query" "analyze"
        ∷ plain "analyze" "critique"
        ∷ routed "critique" route_from_critic critic_routes
        ∷ plain "synthesize" "END"
        ∷ [];
    entry = some "clarify";
    max_iterations = n;
    interrupted_at = none;
  }

  -- `build_graph` raises nothing, and gives this graph.
  pub build_graph_lem : build_graph v planner synthesizer n ≡ ok agent_graph
  unfolding build_graph init add_node set_entry add_edge add_conditional_edges first_unknown lookup
      insert
  build_graph_lem = refl

-- A node that leaves the iteration count alone, and raises no error of the graph.
abbrev pub IsCalm : {J : Type 0} → NodeFn J → Type 0
IsCalm {J} fn =
    (s : AgentState J)
    → ((s' : AgentState J) × (fn s ≡ ok s') × (s'.iteration ≡ s.iteration))
      ⊎ ((e : String) × (fn s ≡ err (node_raised e)))

-- what the planner, the reflector, a run of code or the synthesizer raises on some state
pub data IsThrown {J : Type 0} (v : Services J) (planner synthesizer : NodeFn J)
    : String → Type 0 where
  by_planner :
      {e : String} (s : AgentState J)
      → planner s ≡ err (node_raised e)
      → IsThrown v planner synthesizer e
  by_reflector :
      {e : String} (s : AgentState J) → v.reflect s ≡ raised e → IsThrown v planner synthesizer e
  by_code :
      {e : String} (s : AgentState J) (p : PlanStep J)
      → v.run_code s p ≡ raised e
      → IsThrown v planner synthesizer e
  by_synthesizer :
      {e : String} (s : AgentState J)
      → synthesizer s ≡ err (node_raised e)
      → IsThrown v planner synthesizer e

-- what `IsComplete` asks of one node
abbrev GoesOn : {J : Type 0} → (String → Type 0) → StateGraph J → String → NodeFn J → Type 0
GoesOn {J} kind g name fn =
    (s : AgentState J)
    → ((s' : AgentState J) × (fn s ≡ ok s')
        × (s'.iteration ≡ s.iteration)
        × (next : Option String) × (route g.edges name s' ≡ ok next)
        × IsTarget g next)
      ⊎ Raises kind (fn s)

plan_choice-cases :
    (a b : Bool)
    → (plan_choice a b ≡ "query") ⊎ (plan_choice a b ≡ "analyze") ⊎ (plan_choice a b ≡ "critique")
unfolding plan_choice
plan_choice-cases true b = inl refl
plan_choice-cases false true = inr (inl refl)
plan_choice-cases false false = inr (inr refl)

route_from_plan-cases :
    {J : Type 0} (s : AgentState J)
    → (route_from_plan s ≡ "query")
      ⊎ (route_from_plan s ≡ "analyze")
      ⊎ (route_from_plan s ≡ "critique")
unfolding route_from_plan
route_from_plan-cases s =
    plan_choice-cases (any pending_query s.plan_steps) (any pending_analyze s.plan_steps)

route_from_critic-cases :
    {J : Type 0} (s : AgentState J)
    → (s.phase ≡ Phase.plan) ⊎ (s.phase ≡ Phase.synthesize)
    → (route_from_critic s ≡ "plan") ⊎ (route_from_critic s ≡ "synthesize")
unfolding route_from_critic
route_from_critic-cases s (inl again) = inl (ap phase_name again)
route_from_critic-cases s (inr report) = inr (ap phase_name report)

module _ {J : Type 0} (v : Services J) (planner synthesizer : NodeFn J) (n : ℕ) where
  to_plan :
      (s : AgentState J) (target : String)
      → lookup (route_from_plan s) plan_routes ≡ some target
      → str_eq target "END" ≡ false
      → route (agent_graph v planner synthesizer n).edges "plan" s ≡ ok (some target)
  unfolding route
  to_plan s target mapped inner =
      follow-mapped (routed "plan" route_from_plan plan_routes) s route_from_plan mapped inner

  to_critic :
      (s : AgentState J) (target : String)
      → lookup (route_from_critic s) critic_routes ≡ some target
      → str_eq target "END" ≡ false
      → route (agent_graph v planner synthesizer n).edges "critique" s ≡ ok (some target)
  unfolding route
  to_critic s target mapped inner =
      follow-mapped (routed "critique" route_from_critic critic_routes) s route_from_critic mapped
        inner

  open_plan :
      (s : AgentState J)
      → (next : Option String) × (route (agent_graph v planner synthesizer n).edges "plan" s
          ≡ ok next)
        × IsTarget (agent_graph v planner synthesizer n) next
  unfolding lookup
  open_plan s = elim (route_from_plan-cases s) [
    | inl e ↦ (some "query", to_plan s "query" (ap (λ k. lookup k plan_routes) e) refl, inr refl)
    | inr (inl e) ↦
        (some "analyze", to_plan s "analyze" (ap (λ k. lookup k plan_routes) e) refl, inr refl)
    | inr (inr e) ↦
        (some "critique", to_plan s "critique" (ap (λ k. lookup k plan_routes) e) refl, inr refl)
  ]

  open_critique :
      (s : AgentState J)
      → (s.phase ≡ Phase.plan) ⊎ (s.phase ≡ Phase.synthesize)
      → (next : Option String) × (route (agent_graph v planner synthesizer n).edges "critique" s
          ≡ ok next)
        × IsTarget (agent_graph v planner synthesizer n) next
  unfolding lookup
  open_critique s phase = elim (route_from_critic-cases s phase) [
    | inl e ↦ (some "plan", to_critic s "plan" (ap (λ k. lookup k critic_routes) e) refl, inr refl)
    | inr e ↦ (
      some "synthesize",
      to_critic s "synthesize" (ap (λ k. lookup k critic_routes) e) refl,
      inr refl,
    )
  ]

  abbrev Goes : String → NodeFn J → Type 0
  Goes = GoesOn (IsThrown v planner synthesizer) (agent_graph v planner synthesizer n)

  planner-Goes : IsCalm planner → Goes "plan" planner
  planner-Goes plans s = elim (plans s) [
    | inl (s', ran, same) ↦ let (next, to, at) = open_plan s' in inl (s', ran, same, next, to, at)
    | inr (e, thrown) ↦ inr (e, thrown, by_planner s thrown)
  ]

  code-Goes : Goes "analyze" (λ s. from_outcome (code_exec_node v s))
  unfolding route follow lookup
  code-Goes s = elim (code_exec_node-AnalyzeEnd v s) [
    | inl (s', ran, end) ↦ inl (s', rw ran refl, end.iteration, some "critique", refl, inr refl)
    | inr (e, t, p, thrown, made) ↦ inr (e, rw made refl, by_code t p thrown)
  ]

  critic-Goes : Goes "critique" (λ s. from_outcome (critic_node v s))
  critic-Goes s = elim (critic_node-cases v s) [
    | inl (e, thrown, made) ↦ inr (e, rw made refl, by_reflector s thrown)
    | inr (s', ran, same, phase) ↦
        let (next, to, at) = open_critique s' phase in inl (s', rw ran refl, same, next, to, at)
  ]

  synthesizer-Goes : IsCalm synthesizer → Goes "synthesize" synthesizer
  unfolding route follow lookup
  synthesizer-Goes writes s = elim (writes s) [
    | inl (s', ran, same) ↦ inl (s', ran, same, some "END", refl, inl refl)
    | inr (e, thrown) ↦ inr (e, thrown, by_synthesizer s thrown)
  ]

  clarify-Goes : Goes "clarify" (λ s. ok (clarify_node s))
  unfolding route follow lookup
  clarify-Goes s = inl (clarify_node s, refl, clarify_node-iteration s, some "plan", refl, inr refl)

  query-Goes : Goes "query" (λ s. ok (dsl_query_node v s))
  unfolding route follow lookup
  query-Goes s =
      inl (dsl_query_node v s, refl, dsl_query_node-iteration v s, some "analyze", refl, inr refl)

  pub agent_graph-IsComplete :
      IsCalm planner
      → IsCalm synthesizer
      → IsComplete (IsThrown v planner synthesizer) (agent_graph v planner synthesizer n)
  agent_graph-IsComplete plans writes = record {
    next_state = λ name fn s found.
        lookup-All Goes name fn (agent_graph v planner synthesizer n).nodes
          (
            clarify-Goes,
            (
              planner-Goes plans,
              (query-Goes, (code-Goes, (critic-Goes, (synthesizer-Goes writes, tt)))),
            ),
          )
          found s;
  }

  -- After the query node comes the analysis, whatever phase the node left: also `plan`, with which it
  -- asks for another plan, and `done`, with which it gives up.
  pub query_then_analyze :
      (s : AgentState J)
      → route (agent_graph v planner synthesizer n).edges "query" s ≡ ok (some "analyze")
  unfolding route follow
  query_then_analyze s = refl
