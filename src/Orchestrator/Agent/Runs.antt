-- ===== src/Orchestrator/Agent/Runs.antt =====
-- Every run that `_run_agent_inner` starts ends.
use future_bi.Base.{max, ◌+◌, String, ◌≡◌, refl, true, Option, none, some, inr}
use future_bi.Base.Dict.{lookup}
use future_bi.Orchestrator.State.{AgentState}
use future_bi.Orchestrator.Nodes.{Services}
use future_bi.Orchestrator.Graph.{NodeFn, route, follow, is_clarify, start_node, merge_reply}
use future_bi.Orchestrator.Graph.Run.{Ended, run_total, resume_total}
use future_bi.Orchestrator.Agent.{run_agent_inner, start_state, default_iterations}
use future_bi.Orchestrator.Agent.Topology.{
  agent_graph, build_graph_lem, agent_graph-IsComplete, IsCalm, IsThrown,
}

module _ {J : Type 0} (v : Services J) (planner synthesizer : NodeFn J) where
  -- With a planner and a synthesizer that leave the iteration count alone and raise no error of the graph,
  -- a fresh run ends: it returns a state after at most 25 iterations, however often the critic asks for
  -- another plan, or it raises an exception that on some state the planner, the reflector, a run of code
  -- or the synthesizer raises. It never ends with an error of the graph. The other services are taken to
  -- return, and the query facade's exceptions are caught by the query node.
  pub run_agent_inner_total :
      (question session_id turn_id trace_id : String) (human_reply : Option String)
      → IsCalm planner
      → IsCalm synthesizer
      → Ended (IsThrown v planner synthesizer) (default_iterations + 1) (
          run_agent_inner v planner synthesizer question session_id turn_id trace_id human_reply
            none)
  unfolding run_agent_inner start_state lookup
  run_agent_inner_total question session_id turn_id trace_id human_reply plans writes =
      rw (build_graph_lem v planner synthesizer default_iterations) (
        run_total (IsThrown v planner synthesizer)
          (agent_graph v planner synthesizer default_iterations) "clarify"
          (start_state question session_id turn_id trace_id human_reply)
          (agent_graph-IsComplete v planner synthesizer default_iterations plans writes) refl refl)

  -- So does a resumed run whose state waits for a clarification.
  pub resumed_total :
      (question session_id turn_id trace_id : String) (human_reply : Option String)
      (s0 : AgentState J)
      → IsCalm planner
      → IsCalm synthesizer
      → is_clarify s0.phase ≡ true
      → Ended
          (IsThrown v planner synthesizer)
          (max default_iterations (merge_reply s0 s0.human_reply).iteration + 1)
          (run_agent_inner v planner synthesizer question session_id turn_id trace_id human_reply
            (some s0))
  unfolding run_agent_inner start_node route follow lookup
  resumed_total question session_id turn_id trace_id human_reply s0 plans writes waits =
      rw (build_graph_lem v planner synthesizer default_iterations) (
        resume_total (IsThrown v planner synthesizer)
          (agent_graph v planner synthesizer default_iterations) "clarify" s0 (some "plan")
          (agent_graph-IsComplete v planner synthesizer default_iterations plans writes) waits refl
          refl (inr refl))
