-- ===== src/Orchestrator/Nodes/Query/Progress.antt =====
-- What `dsl_query_node` leaves behind: the budget of retries, and the steps still to do.
use future_bi.Base.{
  ◌+◌, ◌≤◌, ◌<◌, String, ◌≡◌, refl, ap, subst, ◌∙◌, leb, leb→le, ◌⊎◌, inl, inr, List, [], ◌∷◌,
  arith, Bool-cases, keep,
}
use future_bi.Orchestrator.State.{
  AgentState, PlanStep, ToolRecord, Phase, record_error, max_retries,
}
use future_bi.Orchestrator.Nodes.{Services, pending_query, is_truthy_text}
use future_bi.Orchestrator.Nodes.RunStep.{StepResult, finished, failed, run_query_step}
use future_bi.Orchestrator.Nodes.RunStep.Frame.{IsFramed, SameFrame, run_query_step-IsFramed}
use future_bi.Orchestrator.Nodes.Query.{
  dsl_query_node, query_loop, fail_query, finish_query, skip_query,
}

-- The ways the node ends: on to the analysis; a failure with retries left; a failure without.
pub data QueryEnd {J : Type 0} (s s' : AgentState J) : Type 0 where
  went_on : s'.phase ≡ Phase.analyze → s'.error_context ≡ s.error_context → QueryEnd s s'
  retries :
      s'.phase ≡ Phase.plan
      → s'.error_context.retries ≡ s.error_context.retries + 1
      → s'.error_context.retries ≤ max_retries
      → QueryEnd s s'
  gave_up :
      s'.phase ≡ Phase.done
      → s'.error_context.retries ≡ s.error_context.retries + 1
      → max_retries < s'.error_context.retries
      → QueryEnd s s'

module _ {J : Type 0} where
  pub StepResult-cases :
      (r : StepResult J)
      → ((s : AgentState J) × (t : ToolRecord J) × (r ≡ finished s t))
        ⊎ ((s : AgentState J) × (e : String) × (r ≡ failed s e))
  StepResult-cases (finished s t) = inl (s, t, refl)
  StepResult-cases (failed s e) = inr (s, e, refl)

  QueryEnd-after :
      {s t u : AgentState J} → t.error_context ≡ s.error_context → QueryEnd t u → QueryEnd s u
  QueryEnd-after h (went_on p e) = went_on p (e ∙ h)
  QueryEnd-after h (retries p r b) = retries p (r ∙ ap (λ c. c.retries + 1) h) b
  QueryEnd-after h (gave_up p r b) = gave_up p (r ∙ ap (λ c. c.retries + 1) h) b

  fail_query-QueryEnd :
      (s : AgentState J) (step : PlanStep J) (e : String) → QueryEnd s (fail_query s step e)
  unfolding fail_query record_error
  fail_query-QueryEnd s step e = elim (Bool-cases (leb (s.error_context.retries + 1) max_retries)) [
    | inl within ↦ rw within (retries refl refl (leb→le _ _ within))
    | inr over ↦ rw over (gave_up refl refl (ground arith))
  ]

module _ {J : Type 0} (v : Services J) where
  query_loop-QueryEnd :
      (steps : List (PlanStep J)) (s : AgentState J) → QueryEnd s (query_loop v steps s)
  unfolding query_loop
  query_loop-QueryEnd [] s = went_on refl refl
  query_loop-QueryEnd (step ∷ steps) s = elim (Bool-cases (is_truthy_text s.no_data_reason)) [
    | inl skips ↦ rw skips (QueryEnd-after refl (query_loop-QueryEnd steps (skip_query s step)))
    | inr runs ↦ elim (StepResult-cases (run_query_step v s step)) [
      | inl (t, r, done) ↦
          let framed : SameFrame s t =
            subst (λ x. IsFramed s x) done (run_query_step-IsFramed v s step) in
          rw (runs, done)
            (QueryEnd-after framed.error_context
              (query_loop-QueryEnd steps (finish_query t step r)))
      | inr (t, e, failure) ↦
          let framed : SameFrame s t =
            subst (λ x. IsFramed s x) failure (run_query_step-IsFramed v s step) in
          rw (runs, failure) (QueryEnd-after framed.error_context (fail_query-QueryEnd t step e))
    ]
  ]

  -- The node goes on to the analysis with the budget of retries untouched, or it fails at a step,
  -- uses one retry, and either asks for a new plan within the budget or gives up beyond it.
  pub dsl_query_node-QueryEnd : (s : AgentState J) → QueryEnd s (dsl_query_node v s)
  unfolding dsl_query_node
  dsl_query_node-QueryEnd s = query_loop-QueryEnd (keep pending_query s.plan_steps) s
