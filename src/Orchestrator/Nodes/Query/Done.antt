-- ===== src/Orchestrator/Nodes/Query/Done.antt =====
-- What `dsl_query_node` has done when it goes on: no query step is pending any more.
use future_bi.Base.{
  String, ◌≡◌, ◌≢◌, refl, sym, subst, ◌∙◌, inl, inr, true, false, List, [], ◌∷◌, str_eq, eq_iff,
  arith, Bool-cases, any, keep, All,
}
use future_bi.Orchestrator.State.{AgentState, PlanStep, Phase, StepStatus, record_error}
use future_bi.Orchestrator.Nodes.{Services, pending_query, set_status, is_truthy_text}
use future_bi.Orchestrator.Nodes.RunStep.{run_query_step}
use future_bi.Orchestrator.Nodes.RunStep.Frame.{IsFramed, SameFrame, run_query_step-IsFramed}
use future_bi.Orchestrator.Nodes.Query.{
  dsl_query_node, query_loop, fail_query, finish_query, skip_query,
}
use future_bi.Orchestrator.Nodes.Query.Progress.{StepResult-cases}

module _ {J : Type 0} where
  -- whether a pending query step is among the steps that the loop has yet to take
  abbrev Covers : List (PlanStep J) → PlanStep J → Type 0
  Covers steps p = pending_query p ≡ true → any (λ q. str_eq q.id p.id) steps ≡ true

  set_status-Covers :
      (step : PlanStep J) (steps l : List (PlanStep J))
      → All (Covers (step ∷ steps)) l
      → All (Covers steps) (set_status step.id StepStatus.done l)
  unfolding set_status
  set_status-Covers step steps [] h = tt
  set_status-Covers step steps (p ∷ l) h = (
    ground (arith, h.0, eq_iff p.id step.id, eq_iff step.id p.id),
    set_status-Covers step steps l h.1,
  )

  keep-Covers-weaken :
      (q : PlanStep J) (steps l : List (PlanStep J))
      → All (Covers steps) l
      → All (Covers (q ∷ steps)) l
  keep-Covers-weaken q steps [] h = tt
  keep-Covers-weaken q steps (p ∷ l) h = (ground (arith, h.0), keep-Covers-weaken q steps l h.1)

  keep-Covers : (l : List (PlanStep J)) → All (Covers (keep pending_query l)) l
  keep-Covers [] = tt
  keep-Covers (p ∷ l) = elim (Bool-cases (pending_query p)) [
    | inl pending ↦
        let taken : keep pending_query (p ∷ l) ≡ p ∷ keep pending_query l = rw pending in
        subst (λ k. All (Covers k) (p ∷ l)) (sym taken)
          (λ _. ground (arith, eq_iff p.id p.id), keep-Covers-weaken p _ l (keep-Covers l))
    | inr other ↦
        let left : keep pending_query (p ∷ l) ≡ keep pending_query l = rw other in
        subst (λ k. All (Covers k) (p ∷ l)) (sym left) (λ e. cc, keep-Covers l)
  ]

  Covers-nil : (l : List (PlanStep J)) → All (Covers []) l → All (λ p. pending_query p ≡ false) l
  Covers-nil [] h = tt
  Covers-nil (p ∷ l) h = (ground (arith, h.0), Covers-nil l h.1)

module _ {J : Type 0} where
  failed-phase :
      (s : AgentState J) (step : PlanStep J) (e : String)
      → (fail_query s step e).phase ≢ Phase.analyze
  unfolding fail_query record_error
  failed-phase s step e = ground arith

module _ {J : Type 0} (v : Services J) where
  query_loop-done :
      (steps : List (PlanStep J)) (s : AgentState J)
      → All (Covers steps) s.plan_steps
      → (query_loop v steps s).phase ≡ Phase.analyze
      → All (λ p. pending_query p ≡ false) (query_loop v steps s).plan_steps
  unfolding query_loop
  query_loop-done [] s covered e = Covers-nil s.plan_steps covered
  query_loop-done (step ∷ steps) s covered e = elim (Bool-cases (is_truthy_text s.no_data_reason)) [
    | inl skips ↦ rw skips (
        query_loop-done steps (skip_query s step)
          (set_status-Covers step steps s.plan_steps covered) (rw skips at e))
    | inr runs ↦ elim (StepResult-cases (run_query_step v s step)) [
      | inl (t, r, done) ↦
          let framed : SameFrame s t =
            subst (λ x. IsFramed s x) done (run_query_step-IsFramed v s step) in
          let covered' : All (Covers (step ∷ steps)) t.plan_steps =
            subst (λ l. All (Covers (step ∷ steps)) l) (sym framed.plan_steps) covered in
          rw (runs, done)
            (query_loop-done steps (finish_query t step r)
              (set_status-Covers step steps t.plan_steps covered') (rw (runs, done) at e))
      | inr (t, x, failure) ↦ absurd (failed-phase t step x (rw (runs, failure) at e))
    ]
  ]

  query_loop-iteration :
      (steps : List (PlanStep J)) (s : AgentState J)
      → (query_loop v steps s).iteration ≡ s.iteration
  unfolding query_loop
  query_loop-iteration [] s = refl
  query_loop-iteration (step ∷ steps) s = elim (Bool-cases (is_truthy_text s.no_data_reason)) [
    | inl skips ↦ rw skips (query_loop-iteration steps (skip_query s step))
    | inr runs ↦ elim (StepResult-cases (run_query_step v s step)) [
      | inl (t, r, done) ↦
          let framed : SameFrame s t =
            subst (λ x. IsFramed s x) done (run_query_step-IsFramed v s step) in
          rw (runs, done) (query_loop-iteration steps (finish_query t step r) ∙ framed.iteration)
      | inr (t, x, failure) ↦
          let framed : SameFrame s t =
            subst (λ y. IsFramed s y) failure (run_query_step-IsFramed v s step) in
          rw (runs, failure) (ground (arith, framed.iteration))
    ]
  ]

  -- When the node goes on to the analysis, every query step of the plan has been taken: none is
  -- pending, whether it ran or was skipped for want of data.
  pub dsl_query_node-done :
      (s : AgentState J)
      → (dsl_query_node v s).phase ≡ Phase.analyze
      → All (λ p. pending_query p ≡ false) (dsl_query_node v s).plan_steps
  unfolding dsl_query_node
  dsl_query_node-done s e =
      query_loop-done (keep pending_query s.plan_steps) s (keep-Covers s.plan_steps) e

  pub dsl_query_node-iteration : (s : AgentState J) → (dsl_query_node v s).iteration ≡ s.iteration
  unfolding dsl_query_node
  dsl_query_node-iteration s = query_loop-iteration (keep pending_query s.plan_steps) s
