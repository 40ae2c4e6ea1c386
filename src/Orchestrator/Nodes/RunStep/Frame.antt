-- ===== src/Orchestrator/Nodes/RunStep/Frame.antt =====
-- What running one query step leaves alone: the plan, the budget of retries, the iteration count.
use future_bi.Base.{
  length, ℕ, suc, ◌≡◌, refl, ◌∙◌, ◌⊎◌, inl, inr, String, Option, none, some, List, [], ◌∷◌, arith,
}
use future_bi.Orchestrator.State.{AgentState, PlanStep}
use future_bi.Orchestrator.Nodes.{Services, Outcome, returned, raised}
use future_bi.Orchestrator.Nodes.RunStep.{
  StepResult, finished, failed, Progress, run_query_step, run_variants, try_variant, scope_variants,
  close_step, overview_variants,
}

pub record SameFrame {J : Type 0} (s s' : AgentState J) : Type 0 where
  pub plan_steps : s'.plan_steps ≡ s.plan_steps
  pub error_context : s'.error_context ≡ s.error_context
  pub iteration : s'.iteration ≡ s.iteration

-- Both a finished step and a failed one leave a state with the same frame.
abbrev pub IsFramed : {J : Type 0} → AgentState J → StepResult J → Type 0
IsFramed s (finished s' r) = SameFrame s s'
IsFramed s (failed s' e) = SameFrame s s'

pub Outcome-cases :
    {A : Type 0} (o : Outcome A) → ((a : A) × (o ≡ returned a)) ⊎ ((e : String) × (o ≡ raised e))
Outcome-cases (returned a) = inl (a, refl)
Outcome-cases (raised e) = inr (e, refl)

module _ {J : Type 0} where
  same : (s : AgentState J) → SameFrame s s
  same s = record { plan_steps = refl; error_context = refl; iteration = refl }

  SameFrame-trans : {s t u : AgentState J} → SameFrame s t → SameFrame t u → SameFrame s u
  SameFrame-trans a b = record {
    plan_steps = b.plan_steps ∙ a.plan_steps;
    error_context = b.error_context ∙ a.error_context;
    iteration = b.iteration ∙ a.iteration;
  }

module _ {J : Type 0} (v : Services J) where
  try_variant-SameFrame :
      (step : PlanStep J) (total i : ℕ) (dsl : J) (p q : Progress J)
      → try_variant v step total i dsl p ≡ returned q
      → SameFrame p.state q.state
  unfolding try_variant
  try_variant-SameFrame step total i dsl p q e = record {
    plan_steps = ground arith;
    error_context = ground arith;
    iteration = ground arith;
  }

  run_variants-SameFrame :
      (step : PlanStep J) (total i : ℕ) (l : List J) (p : Progress J)
      → SameFrame p.state (run_variants v step total i l p).0.state
  unfolding run_variants
  run_variants-SameFrame step total i [] p = same p.state
  run_variants-SameFrame step total i (dsl ∷ l) p =
      elim (Outcome-cases (try_variant v step total i dsl p)) [
        | inl (q, ran) ↦
            rw (ran, run_variants)
              (SameFrame-trans (try_variant-SameFrame step total i dsl p q ran)
                (run_variants-SameFrame step total (suc i) l q))
        | inr (e, failure) ↦ rw (failure, run_variants) (same p.state)
      ]

  scope_variants-SameFrame :
      (s : AgentState J) (step : PlanStep J) (overview : List J)
      → SameFrame s (scope_variants v s step overview).0
  unfolding scope_variants
  scope_variants-SameFrame s step overview = record {
    plan_steps = ground arith;
    error_context = ground arith;
    iteration = ground arith;
  }

  close_step-IsFramed :
      (step : PlanStep J) (p : Progress J) (e : Option String)
      → IsFramed p.state (close_step v step (p, e))
  unfolding close_step
  close_step-IsFramed step p none = record {
    plan_steps = refl;
    error_context = refl;
    iteration = refl;
  }
  close_step-IsFramed step p (some e) = same p.state

  IsFramed-after :
      {s t : AgentState J} → SameFrame s t → (r : StepResult J) → IsFramed t r → IsFramed s r
  IsFramed-after a (finished u r) b = SameFrame-trans a b
  IsFramed-after a (failed u e) b = SameFrame-trans a b

  pub run_query_step-IsFramed :
      (s : AgentState J) (step : PlanStep J) → IsFramed s (run_query_step v s step)
  unfolding run_query_step
  run_query_step-IsFramed s step =
      let sv : AgentState J × List J =
        scope_variants v s step (overview_variants v step s.plan_steps) in
      let start : Progress J = record {
        state = sv.0;
        notes = [];
        produced = [];
        blocked_windows = [];
      } in
      let rv : Progress J × Option String = run_variants v step (length sv.1) 0 sv.1 start in
      IsFramed-after
        (SameFrame-trans (scope_variants-SameFrame s step (overview_variants v step s.plan_steps))
          (run_variants-SameFrame step (length sv.1) 0 sv.1 start))
        (close_step v step rv) (close_step-IsFramed step rv.0 rv.1)
