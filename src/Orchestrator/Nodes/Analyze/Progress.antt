-- ===== src/Orchestrator/Nodes/Analyze/Progress.antt =====
-- What `code_exec_node` leaves behind: the budget of retries, and the artifacts.
use future_bi.Base.{
  ◌+◌, ◌<◌, ◌≡◌, refl, ap, ◌∙◌, ◌⊎◌, inl, inr, Option, none, some, List, [], ◌∷◌, ◌++◌, leb, arith,
  Bool-cases, Option-cases, keep, String,
}
use Prim.Native.String.{◌++◌ as str_append}
use mathlib.Core.List.{append-nil, append_assoc}
use future_bi.Orchestrator.State.{
  AgentState, PlanStep, Phase, Artifact, ArtifactKind, record_error, max_retries,
}
use future_bi.Orchestrator.Nodes.{
  Services, Outcome, returned, raised, CodeResult, pending_analyze, is_truthy_text,
}
use future_bi.Orchestrator.Nodes.RunStep.Frame.{Outcome-cases}
use future_bi.Orchestrator.Nodes.Analyze.{
  usable, code_exec_node, analyze_loop, after_code, fail_code, finish_code, code_record, add_chart,
}

-- One failed step at most ends the node, and it counts one retry; artifacts are only added.
pub record AnalyzeEnd {J : Type 0} (s s' : AgentState J) : Type 0 where
  pub retries :
      (s'.error_context ≡ s.error_context)
      ⊎ ((s'.error_context.retries ≡ s.error_context.retries + 1)
          × ((s'.phase ≡ Phase.plan) ⊎ (max_retries < s'.error_context.retries)))
  pub added : List (Artifact J)
  pub artifacts : s'.artifacts ≡ s.artifacts ++ added
  pub iteration : s'.iteration ≡ s.iteration

module _ {J : Type 0} (v : Services J) where
  add_chart-added :
      (l : List (Artifact J)) (step : PlanStep J) (o : Option J)
      → (added : List (Artifact J)) × (add_chart v l step o ≡ l ++ added)
  unfolding add_chart
  add_chart-added l step none = ([], rw append-nil)
  add_chart-added l step (some spec) = elim (Bool-cases (v.same_chart l spec)) [
    | inl known ↦ ([], rw (known, append-nil))
    | inr new ↦ (
      (record { kind = ArtifactKind.echarts; name = str_append step.id "_chart"; payload = spec })
          ∷ [],
      rw new,
    )
  ]

  -- the state after the tool call is recorded
  abbrev called : AgentState J → PlanStep J → CodeResult J → AgentState J
  called s step r = record s { tool_calls = s.tool_calls ++ code_record v step r ∷ [] }

  fail_code-AnalyzeEnd :
      (s : AgentState J) (step : PlanStep J) (r : CodeResult J)
      → AnalyzeEnd s (fail_code v (called s step r) step r)
  unfolding fail_code record_error
  fail_code-AnalyzeEnd s step r =
      elim (Bool-cases (leb (s.error_context.retries + 1) max_retries)) [
        | inl within ↦ rw within (record {
          retries = inr (refl, inl refl);
          added = [];
          artifacts = rw append-nil;
          iteration = refl;
        })
        | inr over ↦ rw over (record {
          retries = inr (refl, inr (ground arith));
          added = [];
          artifacts = rw append-nil;
          iteration = refl;
        })
      ]

  finish-AnalyzeEnd :
      (s : AgentState J) (step : PlanStep J) (r : CodeResult J) (summary : J) (u : AgentState J)
      → AnalyzeEnd (finish_code v (called s step r) step r summary) u
      → AnalyzeEnd s u
  unfolding finish_code
  finish-AnalyzeEnd s step r summary u end =
      let first : List (Artifact J) =
        (record {
          kind = ArtifactKind.summary;
          name = step.id;
          payload = v.summary_payload summary;
        })
        ∷ [] in
      let (chart, charted) = add_chart-added (s.artifacts ++ first) step r.echarts_spec in
      let regroup : (s.artifacts ++ first) ++ chart ++ end.added
          ≡ s.artifacts ++ (first ++ (chart ++ end.added)) =
        rw (append_assoc, append_assoc) in
      record {
        retries = end.retries;
        added = first ++ (chart ++ end.added);
        artifacts = end.artifacts ∙ ap (λ l. l ++ end.added) charted ∙ regroup;
        iteration = end.iteration;
      }

  -- the node returns an end, or raises what a run of code raised
  abbrev pub Ends : AgentState J → Outcome (AgentState J) → Type 0
  Ends s o =
      ((s' : AgentState J) × (o ≡ returned s') × AnalyzeEnd s s')
      ⊎ ((e : String) × (t : AgentState J) × (p : PlanStep J) × (v.run_code t p ≡ raised e)
          × (o ≡ raised e))

  finished :
      (s : AgentState J) (step : PlanStep J) (r : CodeResult J) (summary : J)
      (o : Outcome (AgentState J))
      → Ends (finish_code v (called s step r) step r summary) o
      → Ends s o
  finished s step r summary o (inl (u, made, end)) =
      inl (u, made, finish-AnalyzeEnd s step r summary u end)
  finished s step r summary o (inr thrown) = inr thrown

  loop-raised :
      (step : PlanStep J) (steps : List (PlanStep J)) (s : AgentState J) (e : String)
      → v.run_code s step ≡ raised e
      → analyze_loop v (step ∷ steps) s ≡ raised e
  unfolding analyze_loop
  loop-raised step steps s e thrown = ground (arith, thrown)

  loop-missing :
      (step : PlanStep J) (steps : List (PlanStep J)) (s : AgentState J) (r : CodeResult J)
      → v.run_code s step ≡ returned r
      → usable r ≡ none
      → analyze_loop v (step ∷ steps) s ≡ returned (fail_code v (called s step r) step r)
  unfolding analyze_loop after_code
  loop-missing step steps s r ran missing = ground (arith, ran, missing)

  loop-there :
      (step : PlanStep J) (steps : List (PlanStep J)) (s : AgentState J) (r : CodeResult J)
      (summary : J)
      → v.run_code s step ≡ returned r
      → usable r ≡ some summary
      → analyze_loop v (step ∷ steps) s
        ≡ analyze_loop v steps (finish_code v (called s step r) step r summary)
  unfolding analyze_loop after_code
  loop-there step steps s r summary ran there = ground (arith, ran, there)

  analyze_loop-Ends :
      (steps : List (PlanStep J)) (s : AgentState J) → Ends s (analyze_loop v steps s)
  unfolding analyze_loop
  analyze_loop-Ends [] s = inl (
    record s { phase = Phase.critique },
    refl,
    record { retries = inl refl; added = []; artifacts = rw append-nil; iteration = refl },
  )
  analyze_loop-Ends (step ∷ steps) s = elim (Outcome-cases (v.run_code s step)) [
    | inr (e, thrown) ↦ inr (e, s, step, thrown, loop-raised step steps s e thrown)
    | inl (r, ran) ↦ elim (Option-cases (usable r)) [
      | inl missing ↦ inl (
        fail_code v (called s step r) step r,
        loop-missing step steps s r ran missing,
        fail_code-AnalyzeEnd s step r,
      )
      | inr (summary, there) ↦ rw (loop-there step steps s r summary ran there) (
          finished s step r summary _
            (analyze_loop-Ends steps (finish_code v (called s step r) step r summary)))
    ]
  ]

  -- The node only adds artifacts. It leaves the budget of retries alone, or fails at one step, counts
  -- one retry and then asks for a new plan, unless the budget is used up. Otherwise it raises, and then
  -- what a run of code has raised.
  pub code_exec_node-AnalyzeEnd : (s : AgentState J) → Ends s (code_exec_node v s)
  unfolding code_exec_node
  code_exec_node-AnalyzeEnd s = elim (Bool-cases (is_truthy_text s.no_data_reason)) [
    | inl blocked ↦ inl (
      s,
      ground (arith, blocked),
      record { retries = inl refl; added = []; artifacts = rw append-nil; iteration = refl },
    )
    | inr free ↦ rw free (analyze_loop-Ends (keep pending_analyze s.plan_steps) s)
  ]
