-- ===== src/Agent/ToolAgent/Steps.antt =====
-- The steps of a run of agent/tool_agent.py, `ToolAgent`: their numbers, their tools and the budget.
use future_bi.Base.{
  ℕ, zero, suc, ◌+◌, ◌-◌, ◌≤◌, String, ◌≡◌, ◌∙◌, true, Option, none, some, List, [], ◌∷◌, ◌++◌,
  length, length-append, arith, is_some, Bool-cases, Option-cases, inl, inr, if◌then◌else◌,
}
use future_bi.Tools.{ToolResult, Ran, returned, raised, ToolRegistry, get_tool}
use future_bi.Agent.ToolAgent.{
  ToolCall, Invocation, PlanResult, ReflectionVerdict, AgentResult, Parts, Setting, Progress, add,
  next_step, has_budget, retry, execute_once, unknown_record, record_of, heal, execute_call,
  execute_calls,
}
use future_bi.Agent.ToolAgent.Rounds.{
  Draft, proceed, follow, hear, heed, replan_once, replan, follow_up, reflect_on, dispatch, drafted,
  concluded, answered, carry_out, plan_of, run_plan, run,
}

module _ {J D Q : Type 0} where
  -- The steps are numbered from `k` on, and the tool of a step that succeeded is registered.
  unfoldable pub IsTrace : ToolRegistry J D Q → ℕ → List (Invocation J) → Type 0
  IsTrace r k [] = Unit
  IsTrace r k (i ∷ l) =
      (i.step ≡ k) × (i.success ≡ true → is_some (get_tool r i.tool) ≡ true) × IsTrace r (k + 1) l

  IsTrace-snoc :
      (r : ToolRegistry J D Q) (k : ℕ) (l : List (Invocation J)) (i : Invocation J)
      → IsTrace r k l
      → i.step ≡ k + length l
      → (i.success ≡ true → is_some (get_tool r i.tool) ≡ true)
      → IsTrace r k (l ++ i ∷ [])
  unfolding IsTrace
  IsTrace-snoc r k [] i t e h = (omega (arith, e), h, tt)
  IsTrace-snoc r k (j ∷ l) i (a, b, t) e h =
      (a, b, IsTrace-snoc r (k + 1) l i t (omega (arith, e)) h)

  execute_once-step :
      (g : Setting J D Q) (c : ToolCall J) (n : ℕ) (outputs : List (ToolResult D))
      → (execute_once g c n outputs).0.step ≡ n
  unfolding execute_once unknown_record record_of
  execute_once-step g c n outputs = ground arith

  execute_once-tool :
      (g : Setting J D Q) (c : ToolCall J) (n : ℕ) (outputs : List (ToolResult D))
      → (execute_once g c n outputs).0.success ≡ true
      → is_some (get_tool g.registry (execute_once g c n outputs).0.tool) ≡ true
  unfolding execute_once unknown_record record_of
  execute_once-tool g c n outputs h = ground arith

  -- the steps so far are a trace within the budget
  abbrev pub Fits : Setting J D Q → Progress J D → Type 0
  Fits g p = IsTrace g.registry 1 p.steps × (length p.steps ≤ g.max_steps)

  add-Fits :
      (g : Setting J D Q) (p : Progress J D) (c : ToolCall J)
      → has_budget g p ≡ true
      → Fits g p
      → Fits g (add p (next_step g p c))
  add-Fits g p c h (t, b) =
      let made = next_step g p c in
      (
        IsTrace-snoc g.registry 1 p.steps made.0 t
            (execute_once-step g c (length p.steps + 1) p.outputs ∙ omega arith)
            (execute_once-tool g c (length p.steps + 1) p.outputs),
        let e = length-append p.steps (made.0 ∷ []) in ground arith,
      )

  module _ {P : Type 0} (a : Parts J D Q P) (g : Setting J D Q) where
    retry-Fits :
        (p : Progress J D) (c : Option (ToolCall J))
        → has_budget g p ≡ true
        → Fits g p
        → Fits g (retry a g p c).0
    unfolding retry
    retry-Fits p none h f = f
    retry-Fits p (some c) h f = add-Fits g p c h f

    -- a correction is added only within the budget
    heal-Fits :
        (p : Progress J D) (c : ToolCall J) (made : Invocation J × ToolResult D)
        → Fits g p
        → Fits g (heal a g p c made).0
    unfolding heal
    heal-Fits p c (i, r) f = elim (Bool-cases (has_budget g p)) [
      | inl h ↦ let e = retry-Fits p (a.correct c i) h f in ground (arith, e)
      | inr h ↦ ground (arith, h)
    ]

    execute_call-Fits :
        (p : Progress J D) (c : ToolCall J)
        → has_budget g p ≡ true
        → Fits g p
        → Fits g (execute_call a g p c).0
    unfolding execute_call
    execute_call-Fits p c h f =
        let q = add p (next_step g p c) in
        let k = add-Fits g p c h f in let m = heal-Fits q c (next_step g p c) k in ground arith

    pub execute_calls-Fits :
        (p : Progress J D) (l : List (ToolCall J)) → Fits g p → Fits g (execute_calls a g p l).0
    unfolding execute_calls
    execute_calls-Fits p [] f = f
    execute_calls-Fits p (c ∷ l) f = elim (Bool-cases (has_budget g p)) [
      | inl h ↦
          let k = execute_call-Fits p c h f in
          let m = execute_calls-Fits (execute_call a g p c).0 l k in ground arith
      | inr h ↦ ground arith
    ]

    proceed-Fits :
        (d : Draft J D) (l : List (ToolCall J))
        → Fits g d.progress
        → Fits g (proceed a g d l).0.progress
    unfolding proceed
    proceed-Fits d [] f = f
    proceed-Fits d (c ∷ l) f = execute_calls-Fits d.progress (c ∷ l) f

    follow-Fits :
        (d : Draft J D) (p : PlanResult J) → Fits g d.progress → Fits g (follow a g d p).0.progress
    unfolding follow
    follow-Fits d p f = let m = proceed-Fits d p.calls f in ground arith

    hear-Fits :
        (d : Draft J D) (r : Ran (PlanResult J))
        → Fits g d.progress
        → Fits g (hear a g d r).0.progress
    unfolding hear
    hear-Fits d (raised type message) f = f
    hear-Fits d (returned p) f = follow-Fits d p f

    replan_once-Fits : (d : Draft J D) → Fits g d.progress → Fits g (replan_once a g d).0.progress
    unfolding replan_once
    replan_once-Fits d f =
        let remaining = g.max_steps - length d.progress.steps in
        let m = hear-Fits d (a.plan_next d.progress.steps d.progress.outputs remaining) f in
        ground arith

    pub replan-Fits :
        (n : ℕ) (d : Draft J D) → Fits g d.progress → Fits g (replan a g n d).0.progress
    unfolding replan
    replan-Fits zero d f = f
    replan-Fits (suc n) d f =
        let k = replan_once-Fits d f in
        let m = replan-Fits n (replan_once a g d).0 k in ground arith

    dispatch-Fits : (l : List (ToolCall J)) → Fits g (dispatch a g l).progress
    unfolding dispatch IsTrace
    dispatch-Fits l =
        let m = execute_calls-Fits (record { steps = []; outputs = [] }) l (tt, omega arith) in
        let p = (execute_calls a g (record { steps = []; outputs = [] }) l).0 in
        let d : Draft J D = record {
          progress = p;
          answer = none;
          clarifications = [];
          replans = 0;
        } in
        let k = replan-Fits (suc g.max_steps) d m in ground arith

    follow_up-Fits :
        (p : Progress J D) (v : ReflectionVerdict J) (c : Option (ToolCall J))
        → has_budget g p ≡ true
        → Fits g p
        → Fits g (follow_up a g p v c).0
    unfolding follow_up
    follow_up-Fits p v none h f = f
    follow_up-Fits p v (some c) h f = add-Fits g p c h f

    heed-Fits :
        (p : Progress J D) (r : Ran (ReflectionVerdict J))
        → has_budget g p ≡ true
        → Fits g p
        → Fits g (heed a g p r).0
    unfolding heed
    heed-Fits p (raised type message) h f = f
    heed-Fits p (returned v) h f =
        follow_up-Fits p v (if v.is_sufficient then none else v.follow_up) h f

    reflect_on-Fits : (d : Draft J D) → Fits g d.progress → Fits g (reflect_on a g d).0
    unfolding reflect_on
    reflect_on-Fits d f = elim (Bool-cases (has_budget g d.progress)) [
      | inl h ↦
          let remaining = g.max_steps - length d.progress.steps in
          elim (Option-cases a.reflect) [
            | inl e ↦ rw e f
            | inr (r, e) ↦
                let m =
                  heed-Fits d.progress (r d.progress.steps d.progress.outputs remaining) h f in
                rw e (ground arith)
          ]
      | inr h ↦ ground arith
    ]

    answered-Fits :
        ((r : AgentResult J P) (outputs : List (ToolResult D))
          → (a.synthesize r outputs).0.steps ≡ r.steps)
        → (query : String) (d : Draft J D) → Fits g d.progress
        → IsTrace g.registry 1 (answered a g query d).steps
          × (length (answered a g query d).steps ≤ g.max_steps)
    unfolding answered concluded drafted
    answered-Fits keeps query d f =
        let end = reflect_on a g d in
        rw (keeps (drafted a g query d end) (end.0).outputs) (reflect_on-Fits d f)

    run_plan-Fits :
        ((r : AgentResult J P) (outputs : List (ToolResult D))
          → (a.synthesize r outputs).0.steps ≡ r.steps)
        → (query : String) (r : Ran (PlanResult J))
        → IsTrace g.registry 1 (run_plan a g query r).steps
          × (length (run_plan a g query r).steps ≤ g.max_steps)
    unfolding run_plan carry_out IsTrace
    run_plan-Fits keeps query (raised type message) = (tt, omega arith)
    run_plan-Fits keeps query (returned p) =
        let m = answered-Fits keeps query (dispatch a g p.calls) (dispatch-Fits p.calls) in
        ground arith

-- The record that a run returns fits the budget, also when a call was corrected, the planner was asked again
-- or the reflector asked for one call more: it has at most `max_steps` steps, they are numbered 1, 2, 3
-- and so on, and each step that succeeded used a registered tool. The synthesizer is taken to leave the
-- steps as they are.
pub run-IsTrace :
    {J D Q P : Type 0} (a : Parts J D Q P) (g : Setting J D Q)
    → ((r : AgentResult J P) (outputs : List (ToolResult D))
        → (a.synthesize r outputs).0.steps ≡ r.steps)
    → (query : String)
    → IsTrace g.registry 1 (run a g query).steps × (length (run a g query).steps ≤ g.max_steps)
unfolding run
run-IsTrace a g keeps query = run_plan-Fits a g keeps query (plan_of a g.base_dsl query)
