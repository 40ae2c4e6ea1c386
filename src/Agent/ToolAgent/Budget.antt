-- ===== src/Agent/ToolAgent/Budget.antt =====
-- Why the rounds of agent/tool_agent.py, `ToolAgent.run`, end within `max_steps`: each round that goes on
-- has made a step.
use future_bi.Base.{
  ℕ, zero, suc, ◌+◌, ◌-◌, ◌≤◌, ◌<◌, ◌≡◌, refl, ap, sym, ◌∙◌, true, false, Option, none, some, List,
  [], ◌∷◌, length, length-append, arith, Bool-cases, inl, inr,
}
use future_bi.Tools.{ToolResult, Ran, returned, raised}
use future_bi.Agent.ToolAgent.{
  ToolCall, Invocation, PlanResult, Parts, Setting, Progress, add, next_step, has_budget, retry,
  heal, execute_call, execute_calls,
}
use future_bi.Agent.ToolAgent.Rounds.{Draft, proceed, follow, hear, replan_once, replan}

module _ {J D Q P : Type 0} (a : Parts J D Q P) (g : Setting J D Q) where
  add-grows :
      (p : Progress J D) (c : ToolCall J)
      → length (add p (next_step g p c)).steps ≡ length p.steps + 1
  add-grows p c = let e = length-append p.steps ((next_step g p c).0 ∷ []) in ground arith

  retry-grows :
      (p : Progress J D) (c : Option (ToolCall J)) → length p.steps ≤ length (retry a g p c).0.steps
  unfolding retry
  retry-grows p none = omega arith
  retry-grows p (some c) = let e = add-grows p c in omega (arith, e)

  heal-grows :
      (p : Progress J D) (c : ToolCall J) (made : Invocation J × ToolResult D)
      → length p.steps ≤ length (heal a g p c made).0.steps
  unfolding heal
  heal-grows p c (i, r) = let e = retry-grows p (a.correct c i) in ground arith

  execute_call-grows :
      (p : Progress J D) (c : ToolCall J) → length p.steps < length (execute_call a g p c).0.steps
  unfolding execute_call
  execute_call-grows p c =
      let e = add-grows p c in
      let h = heal-grows (add p (next_step g p c)) c (next_step g p c) in ground arith

  execute_calls-grows :
      (p : Progress J D) (l : List (ToolCall J))
      → length p.steps ≤ length (execute_calls a g p l).0.steps
  unfolding execute_calls
  execute_calls-grows p [] = omega arith
  execute_calls-grows p (c ∷ l) =
      let e = execute_call-grows p c in
      let h = execute_calls-grows (execute_call a g p c).0 l in ground arith

  batch-grows :
      (p : Progress J D) (c : ToolCall J) (l : List (ToolCall J))
      → has_budget g p ≡ true
      → length p.steps < length (execute_calls a g p (c ∷ l)).0.steps
  unfolding execute_calls
  batch-grows p c l b =
      let e = execute_call-grows p c in
      let h = execute_calls-grows (execute_call a g p c).0 l in ground arith

  proceed-grows :
      (d : Draft J D) (l : List (ToolCall J))
      → has_budget g d.progress ≡ true
      → (proceed a g d l).1 ≡ true
      → length d.progress.steps < length (proceed a g d l).0.progress.steps
  unfolding proceed
  proceed-grows d [] b h = ground arith
  proceed-grows d (c ∷ l) b h = batch-grows d.progress c l b

  follow-grows :
      (d : Draft J D) (p : PlanResult J)
      → has_budget g d.progress ≡ true
      → (follow a g d p).1 ≡ true
      → length d.progress.steps < length (follow a g d p).0.progress.steps
  unfolding follow
  follow-grows d p b h = let e = proceed-grows d p.calls b in ground arith

  hear-grows :
      (d : Draft J D) (r : Ran (PlanResult J))
      → has_budget g d.progress ≡ true
      → (hear a g d r).1 ≡ true
      → length d.progress.steps < length (hear a g d r).0.progress.steps
  unfolding hear
  hear-grows d (raised type message) b h = ground arith
  hear-grows d (returned p) b h = follow-grows d p b h

  replan_once-grows :
      (d : Draft J D)
      → (replan_once a g d).1 ≡ true
      → length d.progress.steps < length (replan_once a g d).0.progress.steps
  unfolding replan_once
  replan_once-grows d h = elim (Bool-cases (has_budget g d.progress)) [
    | inl b ↦
        let remaining = g.max_steps - length d.progress.steps in
        let m = hear-grows d (a.plan_next d.progress.steps d.progress.outputs remaining) b in
        ground arith
    | inr b ↦ ground arith
  ]

  -- with no step left the next round ends the loop
  spent :
      (n : ℕ) (d : Draft J D) → has_budget g d.progress ≡ false → replan a g (suc n) d ≡ (d, false)
  unfolding replan replan_once
  spent n d h = ground arith

  round :
      (n : ℕ) (d : Draft J D)
      → (replan_once a g d).1 ≡ true
      → replan a g (suc n) d ≡ replan a g n (replan_once a g d).0
  unfolding replan
  round n d goes_on = rw (goes_on, replan) refl

  last_round :
      (n : ℕ) (d : Draft J D)
      → (replan_once a g d).1 ≡ false
      → replan a g (suc n) d ≡ ((replan_once a g d).0, false)
  unfolding replan
  last_round n d ends = rw (ends, replan) refl

  replan-stops :
      (n : ℕ) (d : Draft J D)
      → g.max_steps ≤ length d.progress.steps + n
      → (replan a g (suc n) d).1 ≡ false
  replan-stops zero d h = ap (λ p. p.1) (spent zero d (ground arith))
  replan-stops (suc n) d h = elim (Bool-cases (replan_once a g d).1) [
    | inl t ↦
        ap (λ p. p.1) (round (suc n) d t)
        ∙ replan-stops n (replan_once a g d).0 (omega (arith, h, replan_once-grows d t))
    | inr f ↦ ap (λ p. p.1) (last_round (suc n) d f)
  ]

  -- a loop that has stopped makes nothing more of more fuel
  replan-more :
      (n k : ℕ) (d : Draft J D) → (replan a g n d).1 ≡ false → replan a g (n + k) d ≡ replan a g n d
  unfolding replan
  replan-more zero k d h = absurd (ground (arith, h))
  replan-more (suc n) k d h =
      let e : suc n + k ≡ suc (n + k) = omega arith in
      ap (λ m. replan a g m d) e ∙ elim (Bool-cases (replan_once a g d).1) [
        | inl t ↦
            round (n + k) d t
            ∙ replan-more n k (replan_once a g d).0 (sym (ap (λ p. p.1) (round n d t)) ∙ h)
            ∙ sym (round n d t)
        | inr f ↦ last_round (n + k) d f ∙ sym (last_round n d f)
      ]

-- The rounds that plan again end by themselves, since each round that goes on has made a step: after
-- `max_steps + 1` rounds at the latest the loop has left by one of its own exits, and with more rounds
-- allowed it makes the same draft and leaves in the same way.
pub replan-settles :
    {I D Q P : Type 0} (a : Parts I D Q P) (g : Setting I D Q) (d : Draft I D) (n : ℕ)
    → ((replan a g (suc g.max_steps) d).1 ≡ false)
      × (replan a g (suc g.max_steps + n) d ≡ replan a g (suc g.max_steps) d)
replan-settles a g d n =
    let stops = replan-stops a g g.max_steps d (omega arith) in
    (stops, replan-more a g (suc g.max_steps) n d stops)
