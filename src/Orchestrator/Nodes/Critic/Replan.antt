-- ===== src/Orchestrator/Nodes/Critic/Replan.antt =====
-- When `critic_node` asks for another plan, and what that costs.
use mathlib.Core.Bool.{not, ◌&&◌}
use future_bi.Base.{
  eq_iff, ◌+◌, ◌≤◌, ◌<◌, ◌≡◌, ◌⊎◌, true, false, arith, inl, inr, refl, Option, none, some, String,
  Bool-cases,
}
use future_bi.Base.Text.{is_nonempty, mentions}
use future_bi.Orchestrator.State.{AgentState, Phase, record_error, max_retries}
use future_bi.Orchestrator.Nodes.{Services, Outcome, returned, raised, Verdict, is_truthy_text}
use future_bi.Orchestrator.Nodes.Critic.{
  critic_node, is_actionable, diagnostic_words, all_empty, reflect_step, reflect_on, has_data,
  has_summary, is_exhausted,
}

module _ {J : Type 0} (v : Services J) where
  -- what a reply of the reflector leads to
  reflect_step-cases :
      (s : AgentState J) (o : Outcome (Option Verdict))
      → ((e : String) × (o ≡ raised e) × (reflect_step v s o ≡ raised e))
        ⊎ ((s' : AgentState J) × (reflect_step v s o ≡ returned s')
            × (s'.iteration ≡ s.iteration)
            × ((s'.phase ≡ Phase.plan) ⊎ (s'.phase ≡ Phase.synthesize)))
  unfolding reflect_step reflect_on
  reflect_step-cases s (raised e) = inl (e, refl, refl)
  reflect_step-cases s (returned none) =
      inr (record s { phase = Phase.synthesize }, refl, refl, inr refl)
  reflect_step-cases s (returned (some w)) =
      inr (reflect_on v s w, refl, ground arith, ground arith)

  -- the critic asks the reflector, or sets a phase and nothing else
  critic_shape :
      (s : AgentState J)
      → (critic_node v s ≡ reflect_step v s (v.reflect s))
        ⊎ ((p : Phase) × (critic_node v s ≡ returned (record s { phase = p }))
            × (((p ≡ Phase.plan) × ((has_data s && has_summary s) ≡ false))
                ⊎ (p ≡ Phase.synthesize)))
  unfolding critic_node
  critic_shape s = elim (Bool-cases (is_truthy_text s.no_data_reason)) [
    | inl blocked ↦ inr (Phase.synthesize, ground (arith, blocked), inr refl)
    | inr free ↦ elim (Bool-cases (has_data s && all_empty s)) [
      | inl empty ↦ inr (Phase.synthesize, ground (arith, free, empty), inr refl)
      | inr full ↦ elim (Bool-cases (has_data s)) [
        | inr missing ↦ elim (Bool-cases (is_exhausted s)) [
          | inl spent ↦ inr (Phase.synthesize, ground (arith, free, full, missing, spent), inr refl)
          | inr left ↦ inr (
            Phase.plan,
            ground (arith, free, full, missing, left),
            inl (refl, ground (arith, missing)),
          )
        ]
        | inl there ↦
            elim (Bool-cases (
              mentions diagnostic_words s.user_query
              && not (has_summary s)
              && not (is_exhausted s))) [
                | inl ask ↦ inr (
                  Phase.plan,
                  ground (arith, free, full, there, ask),
                  inl (refl, ground (arith, ask)),
                )
                | inr other ↦ elim (Bool-cases (has_summary s)) [
                  | inl summed ↦ inl (ground (arith, free, full, there, other, summed))
                  | inr bare ↦
                      inr
                        (Phase.synthesize, ground (arith, free, full, there, other, bare), inr refl)
                ]
              ]
      ]
    ]
  ]

  -- The critic answers with a new plan or with the report, or raises what the reflector's reply raised.
  pub critic_node-cases :
      (s : AgentState J)
      → ((e : String) × (v.reflect s ≡ raised e) × (critic_node v s ≡ raised e))
        ⊎ ((s' : AgentState J) × (critic_node v s ≡ returned s')
            × (s'.iteration ≡ s.iteration)
            × ((s'.phase ≡ Phase.plan) ⊎ (s'.phase ≡ Phase.synthesize)))
  unfolding critic_node
  critic_node-cases s = elim (critic_shape s) [
    | inl asks ↦ rw asks (reflect_step-cases s (v.reflect s))
    | inr (p, set, inl (again, _)) ↦ inr (record s { phase = p }, set, refl, inl again)
    | inr (p, set, inr report) ↦ inr (record s { phase = p }, set, refl, inr report)
  ]

  -- With the budget of retries used up the critic goes on to the report, if it returns.
  pub critic_exhausted :
      (s s' : AgentState J)
      → max_retries ≤ s.error_context.retries
      → critic_node v s ≡ returned s'
      → s'.phase ≡ Phase.synthesize
  unfolding critic_node is_exhausted record_error reflect_step reflect_on
  critic_exhausted s s' spent made = ground arith

  -- What holds when the critic asks for a new plan: the budget is not used up and the query was
  -- not blocked; and either data or a summary is missing and no retry is counted, or the reflector
  -- asked for it, one retry is counted and the state of the artifacts is noted.
  pub critic_node-plan :
      (s s' : AgentState J)
      → critic_node v s ≡ returned s'
      → s'.phase ≡ Phase.plan
      → (s.error_context.retries < max_retries)
        × (is_truthy_text s.no_data_reason ≡ false)
        × ((s'.error_context ≡ s.error_context) × ((has_data s ≡ false) ⊎ (has_summary s ≡ false))
            ⊎ (s'.error_context.retries ≡ s.error_context.retries + 1) × (has_summary s ≡ true))
  unfolding critic_node is_exhausted record_error reflect_step reflect_on
  critic_node-plan s s' made e = (ground arith, ground arith, ground arith)

  -- Without data, and without a reason for its absence, the critic asks for a new plan as long as
  -- retries are left, and changes nothing else in the state: it counts no retry.
  pub critic_free_replan :
      (s : AgentState J)
      → is_truthy_text s.no_data_reason ≡ false
      → has_data s ≡ false
      → s.error_context.retries < max_retries
      → critic_node v s ≡ returned (record s { phase = Phase.plan })
  unfolding critic_node is_exhausted
  critic_free_replan s open_window empty left = ground arith

  no_progress :
      (s : AgentState J) (o : Outcome (Option Verdict))
      → is_nonempty (v.fingerprint s) ≡ true
      → s.last_replan_fingerprint ≡ v.fingerprint s
      → ((e : String) × (o ≡ raised e) × (reflect_step v s o ≡ raised e))
        ⊎ ((s' : AgentState J) × (reflect_step v s o ≡ returned s') × (s'.phase ≡ Phase.synthesize))
  unfolding reflect_step reflect_on is_actionable
  no_progress s (raised e) text same = inl (e, refl, refl)
  no_progress s (returned none) text same = inr (record s { phase = Phase.synthesize }, refl, refl)
  no_progress s (returned (some w)) text same =
      inr
        (reflect_on v s w, refl, ground (arith, eq_iff (v.fingerprint s) s.last_replan_fingerprint))

  -- With data and a summary at hand, and artifacts whose fingerprint is not empty and is that of the last
  -- replanning, the critic does not ask for another plan: it goes on to the report, whatever reasons the
  -- reflector gives, or it raises what the reflector's malformed reply raised.
  pub critic_no_progress :
      (s : AgentState J)
      → has_data s ≡ true
      → has_summary s ≡ true
      → is_nonempty (v.fingerprint s) ≡ true
      → s.last_replan_fingerprint ≡ v.fingerprint s
      → ((e : String) × (v.reflect s ≡ raised e) × (critic_node v s ≡ raised e))
        ⊎ ((s' : AgentState J) × (critic_node v s ≡ returned s') × (s'.phase ≡ Phase.synthesize))
  unfolding critic_node
  critic_no_progress s data_there summary_there text same = elim (critic_shape s) [
    | inl asks ↦ rw asks (no_progress s (v.reflect s) text same)
    | inr (p, set, inr report) ↦ inr (record s { phase = p }, set, report)
    | inr (p, set, inl (again, gap)) ↦ absurd (ground (arith, gap, data_there, summary_there))
  ]
