-- ===== src/Orchestrator/State/Trace.antt =====
-- The trace of tool calls within its budget, and the budget of retries.
use future_bi.Base.{
  ℕ, ◌-◌, ◌≤◌, ◌<◌, ◌≡◌, ◌≢◌, refl, ap, Bool-cases, ltb, ◌⊎◌, inl, inr, List, [], ◌∷◌, ◌++◌, arith,
  length,
}
use future_bi.Orchestrator.State.{
  ToolRecord, AgentState, weight, total_weight, prune_loop, prune_tool_history,
}

-- Each dropped record was dropped while the trace from it on was over the budget.
abbrev pub AllOver : {J : Type 0} → ℕ → List (ToolRecord J) → List (ToolRecord J) → Type 0
AllOver budget [] kept = Unit
AllOver budget (r ∷ gone) kept =
    (budget < total_weight (r ∷ gone ++ kept)) × AllOver budget gone kept

-- What pruning a trace `l` to `kept` means: a suffix, no shorter than the budget asks for.
pub record Pruned {J : Type 0} (budget : ℕ) (l kept : List (ToolRecord J)) : Type 0 where
  pub gone : List (ToolRecord J)
  pub suffix : l ≡ gone ++ kept
  pub forced : AllOver budget gone kept
  pub fits : (total_weight kept ≤ budget) ⊎ (length kept ≤ 1)
  pub newest : length l ≢ 0 → length kept ≢ 0

prune_loop-Pruned :
    {J : Type 0} (budget : ℕ) (l : List (ToolRecord J)) (total : ℕ)
    → total ≡ total_weight l
    → Pruned budget l (prune_loop budget total l)
unfolding prune_loop total_weight
prune_loop-Pruned budget [] total e = record {
  gone = [];
  suffix = refl;
  forced = tt;
  fits = inr (omega arith);
  newest = λ h. h;
}
prune_loop-Pruned budget (r ∷ []) total e = record {
  gone = [];
  suffix = refl;
  forced = tt;
  fits = inr (omega arith);
  newest = λ h. h;
}
prune_loop-Pruned budget (r ∷ r' ∷ l) total e = elim (Bool-cases (ltb budget total)) [
  | inl over ↦
      let rest = prune_loop-Pruned budget (r' ∷ l) (total - weight r) (omega arith) in
      rw over (record {
        gone = r ∷ rest.gone;
        suffix = ap (◌∷◌ r) rest.suffix;
        forced = (rw (← rest.suffix) (ground arith), rest.forced);
        fits = rest.fits;
        newest = λ h. rest.newest (omega arith);
      })
  | inr fits ↦
      rw fits (record {
        gone = [];
        suffix = refl;
        forced = tt;
        fits = inl (ground arith);
        newest = λ h. h;
      })
]

-- Pruning drops records from the oldest on, only while the trace is over the budget, until it fits
-- or one record is left, and never drops the newest.
pub prune_tool_history-Pruned :
    {J : Type 0} (budget : ℕ) (s : AgentState J)
    → Pruned budget s.tool_calls (prune_tool_history budget s).tool_calls
unfolding prune_tool_history
prune_tool_history-Pruned budget s =
    prune_loop-Pruned budget s.tool_calls (total_weight s.tool_calls) refl
