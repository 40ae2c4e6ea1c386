-- ===== src/Orchestrator/Nodes/Critic.antt =====
-- core/orchestrator/nodes.py, `critic_node`.
pub mod Replan
use Prim.Native.String.{◌++◌ as str_append}
use future_bi.Base.{
  ℕ, ◌≤◌, String, ◌≡◌, ◌⊎◌, inl, inr, Bool, true, false, Option, none, some, List, [], ◌∷◌, ◌++◌,
  not, ◌&&◌, ◌||◌, leb, ltb, ◌==◌, any, all, length, str_eq, if◌then◌else◌,
}
use future_bi.Base.Dict.{Dict}
use future_bi.Base.Text.{mentions, is_nonempty}
use future_bi.Orchestrator.State.{
  AgentState, Artifact, ArtifactKind, ParquetRef, Phase, ErrorContext, record_error, max_retries,
}
use future_bi.Orchestrator.Nodes.{Services, Outcome, returned, raised, Verdict, is_truthy_text}

abbrev diagnostic_words : List String
diagnostic_words = "为什么" ∷ "下滑" ∷ "下降" ∷ "上涨" ∷ "增长" ∷ "归因" ∷ "原因" ∷ []

module _ {J : Type 0} where
  unfoldable pub has_summary : AgentState J → Bool
  has_summary s = any (λ a. elim a.kind [ ArtifactKind.summary ↦ true | _ ↦ false ]) s.artifacts

  unfoldable pub has_data : AgentState J → Bool
  has_data s = ltb 0 (length s.datasets)

  -- every data set has 0 rows
  unfoldable pub all_empty : AgentState J → Bool
  all_empty s = all (λ e. e.1.rows == 0) s.datasets

  unfoldable pub is_exhausted : AgentState J → Bool
  is_exhausted s = leb max_retries s.error_context.retries

module _ {J : Type 0} (v : Services J) where
  -- `_insufficient_is_actionable`: a gap to close, and progress since the last replanning
  is_actionable : AgentState J → Verdict → Bool
  is_actionable s w =
      w.has_gap
      && not (is_nonempty (v.fingerprint s) && str_eq (v.fingerprint s) s.last_replan_fingerprint)

  -- the branch of an "insufficient" reply
  reflect_on : AgentState J → Verdict → AgentState J
  reflect_on s w =
      let (context, within) =
        record_error s.error_context (str_append "LLM 反思判定产物不充分: " w.reasons) in
      let s' = record s {
        error_context = context;
        scratchpad = s.scratchpad ++ str_append "[critic-llm] " w.reasons ∷ [];
      } in
      if not (is_actionable s w)
      then record s {
        scratchpad = s.scratchpad ++ str_append "[critic-guard] 反思缺口不可执行，直接综合：" w.reasons ∷ [];
        phase = Phase.synthesize;
      }
      else if within
      then record s' { phase = Phase.plan; last_replan_fingerprint = v.fingerprint s' }
      else record s' { phase = Phase.synthesize }

  -- the optional LLM reflector
  reflect_step : AgentState J → Outcome (Option Verdict) → Outcome (AgentState J)
  reflect_step s (raised e) = raised e
  reflect_step s (returned none) = returned (record s { phase = Phase.synthesize })
  reflect_step s (returned (some w)) = returned (reflect_on s w)

  unfoldable pub critic_node : AgentState J → Outcome (AgentState J)
  unfolding is_actionable reflect_on reflect_step
  critic_node s =
      if is_truthy_text s.no_data_reason
      then returned (record s { phase = Phase.synthesize })
      else if has_data s && all_empty s
      then returned (record s { phase = Phase.synthesize })
      else if not (has_data s)
      then returned (record s { phase = if is_exhausted s then Phase.synthesize else Phase.plan })
      else if mentions diagnostic_words s.user_query && not (has_summary s) && not (is_exhausted s)
      then returned (record s { phase = Phase.plan })
      else if has_summary s
      then reflect_step s (v.reflect s)
      else returned (record s { phase = Phase.synthesize })
