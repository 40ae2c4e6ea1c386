-- ===== src/Orchestrator/Nodes.antt =====
-- core/orchestrator/nodes.py: what the six nodes do to the state. The services that the nodes call
-- (the LLM, the DSL helpers, the query facade, the sandbox) are the fields of `Services`. The query facade,
-- the sandbox and the reflector may raise, and the other helpers are taken to return; logs, events and the
-- time taken are left out.
pub mod Clarify
pub mod RunStep
pub mod Query
pub mod Analyze
pub mod Critic
use future_bi.Base.{
  ℕ, String, Bool, true, false, Option, none, some, List, [], ◌∷◌, map, ◌&&◌, str_eq, if◌then◌else◌,
}
use future_bi.Base.Text.{is_nonempty}
use future_bi.Orchestrator.State.{AgentState, PlanStep, ParquetRef, Artifact, StepKind, StepStatus}

-- what a call that may raise gives
pub data Outcome (A : Type 0) : Type 0 where
  returned : A → Outcome A
  raised : String → Outcome A

-- core/sandbox/api.py, the result of `run_code`
pub record CodeResult (J : Type 0) : Type 0 where
  pub succeeded : Bool
  pub summary : Option J
  pub summary_title : String
  pub echarts_spec : Option J
  pub error : Option String

-- the reflector's reply, when it says "insufficient": its reasons as text, and whether
-- `_insufficient_is_actionable` finds a gap in them that replanning can close
pub record Verdict : Type 0 where
  pub reasons : String
  pub has_gap : Bool

pub record Services (J : Type 0) : Type 0 where
  -- `bool(dsl)`
  pub is_truthy : J → Bool
  -- `_normalize_dsl_draft`
  pub normalize : J → J
  -- `bool(dsl.get("dimensions"))`
  pub has_dimensions : J → Bool
  -- `_inherit_overview_scope`
  pub inherit_scope : J → List J → J × List String
  -- `_diagnostic_dsl_pair`
  pub diagnostic_pair : String → J × J
  -- `_scalar_dsl`
  pub scalar_dsl : String → J
  -- `_outside_domain_window`
  pub outside_window : J → Option String
  -- `execute_dsl_query`, given the payload, the data set's name and the question
  pub execute : J → String → String → Outcome (ParquetRef J)
  -- the `[check] message` texts of the QA findings in an audit
  pub qa_notes : J → List String
  -- `run_code` on the step's code; it raises where the summary that the code left is no JSON object
  pub run_code : AgentState J → PlanStep J → Outcome (CodeResult J)
  -- `json.dumps(summary)[:800]`
  pub summary_text : J → String
  -- `Artifact` payload of a summary
  pub summary_payload : J → J
  -- `_has_same_echarts`
  pub same_chart : List (Artifact J) → J → Bool
  -- the LLM reflector: `none` if there is no LLM, or its reply is not "insufficient"; it raises where the
  -- node does on the reply, which is no JSON object, or has reasons that are no list
  pub reflect : AgentState J → Outcome (Option Verdict)
  -- `_artifact_fingerprint`
  pub fingerprint : AgentState J → String

abbrev pub is_query : StepKind → Bool
is_query k = elim k [ StepKind.query ↦ true | _ ↦ false ]

abbrev pub is_analyze : StepKind → Bool
is_analyze k = elim k [ StepKind.analyze ↦ true | _ ↦ false ]

abbrev pub is_pending : StepStatus → Bool
is_pending t = elim t [ StepStatus.pending ↦ true | _ ↦ false ]

-- `bool(text)`, of a text that may be missing
abbrev pub is_truthy_text : Option String → Bool
is_truthy_text none = false
is_truthy_text (some t) = is_nonempty t

module _ {J : Type 0} where
  abbrev pub pending_query : PlanStep J → Bool
  pending_query p = is_query p.kind && is_pending p.status

  abbrev pub pending_analyze : PlanStep J → Bool
  pending_analyze p = is_analyze p.kind && is_pending p.status

  -- `[s.model_copy(update={"status": status}) if s.id == id else s for s in steps]`
  unfoldable pub set_status : String → StepStatus → List (PlanStep J) → List (PlanStep J)
  set_status id status = map (λ p. if str_eq p.id id then record p { status = status } else p)
