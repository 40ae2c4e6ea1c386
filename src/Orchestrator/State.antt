-- ===== src/Orchestrator/State.antt =====
-- core/orchestrator/state.py and the data set reference of core/retrieval/parquet_ref.py. A value of
-- `dict[str, Any]` is an element of the parameter `J`.
pub mod Trace
use Prim.Native.String.{count}
use future_bi.Base.{
  ℕ, ◌+◌, ◌-◌, String, Bool, true, Option, none, some, List, [], ◌∷◌, ◌++◌, ltb, leb, if◌then◌else◌,
}
use future_bi.Base.Dict.{Dict}
use future_bi.Base.Text.{last_chars}

abbrev pub max_retries : ℕ
max_retries = 3

-- `TOOL_HISTORY_BUDGET_CHARS`
abbrev pub tool_history_budget_chars : ℕ
tool_history_budget_chars = 60000

pub data Phase : Type 0 where
  clarify plan query analyze critique synthesize done : Phase

pub data StepKind : Type 0 where
  query analyze synthesize : StepKind

pub data StepStatus : Type 0 where
  pending running done failed : StepStatus

pub record PlanStep (J : Type 0) : Type 0 where
  pub id : String
  pub goal : String
  pub kind : StepKind
  pub depends_on : List String
  pub dsl : Option J
  pub code : Option String
  pub status : StepStatus

-- `duration_ms` is left out: no operation reads it.
pub record ToolRecord (J : Type 0) : Type 0 where
  pub step_id : String
  pub tool : String
  pub args : Option J
  pub succeeded : Bool
  pub summary : String
  pub error : Option String

pub data ArtifactKind : Type 0 where
  parquet summary echarts : ArtifactKind

pub record Artifact (J : Type 0) : Type 0 where
  pub kind : ArtifactKind
  pub name : String
  pub payload : J

pub record ErrorContext : Type 0 where
  pub errors : List String
  pub retries : ℕ

-- `ErrorContext.record`: whether the budget of retries still holds
unfoldable pub record_error : ErrorContext → String → ErrorContext × Bool
record_error e error = (
  record { errors = e.errors ++ last_chars 2000 error ∷ []; retries = e.retries + 1 },
  leb (e.retries + 1) max_retries,
)

pub record ParquetRef (J : Type 0) : Type 0 where
  pub name : String
  pub path : String
  pub rows : ℕ
  pub columns : List String
  pub schema : Dict String
  pub sha256 : String
  pub question : String
  pub dsl : J
  pub masked_cells : ℕ
  pub audit : J

pub record AgentState (J : Type 0) : Type 0 where
  pub session_id : String
  pub turn_id : String
  pub trace_id : String
  pub user_query : String
  pub plan_steps : List (PlanStep J)
  pub clarification : Option String
  pub human_reply : Option String
  pub tool_calls : List (ToolRecord J)
  pub scratchpad : List String
  pub artifacts : List (Artifact J)
  pub report : String
  pub phase : Phase
  pub error_context : ErrorContext
  pub datasets : Dict (ParquetRef J)
  pub step_outputs : Dict (List String)
  pub last_replan_fingerprint : String
  pub no_data_reason : Option String
  pub iteration : ℕ

-- `len(r.summary) + len(r.error or "")`
unfoldable pub weight : {J : Type 0} → ToolRecord J → ℕ
weight r = count r.summary + elim r.error [ none ↦ 0 | some e ↦ count e ]

unfoldable pub total_weight : {J : Type 0} → List (ToolRecord J) → ℕ
total_weight [] = 0
total_weight (r ∷ l) = weight r + total_weight l

-- `while total > budget_chars and len(self.tool_calls) > 1: ...`
unfoldable pub prune_loop : {J : Type 0} → ℕ → ℕ → List (ToolRecord J) → List (ToolRecord J)
prune_loop budget total [] = []
prune_loop budget total (r ∷ []) = r ∷ []
prune_loop budget total (r ∷ r' ∷ l) =
    let rest = prune_loop budget (total - weight r) (r' ∷ l) in
    if ltb budget total then rest else r ∷ r' ∷ l

unfoldable pub prune_tool_history : {J : Type 0} → ℕ → AgentState J → AgentState J
prune_tool_history budget s = record s {
  tool_calls = prune_loop budget (total_weight s.tool_calls) s.tool_calls;
}
