-- ===== src/Agent/ToolAgent.antt =====
-- agent/tool_agent.py, class `ToolAgent`: the loop that plans tools, runs them and plans again. The
-- planner, the reflector and the synthesizer are the record `Parts`: each sees the steps and the outputs
-- so far, and may raise. The rounds and `run` are in Rounds. Fields of a result that only the synthesizer fills are a type `P`.
pub mod Rounds
pub mod Planner
pub mod Budget
pub mod Steps
use Prim.Native.String.{◌++◌ as append}
use future_bi.Base.{
  ℕ, zero, suc, ◌+◌, ◌-◌, String, Bool, true, false, not, ◌&&◌, ◌||◌, Option, none, some, List, [],
  ◌∷◌, ◌++◌, map, any, length, ltb, leb, contains, is_some, if◌then◌else◌,
}
use future_bi.Base.Dict.{Dict}
use future_bi.Base.Text.{mentions_lower, join}
use future_bi.Tools.{
  ToolResult, ToolContext, Ran, returned, raised, BaseTool, ToolRegistry, get_tool,
}
use future_bi.Tools as Tools

pub record ToolCall (J : Type 0) : Type 0 where
  pub tool : String
  pub args : Dict J
  pub reason : String

-- `ToolInvocationRecord`, without its duration and its summary
pub record Invocation (J : Type 0) : Type 0 where
  pub step : ℕ
  pub tool : String
  pub args : Dict J
  pub success : Bool
  pub error_msg : Option String
  pub error_type : Option String
  pub display_type : Option String

-- a clarification is its question
pub record PlanResult (J : Type 0) : Type 0 where
  pub calls : List (ToolCall J)
  pub answer : Option String
  pub clarifications : List String

pub record ReflectionVerdict (J : Type 0) : Type 0 where
  pub is_sufficient : Bool
  pub reason : String
  pub follow_up : Option (ToolCall J)

-- whether the reflector found the result sufficient, why, and how its follow-up went
pub record Reflection : Type 0 where
  pub is_sufficient : Bool
  pub reason : String
  pub follow_up : Option Bool

pub record AgentResult (J P : Type 0) : Type 0 where
  pub query : String
  pub answer : String
  pub steps : List (Invocation J)
  pub error : Option String
  pub error_type : Option String
  pub is_degraded : Bool
  pub intent : String
  pub clarifications : List String
  pub replans : ℕ
  pub reflection : Option Reflection
  pub payload : P

module _ (J D Q P : Type 0) where
  pub record Parts : Type 0 where
    pub plan : String → Ran (PlanResult J)
    pub is_iterative : Bool
    pub plan_next : List (Invocation J) → List (ToolResult D) → ℕ → Ran (PlanResult J)
    -- an exception counts as no correction
    pub correct : ToolCall J → Invocation J → Option (ToolCall J)
    pub reflect : Option (List (Invocation J) → List (ToolResult D) → ℕ → Ran (ReflectionVerdict J))
    -- the result as it is left, and the exception, if one was raised
    pub synthesize :
        AgentResult J P → List (ToolResult D) → AgentResult J P × Option (String × String)
    -- the arguments `{"query": query}`
    pub query_args : String → Dict J
    pub empty_payload : P

-- one run: its registry, its principal, the query that was inherited, and the budget
pub record Setting (J D Q : Type 0) : Type 0 where
  pub registry : ToolRegistry J D Q
  pub principal : Option String
  pub base_dsl : Option Q
  pub max_steps : ℕ

-- `__init__` refuses other budgets
abbrev pub is_budget : ℕ → Bool
is_budget n = leb 3 n && leb n 5

abbrev pub last_of {ℓ} : {A : Type ℓ} → List A → Option A
last_of [] = none
last_of (x ∷ []) = some x
last_of (x ∷ y ∷ l) = last_of (y ∷ l)

-- `_is_permanent_error`
unfoldable pub is_permanent_error : {D : Type 0} → ToolResult D → Bool
is_permanent_error r = elim r.error_type [
  | none ↦ false
  | some e ↦ contains ("SecurityError" ∷ "UnknownToolError" ∷ "PermissionError" ∷ []) e
]

unknown_result : {D : Type 0} → String → ToolResult D
unknown_result tool = record {
  success = false;
  payload = none;
  display_type = "text";
  error_msg = some (append "Unknown tool: " tool);
  error_type = some "UnknownToolError";
  is_degraded = false;
}

unknown_record : {J : Type 0} → ToolCall J → ℕ → Invocation J
unknown_record c n = record {
  step = n;
  tool = c.tool;
  args = c.args;
  success = false;
  error_msg = some (append "Unknown tool: " c.tool);
  error_type = some "UnknownToolError";
  display_type = none;
}

record_of : {J D : Type 0} → ToolCall J → ℕ → ToolResult D → Invocation J
record_of c n r = record {
  step = n;
  tool = c.tool;
  args = c.args;
  success = r.success;
  error_msg = r.error_msg;
  error_type = r.error_type;
  display_type = some r.display_type;
}

module _ {J D Q : Type 0} where
  -- `_execute_once`, as the step of that number
  unfoldable pub execute_once :
      Setting J D Q → ToolCall J → ℕ → List (ToolResult D) → Invocation J × ToolResult D
  unfolding unknown_result unknown_record record_of
  execute_once g c n outputs = elim (get_tool g.registry c.tool) [
    | none ↦ (unknown_record c n, unknown_result c.tool)
    | some t ↦
        let r : ToolResult D =
          Tools.run t c.args
            (record { principal = g.principal; prior = last_of outputs; base_dsl = g.base_dsl })
            n in
        (record_of c n r, r)
  ]

-- the steps and the outputs of a run so far
pub record Progress (J D : Type 0) : Type 0 where
  pub steps : List (Invocation J)
  pub outputs : List (ToolResult D)

-- a step, with its output, at the end
abbrev pub add : {J D : Type 0} → Progress J D → Invocation J × ToolResult D → Progress J D
add p (i, r) = record { steps = p.steps ++ i ∷ []; outputs = p.outputs ++ r ∷ [] }

module _ {J D Q : Type 0} where
  abbrev pub next_step : Setting J D Q → Progress J D → ToolCall J → Invocation J × ToolResult D
  next_step g p c = execute_once g c (length p.steps + 1) p.outputs

  abbrev pub has_budget : Setting J D Q → Progress J D → Bool
  has_budget g p = ltb (length p.steps) g.max_steps

-- one batch and its corrections
module _ {J D Q P : Type 0} (a : Parts J D Q P) (g : Setting J D Q) where
  -- the correction, if there is one
  unfoldable pub retry : Progress J D → Option (ToolCall J) → Progress J D × Bool
  retry p none = (p, true)
  retry p (some c) = let made = next_step g p c in (add p made, not (made.0).success)

  -- after a failed call
  unfoldable pub heal :
      Progress J D → ToolCall J → Invocation J × ToolResult D → Progress J D × Bool
  heal p c (i, r) =
      if is_permanent_error r || leb g.max_steps (length p.steps)
      then (p, true)
      else retry p (a.correct c i)

  -- a call; the Boolean holds where the run stops
  unfoldable pub execute_call : Progress J D → ToolCall J → Progress J D × Bool
  unfolding heal
  execute_call p c =
      let made = next_step g p c in
      if (made.0).success then (add p made, false) else heal (add p made) c made

  -- `_execute_calls`
  unfoldable pub execute_calls : Progress J D → List (ToolCall J) → Progress J D × Bool
  execute_calls p [] = (p, false)
  execute_calls p (c ∷ l) = elim (has_budget g p) [
    | false ↦ (p, false)
    | true ↦
        let (q, stopped) = execute_call p c in
        elim stopped [ true ↦ (q, true) | false ↦ execute_calls q l ]
  ]
