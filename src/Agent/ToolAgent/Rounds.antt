-- ===== src/Agent/ToolAgent/Rounds.antt =====
-- agent/tool_agent.py, `ToolAgent.run`: the first plan, the rounds that plan again, the reflection and
-- the synthesis. The rounds are on fuel: `run` gives one more than the budget has steps.
use future_bi.Base.{
  ℕ, zero, suc, ◌+◌, ◌-◌, String, Bool, true, false, not, ◌&&◌, ◌||◌, Option, none, some, List, [],
  ◌∷◌, any, length, ltb, is_some, if◌then◌else◌,
}
use future_bi.Base.Text.{mentions_lower, join}
use future_bi.Tools.{ToolResult, Ran, returned, raised}
use future_bi.Agent.ToolAgent.{
  ToolCall, PlanResult, ReflectionVerdict, Reflection, AgentResult, Parts, Setting, Progress, add,
  next_step, has_budget, execute_calls,
}
use Prim.Native.String.{◌++◌ as append}

-- what the rounds of planning have made
pub record Draft (J D : Type 0) : Type 0 where
  pub progress : Progress J D
  pub answer : Option String
  pub clarifications : List String
  pub replans : ℕ

module _ {J D Q P : Type 0} (a : Parts J D Q P) (g : Setting J D Q) where
  -- a round's calls, if it has any; the Boolean holds where the rounds go on
  unfoldable pub proceed : Draft J D → List (ToolCall J) → Draft J D × Bool
  proceed d [] = (d, false)
  proceed d (c ∷ l) =
      let (q, stopped) = execute_calls a g d.progress (c ∷ l) in
      (record d { progress = q; replans = d.replans + 1 }, not stopped)

  -- one more plan
  unfoldable pub follow : Draft J D → PlanResult J → Draft J D × Bool
  follow d p = elim p.answer [
    | some s ↦ (record d { answer = some s }, false)
    | none ↦ elim p.clarifications [
      | q ∷ l ↦
          (record d { answer = some (join "；" p.clarifications); clarifications = q ∷ l }, false)
      | [] ↦ proceed d p.calls
    ]
  ]

  -- an exception ends the rounds
  unfoldable pub hear : Draft J D → Ran (PlanResult J) → Draft J D × Bool
  hear d (raised type message) = (d, false)
  hear d (returned p) = follow d p

  unfoldable pub replan_once : Draft J D → Draft J D × Bool
  replan_once d =
      if has_budget g d.progress
      then hear d
          (a.plan_next d.progress.steps d.progress.outputs (g.max_steps - length d.progress.steps))
      else (d, false)

  -- the loop of rounds, with at most that many; the Boolean holds where it would still go on
  unfoldable pub replan : ℕ → Draft J D → Draft J D × Bool
  replan zero d = (d, true)
  replan (suc n) d =
      let (e, goes_on) = replan_once d in elim goes_on [ false ↦ (e, false) | true ↦ replan n e ]

  -- the call that the reflector asks for
  unfoldable pub follow_up :
      Progress J D → ReflectionVerdict J → Option (ToolCall J) → Progress J D × Option Reflection
  follow_up p v none =
      (p, some (record { is_sufficient = v.is_sufficient; reason = v.reason; follow_up = none }))
  follow_up p v (some c) =
      let made = next_step g p c in
      (
        add p made,
        some (record {
          is_sufficient = v.is_sufficient;
          reason = v.reason;
          follow_up = some (made.0).success;
        }),
      )

  -- an exception counts as no reflection
  unfoldable pub heed : Progress J D → Ran (ReflectionVerdict J) → Progress J D × Option Reflection
  heed p (raised type message) = (p, none)
  heed p (returned v) = follow_up p v (if v.is_sufficient then none else v.follow_up)

  -- the reflection on what the rounds have made
  unfoldable pub reflect_on : Draft J D → Progress J D × Option Reflection
  reflect_on d = elim a.reflect [
    | none ↦ (d.progress, none)
    | some f ↦
        if not (is_some g.base_dsl)
          && ltb 0 (length d.progress.steps)
          && not (is_some d.answer)
          && has_budget g d.progress
        then heed d.progress
            (f d.progress.steps d.progress.outputs (g.max_steps - length d.progress.steps))
        else (d.progress, none)
  ]

  -- the first batch, and the rounds after it
  unfoldable pub dispatch : List (ToolCall J) → Draft J D
  dispatch calls =
      let (p, stopped) = execute_calls a g (record { steps = []; outputs = [] }) calls in
      let d : Draft J D = record {
        progress = p;
        answer = none;
        clarifications = [];
        replans = 0;
      } in
      if not stopped && not (is_some g.base_dsl) && a.is_iterative
      then (replan (suc g.max_steps) d).0
      else d

-- the keywords of a turn that goes on with an inherited query
abbrev pub trend_keywords : List String
trend_keywords =
    "环比" ∷ "同比" ∷ "趋势" ∷ "走势" ∷ "累计" ∷ "移动平均" ∷ "滑动平均" ∷ "补零" ∷ "每日" ∷ "每周" ∷ "每月" ∷ "按天" ∷ "按月"
    ∷ "按周" ∷ "连续" ∷ "yoy" ∷ "mom" ∷ "变化" ∷ []

abbrev pub export_keywords : List String
export_keywords = "导出" ∷ "下载" ∷ "表格" ∷ "明细" ∷ "清单" ∷ "报表" ∷ "csv" ∷ "excel" ∷ "markdown" ∷ "转储" ∷ []

module _ {J D Q P : Type 0} (a : Parts J D Q P) where
  call_of : String → String → String → ToolCall J
  call_of query tool reason = record { tool = tool; args = a.query_args query; reason = reason }

  -- the calls of such a turn
  unfoldable pub inherited_calls : String → List (ToolCall J)
  unfolding call_of
  inherited_calls query =
      if mentions_lower trend_keywords query
      then call_of query "trend_analysis" "继承轮趋势分析" ∷ []
      else if mentions_lower export_keywords query
      then call_of query "query_metric" "导出前先查询数据" ∷ call_of query "export_report" "导出为可下载文件" ∷ []
      else call_of query "query_metric" "会话上下文继承（确定性执行）" ∷ []

  unfoldable pub plan_of : Option Q → String → Ran (PlanResult J)
  plan_of none query = a.plan query
  plan_of (some q) query =
      returned (record { calls = inherited_calls query; answer = none; clarifications = [] })

  abbrev blank : String → AgentResult J P
  blank query = record {
    query = query;
    answer = "";
    steps = [];
    error = none;
    error_type = none;
    is_degraded = false;
    intent = "data_query";
    clarifications = [];
    replans = 0;
    reflection = none;
    payload = a.empty_payload;
  }

module _ {J D Q P : Type 0} (a : Parts J D Q P) (g : Setting J D Q) where
  -- the result that the synthesizer is given
  unfoldable pub drafted : String → Draft J D → Progress J D × Option Reflection → AgentResult J P
  drafted query d (p, reflection) = record (blank a query) {
    answer = elim d.answer [ none ↦ "" | some s ↦ s ];
    steps = p.steps;
    intent = elim d.clarifications [ [] ↦ "data_query" | c ∷ l ↦ "clarify" ];
    clarifications = d.clarifications;
    replans = d.replans;
    reflection = reflection;
  }

  -- what the synthesizer leaves, with the planner's answer over it
  unfoldable pub concluded :
      Draft J D → List (ToolResult D) → AgentResult J P × Option (String × String) → AgentResult J P
  concluded d outputs (r, fault) = record r {
    answer = elim d.answer [ none ↦ r.answer | some s ↦ s ];
    error = elim fault [
      | none ↦ r.error
      | some (type, message) ↦ some (append type (append ": " message))
    ];
    error_type = elim fault [ none ↦ r.error_type | some (type, message) ↦ some type ];
    is_degraded = r.is_degraded || any (λ (o : ToolResult D). o.is_degraded) outputs;
  }

  unfoldable pub answered : String → Draft J D → AgentResult J P
  answered query d =
      let end = reflect_on a g d in
      concluded d (end.0).outputs (a.synthesize (drafted query d end) (end.0).outputs)

  unfoldable pub carry_out : String → PlanResult J → AgentResult J P
  carry_out query p = elim p.answer [
    | some s ↦ record (blank a query) { answer = s; intent = "direct_answer" }
    | none ↦ elim p.clarifications [
      | c ∷ l ↦ record (blank a query) {
        answer = join "；" p.clarifications;
        intent = "clarify";
        clarifications = c ∷ l;
      }
      | [] ↦ answered query (dispatch a g p.calls)
    ]
  ]

  -- with the plan, or what the planner raised
  unfoldable pub run_plan : String → Ran (PlanResult J) → AgentResult J P
  run_plan query (raised type message) = record (blank a query) {
    answer = append type (append ": " message);
    error = some (append type (append ": " message));
    error_type = some type;
  }
  run_plan query (returned p) = carry_out query p

  unfoldable pub run : String → AgentResult J P
  run query = run_plan query (plan_of a g.base_dsl query)
