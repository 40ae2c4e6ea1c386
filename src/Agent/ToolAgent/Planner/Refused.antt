-- ===== src/Agent/ToolAgent/Planner/Refused.antt =====
-- Questions that agent/tool_agent.py answers without a tool.
use future_bi.Base.{String, ◌≡◌, refl, none, [], arith, Bool, true, false}
use future_bi.Tools.{returned}
use future_bi.Agent.ToolAgent.{Parts, Setting}
use future_bi.Agent.ToolAgent.Rounds.{run, run_plan, carry_out, plan_of}
use future_bi.Agent.ToolAgent.Planner.{Router, IntentType, reply, plan}

-- the intents that no data may be fetched for
abbrev pub is_refused : IntentType → Bool
is_refused IntentType.chitchat = true
is_refused IntentType.unsafe_action = true
is_refused IntentType.system_action = true
is_refused i = false

-- the text for each, and for a forbidden action the one of its reason
abbrev pub refusal : IntentType → Bool → String
refusal IntentType.chitchat sensitive = "抱歉，我是数据分析助手，只能回答与业务数据相关的问题。"
refusal IntentType.unsafe_action true = "您请求的数据不在当前数仓语义目录范围内（如员工薪资等敏感信息不存在或不可查询），无法为您检索。"
refusal IntentType.unsafe_action false = "该系统操作不被支持或已被安全策略拦截。"
refusal IntentType.system_action sensitive = "系统操作已由上层安全处理，无需查询数据。"
refusal i sensitive = ""

run-decided :
    {I D Q P : Type 0} (a : Parts I D Q P) (g : Setting I D Q) (k : Router) (query : String)
    (intent : IntentType)
    → a.plan query ≡ returned (plan a.query_args k query)
    → g.base_dsl ≡ none
    → (k.route_decision query).intent ≡ intent
    → is_refused intent ≡ true
    → ((run a g query).steps ≡ [])
      × ((run a g query).answer ≡ refusal intent (k.route_decision query).is_sensitive)
      × ((run a g query).intent ≡ "direct_answer")
      × ((run a g query).replans ≡ 0)
unfolding run run_plan carry_out plan_of plan reply
run-decided a g k query IntentType.chitchat planned afresh found h =
    ground (arith, planned, afresh, found)
run-decided a g k query IntentType.unsafe_action planned afresh found h =
    ground (arith, planned, afresh, found)
run-decided a g k query IntentType.system_action planned afresh found h =
    ground (arith, planned, afresh, found)
run-decided a g k query IntentType.data_query planned afresh found h = absurd (ground arith)
run-decided a g k query IntentType.glossary_explain planned afresh found h = absurd (ground arith)
run-decided a g k query IntentType.clarify planned afresh found h = absurd (ground arith)

-- Under the deterministic planner a question that starts afresh and that the router finds to be small
-- talk, a forbidden action or an action of the system runs no tool and is not planned again. It is
-- answered with the fixed text of its kind (a forbidden action with the one for sensitive data or the one
-- for destructive actions, by the reason of the refusal), and the result is marked as a direct answer.
pub run-refused :
    {I D Q P : Type 0} (a : Parts I D Q P) (g : Setting I D Q) (k : Router) (query : String)
    → a.plan query ≡ returned (plan a.query_args k query)
    → g.base_dsl ≡ none
    → is_refused (k.route_decision query).intent ≡ true
    → ((run a g query).steps ≡ [])
      × ((run a g query).answer
          ≡ refusal (k.route_decision query).intent (k.route_decision query).is_sensitive)
      × ((run a g query).intent ≡ "direct_answer")
      × ((run a g query).replans ≡ 0)
run-refused a g k query planned afresh h =
    run-decided a g k query (k.route_decision query).intent planned afresh refl h
