-- ===== src/Agent/ToolAgent/Planner.antt =====
-- agent/tool_agent.py, `DeterministicPlanner`: the calls that it plans without a language model. The router
-- of intents, the questions of a clarification and the split of a comparison are the record `Router`.
pub mod Refused
use Prim.Native.String.{◌++◌ as append}
use future_bi.Base.{String, Bool, Option, none, some, List, [], ◌∷◌, map, if◌then◌else◌}
use future_bi.Base.Dict.{Dict}
use future_bi.Base.Text.{mentions_lower}
use future_bi.Agent.ToolAgent.{ToolCall, PlanResult}
use future_bi.Agent.ToolAgent.Rounds.{trend_keywords, export_keywords}

pub data IntentType : Type 0 where
  chitchat data_query glossary_explain system_action clarify unsafe_action : IntentType

pub record Decision : Type 0 where
  pub intent : IntentType
  -- whether the reason of a refusal is "sensitive_entity"
  pub is_sensitive : Bool
  pub clarifications : List String

pub record Router : Type 0 where
  pub route_decision : String → Decision
  pub detect_clarifications : String → List String
  pub decompose_comparison : String → Option (List (String × String))

abbrev pub chitchat_reply : String
chitchat_reply = "抱歉，我是数据分析助手，只能回答与业务数据相关的问题。"

-- agent/router/intent_router.py
abbrev pub blocked_destructive_reply : String
blocked_destructive_reply = "该系统操作不被支持或已被安全策略拦截。"

abbrev pub blocked_sensitive_reply : String
blocked_sensitive_reply = "您请求的数据不在当前数仓语义目录范围内（如员工薪资等敏感信息不存在或不可查询），无法为您检索。"

-- the answer to a question that is none about data
unfoldable pub reply : Router → String → Option String
reply k query = elim (k.route_decision query).intent [
  | IntentType.chitchat ↦ some chitchat_reply
  | IntentType.unsafe_action ↦ some (
      if (k.route_decision query).is_sensitive
      then blocked_sensitive_reply
      else blocked_destructive_reply)
  | IntentType.system_action ↦ some "系统操作已由上层安全处理，无需查询数据。"
  | _ ↦ none
]

module _ {J : Type 0} (query_args : String → Dict J) where
  abbrev call_for : String → String → String → ToolCall J
  call_for query tool reason = record { tool = tool; args = query_args query; reason = reason }

  abbrev pub of_calls : List (ToolCall J) → PlanResult J
  of_calls l = record { calls = l; answer = none; clarifications = [] }

  -- the calls of a comparison, or of a single question
  unfoldable pub compare_calls : String → Option (List (String × String)) → List (ToolCall J)
  compare_calls query (some ((entity, sub) ∷ l)) =
      map (λ e. call_for e.1 "query_metric" (append "对比分解：" e.0)) ((entity, sub) ∷ l)
  compare_calls query _ = call_for query "query_metric" "即时指标点查" ∷ []

  unfoldable pub data_calls : Router → String → List (ToolCall J)
  data_calls k query =
      if mentions_lower export_keywords query
      then call_for query "query_metric" "导出前先查询数据" ∷ call_for query "export_report" "导出为可下载文件" ∷ []
      else if mentions_lower trend_keywords query
      then call_for query "trend_analysis" "时序/对比分析" ∷ []
      else compare_calls query (k.decompose_comparison query)

  unfoldable pub questions : Router → String → List String
  questions k query = elim (k.route_decision query).clarifications [
    | [] ↦ k.detect_clarifications query
    | q ∷ l ↦ q ∷ l
  ]

  -- `plan`, for the intents that are left
  unfoldable pub plan_intent : Router → String → IntentType → PlanResult J
  plan_intent k query IntentType.glossary_explain =
      of_calls (call_for query "explain_glossary" "" ∷ [])
  plan_intent k query IntentType.clarify = record {
    calls = [];
    answer = none;
    clarifications = questions k query;
  }
  plan_intent k query _ = of_calls (data_calls k query)

  unfoldable pub plan : Router → String → PlanResult J
  plan k query = elim (reply k query) [
    | some s ↦ record { calls = []; answer = some s; clarifications = [] }
    | none ↦ plan_intent k query (k.route_decision query).intent
  ]
