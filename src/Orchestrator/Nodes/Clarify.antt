-- ===== src/Orchestrator/Nodes/Clarify.antt =====
-- core/orchestrator/nodes.py, `clarify_node`.
use Prim.Native.String.{count, ◌++◌ as str_append}
use future_bi.Base.{
  String, ◌≡◌, ◌⊎◌, Option, none, some, List, [], ◌∷◌, ◌&&◌, leb, arith, if◌then◌else◌,
}
use future_bi.Base.Text.{strip, is_nonempty, mentions_lower}
use future_bi.Orchestrator.State.{AgentState, Phase}

abbrev metric_words : List String
metric_words = "gmv" ∷ "销量" ∷ "金额" ∷ "订单" ∷ "退款" ∷ "率" ∷ "数" ∷ "额" ∷ []

abbrev pub question : String
question = "为了准确定位，请补充：1) 你关注的指标（如 GMV / 订单量）与时间范围；2) 希望按哪个维度（地区/品类/店铺）分析？"

module _ {J : Type 0} where
  assess : AgentState J → AgentState J
  assess s =
      if leb 12 (count (strip s.user_query)) && mentions_lower metric_words (strip s.user_query)
      then record s { phase = Phase.plan }
      else record s { phase = Phase.clarify; clarification = some question }

  answered : AgentState J → Option String → AgentState J
  unfolding assess
  answered s none = assess s
  answered s (some reply) =
      if is_nonempty reply
      then record s {
        user_query =
            str_append (strip s.user_query) (str_append "（用户补充：" (str_append (strip reply) "）"));
        human_reply = none;
        phase = Phase.plan;
        clarification = none;
      }
      else assess s

  unfoldable pub clarify_node : AgentState J → AgentState J
  unfolding answered
  clarify_node s = answered s s.human_reply

  pub clarify_node-iteration : (s : AgentState J) → (clarify_node s).iteration ≡ s.iteration
  unfolding clarify_node
  clarify_node-iteration s = ground arith

  -- The gate opens or asks: it goes on to the planner with no question left, or it waits with a
  -- question and leaves the query as it was. An answer always opens it.
  clarify_gate :
      (s : AgentState J)
      → ((clarify_node s).phase ≡ Phase.plan)
        ⊎ (((clarify_node s).phase ≡ Phase.clarify)
            × ((clarify_node s).clarification ≡ some question)
            × ((clarify_node s).user_query ≡ s.user_query))
  unfolding clarify_node
  clarify_gate s = ground arith
