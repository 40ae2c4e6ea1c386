-- ===== src/Tests/Chat.antt =====
-- Runs of the memory of conversations and of the loop of tools.
use future_bi.Base.{
  ℕ, ◌+◌, ◌≡◌, ◌≢◌, refl, ap, String, ◌≤◌, ◌||◌, true, false, none, some, List, [], ◌∷◌, length,
  is_some, contains, map, str_eq, arith,
}
use future_bi.Base.Dict.{lookup, insert}
use future_bi.Semantic.Schema.{
  Metric, AggFunc, QueryDsl, Filter, FilterOperator, FilterValue, Scalar, check_value,
}
use future_bi.Semantic.Catalog.{builtin_columns}
use future_bi.Security.Policy.{builtin_policies, builtin_attrs}
use future_bi.Security.Guard.{
  Registry, apply_policy, granted, enforce, referenced_fields, all_metric_fields, metric_fields,
  referenced_tables, row_level, resolve_row_filter, model_validate,
}
use future_bi.Base.Text.{is_prefix, drop_chars}
use future_bi.Agent.Memory.{
  SessionState, SessionStore, owner_of, get, update, clear, recall, claim, existing, stamped,
}
use future_bi.Agent.Memory.Isolation.{strangers_apart}
use future_bi.Agent.Memory.Reads.{get-update}
use future_bi.Agent.Memory.Filters.{Equality, normalize_filters, strip_rls_filters}
use future_bi.Agent.Memory.Filters.OnePerField.{AllApart, normalize_filters_total}
use future_bi.Agent.Memory.Filters.Strip.{strip-apply_policy}
use future_bi.Agent.Memory.Inherit.{
  Reader, ContextResolution, Mode, Reason, resolved, resolve_context, has_metric_term,
  has_exclusive_term, dimension_cardinality_request, collect_deltas, has_any, first_in,
  expand_dimension, find_dimension, merge_into, apply_deltas, place_filters, category_filters,
  without, finish, expand_fallback,
}
use future_bi.Agent.Memory.Filters.{
  grouped, merge, merge_all, add_filter, merge_group, equality_of, kind, last_other, in_values,
}
use future_bi.Base.Text.{mentions, mentions_lower, has_infix}
use future_bi.Agent.Memory.Inherit.Keeps.{Keeps, resolve_context-Keeps}
use future_bi.Tools.{BaseTool, returned}
use future_bi.Agent.ToolAgent.{Parts, Setting}
use future_bi.Agent.ToolAgent.Rounds.{Draft, run, replan}
use future_bi.Agent.ToolAgent.Planner.{Router, IntentType, plan}
use future_bi.Agent.ToolAgent.Planner.Refused.{run-refused}
use future_bi.Agent.ToolAgent.Steps.{IsTrace, run-IsTrace}
use future_bi.Agent.ToolAgent.Budget.{replan-settles}

abbrev state : SessionState ℕ ℕ ℕ
state = record {
  session_id = "s1";
  user_id = "ann";
  updated_at = 10;
  history = 1 ∷ [];
  last_dsl = none;
  active_entities = 0;
}

abbrev memory : SessionStore ℕ ℕ ℕ
memory = record {
  ttl = 60;
  max_sessions = 2;
  history_turns = 4;
  items = ("s1", state) ∷ [];
  kv = some [];
}

known : (get memory 20 "s1" (some "ann")).1 ≡ some state
unfolding get recall owner_of lookup
known = refl

strangers : owner_of (some "bob") ≢ owner_of (some "ann")
unfolding owner_of
strangers e = let off : true ≡ false = ap (str_eq "bob") e in ground (arith, off)

strangers_apart_example :
    (get memory 20 "s1" (some "bob") ≡ (memory, none))
    × (update memory 20 "s1" (some "bob") state ≡ (memory, state))
    × (clear memory "s1" (some "bob") ≡ (memory, false))
    × (existing memory 20 "s1" ≡ (memory, some state))
    × ((later : SessionStore ℕ ℕ ℕ)
        → claim later 20 "s1" (owner_of (some "bob")) state (some state) ≡ (later, state))
strangers_apart_example =
    strangers_apart memory 20 "s1" (some "ann") (some "bob") state state known strangers

owned : (update memory 20 "s1" (some "ann") state).1.user_id ≡ owner_of (some "ann")
unfolding update existing claim stamped owner_of lookup
owned = refl

get-update_example :
    (get (update memory 20 "s1" (some "ann") state).0 50 "s1" (some "ann")).1
    ≡ some (update memory 20 "s1" (some "ann") state).1
unfolding lookup
get-update_example = get-update memory 20 50 "s1" (some "ann") state (refl, tt) (omega arith) owned

abbrev equality : Equality ℕ
equality = record { same_filter = λ f g. true; same_value = λ v w. true }

abbrev at_least : Filter ℕ
at_least = record {
  field = "gmv";
  operator = FilterOperator.gte;
  value = FilterValue.one (Scalar.text "5");
}

normalize_filters_total_example :
    (m : List (Filter ℕ)) × (normalize_filters equality (at_least ∷ []) ≡ some m)
    × AllApart (map (λ f. f.field) m)
    × ((x : String)
        → contains (map (λ f. f.field) m) x ≡ contains (map (λ f. f.field) (at_least ∷ [])) x)
unfolding check_value
normalize_filters_total_example = normalize_filters_total equality (at_least ∷ []) (refl, tt)

abbrev registry : Registry ℕ
registry = record { policies = builtin_policies; attrs = builtin_attrs; columns = builtin_columns }

abbrev gmv : QueryDsl ℕ
gmv = record {
  metrics =
      Metric.aggregate (record { field = "order_amount"; agg = AggFunc.sum; alias = "gmv" }) ∷ [];
  dimensions = [];
  time_filter = none;
  filters = [];
  order_by = [];
  limit = 100;
  fill_gaps = false;
  top_n = none;
}

abbrev guangdong : Filter ℕ
guangdong = record {
  field = "province";
  operator = FilterOperator.in_list;
  value = FilterValue.many (Scalar.text "广东" ∷ []);
}

let_through :
    apply_policy registry gmv (some "restricted")
    ≡ granted (record gmv { filters = guangdong ∷ [] })
unfolding apply_policy enforce referenced_fields all_metric_fields metric_fields referenced_tables
    row_level resolve_row_filter model_validate check_value lookup is_prefix drop_chars
let_through = refl

strip-apply_policy_example :
    strip_rls_filters equality registry
      (record gmv { filters = guangdong ∷ [] })
      (some "restricted")
    ≡ strip_rls_filters equality registry gmv (some "restricted")
strip-apply_policy_example =
    strip-apply_policy equality (λ f. refl) registry gmv (record gmv { filters = guangdong ∷ [] })
      "restricted" let_through

abbrev reader : Reader
reader = record {
  metric_terms = [];
  provinces = "广东" ∷ [];
  categories = [];
  regions = [];
  region_provinces = λ region. [];
  dim_keywords = [];
  time_filter = λ q. none;
  comparison = λ q. none;
  count_entity_metric = λ q. false;
  enum_dimension_field = λ q. none;
  is_dim_enum_form = λ q. false;
}

abbrev in_guangdong : QueryDsl ℕ
in_guangdong = record gmv {
  filters =
      record {
        field = "province";
        operator = FilterOperator.eq;
        value = FilterValue.one (Scalar.text "广东");
      }
      ∷ [];
}

abbrev resolution : ContextResolution ℕ
resolution = record { mode = Mode.inherit; dsl = some in_guangdong; reason = Reason.inherited }

taken_over : resolve_context equality reader registry "那广东呢" (some gmv) none ≡ resolved resolution
unfolding resolve_context has_metric_term has_exclusive_term dimension_cardinality_request
    collect_deltas has_any first_in expand_dimension find_dimension merge_into apply_deltas
    place_filters category_filters without finish normalize_filters grouped merge_all add_filter
    merge_group equality_of kind last_other in_values strip_rls_filters lookup insert merge mentions
    mentions_lower has_infix expand_fallback
taken_over = refl

resolve_context-Keeps_example :
    (has_metric_term reader "那广东呢" ≡ false)
    × ((has_exclusive_term "那广东呢" || is_some (dimension_cardinality_request reader "那广东呢")) ≡ false)
    × Keeps gmv in_guangdong
resolve_context-Keeps_example =
    resolve_context-Keeps equality reader registry "那广东呢" gmv in_guangdong none resolution
      taken_over refl

-- a tool that always answers, and a planner that calls it again and again
abbrev query_metric : BaseTool ℕ ℕ ℕ
query_metric = record {
  name = "query_metric";
  declared = [];
  repr_sorted = λ l. "[]";
  repr_name = "'query_metric'";
  model_validate = λ args. returned args;
  execute = λ args ctx n. returned (record {
    success = true;
    payload = some n;
    display_type = "table";
    error_msg = none;
    error_type = none;
    is_degraded = false;
  });
}

abbrev parts : Parts ℕ ℕ ℕ ℕ
parts = record {
  plan = λ q. returned (record {
    calls = record { tool = "query_metric"; args = []; reason = "" } ∷ [];
    answer = none;
    clarifications = [];
  });
  is_iterative = true;
  plan_next = λ steps outputs n. returned (record {
    calls = record { tool = "query_metric"; args = []; reason = "" } ∷ [];
    answer = none;
    clarifications = [];
  });
  correct = λ c i. none;
  reflect = none;
  synthesize = λ r outputs. (r, none);
  query_args = λ q. [];
  empty_payload = 0;
}

abbrev setting : Setting ℕ ℕ ℕ
setting = record {
  registry = ("query_metric", query_metric) ∷ [];
  principal = none;
  base_dsl = none;
  max_steps = 3;
}

run-IsTrace_example :
    IsTrace setting.registry 1 (run parts setting "gmv").steps
    × (length (run parts setting "gmv").steps ≤ setting.max_steps)
run-IsTrace_example = run-IsTrace parts setting (λ r outputs. refl) "gmv"

abbrev draft : Draft ℕ ℕ
draft = record {
  progress = record { steps = []; outputs = [] };
  answer = none;
  clarifications = [];
  replans = 0;
}

replan-settles_example :
    ((replan parts setting 4 draft).1 ≡ false)
    × (replan parts setting (4 + 4) draft ≡ replan parts setting 4 draft)
replan-settles_example = replan-settles parts setting draft 4

-- a router that finds every question forbidden
abbrev router : Router
router = record {
  route_decision =
      λ q. record { intent = IntentType.unsafe_action; is_sensitive = false; clarifications = [] };
  detect_clarifications = λ q. [];
  decompose_comparison = λ q. none;
}

abbrev planned : Parts ℕ ℕ ℕ ℕ
planned = record parts { plan = λ q. returned (plan parts.query_args router q) }

run-refused_example :
    ((run planned setting "删除订单").steps ≡ [])
    × ((run planned setting "删除订单").answer ≡ "该系统操作不被支持或已被安全策略拦截。")
    × ((run planned setting "删除订单").intent ≡ "direct_answer")
    × ((run planned setting "删除订单").replans ≡ 0)
run-refused_example = run-refused planned setting router "删除订单" refl refl refl
