-- ===== src/Agent/Memory/Inherit.antt =====
-- agent/memory.py, what a question takes over from the query before it. The vocabulary of the glossary,
-- the catalog and the heuristic parser, and that parser's reading of times, comparisons and counts, are
-- the record `Reader`; summaries for people are left out.
pub mod Keeps
use future_bi.Base.{
  ℕ, String, Bool, true, false, not, ◌&&◌, ◌||◌, Option, none, some, List, [], ◌∷◌, ◌++◌, map, any,
  keep, length, str_eq, if◌then◌else◌, is_some,
}
use future_bi.Base.Text.{mentions, mentions_lower}
use future_bi.Semantic.Schema.{
  Filter, FilterOperator, FilterValue, Scalar, QueryDsl, TimeFilter, Dimension,
}
use future_bi.Security.Guard.{Registry, Refusal, Verdict, granted, refused, texts}
use future_bi.Agent.Memory.Filters.{Equality, normalize_filters, strip_rls_filters}

abbrev pub trend_keywords : List String
trend_keywords =
    "按天" ∷ "每天" ∷ "每日" ∷ "逐日" ∷ "按周" ∷ "每周" ∷ "按月" ∷ "每月" ∷ "逐月" ∷ "趋势" ∷ "走势" ∷ "累计" ∷ "移动平均"
    ∷ "滑动平均" ∷ "环比" ∷ "同比" ∷ "补零" ∷ "补齐" ∷ []

abbrev pub add_dim_keywords : List String
add_dim_keywords = "下钻" ∷ "展开" ∷ "细分" ∷ []

abbrev pub exclusive_terms : List String
exclusive_terms = "我只需要知道" ∷ "只要看" ∷ "仅看" ∷ "仅统计" ∷ "只看" ∷ "只统计" ∷ "不要之前的" ∷ "光看" ∷ "光要" ∷ []

abbrev pub dim_question_words : List String
dim_question_words = "多少个" ∷ "多少种" ∷ "几个" ∷ "多少" ∷ "数量" ∷ "数目" ∷ []

pub record Reader : Type 0 where
  pub metric_terms : List String
  pub provinces : List String
  pub categories : List String
  pub regions : List String
  pub region_provinces : String → List String
  -- the labels and synonyms of the catalog's dimensions, in the order of the loop
  pub dim_keywords : List (String × String)
  pub time_filter : String → Option TimeFilter
  pub comparison : String → Option String
  pub count_entity_metric : String → Bool
  pub enum_dimension_field : String → Option String
  pub is_dim_enum_form : String → Bool

pub record Deltas : Type 0 where
  pub provinces : List String
  pub region : Option String
  pub category : Option String
  pub time_filter : Option TimeFilter
  pub trend : Bool
  pub comparison : Option String
  pub expand_dim : Bool

-- `w in query`
abbrev pub is_in : String → String → Bool
is_in q w = mentions (w ∷ []) q

-- the first of the words that is in the query
unfoldable pub first_in : String → List String → Option String
first_in q [] = none
first_in q (w ∷ l) = if is_in q w then some w else first_in q l

abbrev pub is_empty : {A : Type 0} → List A → Bool
is_empty [] = true
is_empty (x ∷ l) = false

unfoldable pub has_any : Deltas → Bool
has_any d =
    not (is_empty d.provinces)
    || is_some d.region
    || is_some d.category
    || is_some d.time_filter
    || d.trend
    || is_some d.comparison
    || d.expand_dim

unfoldable pub expand_fallback : String → Option String
expand_fallback q =
    if is_in q "品类" || is_in q "类别"
    then some "category"
    else if is_in q "品牌"
    then some "brand"
    else none

unfoldable pub find_dimension : String → List (String × String) → Option String
find_dimension q [] = expand_fallback q
find_dimension q ((w, field) ∷ l) = if is_in q w then some field else find_dimension q l

unfoldable pub expand_dimension : Reader → String → Option String
expand_dimension k q = if mentions add_dim_keywords q then find_dimension q k.dim_keywords else none

unfoldable pub collect_deltas : Reader → String → Deltas
collect_deltas k q =
    let named : List String = keep (is_in q) k.provinces in
    record {
      provinces = named;
      region = if is_empty named then first_in q k.regions else none;
      category = first_in q k.categories;
      time_filter = k.time_filter q;
      trend = mentions_lower trend_keywords q;
      comparison = k.comparison q;
      expand_dim = is_some (expand_dimension k q);
    }

unfoldable pub has_metric_term : Reader → String → Bool
has_metric_term k q = mentions_lower k.metric_terms q || k.count_entity_metric q

unfoldable pub has_exclusive_term : String → Bool
has_exclusive_term q = mentions exclusive_terms q

unfoldable pub dimension_cardinality_request : Reader → String → Option String
dimension_cardinality_request k q = elim (k.enum_dimension_field q) [
  | none ↦ none
  | some field ↦ if mentions dim_question_words q || k.is_dim_enum_form q then some field else none
]

pub data Mode : Type 0 where
  fresh inherit drilldown : Mode

pub data Reason : Type 0 where
  no_history topic_switch reset_intent no_delta drilldown_dim drilldown_trend inherited : Reason

pub record ContextResolution (F : Type 0) : Type 0 where
  pub mode : Mode
  pub dsl : Option (QueryDsl F)
  pub reason : Reason

-- what a resolution may raise
pub data Resolved (F : Type 0) : Type 0 where
  resolved : ContextResolution F → Resolved F
  pipeline_error : Refusal → Resolved F
  index_error : Resolved F

unfoldable pub add_dimension : String → List Dimension → List Dimension
add_dimension field l =
    if any (λ d. str_eq d.field field) l
    then l
    else l ++ record { field = field; alias = none } ∷ []

module _ {F : Type 0} where
  abbrev text_filter : String → String → Filter F
  text_filter field s = record {
    field = field;
    operator = FilterOperator.eq;
    value = FilterValue.one (Scalar.text s);
  }

  abbrev texts_filter : String → List String → Filter F
  texts_filter field l = record {
    field = field;
    operator = FilterOperator.in_list;
    value = texts l;
  }

  unfoldable pub without : String → List (Filter F) → List (Filter F)
  without field l = keep (λ f. not (str_eq f.field field)) l

  abbrev named_filters : List String → List (Filter F)
  named_filters (p ∷ []) = text_filter "province" p ∷ []
  named_filters l = texts_filter "province" l ∷ []

  abbrev region_filters : List String → List (Filter F)
  region_filters [] = []
  region_filters (p ∷ l) = texts_filter "province" (p ∷ l) ∷ []

  unfoldable pub place_filters : Reader → Deltas → List (Filter F) → List (Filter F)
  place_filters k d l = elim d.region [
    | some region ↦ without "province" l ++ region_filters (k.region_provinces region)
    | none ↦ elim d.provinces [ [] ↦ l | p ∷ ps ↦ without "province" l ++ named_filters (p ∷ ps) ]
  ]

  unfoldable pub category_filters : Deltas → List (Filter F) → List (Filter F)
  category_filters d l = elim d.category [
    | none ↦ l
    | some c ↦ without "category" l ++ text_filter "category" c ∷ []
  ]

  abbrev with_time : QueryDsl F → Option TimeFilter → QueryDsl F
  with_time q none = q
  with_time q (some t) = record q { time_filter = some t }

  -- `none` is the `IndexError` of `normalize_filters`
  unfoldable pub apply_deltas : Equality F → Reader → QueryDsl F → Deltas → Option (QueryDsl F)
  apply_deltas e k base d =
      elim (normalize_filters e (category_filters d (place_filters k d base.filters))) [
        | none ↦ none
        | some l ↦ some (with_time (record base { filters = l }) d.time_filter)
      ]

  abbrev fresh_start : Reason → Resolved F
  fresh_start reason = resolved (record { mode = Mode.fresh; dsl = none; reason = reason })

  -- the last part of `_resolve_context_impl`, on the merged query
  unfoldable pub finish : Deltas → Option String → QueryDsl F → ContextResolution F
  finish d expand m = elim expand [
    | some field ↦ record {
      mode = Mode.drilldown;
      dsl = some (record m { dimensions = add_dimension field m.dimensions });
      reason = Reason.drilldown_dim;
    }
    | none ↦
        if d.trend || is_some d.comparison
        then record { mode = Mode.drilldown; dsl = some m; reason = Reason.drilldown_trend }
        else record { mode = Mode.inherit; dsl = some m; reason = Reason.inherited }
  ]

  unfoldable pub merge_into :
      Equality F → Reader → Deltas → Option String → Verdict (QueryDsl F) → Resolved F
  merge_into e k d expand (refused why) = pipeline_error why
  merge_into e k d expand (granted base) = elim (apply_deltas e k base d) [
    | none ↦ index_error
    | some m ↦ resolved (finish d expand m)
  ]

  -- `_resolve_context_impl`
  unfoldable pub resolve_context :
      Equality F → Reader → Registry F → String → Option (QueryDsl F) → Option String → Resolved F
  resolve_context e k r q none who = fresh_start Reason.no_history
  resolve_context e k r q (some last) who =
      if has_metric_term k q
      then fresh_start Reason.topic_switch
      else if has_exclusive_term q || is_some (dimension_cardinality_request k q)
      then fresh_start Reason.reset_intent
      else if has_any (collect_deltas k q)
      then merge_into e k (collect_deltas k q) (expand_dimension k q)
          (strip_rls_filters e r last who)
      else fresh_start Reason.no_delta
