-- ===== src/Semantic/Schema.antt =====
-- semantic/dsl_schema.py: the DSL's enumerations and models with their validators. A field that must
-- be positive, and a list that must not be empty, are checked where a model reads them. Python's
-- floats are a type `F` of the reader's choice.
use future_bi.Base.{
  ℕ, ◌+◌, ◌*◌, String, Bool, true, false, not, ◌&&◌, ◌||◌, Option, none, some, List, [], ◌∷◌, ◌==◌,
  ltb, leb, length, all, contains, is_some,
}
use future_bi.Base.Text.{codes}

pub data Granularity : Type 0 where
  day week month quarter : Granularity

-- `off` is the source's `NONE`
pub data Comparison : Type 0 where
  off yoy mom : Comparison

pub data TimeRangeType : Type 0 where
  relative absolute : TimeRangeType

pub data RelativeUnit : Type 0 where
  day week month quarter year : RelativeUnit

pub data RelativeMode : Type 0 where
  trailing calendar to_date : RelativeMode

-- `datetime.date`
pub record Date : Type 0 where
  pub year : ℕ
  pub month : ℕ
  pub day : ℕ

-- places dates in their order
abbrev pub date_key : Date → ℕ
date_key d = (d.year * 12 + d.month) * 32 + d.day

pub record RelativeTime : Type 0 where
  pub amount : ℕ
  pub unit : RelativeUnit
  pub mode : RelativeMode

pub record AbsoluteTime : Type 0 where
  pub start : Date
  pub end : Date

pub record TimeFilter : Type 0 where
  pub granularity : Granularity
  pub range_type : TimeRangeType
  pub relative : Option RelativeTime
  pub absolute : Option AbsoluteTime
  pub comparison : Comparison
  pub reference_date : Option Date
  pub time_field : String

abbrev pub time_fields : List String
time_fields = "order_time" ∷ "refund_time" ∷ "register_time" ∷ []

-- `AbsoluteTime._check_order`
unfoldable pub check_order : AbsoluteTime → Bool
check_order t = ltb (date_key t.start) (date_key t.end)

-- the units of month-, quarter- and year-to-date
abbrev pub is_to_date_unit : RelativeUnit → Bool
is_to_date_unit u = elim u [
  | RelativeUnit.month ↦ true
  | RelativeUnit.quarter ↦ true
  | RelativeUnit.year ↦ true
  | _ ↦ false
]

abbrev pub is_to_date : RelativeMode → Bool
is_to_date m = elim m [ RelativeMode.to_date ↦ true | _ ↦ false ]

-- what `_check_range` asks of a relative window that is there
abbrev pub check_relative : RelativeTime → Bool
check_relative r = not (is_to_date r.mode) || is_to_date_unit r.unit

-- `TimeFilter._check_range`
unfoldable pub check_range : TimeFilter → Bool
check_range tf =
    elim tf.range_type [
      | TimeRangeType.relative ↦ elim tf.relative [ none ↦ false | some r ↦ check_relative r ]
      | TimeRangeType.absolute ↦ is_some tf.absolute
    ]
    && contains time_fields tf.time_field

pub data AggFunc : Type 0 where
  sum count count_distinct avg min max : AggFunc

pub record AggregateMetric : Type 0 where
  pub field : String
  pub agg : AggFunc
  pub alias : String

pub record RatioMetric : Type 0 where
  pub numerator : AggregateMetric
  pub denominator : AggregateMetric
  pub alias : String

pub data WindowFunc : Type 0 where
  cumsum moving_avg : WindowFunc

pub record WindowMetric : Type 0 where
  pub base : AggregateMetric
  pub func : WindowFunc
  pub window_size : Option ℕ
  pub alias : String

-- `WindowMetric._check_size`
unfoldable pub check_size : WindowMetric → Bool
check_size m = elim m.func [
  | WindowFunc.cumsum ↦ true
  | WindowFunc.moving_avg ↦ is_some m.window_size
]

pub data Metric : Type 0 where
  aggregate : AggregateMetric → Metric
  ratio : RatioMetric → Metric
  window : WindowMetric → Metric

pub record Dimension : Type 0 where
  pub field : String
  pub alias : Option String

pub data FilterOperator : Type 0 where
  eq ne in_list gt gte lt lte between : FilterOperator

-- an `int` has a sign and a magnitude
pub data Scalar (F : Type 0) : Type 0 where
  text : String → Scalar F
  int : Bool → ℕ → Scalar F
  float : F → Scalar F
  bool : Bool → Scalar F

pub data FilterValue (F : Type 0) : Type 0 where
  one : Scalar F → FilterValue F
  many : List (Scalar F) → FilterValue F

pub record Filter (F : Type 0) : Type 0 where
  pub field : String
  pub operator : FilterOperator
  pub value : FilterValue F

-- how many elements `_check_value` allows a value of an operator, where `none` is a scalar
abbrev pub fits : FilterOperator → Option ℕ → Bool
fits op n = elim op [
  | FilterOperator.in_list ↦ elim n [ none ↦ false | some k ↦ not (k == 0) ]
  | FilterOperator.between ↦ elim n [ none ↦ false | some k ↦ k == 2 ]
  | _ ↦ not (is_some n)
]

-- `Filter._check_value`
unfoldable pub check_value : {F : Type 0} → FilterOperator → FilterValue F → Bool
check_value op (one v) = fits op none
check_value op (many l) = fits op (some (length l))

pub data SortDirection : Type 0 where
  asc desc : SortDirection

pub record OrderBy : Type 0 where
  pub field : String
  pub direction : SortDirection

pub record TopN : Type 0 where
  pub n : ℕ
  pub partition_by : List String
  pub order_by : List OrderBy

pub record QueryDsl (F : Type 0) : Type 0 where
  pub metrics : List Metric
  pub dimensions : List Dimension
  pub time_filter : Option TimeFilter
  pub filters : List (Filter F)
  pub order_by : List OrderBy
  pub limit : ℕ
  pub fill_gaps : Bool
  pub top_n : Option TopN

-- `QueryDSL._check_scalar_ordering`
unfoldable pub check_scalar_ordering : {F : Type 0} → QueryDsl F → QueryDsl F
check_scalar_ordering q = elim q.dimensions [ [] ↦ record q { order_by = [] } | _ ∷ _ ↦ q ]

is_letter : ℕ → Bool
is_letter c = (leb 65 c && leb c 90) || (leb 97 c && leb c 122) || (c == 95)

is_word : ℕ → Bool
is_word c = is_letter c || (leb 48 c && leb c 57)

-- `IDENTIFIER_PATTERN`, on code points
identifier_codes : List ℕ → Bool
identifier_codes [] = false
identifier_codes (c ∷ l) = is_letter c && all is_word l && leb (length l) 63

unfoldable pub is_identifier : String → Bool
unfolding is_letter is_word identifier_codes
is_identifier s = identifier_codes (codes s)
