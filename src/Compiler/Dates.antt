-- ===== src/Compiler/Dates.antt =====
-- compiler/sql_compiler.py, `_sub_months` to `_resolve_window`: windows of time. Every `datetime` here is a date at midnight, so a
-- window is a pair of dates. `calendar.monthrange` and `timedelta` are those of the Gregorian calendar.
pub mod Order
pub mod Window
use future_bi.Base.{
  ℕ, zero, suc, ◌+◌, ◌-◌, ◌*◌, ◌/◌, ◌%◌, ◌≤◌, min, Bool, true, false, not, ◌&&◌, ◌||◌, Option, none,
  some, ltb, leb, ◌==◌, if◌then◌else◌,
}
use future_bi.Semantic.Schema.{
  Date, TimeFilter, TimeRangeType, RelativeTime, RelativeUnit, RelativeMode, AbsoluteTime,
  Comparison, Granularity,
}
use future_bi.Compiler.Fault.{
  Fault, Compiled, ok, fail, ◌>>=◌, bad_date, bad_comparison, bad_unit, bad_value,
}

unfoldable pub is_leap : ℕ → Bool
is_leap y = (y % 4 == 0) && (not (y % 100 == 0) || (y % 400 == 0))

-- `calendar.monthrange(y, m)[1]`
unfoldable pub last_day : ℕ → ℕ → ℕ
last_day y m =
    if m == 2
    then (if is_leap y then 29 else 28)
    else if (m == 4) || (m == 6) || (m == 9) || (m == 11)
    then 30
    else 31

abbrev pub make : ℕ → ℕ → ℕ → Date
make y m d = record { year = y; month = m; day = d }

abbrev pub is_date : ℕ → ℕ → ℕ → Bool
is_date y m d = ltb 0 y && leb y 9999 && ltb 0 m && leb m 12 && ltb 0 d && leb d (last_day y m)

-- `date(y, m, d)`
unfoldable pub date : ℕ → ℕ → ℕ → Compiled Date
date y m d = if is_date y m d then ok (make y m d) else fail bad_date

-- the month of `total` months since year 0, with the day clamped
clamped : Date → ℕ → Compiled Date
clamped d total =
    date (total / 12) (total % 12 + 1) (min d.day (last_day (total / 12) (total % 12 + 1)))

-- `_sub_months`; a year below 1 is `date`'s to refuse, and so is one below 0
unfoldable pub sub_months : Date → ℕ → Compiled Date
unfolding clamped
sub_months d n =
    let total : ℕ = d.year * 12 + (d.month - 1) in
    if ltb total n then fail bad_date else clamped d (total - n)

unfoldable pub sub_years : Date → ℕ → Compiled Date
sub_years d n = date (d.year - n) d.month (min d.day (last_day (d.year - n) d.month))

-- `(d.month - 1) // 3 * 3 + 1`
unfoldable pub quarter_start : Date → Compiled Date
quarter_start d = date d.year ((d.month - 1) / 3 * 3 + 1) 1

-- the day before
prev_day : Date → Compiled Date
prev_day d =
    if ltb 1 d.day
    then ok (make d.year d.month (d.day - 1))
    else if ltb 1 d.month
    then ok (make d.year (d.month - 1) (last_day d.year (d.month - 1)))
    else if ltb 1 d.year
    then ok (make (d.year - 1) 12 31)
    else fail bad_date

-- `d - timedelta(days=n)`
unfoldable pub sub_days : ℕ → Date → Compiled Date
unfolding prev_day
sub_days zero d = ok d
sub_days (suc n) d = do e ← prev_day d; sub_days n e

abbrev pub both : Compiled Date → Compiled Date → Compiled (Date × Date)
both start end = do s ← start; e ← end; ok (s, e)

abbrev pub shift_months : Comparison → Granularity → ℕ
shift_months Comparison.mom Granularity.quarter = 3
shift_months _ _ = 1

unfoldable pub shift_window : Date → Date → Comparison → Granularity → Compiled (Date × Date)
shift_window start end Comparison.off g = fail bad_comparison
shift_window start end Comparison.mom g =
    both (sub_months start (shift_months Comparison.mom g))
      (sub_months end (shift_months Comparison.mom g))
shift_window start end Comparison.yoy g = both (sub_years start 1) (sub_years end 1)

-- the start of a to-date window
unfoldable pub to_date_start : Date → RelativeUnit → Compiled Date
to_date_start ref RelativeUnit.month = date ref.year ref.month 1
to_date_start ref RelativeUnit.quarter = quarter_start ref
to_date_start ref RelativeUnit.year = date ref.year 1 1
to_date_start ref unit = fail (bad_unit unit)

-- `amount` whole periods before the one of the anchor
unfoldable pub calendar_window : Date → ℕ → RelativeUnit → Compiled (Date × Date)
calendar_window ref amount RelativeUnit.month = do
  first ← date ref.year ref.month 1
  both (sub_months first amount) (sub_months first (amount - 1))
calendar_window ref amount RelativeUnit.quarter = do
  first ← quarter_start ref
  both (sub_months first (amount * 3)) (sub_months first ((amount - 1) * 3))
calendar_window ref amount RelativeUnit.year =
    both (date (ref.year - amount) 1 1)
      (if ltb ref.year amount then fail bad_date else date (ref.year - amount + 1) 1 1)
calendar_window ref amount unit = fail (bad_unit unit)

unfoldable pub trailing_start : Date → ℕ → RelativeUnit → Compiled Date
trailing_start ref amount RelativeUnit.day = sub_days amount ref
trailing_start ref amount RelativeUnit.week = sub_days (amount * 7) ref
trailing_start ref amount RelativeUnit.month = sub_months ref amount
trailing_start ref amount RelativeUnit.quarter = sub_months ref (amount * 3)
trailing_start ref amount RelativeUnit.year = date (ref.year - amount) ref.month ref.day

unfoldable pub mode_window : Date → ℕ → RelativeUnit → RelativeMode → Compiled (Date × Date)
mode_window ref amount unit RelativeMode.to_date = both (to_date_start ref unit) (ok ref)
mode_window ref amount unit RelativeMode.calendar = calendar_window ref amount unit
mode_window ref amount unit RelativeMode.trailing = both (trailing_start ref amount unit) (ok ref)

-- `tf.reference_date or settings.AS_OF_DATE`
abbrev pub anchor : Date → TimeFilter → Date
anchor as_of tf = elim tf.reference_date [ none ↦ as_of | some d ↦ d ]

-- `_resolve_window`; the validators of the DSL give each range type its object
unfoldable pub resolve_window : Date → TimeFilter → Compiled (Date × Date)
resolve_window as_of tf = elim tf.range_type [
  | TimeRangeType.absolute ↦ elim tf.absolute [
    | none ↦ fail bad_value
    | some a ↦ ok (a.start, a.end)
  ]
  | TimeRangeType.relative ↦ elim tf.relative [
    | none ↦ fail bad_value
    | some rel ↦ mode_window (anchor as_of tf) rel.amount rel.unit rel.mode
  ]
]
