-- ===== src/Compiler/Dates/Window.antt =====
-- The windows of a query run forwards, and so do the windows that they are compared with.
use future_bi.Base.{
  ℕ, zero, suc, ◌+◌, ◌-◌, ◌*◌, ◌/◌, ◌≤◌, ◌<◌, min, ◌≡◌, refl, inl, inr, ◌⊎◌, true, false, some, ltb,
  ltb→lt, ltb-false→le, arith, Bool-cases, Option-cases, subst, sym,
}
use future_bi.Semantic.Schema.{
  Date, date_key, TimeFilter, TimeRangeType, RelativeTime, RelativeUnit, RelativeMode, AbsoluteTime,
  Comparison, Granularity, check_order, is_to_date,
}
use future_bi.Compiler.Fault.{Compiled, ok, fail, ◌>>=◌}
use future_bi.Compiler.Dates.{
  make, date, last_day, sub_months, sub_years, sub_days, prev_day, quarter_start, shift_window,
  to_date_start, calendar_window, trailing_start, mode_window, resolve_window, anchor, both,
}
use future_bi.Compiler.Dates.Order.{
  IsDate, bounds, date-ok, last_day-le, sub_months-exact, sub_months-le,
}

both-ok : (a b : Compiled Date) (s e : Date) → both a b ≡ ok (s, e) → (a ≡ ok s) × (b ≡ ok e)
both-ok (ok a) (ok b) s e h = ground arith
both-ok (ok a) (fail x) s e h = absurd (ground arith)
both-ok (fail x) b s e h = absurd (ground arith)

bind-ok :
    {B : Type 0} (a : Compiled Date) (k : Date → Compiled B) (w : B)
    → (a >>= k) ≡ ok w
    → (d : Date) × (a ≡ ok d) × (k d ≡ ok w)
bind-ok (ok d) k w h = (d, refl, h)
bind-ok (fail x) k w h = absurd (ground arith)

prev_day-lt : (d e : Date) → IsDate d → prev_day d ≡ ok e → (date_key e < date_key d) × IsDate e
unfolding prev_day last_day
prev_day-lt d e valid h = ground arith

clamp-le :
    (y m k z n l : ℕ)
    → (y * 12 + m < z * 12 + n) ⊎ ((y ≡ z) × (m ≡ n) × (k ≤ l))
    → (y * 12 + m) * 32 + min k (last_day y m) ≤ (z * 12 + n) * 32 + min l (last_day z n)
clamp-le y m k z n l (inl earlier) = omega (arith, earlier, last_day-le y m)
clamp-le y m k z n l (inr (year, month, day)) = rw (year, month) (omega (arith, day))

key-cases :
    (d e : Date)
    → IsDate d
    → IsDate e
    → date_key d ≤ date_key e
    → (d.year * 12 + d.month < e.year * 12 + e.month)
      ⊎ ((d.year ≡ e.year) × (d.month ≡ e.month) × (d.day ≤ e.day))
key-cases d e vd ve le = elim (Bool-cases (ltb (d.year * 12 + d.month) (e.year * 12 + e.month))) [
  | inl earlier ↦ inl (ltb→lt _ _ earlier)
  | inr later ↦
      let at = ltb-false→le _ _ later in
      let bd = bounds d vd in
      let be = bounds e ve in
      let days = last_day-le d.year d.month in
      let days' = last_day-le e.year e.month in inr (omega arith, omega arith, omega arith)
]

sub_years-le :
    (d e d' e' : Date) (n : ℕ)
    → IsDate d
    → IsDate e
    → date_key d ≤ date_key e
    → sub_years d n ≡ ok d'
    → sub_years e n ≡ ok e'
    → date_key d' ≤ date_key e'
unfolding sub_years
sub_years-le d e d' e' n vd ve le hd he =
    let (same, valid) = date-ok _ _ _ d' hd in
    let (same', valid') = date-ok _ _ _ e' he in
    let real : 1 ≤ d.year - n =
      (bounds (make (d.year - n) d.month (min d.day (last_day (d.year - n) d.month))) valid).0 in
    rw (same, same')
      (clamp-le (d.year - n) d.month d.day (e.year - n) e.month e.day
        (elim (key-cases d e vd ve le) [
          | inl earlier ↦ inl (omega (arith, bounds d vd, bounds e ve))
          | inr (year, month, day) ↦ inr (omega arith, month, day)
        ]))

-- The shift of a window to the period that it is compared with keeps its ends in order.
pub shift_window-ordered :
    (s e s' e' : Date) (c : Comparison) (g : Granularity)
    → IsDate s
    → IsDate e
    → date_key s ≤ date_key e
    → shift_window s e c g ≡ ok (s', e')
    → date_key s' ≤ date_key e'
unfolding shift_window
shift_window-ordered s e s' e' Comparison.off g vs ve le h = absurd (ground arith)
shift_window-ordered s e s' e' Comparison.mom g vs ve le h =
    let (hs, he) = both-ok _ _ s' e' h in sub_months-le s e s' e' _ vs ve le hs he
shift_window-ordered s e s' e' Comparison.yoy g vs ve le h =
    let (hs, he) = both-ok _ _ s' e' h in sub_years-le s e s' e' 1 vs ve le hs he

sub_days-le :
    (n : ℕ) (d e : Date) → IsDate d → sub_days n d ≡ ok e → (date_key e + n ≤ date_key d) × IsDate e
unfolding sub_days
sub_days-le zero d e valid h =
    let same : d ≡ e = ground arith in
    subst (λ k. (date_key k + 0 ≤ date_key d) × IsDate k) same (omega arith, valid)
sub_days-le (suc n) d e valid h =
    let (before, stepped, h2) = bind-ok (prev_day d) _ e h in
    let (lt, real) = prev_day-lt d before valid stepped in
    let (le, done) = sub_days-le n before e real h2 in (omega (arith, lt, le), done)

earlier_month :
    (d e : Date) (n : ℕ) → IsDate d → 0 < n → sub_months d n ≡ ok e → date_key e < date_key d
earlier_month d e n valid pos h =
    let (index, _, real) = sub_months-exact d e n valid h in
    let at = bounds e real in let days = last_day-le e.year e.month in omega (arith, bounds d valid)

-- A window before the anchor: forwards, and not empty.
abbrev Before : Date → Date → Type 0
Before s e = date_key s < date_key e

trailing-Before :
    (ref : Date) (amount : ℕ) (unit : RelativeUnit) (s : Date)
    → IsDate ref
    → 0 < amount
    → trailing_start ref amount unit ≡ ok s
    → Before s ref
unfolding trailing_start
trailing-Before ref amount RelativeUnit.day s valid pos h =
    omega (arith, sub_days-le amount ref s valid h)
trailing-Before ref amount RelativeUnit.week s valid pos h =
    omega (arith, sub_days-le (amount * 7) ref s valid h)
trailing-Before ref amount RelativeUnit.month s valid pos h = earlier_month ref s amount valid pos h
trailing-Before ref amount RelativeUnit.quarter s valid pos h =
    earlier_month ref s (amount * 3) valid (omega arith) h
trailing-Before ref amount RelativeUnit.year s valid pos h =
    let (same, real) = date-ok _ _ _ s h in
    let at : 1 ≤ ref.year - amount = (bounds (make (ref.year - amount) ref.month ref.day) real).0 in
    rw same (omega arith)

to_date-le :
    (ref : Date) (unit : RelativeUnit) (s : Date)
    → IsDate ref
    → to_date_start ref unit ≡ ok s
    → date_key s ≤ date_key ref
unfolding to_date_start quarter_start
to_date-le ref RelativeUnit.month s valid h =
    let (same, _) = date-ok _ _ _ s h in rw same (omega (arith, bounds ref valid))
to_date-le ref RelativeUnit.quarter s valid h =
    let (same, _) = date-ok _ _ _ s h in rw same (omega (arith, bounds ref valid))
to_date-le ref RelativeUnit.year s valid h =
    let (same, _) = date-ok _ _ _ s h in rw same (omega (arith, bounds ref valid))
to_date-le ref RelativeUnit.day s valid h = absurd (ground arith)
to_date-le ref RelativeUnit.week s valid h = absurd (ground arith)

-- `calendar_window` around the months of its anchor
months-Before :
    (first s e : Date) (a b : ℕ)
    → IsDate first
    → b < a
    → both (sub_months first a) (sub_months first b) ≡ ok (s, e)
    → Before s e
months-Before first s e a b valid lt h =
    let (hs, he) = both-ok _ _ s e h in
    let (index, _, real) = sub_months-exact first s a valid hs in
    let (index', _, real') = sub_months-exact first e b valid he in
    let days = last_day-le s.year s.month in omega (arith, bounds s real, bounds e real')

calendar-Before :
    (ref : Date) (amount : ℕ) (unit : RelativeUnit) (s e : Date)
    → 0 < amount
    → calendar_window ref amount unit ≡ ok (s, e)
    → Before s e
unfolding calendar_window quarter_start
calendar-Before ref amount RelativeUnit.month s e pos h =
    let (first, made, h2) = bind-ok (date ref.year ref.month 1) _ (s, e) h in
    let (same, real) = date-ok _ _ _ first made in
    months-Before first s e amount (amount - 1) (rw same real) (omega arith) h2
calendar-Before ref amount RelativeUnit.quarter s e pos h =
    let (first, made, h2) = bind-ok (date ref.year ((ref.month - 1) / 3 * 3 + 1) 1) _ (s, e) h in
    let (same, real) = date-ok _ _ _ first made in
    months-Before first s e (amount * 3) ((amount - 1) * 3) (rw same real) (omega arith) h2
calendar-Before ref amount RelativeUnit.year s e pos h =
    let (hs, he) = both-ok _ _ s e h in
    let (same, real) = date-ok (ref.year - amount) 1 1 s hs in
    let at : 1 ≤ ref.year - amount = (bounds (make (ref.year - amount) 1 1) real).0 in
    elim (Bool-cases (ltb ref.year amount)) [
      | inl before ↦ absurd (ground arith)
      | inr after ↦
          let (same', _) = date-ok (ref.year - amount + 1) 1 1 e (ground arith) in
          rw (same, same') (omega arith)
    ]
calendar-Before ref amount RelativeUnit.day s e pos h = absurd (ground arith)
calendar-Before ref amount RelativeUnit.week s e pos h = absurd (ground arith)

-- A relative window of a positive amount that resolves runs forwards, and is empty at most when it is a
-- to-date window, whose start is the anchor on the first day of a period.
mode_window-ordered :
    (ref : Date) (amount : ℕ) (unit : RelativeUnit) (mode : RelativeMode) (s e : Date)
    → IsDate ref
    → 0 < amount
    → mode_window ref amount unit mode ≡ ok (s, e)
    → (date_key s ≤ date_key e) × (is_to_date mode ≡ false → date_key s < date_key e)
unfolding mode_window
mode_window-ordered ref amount unit RelativeMode.to_date s e valid pos h =
    let (start, end) = both-ok (to_date_start ref unit) (ok ref) s e h in
    let same : ref ≡ e = ground arith in
    (
      subst (λ k. date_key s ≤ date_key k) same (to_date-le ref unit s valid start),
      λ strict. absurd (ground arith),
    )
mode_window-ordered ref amount unit RelativeMode.calendar s e valid pos h =
    let lt = calendar-Before ref amount unit s e pos h in (omega (arith, lt), λ _. lt)
mode_window-ordered ref amount unit RelativeMode.trailing s e valid pos h =
    let (start, end) = both-ok (trailing_start ref amount unit) (ok ref) s e h in
    let same : ref ≡ e = ground arith in
    let lt = subst (Before s) same (trailing-Before ref amount unit s valid pos start) in
    (omega (arith, lt), λ _. lt)

module _ (as_of : Date) (tf : TimeFilter) where
  -- A window that resolves runs forwards, for a filter that passed its validators: an absolute window
  -- is in order, a relative amount is positive.
  pub resolve_window-ordered :
      (s e : Date)
      → IsDate (anchor as_of tf)
      → ((a : AbsoluteTime) → tf.absolute ≡ some a → check_order a ≡ true)
      → ((r : RelativeTime) → tf.relative ≡ some r → 0 < r.amount)
      → resolve_window as_of tf ≡ ok (s, e)
      → date_key s ≤ date_key e
  unfolding resolve_window check_order
  resolve_window-ordered s e valid ordered positive h =
      elim tf.range_type as (λ t. tf.range_type ≡ t → date_key s ≤ date_key e) [
        | TimeRangeType.absolute ↦ λ kind. elim (Option-cases tf.absolute) [
          | inl missing ↦ absurd (ground arith)
          | inr (a, there) ↦
              let in_order = ltb→lt _ _ (ordered a there) in
              let start : a.start ≡ s = ground arith in
              let end : a.end ≡ e = ground arith in
              rw (sym start, sym end) (omega (arith, in_order))
        ]
        | TimeRangeType.relative ↦ λ kind. elim (Option-cases tf.relative) [
          | inl missing ↦ absurd (ground arith)
          | inr (r, there) ↦
              (mode_window-ordered (anchor as_of tf) r.amount r.unit r.mode s e valid
                (positive r there) (ground arith)).0
        ]
      ]
        refl
