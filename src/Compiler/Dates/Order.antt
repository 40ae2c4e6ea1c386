-- ===== src/Compiler/Dates/Order.antt =====
-- Windows run forwards: what subtraction of months, years and days does, and the order of a window's
-- ends, also after the shift to the period compared with.
use future_bi.Base.{
  ℕ, ◌+◌, ◌-◌, ◌*◌, ◌/◌, ◌%◌, ◌≤◌, min, ◌≡◌, refl, inl, inr, true, ltb, ltb→lt, ltb-false→le, arith,
  Bool-cases,
}
use future_bi.Semantic.Schema.{Date, date_key}
use future_bi.Compiler.Fault.{ok}
use future_bi.Compiler.Dates.{is_date, make, date, last_day, clamped, sub_months}

abbrev pub IsDate : Date → Type 0
IsDate d = is_date d.year d.month d.day ≡ true

pub last_day-le : (y m : ℕ) → last_day y m ≤ 31
unfolding last_day
last_day-le y m = ground arith

-- the bounds of a date, as numbers
pub bounds :
    (d : Date)
    → IsDate d
    → (1 ≤ d.year)
      × (1 ≤ d.month)
      × (d.month ≤ 12)
      × (1 ≤ d.day)
      × (d.day ≤ last_day d.year d.month)
bounds d h = ground arith

pub date-ok : (y m k : ℕ) (e : Date) → date y m k ≡ ok e → (e ≡ make y m k) × (is_date y m k ≡ true)
unfolding date
date-ok y m k e h = ground arith

abbrev month_index : Date → ℕ
month_index d = d.year * 12 + (d.month - 1)

abbrev clamp_to : ℕ → ℕ → Date
clamp_to total k =
    make (total / 12) (total % 12 + 1) (min k (last_day (total / 12) (total % 12 + 1)))

pub sub_months-ok :
    (d e : Date) (n : ℕ)
    → sub_months d n ≡ ok e
    → (e ≡ clamp_to (month_index d - n) d.day) × (n ≤ month_index d) × IsDate e
unfolding sub_months clamped
sub_months-ok d e n h = elim (Bool-cases (ltb (month_index d) n)) [
  | inl over ↦ absurd (ground arith)
  | inr within ↦
      let (same, valid) = date-ok _ _ _ e (ground arith) in (same, ground arith, rw same valid)
]

-- Subtracting months moves a date back by exactly that many months, keeps its day where the month has it
-- and takes the month's last day where not; the result is a date.
pub sub_months-exact :
    (d e : Date) (n : ℕ)
    → IsDate d
    → sub_months d n ≡ ok e
    → (e.year * 12 + e.month + n ≡ d.year * 12 + d.month)
      × (e.day ≡ min d.day (last_day e.year e.month))
      × IsDate e
sub_months-exact d e n valid h =
    let (same, within, date) = sub_months-ok d e n h in
    (rw same (omega (arith, bounds d valid)), rw same refl, date)

clamp_to-le :
    (a b k l : ℕ) → a ≤ b → (a ≡ b → k ≤ l) → date_key (clamp_to a k) ≤ date_key (clamp_to b l)
clamp_to-le a b k l le days = elim (Bool-cases (ltb a b)) [
  | inl earlier ↦ omega (arith, ltb→lt a b earlier, last_day-le (a / 12) (a % 12 + 1))
  | inr same ↦
      let equal : a ≡ b = omega (arith, ltb-false→le a b same) in
      rw equal (omega (arith, days equal))
]

key→index :
    (d e : Date)
    → IsDate d
    → IsDate e
    → date_key d ≤ date_key e
    → (month_index d ≤ month_index e) × (month_index d ≡ month_index e → d.day ≤ e.day)
key→index d e valid valid' le = (
  omega (
    arith,
    bounds d valid,
    bounds e valid',
    last_day-le d.year d.month,
    last_day-le e.year e.month,
  ),
  λ same. omega (arith, bounds d valid, bounds e valid'),
)

pub sub_months-le :
    (d e d' e' : Date) (n : ℕ)
    → IsDate d
    → IsDate e
    → date_key d ≤ date_key e
    → sub_months d n ≡ ok d'
    → sub_months e n ≡ ok e'
    → date_key d' ≤ date_key e'
sub_months-le d e d' e' n vd ve le hd he =
    let (same, within, _) = sub_months-ok d d' n hd in
    let (same', within', _) = sub_months-ok e e' n he in
    let (index, days) = key→index d e vd ve le in
    rw (same, same')
      (clamp_to-le (month_index d - n) (month_index e - n) d.day e.day (omega (arith, index))
        (λ eq. days (omega (arith, within, within', eq))))
