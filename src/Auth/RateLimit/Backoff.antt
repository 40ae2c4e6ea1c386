-- ===== src/Auth/RateLimit/Backoff.antt =====
-- When a login is throttled, for how long, and what clears it.
use future_bi.Base.{
  ℕ, ◌+◌, ◌-◌, ◌*◌, ◌^◌, ◌⊎◌, ◌↔◌, Bool, false, min, leb, Bool-cases, ◌/◌, ◌≤◌, ◌<◌, max, String,
  ◌≡◌, refl, ◌∙◌, inl, inr, true, none, some, arith, Option-cases,
}
use future_bi.Base.Dict.{Dict, lookup, remove, lookup-insert_self, lookup-remove_self, IsDistinct}
use future_bi.Auth.RateLimit.{
  Limiter, Entry, Checked, passed, limited, overflowed, check, verdict, judge, delay,
  record_failure, record_success, entry_of, load, kv_get, kv_delete, count_in,
}

abbrev pub is_limited : Checked → Bool
is_limited (limited n) = true
is_limited c = false

-- the dictionaries of a limiter have no key twice
pub record IsLimiter (l : Limiter) : Type 0 where
  pub memory : IsDistinct l.failures
  pub store : (d : Dict Entry) → l.kv ≡ some d → IsDistinct d

entry-record_failure :
    (l : Limiter) (now : ℕ) (key : String)
    → lookup key (record_failure l now key).failures
      ≡ some (record { failures = count_in l.failures key + 1; last_failure = now })
unfolding record_failure
entry-record_failure l now key = lookup-insert_self key _ l.failures

pub check_memory :
    (l : Limiter) (now : ℕ) (key : String) (e : Entry)
    → lookup key l.failures ≡ some e
    → check l now key ≡ judge l now e
unfolding check entry_of
check_memory l now key e there = rw (there, check, entry_of) refl

pub check_store :
    (l : Limiter) (now : ℕ) (key : String) (d : Dict Entry)
    → lookup key l.failures ≡ none
    → l.kv ≡ some d
    → check l now key ≡ elim (lookup key d) [ none ↦ passed | some e ↦ judge l now e ]
unfolding check entry_of load kv_get
check_store l now key d missing store = rw (missing, check, entry_of) (rw (store, load) refl)

check_no_store :
    (l : Limiter) (now : ℕ) (key : String)
    → lookup key l.failures ≡ none
    → l.kv ≡ none
    → check l now key ≡ passed
unfolding check entry_of load
check_no_store l now key missing store = rw (missing, check, entry_of) (rw (store, load) refl)

pub check-record_failure :
    (l : Limiter) (now later : ℕ) (key : String)
    → check (record_failure l now key) later key
      ≡ judge l later (record { failures = count_in l.failures key + 1; last_failure = now })
unfolding record_failure
check-record_failure l now later key =
    check_memory (record_failure l now key) later key _ (entry-record_failure l now key)

judge-wait :
    (l : Limiter) (later : ℕ) (e : Entry) (n : ℕ)
    → leb 1024 (e.failures - l.max_failures) ≡ false
    → n ≡ e.failures - l.max_failures
    → judge l later e ≡ verdict l later e (some (min (l.base * 2 ^ n) l.max_delay))
judge-wait l later e n within same = rw (same) (rw (within, judge, delay) refl)

-- the two sides of the end of a wait
wait-limited :
    (l : Limiter) (now later n wait : ℕ)
    → l.max_failures ≤ n
    → (is_limited (verdict l later (record { failures = n; last_failure = now }) (some wait))
        ≡ true)
      ↔ (later < now + wait)
wait-limited l now later n wait enough = (λ h. ground arith, λ h. ground arith)

wait-passed :
    (l : Limiter) (now later n wait : ℕ)
    → l.max_failures ≤ n
    → (verdict l later (record { failures = n; last_failure = now }) (some wait) ≡ passed)
      ↔ (now + wait ≤ later)
wait-passed l now later n wait enough = (λ h. ground arith, λ h. ground arith)

-- A login whose count in memory reaches the allowed failures with this one, or is past them, must wait:
-- for as long as the doubling delay says, up to the longest delay, and not longer. Where the count is past
-- them by 1024 or more, there is no delay, and the check raises `OverflowError` at any time.
pub check_after_failure :
    (l : Limiter) (now later : ℕ) (key : String)
    → l.max_failures ≤ count_in l.failures key + 1
    → ((n : ℕ) × (count_in l.failures key + 1 ≡ l.max_failures + n)
        × (n < 1024)
        × (wait : ℕ) × (wait ≡ min (l.base * 2 ^ n) l.max_delay)
        × ((is_limited (check (record_failure l now key) later key) ≡ true) ↔ (later < now + wait))
        × ((check (record_failure l now key) later key ≡ passed) ↔ (now + wait ≤ later)))
      ⊎ ((l.max_failures + 1024 ≤ count_in l.failures key + 1)
          × (check (record_failure l now key) later key ≡ overflowed))
check_after_failure l now later key enough =
    rw check-record_failure
      (elim (Bool-cases (leb 1024 (count_in l.failures key + 1 - l.max_failures))) [
        | inl over ↦ inr (ground (arith, over), ground (arith, over))
        | inr within ↦
            let n = count_in l.failures key + 1 - l.max_failures in
            let e : Entry = record { failures = count_in l.failures key + 1; last_failure = now } in
            inl (
              n,
              omega (arith, enough),
              ground (arith, within),
              min (l.base * 2 ^ n) l.max_delay,
              refl,
              rw (judge-wait l later e n within refl) (
                  wait-limited l now later (count_in l.failures key + 1)
                    (min (l.base * 2 ^ n) l.max_delay) enough),
              rw (judge-wait l later e n within refl) (
                  wait-passed l now later (count_in l.failures key + 1)
                    (min (l.base * 2 ^ n) l.max_delay) enough),
            )
      ])

-- After a success nothing throttles the key at any time, in a limiter whose dictionaries have no key
-- twice.
pub check-record_success :
    (l : Limiter) (now : ℕ) (key : String)
    → IsLimiter l
    → check (record_success l key) now key ≡ passed
unfolding record_success kv_delete
check-record_success l now key h = elim (Option-cases l.kv) [
  | inl memory ↦
      check_no_store (record_success l key) now key (lookup-remove_self key l.failures h.memory)
        (rw memory refl)
  | inr (d, there) ↦
      check_store (record_success l key) now key (remove key d)
        (lookup-remove_self key l.failures h.memory) (rw there refl)
      ∙ rw (lookup-remove_self key d (h.store d there)) refl
]

-- Where the last failure of a key is not in the future, no wait is longer than the longest delay,
-- rounded up to seconds, or one second.
pub check-bounded :
    (l : Limiter) (now wait : ℕ) (key : String) (e : Entry)
    → entry_of l key ≡ some e
    → e.last_failure ≤ now
    → check l now key ≡ limited wait
    → wait ≤ max 1 ((l.max_delay + 999) / 1000)
unfolding check
check-bounded l now wait key e there past h = ground arith
