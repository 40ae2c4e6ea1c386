-- ===== src/Auth/RateLimit.antt =====
-- auth/ratelimit.py, `LoginRateLimiter`, over persistence/kvstore.py, `SqliteKVStore`. Time is in
-- milliseconds and handed to each operation; a store is the dictionary that its docstring promises, with
-- the two numbers that the limiter writes as values. The lock makes an operation one step.
pub mod Backoff
pub mod Restart
use future_bi.Base.{
  ℕ, zero, suc, ◌+◌, ◌-◌, ◌*◌, ◌/◌, ◌^◌, min, max, String, Bool, true, false, ◌&&◌, Option, none,
  some, List, [], leb, ltb, if◌then◌else◌, is_some,
}
use future_bi.Base.Dict.{Dict, lookup, insert, remove}

-- failures, and the time of the last one
pub record Entry : Type 0 where
  pub failures : ℕ
  pub last_failure : ℕ

pub record Limiter : Type 0 where
  pub max_failures : ℕ
  pub base : ℕ
  pub max_delay : ℕ
  pub failures : Dict Entry
  pub kv : Option (Dict Entry)

-- `SqliteKVStore.get`, without a TTL as the limiter calls it
unfoldable pub kv_get : Dict Entry → String → Option Entry
kv_get d key = lookup key d

-- `SqliteKVStore.set`
unfoldable pub kv_set : Dict Entry → String → Entry → Dict Entry
kv_set d key e = insert key e d

-- `SqliteKVStore.delete`
unfoldable pub kv_delete : Dict Entry → String → Dict Entry × Bool
kv_delete d key = (remove key d, is_some (lookup key d))

unfoldable pub persist : Limiter → String → Entry → Option (Dict Entry)
unfolding kv_set
persist l key e = elim l.kv [ none ↦ none | some d ↦ some (kv_set d key e) ]

unfoldable pub load : Limiter → String → Option Entry
unfolding kv_get
load l key = elim l.kv [ none ↦ none | some d ↦ kv_get d key ]

-- `self._failures.get(key) or self._load(key)`
unfoldable pub entry_of : Limiter → String → Option Entry
unfolding load
entry_of l key = elim (lookup key l.failures) [ none ↦ load l key | some e ↦ some e ]

-- the powers of two from this one on are too large for a float
abbrev pub float_bits : ℕ
float_bits = 1024

-- `base_seconds` is a float: `none` is the `OverflowError` of its product with an integer that is too
-- large for a float. The product itself may be infinite, and the longest delay is then the smaller.
abbrev pub delay : Limiter → ℕ → Option ℕ
delay l failures =
    if leb float_bits (failures - l.max_failures)
    then none
    else some (min (l.base * 2 ^ (failures - l.max_failures)) l.max_delay)

-- `max(1, int(remaining + 0.999))`, in seconds
abbrev pub retry_after : ℕ → ℕ
retry_after remaining = max 1 ((remaining + 999) / 1000)

-- what `check` comes to: nothing, `LoginRateLimitError` with the seconds to wait, or `OverflowError`
pub data Checked : Type 0 where
  passed overflowed : Checked
  limited : ℕ → Checked

-- for an entry, and the delay after it
abbrev pub verdict : Limiter → ℕ → Entry → Option ℕ → Checked
verdict l now e none = overflowed
verdict l now e (some wait) =
    let remaining : ℕ = wait + e.last_failure - now in
    if leb l.max_failures e.failures && ltb 0 remaining
    then limited (retry_after remaining)
    else passed

abbrev pub judge : Limiter → ℕ → Entry → Checked
judge l now e = verdict l now e (delay l e.failures)

unfoldable pub check : Limiter → ℕ → String → Checked
unfolding entry_of
check l now key = elim (entry_of l key) [ none ↦ passed | some e ↦ judge l now e ]

abbrev pub count_in : Dict Entry → String → ℕ
count_in d key = elim (lookup key d) [ none ↦ 0 | some e ↦ e.failures ]

-- the count goes on from memory only
unfoldable pub record_failure : Limiter → ℕ → String → Limiter
unfolding persist
record_failure l now key =
    let e : Entry = record { failures = count_in l.failures key + 1; last_failure = now } in
    record l { failures = insert key e l.failures; kv = persist l key e }

unfoldable pub record_success : Limiter → String → Limiter
unfolding kv_delete
record_success l key = record l {
  failures = remove key l.failures;
  kv = elim l.kv [ none ↦ none | some d ↦ some (kv_delete d key).0 ];
}

-- a new process, or another worker, over the same file: `__init__`
unfoldable pub restart : Limiter → Limiter
restart l = record l { failures = [] }
