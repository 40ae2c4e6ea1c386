-- ===== src/Auth/RateLimit/Restart.antt =====
-- What a restart keeps of the throttling.
use future_bi.Base.{
  is_some, true, inl, inr, Option-cases, ℕ, ◌+◌, ◌≤◌, String, ◌≡◌, refl, sym, ◌∙◌, arith, eq_refl,
}
use future_bi.Base.Dict.{lookup, insert, lookup-insert_self}
use future_bi.Auth.RateLimit.Backoff.{check_store, check-record_failure}
use future_bi.Auth.RateLimit.{
  Limiter, Entry, passed, check, record_failure, restart, entry_of, persist, kv_set, count_in,
}

-- The first failure after a restart starts the count again, whatever the store says: where two failures
-- or more are allowed, nobody is throttled after it.
pub restart_forgets :
    (l : Limiter) (now later : ℕ) (key : String)
    → 2 ≤ l.max_failures
    → check (record_failure (restart l) now key) later key ≡ passed
unfolding restart record_failure check entry_of lookup insert
restart_forgets l now later key two = ground (arith, eq_refl key)

-- With a store, a check just after a failure answers the same after a restart, or for another worker
-- over that store, as it does here.
pub check-restart :
    (l : Limiter) (now later : ℕ) (key : String)
    → is_some l.kv ≡ true
    → check (restart (record_failure l now key)) later key
      ≡ check (record_failure l now key) later key
unfolding restart record_failure persist kv_set lookup
check-restart l now later key shared = elim (Option-cases l.kv) [
  | inl alone ↦ absurd (ground arith)
  | inr (d, there) ↦
      let e : Entry = record { failures = count_in l.failures key + 1; last_failure = now } in
      check_store (restart (record_failure l now key)) later key (insert key e d) refl
        (rw there refl)
      ∙ rw (lookup-insert_self key e d) (sym (check-record_failure l now later key))
]
