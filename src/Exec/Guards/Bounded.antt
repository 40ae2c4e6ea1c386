-- ===== src/Exec/Guards/Bounded.antt =====
-- What reaches the database, and what comes back from it.
use Prim.Native.String.{◌++◌ as append}
use future_bi.Base.{
  ℕ, ◌≤◌, ◌<◌, String, true, false, ◌≡◌, ◌≢◌, refl, ap, sym, ◌∙◌, ◌⊎◌, inl, inr, Option, none, some,
  List, ◌∷◌, arith, length, ltb, is_some, Option-cases, Bool-cases,
}
use future_bi.Base.Dict.{lookup, length-insert-le, lookup-insert_self}
use future_bi.Exec.Guards.{
  Scanner, Engine, State, Ran, gave, timed_out, engine_error, raised, Executed, done,
  ExecutionResult, read_only_fault, cached_scan_rows, cache_scan_rows, run_with_timeout, run_query,
  scan_outcome, scanned, after_scan, admitted, execute_sql, is_over,
}

module _ {Cell : Type 0} (k : Scanner) (g : Engine Cell) where
  -- the statements that one call may have added
  abbrev pub Added : String → List String → List String → Type 0
  Added sql before after =
      (after ≡ before)
      ⊎ (after ≡ sql ∷ before)
      ⊎ (after ≡ append "EXPLAIN ANALYZE " sql ∷ before)
      ⊎ (after ≡ sql ∷ append "EXPLAIN ANALYZE " sql ∷ before)

  run_query-runs :
      (s : State) (sql : String) (timeout_ms max_result_rows : Option ℕ) (n : ℕ)
      (findings : List String)
      → (run_query g s sql timeout_ms max_result_rows n findings).0.runs ≡ sql ∷ s.runs
  unfolding run_query run_with_timeout
  run_query-runs s sql timeout_ms max_result_rows n findings = refl

  -- a scan comes from the cache, or from one run
  record Scans (s : State) (sql : String) (s' : State) (o : ℕ ⊎ Executed Cell) : Type 0 where
    ran : (s'.runs ≡ s.runs) ⊎ (s'.runs ≡ append "EXPLAIN ANALYZE " sql ∷ s.runs)
    size :
        length s.scan_cache ≤ g.max_scan_cache_size → length s'.scan_cache ≤ g.max_scan_cache_size
    kept :
        (n : ℕ)
        → o ≡ inl n
        → length s.scan_cache < g.max_scan_cache_size
        → lookup (g.scan_cache_key sql) s'.scan_cache ≡ some n
    unfinished : (r : ExecutionResult Cell) → o ≢ inr (done r)

  scan_outcome-runs :
      (s : State) (sql : String) (ran : Ran Cell) → (scan_outcome g s sql ran).0.runs ≡ s.runs
  unfolding scan_outcome cache_scan_rows
  scan_outcome-runs s sql (gave t) = refl
  scan_outcome-runs s sql timed_out = refl
  scan_outcome-runs s sql (engine_error e) = refl
  scan_outcome-runs s sql (raised e) = refl

  scan_outcome-Scans :
      (s : State) (sql : String) (ran : Ran Cell)
      → Scans
          (record s { runs = append "EXPLAIN ANALYZE " sql ∷ s.runs })
          sql
          (scan_outcome g (record s { runs = append "EXPLAIN ANALYZE " sql ∷ s.runs }) sql ran).0
          (scan_outcome g (record s { runs = append "EXPLAIN ANALYZE " sql ∷ s.runs }) sql ran).1
  unfolding scan_outcome cache_scan_rows
  scan_outcome-Scans s sql (gave t) = record {
    ran = inl refl;
    size = λ h. ground arith;
    kept = λ n same fits. ground (
      arith,
      length-insert-le (g.scan_cache_key sql) (g.scan_rows_of t) s.scan_cache,
      lookup-insert_self (g.scan_cache_key sql) (g.scan_rows_of t) s.scan_cache,
    );
    unfinished = λ r same. absurd (ground arith);
  }
  scan_outcome-Scans s sql timed_out = record {
    ran = inl refl;
    size = λ h. h;
    kept = λ n same fits. absurd (ground arith);
    unfinished = λ r same. absurd (ground arith);
  }
  scan_outcome-Scans s sql (engine_error e) = record {
    ran = inl refl;
    size = λ h. h;
    kept = λ n same fits. absurd (ground arith);
    unfinished = λ r same. absurd (ground arith);
  }
  scan_outcome-Scans s sql (raised e) = record {
    ran = inl refl;
    size = λ h. h;
    kept = λ n same fits. absurd (ground arith);
    unfinished = λ r same. absurd (ground arith);
  }

  scanned-Scans :
      (s : State) (sql : String) (timeout_ms : Option ℕ)
      → Scans s sql (scanned g s sql timeout_ms).0 (scanned g s sql timeout_ms).1
  unfolding scanned run_with_timeout cached_scan_rows
  scanned-Scans s sql timeout_ms = elim (Option-cases (cached_scan_rows g s sql)) [
    | inr (n, there) ↦
        rw (there, scanned)
          (record {
            ran = inl refl;
            size = λ h. h;
            kept = λ m same fits. ground (arith, there);
            unfinished = λ r same. absurd (ground arith);
          })
    | inl missing ↦
        let v =
          scan_outcome-Scans s sql (g.ask s.runs (append "EXPLAIN ANALYZE " sql) timeout_ms) in
        rw (missing, scanned)
          (record {
            ran = inr (scan_outcome-runs _ sql _);
            size = v.size;
            kept = v.kept;
            unfinished = v.unfinished;
          })
  ]

  -- what a call that passed the checks does
  record Runs (s : State) (sql : String) (max_scan_rows max_result_rows : Option ℕ)
      (findings : List String) (s' : State) (o : Executed Cell) : Type 0 where
    added : Added sql s.runs s'.runs
    size :
        length s.scan_cache ≤ g.max_scan_cache_size → length s'.scan_cache ≤ g.max_scan_cache_size
    result :
        (r : ExecutionResult Cell)
        → o ≡ done r
        → (r.findings ≡ findings)
          × (is_over max_result_rows (length r.rows) ≡ false)
          × (is_over max_scan_rows r.scan_rows ≡ false)
    kept :
        (r : ExecutionResult Cell) (bound : ℕ)
        → o ≡ done r
        → max_scan_rows ≡ some bound
        → length s.scan_cache < g.max_scan_cache_size
        → lookup (g.scan_cache_key sql) s'.scan_cache ≡ some r.scan_rows

  run_query-done :
      (s : State) (sql : String) (timeout_ms max_result_rows : Option ℕ) (n : ℕ)
      (findings : List String) (r : ExecutionResult Cell)
      → (run_query g s sql timeout_ms max_result_rows n findings).1 ≡ done r
      → (r.findings ≡ findings)
        × (is_over max_result_rows (length r.rows) ≡ false)
        × (r.scan_rows ≡ n)
  unfolding run_query
  run_query-done s sql timeout_ms max_result_rows n findings r h = ground arith

  run_query-cache :
      (s : State) (sql : String) (timeout_ms max_result_rows : Option ℕ) (n : ℕ)
      (findings : List String)
      → (run_query g s sql timeout_ms max_result_rows n findings).0.scan_cache ≡ s.scan_cache
  unfolding run_query run_with_timeout
  run_query-cache s sql timeout_ms max_result_rows n findings = refl

  Added-run :
      (sql : String) (before mid after : List String)
      → (mid ≡ before) ⊎ (mid ≡ append "EXPLAIN ANALYZE " sql ∷ before)
      → after ≡ sql ∷ mid
      → Added sql before after
  Added-run sql before mid after (inl same) e = inr (inl (e ∙ ap (λ l. sql ∷ l) same))
  Added-run sql before mid after (inr plan) e = inr (inr (inr (e ∙ ap (λ l. sql ∷ l) plan)))

  Added-scan :
      (sql : String) (before mid : List String)
      → (mid ≡ before) ⊎ (mid ≡ append "EXPLAIN ANALYZE " sql ∷ before)
      → Added sql before mid
  Added-scan sql before mid (inl same) = inl same
  Added-scan sql before mid (inr plan) = inr (inr (inl plan))

  after_scan-Runs :
      (s s' : State) (sql : String) (timeout_ms : Option ℕ) (bound : ℕ) (max_result_rows : Option ℕ)
      (findings : List String) (o : ℕ ⊎ Executed Cell)
      → Scans s sql s' o
      → Runs s sql
          (some bound)
          max_result_rows
          findings
          (after_scan g s' sql timeout_ms bound max_result_rows findings o).0
          (after_scan g s' sql timeout_ms bound max_result_rows findings o).1
  unfolding after_scan
  after_scan-Runs s s' sql timeout_ms bound max_result_rows findings (inr fault) v = record {
    added = Added-scan sql s.runs s'.runs v.ran;
    size = v.size;
    result = λ r e. absurd (v.unfinished r (ap inr e));
    kept = λ r b e. absurd (v.unfinished r (ap inr e));
  }
  after_scan-Runs s s' sql timeout_ms bound max_result_rows findings (inl n) v =
      elim (Bool-cases (ltb bound n)) [
        | inl over ↦ rw over (record {
          added = Added-scan sql s.runs s'.runs v.ran;
          size = v.size;
          result = λ r e. absurd (ground arith);
          kept = λ r b e. absurd (ground arith);
        })
        | inr within ↦ rw within (record {
          added =
              Added-run sql s.runs s'.runs _ v.ran
                (run_query-runs s' sql timeout_ms max_result_rows n findings);
          size = λ h. omega (
            arith,
            v.size h,
            ap length (run_query-cache s' sql timeout_ms max_result_rows n findings),
          );
          result = λ r e.
              let (found, rows, scans) =
                run_query-done s' sql timeout_ms max_result_rows n findings r e in
              (found, rows, rw scans within);
          kept = λ r b e same fits.
              let (found, rows, scans) =
                run_query-done s' sql timeout_ms max_result_rows n findings r e in
              rw (run_query-cache s' sql timeout_ms max_result_rows n findings)
                (v.kept n refl fits ∙ ap some (sym scans));
        })
      ]

  admitted-Runs :
      (s : State) (sql : String) (timeout_ms max_scan_rows max_result_rows : Option ℕ)
      (findings : List String)
      → Runs s sql max_scan_rows max_result_rows findings
          (admitted g s sql timeout_ms max_scan_rows max_result_rows findings).0
          (admitted g s sql timeout_ms max_scan_rows max_result_rows findings).1
  unfolding admitted
  admitted-Runs s sql timeout_ms none max_result_rows findings = record {
    added = inr (inl (run_query-runs s sql timeout_ms max_result_rows 0 findings));
    size =
        λ h. omega (arith, ap length (run_query-cache s sql timeout_ms max_result_rows 0 findings));
    result = λ r h.
        let (found, rows, n) = run_query-done s sql timeout_ms max_result_rows 0 findings r h in
        (found, rows, refl);
    kept = λ r bound h given. absurd (ground arith);
  }
  admitted-Runs s sql timeout_ms (some bound) max_result_rows findings =
      after_scan-Runs s _ sql timeout_ms bound max_result_rows findings _
        (scanned-Scans s sql timeout_ms)

  -- A call runs nothing, or it runs only the statement and its EXPLAIN, each at most once and the EXPLAIN
  -- first, and then the statement had passed the check for reading and the audit; the cache of scans
  -- stays within its size.
  pub execute_sql-runs :
      (s : State) (sql : String) (timeout_ms max_scan_rows max_result_rows : Option ℕ)
      → length s.scan_cache ≤ g.max_scan_cache_size
      → (((execute_sql k g s sql timeout_ms max_scan_rows max_result_rows).0 ≡ s)
          ⊎ ((read_only_fault k sql ≡ none)
              × (is_some (g.audit sql) ≡ true)
              × Added sql s.runs
                  (execute_sql k g s sql timeout_ms max_scan_rows max_result_rows).0.runs))
        × (length (execute_sql k g s sql timeout_ms max_scan_rows max_result_rows).0.scan_cache
            ≤ g.max_scan_cache_size)
  unfolding execute_sql
  execute_sql-runs s sql timeout_ms max_scan_rows max_result_rows h =
      elim (Option-cases (read_only_fault k sql)) [
        | inr (why, bad) ↦ rw (bad, execute_sql) (inl refl, h)
        | inl safe ↦ elim (Option-cases (g.audit sql)) [
          | inl rejected ↦ rw (safe, execute_sql) (rw rejected (inl refl, h))
          | inr (findings, passed) ↦
              let v = admitted-Runs s sql timeout_ms max_scan_rows max_result_rows findings in
              rw (safe, execute_sql) (rw passed (inr (refl, refl, v.added), v.size h))
        ]
      ]

  -- A result comes only for a statement that passed the check for reading and the audit, whose findings
  -- it shows; it has no more rows than allowed, and no more were scanned.
  pub execute_sql-done :
      (s : State) (sql : String) (timeout_ms max_scan_rows max_result_rows : Option ℕ)
      (r : ExecutionResult Cell)
      → (execute_sql k g s sql timeout_ms max_scan_rows max_result_rows).1 ≡ done r
      → (read_only_fault k sql ≡ none)
        × (g.audit sql ≡ some r.findings)
        × (is_over max_result_rows (length r.rows) ≡ false)
        × (is_over max_scan_rows r.scan_rows ≡ false)
  unfolding execute_sql
  execute_sql-done s sql timeout_ms max_scan_rows max_result_rows r h =
      elim (Option-cases (read_only_fault k sql)) [
        | inr (why, bad) ↦ absurd (ground (arith, bad))
        | inl safe ↦ elim (Option-cases (g.audit sql)) [
          | inl rejected ↦ absurd (ground (arith, safe, rejected))
          | inr (findings, passed) ↦
              let v = admitted-Runs s sql timeout_ms max_scan_rows max_result_rows findings in
              let (found, rows, scans) = v.result r (rw passed at rw (safe, execute_sql) at h) in
              (safe, passed ∙ ap some (sym found), rows, scans)
        ]
      ]

  after_scan-within :
      (s : State) (sql : String) (timeout_ms : Option ℕ) (bound n : ℕ) (max_result_rows : Option ℕ)
      (findings : List String)
      → ltb bound n ≡ false
      → (after_scan g s sql timeout_ms bound max_result_rows findings (inl n)).0.runs ≡ sql ∷ s.runs
  unfolding after_scan
  after_scan-within s sql timeout_ms bound n max_result_rows findings within =
      rw within (run_query-runs s sql timeout_ms max_result_rows n findings)

  cached-runs :
      (s : State) (sql : String) (timeout_ms max_result_rows : Option ℕ) (bound n : ℕ)
      (findings : List String)
      → read_only_fault k sql ≡ none
      → g.audit sql ≡ some findings
      → lookup (g.scan_cache_key sql) s.scan_cache ≡ some n
      → ltb bound n ≡ false
      → (execute_sql k g s sql timeout_ms (some bound) max_result_rows).0.runs ≡ sql ∷ s.runs
  unfolding execute_sql admitted scanned cached_scan_rows
  cached-runs s sql timeout_ms max_result_rows bound n findings safe passed there within =
      rw (safe, execute_sql)
        (rw passed (
          rw (there, scanned)
            (after_scan-within s sql timeout_ms bound n max_result_rows findings within)))

  execute_sql-kept :
      (s : State) (sql : String) (timeout_ms max_result_rows : Option ℕ) (bound : ℕ)
      (r : ExecutionResult Cell)
      → read_only_fault k sql ≡ none
      → g.audit sql ≡ some r.findings
      → length s.scan_cache < g.max_scan_cache_size
      → (execute_sql k g s sql timeout_ms (some bound) max_result_rows).1 ≡ done r
      → lookup
          (g.scan_cache_key sql)
          (execute_sql k g s sql timeout_ms (some bound) max_result_rows).0.scan_cache
        ≡ some r.scan_rows
  unfolding execute_sql
  execute_sql-kept s sql timeout_ms max_result_rows bound r safe passed fits h =
      let v = admitted-Runs s sql timeout_ms (some bound) max_result_rows r.findings in
      rw (safe, execute_sql)
        (rw passed (v.kept r bound (rw passed at rw (safe, execute_sql) at h) refl fits))

  -- After a result under a budget of scanned rows, with room in the cache of scans, the same call runs
  -- the statement alone: its EXPLAIN is not run again.
  pub execute_sql-again :
      (s : State) (sql : String) (timeout_ms max_result_rows : Option ℕ) (bound : ℕ)
      (r : ExecutionResult Cell)
      → length s.scan_cache < g.max_scan_cache_size
      → (execute_sql k g s sql timeout_ms (some bound) max_result_rows).1 ≡ done r
      → (execute_sql k g
          (execute_sql k g s sql timeout_ms (some bound) max_result_rows).0
          sql
          timeout_ms
          (some bound)
          max_result_rows).0.runs
        ≡ sql ∷ (execute_sql k g s sql timeout_ms (some bound) max_result_rows).0.runs
  execute_sql-again s sql timeout_ms max_result_rows bound r fits h =
      let (safe, passed, _, within) =
        execute_sql-done s sql timeout_ms (some bound) max_result_rows r h in
      cached-runs _ sql timeout_ms max_result_rows bound r.scan_rows r.findings safe passed
        (execute_sql-kept s sql timeout_ms max_result_rows bound r safe passed fits h) within
