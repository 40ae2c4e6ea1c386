-- ===== src/Exec/Guards.antt =====
-- exec/guards.py: the checks of a statement and its guarded execution. The regular expressions, the
-- parser of SQL, the hash of the cache and `str.upper` are the record `Scanner`; the database, the clock
-- and the audit of exec/audit.py are the record `Engine`. A run of a statement is recorded in the state.
pub mod Bounded
use Prim.Native.String.{◌++◌ as append}
use future_bi.Base.{
  ℕ, String, Bool, true, false, ◌||◌, ◌⊎◌, inl, inr, Option, none, some, List, [], ◌∷◌, ◌++◌, any,
  length, ltb, contains, str_eq, if◌then◌else◌,
}
use future_bi.Base.Dict.{Dict, lookup, insert}
use future_bi.Exec.SqlText.{strip_sql_comments, code_of}

-- a node of the tree of a statement, as far as the walk looks at it: a call has its name in small
-- letters, if it has one; a table says whether its name is quoted
pub data SqlNode : Type 0 where
  into : SqlNode
  func : Option String → SqlNode
  table : Bool → SqlNode
  other : SqlNode

pub record Statement : Type 0 where
  -- whether its root is a `Select` or a `Union`
  pub is_query : Bool
  pub nodes : List SqlNode

pub record Scanner : Type 0 where
  pub upper : String → String
  -- `text.strip().split()[0]`
  pub first_word : String → Option String
  pub has_char : String → String → Bool
  -- `re.search(rf"\b{word}\b", text)`
  pub has_word : String → String → Bool
  pub has_forbidden_call : String → Bool
  pub has_string_table : String → Bool
  pub is_forbidden_function : String → Bool
  -- `sqlglot.parse`; `none` is a `ParseError`
  pub parse : String → Option (List Statement)

pub data UnsafeSql : Type 0 where
  not_select multiple unparsable select_into quoted_table string_table : UnsafeSql
  forbidden_call : UnsafeSql
  forbidden_keyword forbidden_function : String → UnsafeSql

abbrev pub forbidden_keywords : List String
forbidden_keywords =
    "INSERT" ∷ "UPDATE" ∷ "DELETE" ∷ "DROP" ∷ "ALTER" ∷ "CREATE" ∷ "ATTACH" ∷ "DETACH" ∷ "PRAGMA"
    ∷ "COPY" ∷ "EXPORT" ∷ "IMPORT" ∷ "INSTALL" ∷ "LOAD" ∷ "CALL" ∷ "SET" ∷ "RESET" ∷ "VACUUM"
    ∷ "CHECKPOINT" ∷ []

-- what is wrong with one node
unfoldable pub node_fault : Scanner → SqlNode → Option UnsafeSql
node_fault k into = some select_into
node_fault k (func none) = none
node_fault k (func (some name)) =
    if k.is_forbidden_function name then some (forbidden_function name) else none
node_fault k (table quoted) = if quoted then some quoted_table else none
node_fault k other = none

-- the walk over the tree
unfoldable pub first_fault : Scanner → List SqlNode → Option UnsafeSql
first_fault k [] = none
first_fault k (n ∷ l) =
    let rest = first_fault k l in elim (node_fault k n) [ some why ↦ some why | none ↦ rest ]

-- `_assert_read_only_structure`; `none` lets the statement through
unfoldable pub structure_fault : Scanner → String → Option UnsafeSql
structure_fault k sql = elim (k.parse sql) [
  | none ↦ some unparsable
  | some [] ↦ some multiple
  | some (s ∷ []) ↦ if s.is_query then first_fault k s.nodes else some not_select
  | some (s ∷ t ∷ l) ↦ some multiple
]

-- the first keyword that is found; the loop is over a set
unfoldable pub first_keyword : Scanner → String → List String → Option String
first_keyword k s [] = none
first_keyword k s (w ∷ l) =
    let rest = first_keyword k s l in if k.has_word w s then some w else rest

abbrev pub is_query_word : Scanner → Option String → Bool
is_query_word k none = false
is_query_word k (some w) = str_eq (k.upper w) "SELECT" || str_eq (k.upper w) "WITH"

-- `assert_read_only_sql`
unfoldable pub read_only_fault : Scanner → String → Option UnsafeSql
read_only_fault k sql =
    let text : String = code_of sql in
    if is_query_word k (k.first_word text)
    then if k.has_char ";" text
      then some multiple
      else elim (first_keyword k (k.upper text) forbidden_keywords) [
        | some w ↦ some (forbidden_keyword w)
        | none ↦
            if k.has_forbidden_call text
            then some forbidden_call
            else if k.has_string_table (strip_sql_comments sql)
            then some string_table
            else structure_fault k sql
      ]
    else some not_select

-- columns and rows, over a type of cells
pub record Table (Cell : Type 0) : Type 0 where
  pub columns : List String
  pub rows : List (List Cell)

-- what a run under the watchdog comes to: rows, a time-out, an error of the engine, or another exception
pub data Ran (Cell : Type 0) : Type 0 where
  gave : Table Cell → Ran Cell
  timed_out : Ran Cell
  engine_error : String → Ran Cell
  raised : String → Ran Cell

pub record Engine (Cell : Type 0) : Type 0 where
  -- the answer to a statement after those that were run before it, the latest first
  pub ask : List String → String → Option ℕ → Ran Cell
  -- `assert_guardrails`: the findings that let the statement through, or the refusal
  pub audit : String → Option (List String)
  -- `parse_scan_rows` of the plan in the rows of an EXPLAIN
  pub scan_rows_of : Table Cell → ℕ
  pub scan_cache_key : String → String
  pub max_scan_cache_size : ℕ

-- the statements that the database has run, the latest first, and `_SCAN_CACHE`
pub record State : Type 0 where
  pub runs : List String
  pub scan_cache : Dict ℕ

pub record ExecutionResult (Cell : Type 0) : Type 0 where
  pub columns : List String
  pub rows : List (List Cell)
  pub scan_rows : ℕ
  pub findings : List String

pub data Executed (Cell : Type 0) : Type 0 where
  done : ExecutionResult Cell → Executed Cell
  unsafe : UnsafeSql → Executed Cell
  audit_rejected timeout scan_exceeded rows_exceeded : Executed Cell
  execution_error : String → Executed Cell
  other_error : String → Executed Cell

-- a limit that is given and exceeded
abbrev pub is_over : Option ℕ → ℕ → Bool
is_over none n = false
is_over (some bound) n = ltb bound n

module _ {Cell : Type 0} where
  -- `cached_scan_rows`
  unfoldable pub cached_scan_rows : Engine Cell → State → String → Option ℕ
  cached_scan_rows g s sql = lookup (g.scan_cache_key sql) s.scan_cache

  -- `cache_scan_rows`: over the limit the cache is emptied
  unfoldable pub cache_scan_rows : Engine Cell → State → String → ℕ → State
  cache_scan_rows g s sql n =
      let d : Dict ℕ = insert (g.scan_cache_key sql) n s.scan_cache in
      record s { scan_cache = if ltb g.max_scan_cache_size (length d) then [] else d }

  -- `_run_with_timeout`
  unfoldable pub run_with_timeout : Engine Cell → State → String → Option ℕ → State × Ran Cell
  run_with_timeout g s sql timeout_ms =
      (record s { runs = sql ∷ s.runs }, g.ask s.runs sql timeout_ms)

  result_of : Option ℕ → ℕ → List String → Table Cell → Executed Cell
  result_of max_result_rows scan_rows findings t =
      if is_over max_result_rows (length t.rows)
      then rows_exceeded
      else done (record {
        columns = t.columns;
        rows = t.rows;
        scan_rows = scan_rows;
        findings = findings;
      })

  conclude : Option ℕ → ℕ → List String → Ran Cell → Executed Cell
  conclude max_result_rows scan_rows findings (gave t) =
      result_of max_result_rows scan_rows findings t
  conclude max_result_rows scan_rows findings timed_out = timeout
  conclude max_result_rows scan_rows findings (engine_error e) = execution_error e
  conclude max_result_rows scan_rows findings (raised e) = other_error e

  -- the run itself and the limit of its rows
  unfoldable pub run_query :
      Engine Cell → State → String → Option ℕ → Option ℕ → ℕ → List String → State × Executed Cell
  unfolding conclude result_of
  run_query g s sql timeout_ms max_result_rows scan_rows findings =
      let (s', ran) = run_with_timeout g s sql timeout_ms in
      (s', conclude max_result_rows scan_rows findings ran)

  -- the number of rows that a statement scans: from the cache, or from an EXPLAIN that is cached
  unfoldable pub scan_outcome :
      Engine Cell → State → String → Ran Cell → State × (ℕ ⊎ Executed Cell)
  scan_outcome g s sql (gave t) =
      (cache_scan_rows g s sql (g.scan_rows_of t), inl (g.scan_rows_of t))
  scan_outcome g s sql timed_out = (s, inr timeout)
  scan_outcome g s sql (engine_error e) = (s, inr (execution_error e))
  scan_outcome g s sql (raised e) = (s, inr (other_error e))

  unfoldable pub scanned : Engine Cell → State → String → Option ℕ → State × (ℕ ⊎ Executed Cell)
  scanned g s sql timeout_ms = elim (cached_scan_rows g s sql) [
    | some n ↦ (s, inl n)
    | none ↦
        let (s', ran) = run_with_timeout g s (append "EXPLAIN ANALYZE " sql) timeout_ms in
        scan_outcome g s' sql ran
  ]

  -- the test of the budget after the scan
  unfoldable pub after_scan :
      Engine Cell
      → State
      → String
      → Option ℕ
      → ℕ
      → Option ℕ
      → List String
      → ℕ ⊎ Executed Cell
      → State × Executed Cell
  after_scan g s sql timeout_ms bound max_result_rows findings (inr fault) = (s, fault)
  after_scan g s sql timeout_ms bound max_result_rows findings (inl n) =
      if ltb bound n
      then (s, scan_exceeded)
      else run_query g s sql timeout_ms max_result_rows n findings

  unfoldable pub admitted :
      Engine Cell
      → State
      → String
      → Option ℕ
      → Option ℕ
      → Option ℕ
      → List String
      → State × Executed Cell
  admitted g s sql timeout_ms none max_result_rows findings =
      run_query g s sql timeout_ms max_result_rows 0 findings
  admitted g s sql timeout_ms (some bound) max_result_rows findings =
      let (s', n) = scanned g s sql timeout_ms in
      after_scan g s' sql timeout_ms bound max_result_rows findings n

  unfoldable pub execute_sql :
      Scanner
      → Engine Cell
      → State
      → String
      → Option ℕ
      → Option ℕ
      → Option ℕ
      → State × Executed Cell
  execute_sql k g s sql timeout_ms max_scan_rows max_result_rows = elim (read_only_fault k sql) [
    | some why ↦ (s, unsafe why)
    | none ↦ elim (g.audit sql) [
      | none ↦ (s, audit_rejected)
      | some findings ↦ admitted g s sql timeout_ms max_scan_rows max_result_rows findings
    ]
  ]
