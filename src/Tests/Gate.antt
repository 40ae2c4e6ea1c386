-- ===== src/Tests/Gate.antt =====
-- Runs of the tokens, the gateway, the pool, the check of scripts and the guarded execution.
use Prim.Native.Char.{Char}
use future_bi.Base.{
  ◌↔◌, ℕ, ◌+◌, ◌≡◌, refl, String, ◌≤◌, ◌⊎◌, true, false, none, some, Option, List, [], ◌∷◌, ◌++◌,
  all, ltb, length, is_some, str_eq, eq_refl, if◌then◌else◌, arith,
}
use future_bi.Base.Dict.{lookup}
use future_bi.Base.Text.{of_chars, is_nonempty}
use future_bi.Auth.Identity.{IdentityStore, accepted, require_user}
use future_bi.Auth.Tokens.{
  Codec, claims, rejected, expired, payload_of, create_token, decode_token, is_ascii,
}
use future_bi.Auth.Tokens.RoundTrip.{Encodes, decode-create}
use future_bi.Auth.Tokens.Sound.{IsSigned, decode_token-IsSigned}
use future_bi.Auth.Session.Memory as Memory
use future_bi.Auth.Gateway.{
  Settings, AuthType, AuthContext, authenticate, authenticate_enabled, authenticate_session,
  with_session, session_id_of, or_text, cookie_session_id, authorization, context_for, context_of,
}
use future_bi.Auth.Gateway.Mapped.{ByToken, BySession, authenticate-Proven}
use future_bi.Exec.Pool.{Move, Thread, Pool, init, run}
use future_bi.Exec.Pool.Accounting.{IsValid, idlers, run-init-IsValid}
use future_bi.Exec.Pool.Stranded.{WaitsAt, run-WaitsAt}
use future_bi.Sandbox.AstGuard.{Node, Nodes, Parsed, static_check}
use future_bi.Sandbox.AstGuard.Complete.{static_check-is_ok, walk, is_harmless}
use future_bi.Exec.SqlText.{code_of}
use future_bi.Exec.SqlText.Hidden.{code_of-hidden}
use future_bi.Exec.Audit.{Root, scalar_unbounded, assert_guardrails}
use future_bi.Exec.Audit.Approved.{IsApproved, assert_guardrails-IsApproved}
use future_bi.Exec.Guards.{
  Scanner, Engine, State, Table, gave, ExecutionResult, done, execute_sql, read_only_fault,
  admitted, run_query, scanned, after_scan, scan_outcome, cached_scan_rows, cache_scan_rows,
  run_with_timeout, structure_fault, first_fault, first_keyword,
}
use future_bi.Exec.Guards.Bounded.{Added, execute_sql-runs}

abbrev codec : Codec
codec = record {
  b64_encode = λ s. "e30";
  b64_decode = λ s. some "{}";
  hmac = λ key s. "h";
  dumps = λ d. "{}";
  loads = λ s. some (some (payload_of "ann" "bi" "web" 50 10 "j1" []));
  compare_digest = str_eq;
}

encodes : Encodes codec (payload_of "ann" "bi" "web" 50 10 "j1" [])
unfolding is_ascii
encodes = record {
  b64 = refl;
  json = refl;
  dotless = λ s. refl;
  ascii = λ s. refl;
  same = λ s. eq_refl s;
}

decode-create_example :
    decode_token codec (create_token codec "ann" "k" "bi" "web" 50 10 "j1" []) "k" "bi" "web" 20 ≡ (
      if ltb 20 (10 + 50)
      then claims (payload_of "ann" "bi" "web" 50 10 "j1" [])
      else rejected expired)
decode-create_example = decode-create codec "ann" "k" "bi" "web" 50 10 20 "j1" encodes (omega arith)

decode_token-IsSigned_example :
    IsSigned codec
      (create_token codec "ann" "k" "bi" "web" 50 10 "j1" [])
      "k"
      "bi"
      "web"
      20
      (payload_of "ann" "bi" "web" 50 10 "j1" [])
decode_token-IsSigned_example =
    decode_token-IsSigned codec (create_token codec "ann" "k" "bi" "web" 50 10 "j1" []) "k" "bi"
      "web" 20 (payload_of "ann" "bi" "web" 50 10 "j1" []) decode-create_example

abbrev settings : Settings
settings = record {
  is_enabled = true;
  default_user = "guest";
  default_principal = "restricted";
  default_display = "Guest";
  secret = "k";
  issuer = "bi";
  audience = "web";
  codec = codec;
  session_cookie = λ header. none;
}

abbrev users : IdentityStore
users =
    (
      "ann",
      record {
        username = "ann";
        display_name = "Ann";
        principal = "admin";
        roles = [];
        password_hash = "";
        is_enabled = true;
      },
    )
    ∷ []

abbrev sessions : Memory.Store
sessions =
    (
      "a1",
      record {
        session_id = "a1";
        username = "ann";
        principal = "admin";
        created_at = 0;
        expires_at = 90;
      },
    )
    ∷ []

abbrev headers : String → Option String
headers name = if str_eq name "X-Session-ID" then some "a1" else none

abbrev context : AuthContext
context = record {
  username = "ann";
  principal = "admin";
  display_name = "Ann";
  roles = [];
  auth_type = AuthType.session;
  session_id = some "a1";
}

let_in : (authenticate settings users sessions 20 headers).1 ≡ accepted context
unfolding authenticate authenticate_enabled authenticate_session with_session session_id_of or_text
    cookie_session_id authorization context_for context_of require_user Memory.get lookup
    is_nonempty
let_in = refl

authenticate-Proven_example :
    ByToken settings users 20 headers context
    ⊎ ((is_nonempty (authorization headers) ≡ false)
        × BySession settings users sessions 20 headers context)
authenticate-Proven_example =
    authenticate-Proven settings users sessions 20 headers context refl let_in

abbrev schedule : List (Move × ℕ)
schedule =
    (Move.acquire, 0)
    ∷ (Move.go, 0)
    ∷ (Move.go, 0)
    ∷ (Move.acquire, 1)
    ∷ (Move.release, 0)
    ∷ (Move.go, 0)
    ∷ []

run-init-IsValid_example :
    IsValid (run schedule (init 1) (idlers 2)).0 (run schedule (init 1) (idlers 2)).1
run-init-IsValid_example = run-init-IsValid schedule 1 2

abbrev closed_pool : Pool
closed_pool = record { capacity = 1; created = 1; idle = []; is_closed = true; shut = [] }

-- the thread with the one connection releases it
run-WaitsAt_example :
    WaitsAt 1
      (run
        ((Move.release, 0) ∷ (Move.go, 0) ∷ [])
        closed_pool
        (Thread.holds 0 ∷ Thread.waiting ∷ [])).1
run-WaitsAt_example =
    run-WaitsAt ((Move.release, 0) ∷ (Move.go, 0) ∷ []) 1 closed_pool
      (Thread.holds 0 ∷ Thread.waiting ∷ []) (record { closed = refl; empty = refl }) refl refl

-- `print(df.__class__)`
abbrev script : Node
script =
    Node.call 1 (Node.name 1 "print")
      (Nodes.cons (Node.attribute 1 (Node.name 1 "df") "__class__") Nodes.nil) Nodes.nil

static_check-is_ok_example :
    (static_check (λ s. Parsed.tree script) "print(df.__class__)").is_ok
    ≡ all is_harmless (walk script)
static_check-is_ok_example = static_check-is_ok (λ s. Parsed.tree script) "print(df.__class__)"

abbrev no_more : List Char
no_more = []

code_of-hidden_example :
    (code_of
        (of_chars (("S" ∷ []) ++ "'" ∷ (("a" ∷ []) ++ "-" ∷ "-" ∷ (("'" ∷ ";" ∷ []) ++ no_more))))
      ≡ code_of (of_chars (("S" ∷ []) ++ "'" ∷ no_more)))
    × (no_more ≡ []
        → code_of (
            of_chars
              (("S" ∷ []) ++ "'" ∷ (("a" ∷ []) ++ "-" ∷ "-" ∷ (("'" ∷ ";" ∷ []) ++ no_more))))
          ≡ of_chars ("S" ∷ " " ∷ []))
code_of-hidden_example =
    code_of-hidden ("S" ∷ []) ("a" ∷ []) ("'" ∷ ";" ∷ []) no_more refl refl refl refl

abbrev scanner : Scanner
scanner = record {
  upper = λ s. s;
  first_word = λ s. some "SELECT";
  has_char = λ c s. false;
  has_word = λ w s. false;
  has_forbidden_call = λ s. false;
  has_string_table = λ s. false;
  is_forbidden_function = λ s. false;
  parse = λ s. some (record { is_query = true; nodes = [] } ∷ []);
}

abbrev answer : Table ℕ
answer = record { columns = "n" ∷ []; rows = (7 ∷ []) ∷ [] }

abbrev engine : Engine ℕ
engine = record {
  ask = λ before sql timeout_ms. gave answer;
  audit = λ sql. some [];
  scan_rows_of = λ t. 3;
  scan_cache_key = λ sql. sql;
  max_scan_cache_size = 2;
}

abbrev unused : State
unused = record { runs = []; scan_cache = [] }

abbrev outcome : ExecutionResult ℕ
outcome = record { columns = "n" ∷ []; rows = (7 ∷ []) ∷ []; scan_rows = 3; findings = [] }

ran : (execute_sql scanner engine unused "SELECT 7" none (some 5) (some 1)).1 ≡ done outcome
unfolding execute_sql read_only_fault admitted run_query scanned after_scan scan_outcome
    cached_scan_rows cache_scan_rows run_with_timeout structure_fault first_fault first_keyword
    lookup
ran = refl

execute_sql-runs_example :
    (((execute_sql scanner engine unused "SELECT 7" none (some 5) (some 1)).0 ≡ unused)
      ⊎ ((read_only_fault scanner "SELECT 7" ≡ none)
          × (is_some (engine.audit "SELECT 7") ≡ true)
          × Added scanner engine "SELECT 7" unused.runs
              (execute_sql scanner engine unused "SELECT 7" none (some 5) (some 1)).0.runs))
    × (length (execute_sql scanner engine unused "SELECT 7" none (some 5) (some 1)).0.scan_cache
        ≤ 2)
execute_sql-runs_example =
    execute_sql-runs scanner engine unused "SELECT 7" none (some 5) (some 1) (omega arith)

abbrev sums : Root
sums = record {
  is_select = true;
  has_group = false;
  has_distinct = false;
  projections = true ∷ [];
  has_extras = false ∷ [];
  joins = record { kind = "INNER"; has_on = true; has_using = false } ∷ [];
  has_limit = false;
}

assert_guardrails-IsApproved_example :
    (assert_guardrails scanner (λ s. some (sums ∷ [])) "SELECT" ≡ some (scalar_unbounded ∷ []))
    ↔ IsApproved scanner (λ s. some (sums ∷ [])) "SELECT" (scalar_unbounded ∷ [])
assert_guardrails-IsApproved_example =
    assert_guardrails-IsApproved scanner (λ s. some (sums ∷ [])) "SELECT" (scalar_unbounded ∷ [])
