-- ===== src/Tests/Access.antt =====
-- Runs of the guard, the throttle and the session stores.
use future_bi.Security.Loader.{Globals, Spec, object, config, refresh_policies}
use future_bi.Security.Loader.Named.{IsInstalled, refresh_policies-IsInstalled}
use future_bi.Base.{
  Option, ◌⊎◌, All, ◌↔◌, ℕ, ◌+◌, ◌*◌, ◌^◌, min, ◌≤◌, ◌<◌, String, ◌≡◌, refl, true, false, none,
  some, List, [], ◌∷◌, ◌++◌, contains, is_some, arith, Bool-cases, inl, inr, subst, str_eq,
}
use future_bi.Base.Dict.{Dict, IsDistinct, lookup}
use future_bi.Base.Text.{is_prefix, drop_chars}
use future_bi.Semantic.Schema.{
  Metric, AggFunc, QueryDsl, TimeFilter, Filter, FilterOperator, FilterValue, Scalar, check_value,
}
use future_bi.Semantic.Catalog.{builtin_columns, field_meta, Dtype, FieldMeta}
use future_bi.Security.Policy.{Policy, builtin_policies, builtin_attrs}
use future_bi.Security.Guard.{
  Registry, apply_policy, granted, enforce, referenced_fields, all_metric_fields, metric_fields,
  referenced_tables, row_level, resolve_row_filter, model_validate,
}
use future_bi.Security.Scope.{is_field_allowed, in_scope}
use future_bi.Security.Agree.{granted-InScope, in_scope-granted}
use future_bi.Security.Rows.{granted-AllFollow, AllFollow}
use future_bi.Base.Text.{join}
use future_bi.Semantic.Catalog.{builtin_catalog}
use future_bi.Compiler.Fault.{ok, map_all}
use future_bi.Compiler.Dates.{make}
use future_bi.Compiler.Quote.{quote_ident, double, literal, text_literal}
use future_bi.Compiler.Plain.{compile_plain, where_items, order_items, last_time_expr, by_field}
use future_bi.Compiler.Fields.{
  Setting, table_for_field, field_meta as column_meta, dimension_expr, qualify, alias_of,
  metric_expr, aggregate_expr, filter_sql, condition,
}
use future_bi.Compiler.From.{
  join_sql, joins_of, from_clause, collect_tables, all_aggregates, aggregate_metrics,
}
use future_bi.Compiler.Sql.{compile_sql}
use future_bi.Retrieval.Guardrails.{
  Contract, Payload, Fields, Json, valid, validate_dsl_payload, validate_fields, first_key, has_key,
  first_sql, walk_strings,
}
use future_bi.Retrieval.Guardrails.Clean.{IsAllowed, structure, validate_dsl_payload-IsAllowed}
use future_bi.Retrieval.{compile_dsl, compile_dsl_to_duckdb, sql}
use future_bi.Retrieval.Allowed.{compile_dsl_to_duckdb-Allowed, compile_dsl-granted, compile_valid}
use future_bi.Auth.RateLimit.{
  Limiter, Entry, check, passed, limited, overflowed, record_failure, restart, count_in, entry_of,
}
use future_bi.Auth.RateLimit.Backoff.{IsLimiter, is_limited, check_after_failure}
use future_bi.Auth.RateLimit.Restart.{restart_forgets}
use future_bi.Auth.Session.{Session}
use future_bi.Auth.Session.Memory
use future_bi.Auth.Session.Sqlite
use future_bi.Auth.Session.Refine.{IsStore, rows, table-refines}

abbrev registry : Registry ℕ
registry = record { policies = builtin_policies; attrs = builtin_attrs; columns = builtin_columns }

abbrev gmv : QueryDsl ℕ
gmv = record {
  metrics =
      Metric.aggregate (record { field = "order_amount"; agg = AggFunc.sum; alias = "gmv" }) ∷ [];
  dimensions = [];
  time_filter = none;
  filters = [];
  order_by = [];
  limit = 100;
  fill_gaps = false;
  top_n = none;
}

abbrev guangdong : Filter ℕ
guangdong = record {
  field = "province";
  operator = FilterOperator.in_list;
  value = FilterValue.many (Scalar.text "广东" ∷ []);
}

abbrev narrowed : QueryDsl ℕ
narrowed = record gmv { filters = guangdong ∷ [] }

let_through : apply_policy registry gmv (some "restricted") ≡ granted narrowed
unfolding apply_policy enforce referenced_fields all_metric_fields metric_fields referenced_tables
    row_level resolve_row_filter model_validate check_value lookup is_prefix drop_chars
let_through = refl

used : contains (referenced_fields gmv) "order_amount" ≡ true
unfolding referenced_fields all_metric_fields metric_fields
used = refl

granted-InScope_example :
    (is_field_allowed registry (some "restricted") "order_amount" ≡ granted true)
    × ((t : Option TimeFilter)
        → apply_policy registry (record gmv { time_filter = t }) (some "restricted")
          ≡ granted (record narrowed { time_filter = t }))
unfolding lookup
granted-InScope_example =
    granted-InScope registry gmv "restricted" narrowed "order_amount"
      (field_meta "fact_orders" "order_amount" Dtype.float) let_through used refl

granted-AllFollow_example :
    (p : Policy ℕ) × (lookup "restricted" registry.policies ≡ some p)
    × (extra : List (Filter ℕ)) × (narrowed ≡ record gmv { filters = gmv.filters ++ extra })
    × AllFollow registry.attrs "restricted" p.row_filters extra
granted-AllFollow_example = granted-AllFollow registry gmv narrowed "restricted" let_through

abbrev open_policy : Policy ℕ
open_policy = record {
  name = "admin";
  allowed_tables = "fact_orders" ∷ [];
  forbidden_columns = [];
  row_filters = [];
}

abbrev small : Registry ℕ
small = record {
  policies = ("admin", open_policy) ∷ [];
  attrs = [];
  columns = ("order_amount", field_meta "fact_orders" "order_amount" Dtype.float) ∷ [];
}

offered :
    (field : String) (meta : FieldMeta)
    → contains (referenced_fields gmv) field ≡ true
    → lookup field small.columns ≡ some meta
    → in_scope open_policy field meta ≡ true
unfolding lookup
offered field meta in_query known = elim (Bool-cases (str_eq "order_amount" field)) [
  | inl here ↦
      let same : field_meta "fact_orders" "order_amount" Dtype.float ≡ meta = ground arith in
      subst (λ m. in_scope open_policy field m ≡ true) same refl
  | inr elsewhere ↦ absurd (ground arith)
]

no_rows : row_level small.attrs "admin" open_policy.row_filters ≡ granted []
unfolding row_level
no_rows = refl

in_scope-granted_example :
    apply_policy small gmv (some "admin") ≡ granted (record gmv { filters = gmv.filters ++ [] })
unfolding lookup
in_scope-granted_example =
    in_scope-granted small gmv "admin" open_policy [] refl offered (λ field in_query. refl) no_rows

-- four failures out of five, in memory and in the store
abbrev four : Entry
four = record { failures = 4; last_failure = 1000 }

abbrev limiter : Limiter
limiter = record {
  max_failures = 5;
  base = 2000;
  max_delay = 300000;
  failures = ("ann", four) ∷ [];
  kv = some (("ann", four) ∷ []);
}

check_after_failure_example :
    ((n : ℕ) × (count_in limiter.failures "ann" + 1 ≡ limiter.max_failures + n)
      × (n < 1024)
      × (wait : ℕ) × (wait ≡ min (limiter.base * 2 ^ n) limiter.max_delay)
      × ((is_limited (check (record_failure limiter 2000 "ann") 3000 "ann") ≡ true)
          ↔ (3000 < 2000 + wait))
      × ((check (record_failure limiter 2000 "ann") 3000 "ann" ≡ passed) ↔ (2000 + wait ≤ 3000)))
    ⊎ ((limiter.max_failures + 1024 ≤ count_in limiter.failures "ann" + 1)
        × (check (record_failure limiter 2000 "ann") 3000 "ann" ≡ overflowed))
unfolding lookup
check_after_failure_example = check_after_failure limiter 2000 3000 "ann" (omega arith)

limiter-IsLimiter : IsLimiter limiter
unfolding lookup
limiter-IsLimiter = record {
  memory = (refl, tt);
  store =
      λ d e. let same : ("ann", four) ∷ [] ≡ d = ground arith in subst IsDistinct same (refl, tt);
}

-- a sixth failure, and the wait of a second later
abbrev blocked : Limiter
blocked = record limiter { failures = ("ann", record { failures = 6; last_failure = 1000 }) ∷ [] }

known : entry_of blocked "ann" ≡ some (record { failures = 6; last_failure = 1000 })
unfolding entry_of lookup
known = refl

waits : check blocked 2000 "ann" ≡ limited 3
unfolding check entry_of lookup
waits = refl

-- with 1029 failures no delay can be computed
abbrev stuck : Limiter
stuck = record limiter { failures = ("ann", record { failures = 1029; last_failure = 1000 }) ∷ [] }

overflows : check stuck 900000000 "ann" ≡ overflowed
unfolding check entry_of lookup
overflows = refl

restart_forgets_example : check (record_failure (restart limiter) 2000 "ann") 2001 "ann" ≡ passed
restart_forgets_example = restart_forgets limiter 2000 2001 "ann" (omega arith)

abbrev session : Session
session = record {
  session_id = "a1";
  username = "ann";
  principal = "analyst";
  created_at = 10;
  expires_at = 20;
}

abbrev store : Memory.Store
store = ("a1", session) ∷ []

store-IsStore : IsStore store
unfolding lookup
store-IsStore = (refl, refl, tt)

table-refines_example :
    (Sqlite.get (rows store) 25 "a1"
      ≡ (rows (Memory.get store 25 "a1").0, (Memory.get store 25 "a1").1))
    × (Sqlite.revoke (rows store) "a1"
        ≡ (rows (Memory.revoke store "a1").0, (Memory.revoke store "a1").1))
    × (Sqlite.prune (rows store) 25 ≡ (rows (Memory.prune store 25).0, (Memory.prune store 25).1))
table-refines_example = table-refines store 25 "a1" store-IsStore

abbrev later : Session
later = record session { session_id = "b2" }

abbrev setting : Setting ℕ
setting = record {
  catalog = builtin_catalog;
  as_of = make 2026 8 15;
  floats = record { repr = λ n. "1.5"; is_special = λ n. false; of_int = λ negative n. some n };
}

abbrev gmv_sql : String
gmv_sql =
    "SELECT SUM(f.order_amount) AS \"gmv\"\nFROM fact_orders f\nJOIN dim_user u ON u.user_id = f.user_id\nWHERE u.province IN ('广东')"

compiled : compile_sql setting narrowed ≡ ok gmv_sql
unfolding compile_sql compile_plain from_clause collect_tables map_all table_for_field column_meta
    lookup all_aggregates aggregate_metrics dimension_expr qualify alias_of metric_expr
    aggregate_expr where_items order_items join joins_of join_sql double quote_ident last_time_expr
    by_field filter_sql condition literal text_literal
compiled = refl

guarded : compile_dsl registry setting (some "restricted") gmv ≡ sql gmv_sql
guarded =
    compile_dsl-granted registry setting (some "restricted") gmv narrowed gmv_sql let_through
      compiled

-- a gateway whose contract rebuilds every payload to the query above
abbrev contract : Contract (QueryDsl ℕ)
contract = record {
  has_statement = λ s. false;
  model_validate = λ f. some gmv;
  model_dump = λ q. Fields.field "limit" Json.scalar Fields.no_fields;
}

rebuilt : validate_dsl_payload contract (Payload.query gmv) ≡ valid gmv
unfolding validate_dsl_payload validate_fields first_key has_key first_sql walk_strings
rebuilt = refl

whole :
    compile_dsl_to_duckdb registry setting contract (some "restricted") (Payload.query gmv)
    ≡ inr (sql gmv_sql)
whole =
    compile_valid registry setting contract "restricted" (Payload.query gmv) gmv gmv_sql rebuilt
      guarded

compile_dsl_to_duckdb-Allowed_example :
    (q : QueryDsl ℕ) × (f : Fields) × (structure contract (Payload.query gmv) ≡ some f)
    × IsAllowed contract f q
    × All
        (λ x. is_field_allowed registry (some "restricted") x ≡ granted true)
        (referenced_fields q)
compile_dsl_to_duckdb-Allowed_example =
    compile_dsl_to_duckdb-Allowed registry setting contract "restricted" (Payload.query gmv) gmv_sql
      refl whole

validate_dsl_payload-IsAllowed_example :
    (validate_dsl_payload contract (Payload.query gmv) ≡ valid gmv)
    ↔ ((f : Fields) × (structure contract (Payload.query gmv) ≡ some f) × IsAllowed contract f gmv)
validate_dsl_payload-IsAllowed_example =
    validate_dsl_payload-IsAllowed contract (Payload.query gmv) gmv

abbrev globals : Globals ℕ
globals = record { policies = builtin_policies; attrs = builtin_attrs }

abbrev specs : Dict (Spec ℕ)
specs = ("ann", object ("fact_orders" ∷ []) ("refund_amount" ∷ []) []) ∷ []

refresh_policies-IsInstalled_example :
    (((refresh_policies globals (config [] (some specs))).0 ≡ globals)
      × (is_some (refresh_policies globals (config [] (some specs))).1 ≡ true))
    ⊎ (((refresh_policies globals (config [] (some specs))).1 ≡ none)
        × IsInstalled specs (refresh_policies globals (config [] (some specs))).0.policies
        × ((refresh_policies globals (config [] (some specs))).0.attrs ≡ []))
unfolding lookup
refresh_policies-IsInstalled_example = refresh_policies-IsInstalled globals [] specs (refl, tt)
