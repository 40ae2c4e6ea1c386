-- ===== src/Tests/Query.antt =====
-- Runs of the cache, the compiler and its windows of time.
use Prim.Native.Char.{Char}
use future_bi.Base.{
  ℕ, ◌-◌, ◌≤◌, ◌<◌, String, ◌≡◌, refl, false, none, some, List, [], ◌∷◌, ◌++◌, ltb, arith,
  if◌then◌else◌, eq_iff,
}
use mathlib.Core.List.{tail}
use mathlib.Core.Logic.{◌≢◌}
use future_bi.Base.Text.{chars}
use future_bi.Base.Dict.{lookup, remove}
use future_bi.Exec.QueryCache.{QueryCache, Payload, IsValid, get, put}
use future_bi.Exec.QueryCache.Lru.{get-put, put_drops_oldest}
use future_bi.Semantic.Schema.{
  Date, date_key, TimeFilter, TimeRangeType, RelativeTime, RelativeUnit, RelativeMode, Comparison,
  Granularity, Metric, AggFunc, QueryDsl, Scalar,
}
use future_bi.Semantic.Catalog.{builtin_catalog, Dtype, JoinRule, JoinType}
use future_bi.Compiler.Fault.{ok}
use future_bi.Compiler.Dates.{
  make, date, is_leap, sub_months, last_day, mode_window, trailing_start, sub_days, resolve_window,
  shift_window,
}
use future_bi.Compiler.Dates.Order.{IsDate}
use future_bi.Compiler.Dates.Window.{resolve_window-ordered}
use future_bi.Compiler.Quote.{Floats, quote_ident, literal}
use future_bi.Compiler.Quote.Lex.{read, read-quote_ident, read-literal}
use future_bi.Compiler.Fields.{Setting}

abbrev payload : ℕ → Payload ℕ
payload n = record { columns = "gmv" ∷ []; rows = (n ∷ []) ∷ []; scan_rows = 1 }

-- a cache for two entries, which is full
abbrev full : QueryCache ℕ
full = record {
  max_entries = 2;
  ttl = 60;
  store = ("a", (0, payload 1)) ∷ ("b", (1, payload 2)) ∷ [];
}

full-IsValid : IsValid full
unfolding lookup
full-IsValid = record {
  positive = omega arith;
  bounded = omega arith;
  distinct = (refl, (refl, tt));
}

get-put_example :
    (get (put full 5 "c" (payload 3)) 9 "c").1 ≡ (if ltb 60 (9 - 5) then none else some (payload 3))
get-put_example = get-put full 5 9 "c" (payload 3) full-IsValid

put_drops_oldest_example :
    (put full 5 "c" (payload 3)).store ≡ tail (remove "c" full.store ++ ("c", (5, payload 3)) ∷ [])
unfolding remove
put_drops_oldest_example = put_drops_oldest full 5 "c" (payload 3) full-IsValid refl

abbrev a_key : String
a_key = "a"

other : "c" ≢ a_key
other e = ground (arith, eq_iff "c" "a")

hit : (get full 5 "a").1 ≡ some (payload 1)
unfolding get lookup
hit = refl

abbrev leap_day : Date
leap_day = make 2024 3 31

leap_day-IsDate : IsDate leap_day
unfolding last_day is_leap
leap_day-IsDate = refl

stepped : sub_months leap_day 1 ≡ ok (make 2024 2 29)
unfolding sub_months date last_day is_leap
stepped = refl

abbrev last_week : TimeFilter
last_week = record {
  granularity = Granularity.day;
  range_type = TimeRangeType.relative;
  relative = some (record { amount = 1; unit = RelativeUnit.week; mode = RelativeMode.trailing });
  absolute = none;
  comparison = Comparison.off;
  reference_date = some (make 2026 3 3);
  time_field = "order_time";
}

march-IsDate : IsDate (make 2026 3 3)
unfolding last_day is_leap
march-IsDate = refl

resolved : resolve_window (make 2026 8 15) last_week ≡ ok (make 2026 2 24, make 2026 3 3)
unfolding resolve_window mode_window trailing_start sub_days last_day is_leap
resolved = refl

positive : (r : RelativeTime) → last_week.relative ≡ some r → 0 < r.amount
positive r e = ground arith

resolve_window-ordered_example : date_key (make 2026 2 24) ≤ date_key (make 2026 3 3)
resolve_window-ordered_example =
    resolve_window-ordered (make 2026 8 15) last_week (make 2026 2 24) (make 2026 3 3) march-IsDate
      (λ a e. absurd (ground arith)) positive resolved

-- the last two days of March, and what a month before them comes to
shifted :
    shift_window (make 2026 3 30) (make 2026 3 31) Comparison.mom Granularity.day
    ≡ ok (make 2026 2 28, make 2026 2 28)
unfolding shift_window sub_months date last_day is_leap
shifted = refl

abbrev floats : Floats ℕ
floats = record { repr = λ n. "1.5"; is_special = λ n. false; of_int = λ negative n. some n }

abbrev setting : Setting ℕ
setting = record { catalog = builtin_catalog; as_of = make 2026 8 15; floats = floats }

-- a name with a quote in it
read-quote_ident_example :
    (body : List Char) × (chars (quote_ident "a\"b") ≡ "\"" ∷ body)
    × (read "\"" false (body ++ " " ∷ []) ≡ some (chars "a\"b", " " ∷ []))
read-quote_ident_example = read-quote_ident "a\"b" (" " ∷ []) refl

read-literal_example :
    (body : List Char) × (token : String) × (literal floats (Scalar.text "x' OR 1=1") Dtype.str
      ≡ ok token)
    × (chars token ≡ "'" ∷ body)
    × (read "'" false (body ++ ")" ∷ []) ≡ some (chars "x' OR 1=1", ")" ∷ []))
read-literal_example = read-literal floats "x' OR 1=1" (")" ∷ []) refl

abbrev gmv : Metric
gmv = Metric.aggregate (record { field = "order_amount"; agg = AggFunc.sum; alias = "gmv" })

abbrev gmv_by_province : QueryDsl ℕ
gmv_by_province = record {
  metrics = gmv ∷ [];
  dimensions = (record { field = "province"; alias = none }) ∷ [];
  time_filter = none;
  filters = [];
  order_by = [];
  limit = 100;
  fill_gaps = false;
  top_n = none;
}

abbrev gmv_sql : String
gmv_sql =
    "SELECT u.province AS \"province\", SUM(f.order_amount) AS \"gmv\"\nFROM fact_orders f\nJOIN dim_user u ON u.user_id = f.user_id\nGROUP BY u.province\nLIMIT 100"

abbrev refunds : JoinRule
refunds = record { join_type = JoinType.left; on = ("order_id", "order_id") ∷ [] }

abbrev by_refund_time : TimeFilter
by_refund_time = record last_week { time_field = "refund_time" }
