-- ===== src/Compiler/Sql/Known.antt =====
-- What compiles uses only fields of the catalog.
use future_bi.Base.{
  String, ◌≡◌, ◌⊎◌, refl, inl, inr, true, some, List, [], ◌∷◌, ◌++◌, map, contains, keep, not,
  arith, str_eq, eq_iff, Bool-cases, Option-cases, ◌||◌, subst,
}
use future_bi.Base.Dict.{Dict, lookup}
use future_bi.Semantic.Schema.{Date, Metric, QueryDsl, TimeFilter, TopN}
use future_bi.Semantic.Catalog.{Catalog, FieldMeta}
use future_bi.Security.Guard.{referenced_fields, all_metric_fields, metric_fields}
use future_bi.Compiler.Fault.{Compiled, ok, fail, ◌>>=◌, map_all}
use future_bi.Compiler.Dates.{resolve_window, shift_window}
use future_bi.Compiler.Fields.{
  Setting, field_meta, table_for_field, dimension_expr, metric_expr, filter_sql, time_window_sql,
  time_dimension_expr, qualify,
}
use future_bi.Compiler.From.{from_clause, collect_tables, all_aggregates, aggregate_metrics}
use future_bi.Compiler.Plain.{compile_plain, granularity_of, by_field, where_items}
use future_bi.Compiler.Comparison.{
  compile_with_comparison, compile_comparison_in, window_block, time_exprs, time_dim, is_time,
  to_list,
}
use future_bi.Compiler.TopN.{compile_with_top_n, partition_item, rank_item, by_alias}
use future_bi.Compiler.FillGaps.{compile_with_fill_gaps, fill_gaps_in, last_step}
use future_bi.Compiler.Sql.{compile_sql, compares}

bind-ok :
    {A B : Type 0} (o : Compiled A) (k : A → Compiled B) (b : B)
    → (o >>= k) ≡ ok b
    → (a : A) × (o ≡ ok a) × (k a ≡ ok b)
bind-ok (ok a) k b h = (a, refl, h)
bind-ok (fail e) k b h = absurd (ground arith)

abbrev pub IsKnown : Catalog → String → Type 0
IsKnown c f = (m : FieldMeta) × (lookup f c.columns ≡ some m)

table-IsKnown : (c : Catalog) (f t : String) → table_for_field c f ≡ ok t → IsKnown c f
unfolding table_for_field field_meta
table-IsKnown c f t h = elim (Option-cases (lookup f c.columns)) [
  | inl missing ↦ absurd (ground arith)
  | inr known ↦ known
]

-- one field of a list whose tables were all found
map_all-IsKnown :
    {A : Type 0} (c : Catalog) (field : A → String) (l : List A) (tables : List String) (f : String)
    → map_all (λ a. table_for_field c (field a)) l ≡ ok tables
    → contains (map field l) f ≡ true
    → IsKnown c f
unfolding map_all
map_all-IsKnown c field [] tables f h used = absurd (ground arith)
map_all-IsKnown c field (a ∷ l) tables f h used =
    let (t, found, h2) = bind-ok (table_for_field c (field a)) _ tables h in
    let (rest, others, _) = bind-ok (map_all (λ b. table_for_field c (field b)) l) _ tables h2 in
    elim (Bool-cases (str_eq (field a) f)) [
      | inl same ↦
          subst (IsKnown c) ((eq_iff (field a) f).0 same) (table-IsKnown c (field a) t found)
      | inr other ↦ map_all-IsKnown c field l rest f others (ground arith)
    ]

pub contains-append :
    (xs ys : List String) (f : String) → contains (xs ++ ys) f ≡ (contains xs f || contains ys f)
contains-append [] ys f = refl
contains-append (x ∷ xs) ys f = ground (arith, contains-append xs ys f)

aggregate_fields : (l : List Metric) → map (λ am. am.field) (all_aggregates l) ≡ all_metric_fields l
unfolding all_aggregates aggregate_metrics all_metric_fields metric_fields
aggregate_fields [] = refl
aggregate_fields (Metric.ratio m ∷ l) = rw (aggregate_fields l) refl
aggregate_fields (Metric.window m ∷ l) = rw (aggregate_fields l) refl
aggregate_fields (Metric.aggregate m ∷ l) = rw (aggregate_fields l) refl

module _ {F : Type 0} (q : QueryDsl F) where
  from_clause-IsKnown :
      (c : Catalog) (text f : String)
      → from_clause c q ≡ ok text
      → contains (referenced_fields q) f ≡ true
      → IsKnown c f
  unfolding from_clause collect_tables referenced_fields
  from_clause-IsKnown c text f h used =
      let (tables, collected, _) = bind-ok (collect_tables c q) _ text h in
      let (dims, of_dims, h2) =
        bind-ok (map_all (λ d. table_for_field c d.field) q.dimensions) _ tables collected in
      let (filters, of_filters, h3) =
        bind-ok (map_all (λ e. table_for_field c e.field) q.filters) _ tables h2 in
      let (metrics, of_metrics, _) =
        bind-ok (map_all (λ am. table_for_field c am.field) (all_aggregates q.metrics)) _ tables
          h3 in
      elim (Bool-cases (contains (all_metric_fields q.metrics) f)) [
        | inl in_metrics ↦
            map_all-IsKnown c (λ am. am.field) (all_aggregates q.metrics) metrics f of_metrics
              (rw (aggregate_fields q.metrics) in_metrics)
        | inr out ↦ elim (Bool-cases (contains (map (λ d. d.field) q.dimensions) f)) [
          | inl in_dims ↦ map_all-IsKnown c (λ d. d.field) q.dimensions dims f of_dims in_dims
          | inr out' ↦
              map_all-IsKnown c (λ e. e.field) q.filters filters f of_filters
                (ground (
                  arith,
                  contains-append (all_metric_fields q.metrics)
                      (map (λ d. d.field) q.dimensions ++ map (λ e. e.field) q.filters) f,
                  contains-append (map (λ d. d.field) q.dimensions) (map (λ e. e.field) q.filters)
                      f,
                ))
        ]
      ]

  module _ (s : Setting F) where
    -- the text of the FROM clause that a query of each form wrote
    abbrev HasFrom : Type 0
    HasFrom = (text : String) × (from_clause s.catalog q ≡ ok text)

    plain-HasFrom : (sql : String) → compile_plain s q ≡ ok sql → HasFrom
    unfolding compile_plain
    plain-HasFrom sql h =
        let (text, from, _) = bind-ok (from_clause s.catalog q) _ sql h in (text, from)

    top_n-HasFrom : (top : TopN) (sql : String) → compile_with_top_n s q top ≡ ok sql → HasFrom
    unfolding compile_with_top_n
    top_n-HasFrom top sql h =
        let (dims, _, h1) =
          bind-ok
            (map_all (λ d. dimension_expr s.catalog d (granularity_of q.time_filter)) q.dimensions)
            _ sql h in
        let (metrics, _, h2) = bind-ok (map_all (metric_expr s.catalog) q.metrics) _ sql h1 in
        let by : Dict (String × String) = by_field q.dimensions dims [] in
        let (_, _, h3) = bind-ok (map_all (partition_item by) top.partition_by) _ sql h2 in
        let (_, _, h4) =
          bind-ok (map_all (rank_item (by_alias metrics []) by) top.order_by) _ sql h3 in
        let (_, _, h5) = bind-ok (where_items s q) _ sql h4 in
        let (text, from, _) = bind-ok (from_clause s.catalog q) _ sql h5 in (text, from)

    fill_gaps-HasFrom : (tf : TimeFilter) (sql : String) → fill_gaps_in s q tf ≡ ok sql → HasFrom
    unfolding fill_gaps_in
    fill_gaps-HasFrom tf sql h =
        let (w, _, h1) = bind-ok (resolve_window s.as_of tf) _ sql h in
        let (_, _, h2) = bind-ok (time_dimension_expr s q tf.granularity) _ sql h1 in
        let (_, _, h3) = bind-ok (last_step tf.granularity w.1) _ sql h2 in
        let (_, _, h4) = bind-ok (map_all (metric_expr s.catalog) q.metrics) _ sql h3 in
        let (_, _, h5) = bind-ok (map_all (filter_sql s) q.filters) _ sql h4 in
        let (_, _, h6) = bind-ok (time_window_sql s tf) _ sql h5 in
        let (text, from, _) = bind-ok (from_clause s.catalog q) _ sql h6 in (text, from)

    block-HasFrom :
        (time_col label : String) (w : Date × Date) (dims time : List (String × String))
        (sql : String)
        → window_block s q time_col label w dims time ≡ ok sql
        → HasFrom
    unfolding window_block
    block-HasFrom time_col label w dims time sql h =
        let (_, _, h1) = bind-ok (map_all (metric_expr s.catalog) q.metrics) _ sql h in
        let (_, _, h2) = bind-ok (map_all (filter_sql s) q.filters) _ sql h1 in
        let (text, from, _) = bind-ok (from_clause s.catalog q) _ sql h2 in (text, from)

    comparison-HasFrom :
        (tf : TimeFilter) (sql : String) → compile_comparison_in s q tf ≡ ok sql → HasFrom
    unfolding compile_comparison_in
    comparison-HasFrom tf sql h =
        let (col, _, h1) = bind-ok (qualify s.catalog tf.time_field) _ sql h in
        let (cur, _, h2) = bind-ok (resolve_window s.as_of tf) _ sql h1 in
        let (_, _, h3) = bind-ok (shift_window cur.0 cur.1 tf.comparison tf.granularity) _ sql h2 in
        let (time, _, h4) = bind-ok (time_exprs s tf (time_dim q.dimensions)) _ sql h3 in
        let (dims, _, h5) =
          bind-ok
            (map_all (λ d. dimension_expr s.catalog d tf.granularity)
              (keep (λ d. not (is_time d)) q.dimensions))
            _ sql h4 in
        let (block, made, _) =
          bind-ok (window_block s q col "cur" cur dims (map (λ t. t.0) (to_list time))) _ sql h5 in
        block-HasFrom col "cur" cur dims (map (λ t. t.0) (to_list time)) block made

    with_comparison-HasFrom : (sql : String) → compile_with_comparison s q ≡ ok sql → HasFrom
    unfolding compile_with_comparison
    with_comparison-HasFrom sql h = elim (Option-cases q.time_filter) [
      | inl missing ↦ absurd (ground arith)
      | inr (tf, there) ↦ comparison-HasFrom tf sql (ground arith)
    ]

    with_fill_gaps-HasFrom : (sql : String) → compile_with_fill_gaps s q ≡ ok sql → HasFrom
    unfolding compile_with_fill_gaps
    with_fill_gaps-HasFrom sql h = elim (Option-cases q.time_filter) [
      | inl missing ↦ absurd (ground arith)
      | inr (tf, there) ↦ fill_gaps-HasFrom tf sql (ground arith)
    ]

    -- the four forms of query, and nothing else, compile
    compile_sql-cases :
        (sql : String)
        → compile_sql s q ≡ ok sql
        → (compile_with_comparison s q ≡ ok sql)
          ⊎ ((top : TopN) × (compile_with_top_n s q top ≡ ok sql))
          ⊎ (compile_with_fill_gaps s q ≡ ok sql)
          ⊎ (compile_plain s q ≡ ok sql)
    unfolding compile_sql
    compile_sql-cases sql h = elim (Bool-cases (compares q.time_filter)) [
      | inl comparing ↦ inl (ground arith)
      | inr alone ↦ elim (Option-cases q.top_n) [
        | inr (top, there) ↦ inr (inl (top, ground arith))
        | inl missing ↦ elim (Bool-cases q.fill_gaps) [
          | inl filling ↦ inr (inr (inl (ground arith)))
          | inr plain ↦ inr (inr (inr (ground arith)))
        ]
      ]
    ]

    sql-HasFrom : (sql : String) → compile_sql s q ≡ ok sql → HasFrom
    sql-HasFrom sql h = elim (compile_sql-cases sql h) [
      | inl done ↦ with_comparison-HasFrom sql done
      | inr (inl (top, done)) ↦ top_n-HasFrom top sql done
      | inr (inr (inl done)) ↦ with_fill_gaps-HasFrom sql done
      | inr (inr (inr done)) ↦ plain-HasFrom sql done
    ]

    pub compile_sql-IsKnown :
        (sql f : String)
        → compile_sql s q ≡ ok sql
        → contains (referenced_fields q) f ≡ true
        → IsKnown s.catalog f
    compile_sql-IsKnown sql f h used =
        let (text, from) = sql-HasFrom sql h in from_clause-IsKnown s.catalog text f from used
