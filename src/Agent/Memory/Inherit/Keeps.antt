-- ===== src/Agent/Memory/Inherit/Keeps.antt =====
-- What a question may take over, and what it may not change.
use future_bi.Base.{
  String, List, keep, false, ◌||◌, ◌≡◌, refl, ap, ◌∙◌, inl, inr, Option, none, some, arith, is_some,
  Bool-cases, Option-cases,
}
use future_bi.Base.Dict.{lookup}
use future_bi.Semantic.Schema.{QueryDsl, Filter}
use future_bi.Security.Policy.{Policy}
use future_bi.Security.Guard.{Registry, Verdict, granted, refused, ◌>>=◌, row_level}
use future_bi.Agent.Memory.Filters.{Equality, strip_rls_filters, strip_policy, is_new}
use future_bi.Agent.Memory.Inherit.{
  Reader, Deltas, resolved, ContextResolution, has_metric_term, has_exclusive_term,
  dimension_cardinality_request, collect_deltas, expand_dimension, apply_deltas, finish, merge_into,
  resolve_context, has_any,
}

module _ {F : Type 0} where
  -- what stays of the query before
  pub record Keeps (last m : QueryDsl F) : Type 0 where
    pub metrics : m.metrics ≡ last.metrics
    pub top_n : m.top_n ≡ last.top_n
    pub order_by : m.order_by ≡ last.order_by
    pub limit : m.limit ≡ last.limit
    pub fill_gaps : m.fill_gaps ≡ last.fill_gaps

  bind-Keeps :
      (o : Verdict (List (Filter F))) (last base : QueryDsl F)
      (keep_new : List (Filter F) → List (Filter F))
      → (o >>= λ extra. granted (record last { filters = keep_new extra })) ≡ granted base
      → Keeps last base
  bind-Keeps (granted l) last base keep_new h = ground arith
  bind-Keeps (refused why) last base keep_new h = absurd (ground arith)

  strip_policy-Keeps :
      (e : Equality F) (r : Registry F) (last base : QueryDsl F) (who : String) (p : Policy F)
      → strip_policy e r last who p ≡ granted base
      → Keeps last base
  unfolding strip_policy
  strip_policy-Keeps e r last base who p h =
      bind-Keeps (row_level r.attrs who p.row_filters) last base
        (λ extra. keep (is_new e extra) last.filters) h

  strip-Keeps :
      (e : Equality F) (r : Registry F) (last base : QueryDsl F) (who : Option String)
      → strip_rls_filters e r last who ≡ granted base
      → Keeps last base
  unfolding strip_rls_filters
  strip-Keeps e r last base none h = ground arith
  strip-Keeps e r last base (some who) h = elim (Option-cases (lookup who r.policies)) [
    | inl missing ↦ ground arith
    | inr (p, found) ↦ ground (arith, strip_policy-Keeps e r last base who p)
  ]

  apply_deltas-Keeps :
      (e : Equality F) (k : Reader) (base m : QueryDsl F) (d : Deltas)
      → apply_deltas e k base d ≡ some m
      → Keeps base m
  unfolding apply_deltas
  apply_deltas-Keeps e k base m d h = ground arith

  finish-Keeps :
      (d : Deltas) (expand : Option String) (base m q : QueryDsl F)
      → Keeps base m
      → (finish d expand m).dsl ≡ some q
      → Keeps base q
  unfolding finish
  finish-Keeps d expand base m q h e = ground (arith, h.metrics)

  trans-Keeps : (q m n : QueryDsl F) → Keeps q m → Keeps m n → Keeps q n
  trans-Keeps q m n h k = record {
    metrics = k.metrics ∙ h.metrics;
    top_n = k.top_n ∙ h.top_n;
    order_by = k.order_by ∙ h.order_by;
    limit = k.limit ∙ h.limit;
    fill_gaps = k.fill_gaps ∙ h.fill_gaps;
  }

  merge_into-Keeps :
      (e : Equality F) (k : Reader) (d : Deltas) (expand : Option String)
      (stripped : Verdict (QueryDsl F)) (m : QueryDsl F) (res : ContextResolution F)
      → merge_into e k d expand stripped ≡ resolved res
      → res.dsl ≡ some m
      → (base : QueryDsl F) × (stripped ≡ granted base) × Keeps base m
  unfolding merge_into
  merge_into-Keeps e k d expand (refused why) m res h got = absurd (ground arith)
  merge_into-Keeps e k d expand (granted base) m res h got =
      elim (Option-cases (apply_deltas e k base d)) [
        | inl failed ↦ absurd (ground (arith, rw (failed, merge_into) at h))
        | inr (n, merged) ↦
            let same : finish d expand n ≡ res = ground (arith, rw (merged, merge_into) at h) in
            (
              base,
              refl,
              finish-Keeps d expand base n m (apply_deltas-Keeps e k base n d merged)
                  (ap (λ (x : ContextResolution F). x.dsl) same ∙ got),
            )
      ]

  -- A query that a question takes over comes from a question without a metric of its own and without an
  -- exclusive term or a count of members, and keeps the metrics, the ranking, the order, the limit and
  -- the filling of gaps of the query before.
  pub resolve_context-Keeps :
      (e : Equality F) (k : Reader) (r : Registry F) (q : String) (last m : QueryDsl F)
      (who : Option String) (res : ContextResolution F)
      → resolve_context e k r q (some last) who ≡ resolved res
      → res.dsl ≡ some m
      → (has_metric_term k q ≡ false)
        × ((has_exclusive_term q || is_some (dimension_cardinality_request k q)) ≡ false)
        × Keeps last m
  unfolding resolve_context
  resolve_context-Keeps e k r q last m who res h got = elim (Bool-cases (has_metric_term k q)) [
    | inl asked ↦ absurd (ground (arith, asked))
    | inr free ↦
        elim (Bool-cases (has_exclusive_term q || is_some (dimension_cardinality_request k q))) [
          | inl closed ↦ absurd (ground (arith, closed))
          | inr opened ↦ elim (Bool-cases (has_any (collect_deltas k q))) [
            | inr nothing ↦ absurd (ground (arith, nothing))
            | inl deltas ↦
                let (base, stripped, kept) =
                  merge_into-Keeps e k (collect_deltas k q) (expand_dimension k q)
                    (strip_rls_filters e r last who) m res (rw deltas at rw opened at rw free at h)
                    got in
                (
                  free,
                  opened,
                  trans-Keeps last base m (strip-Keeps e r last base who stripped) kept,
                )
          ]
        ]
  ]
