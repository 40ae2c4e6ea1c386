-- ===== src/Retrieval/Allowed.antt =====
-- Guard and compiler together, for the fields of metrics, dimensions and filters.
use mathlib.Core.List.{map-append}
use future_bi.Base.{
  ap, String, ◌≡◌, refl, true, inr, All, [], ◌∷◌, eq_refl, Option, some, List, ◌++◌, map, contains,
  arith,
}
use future_bi.Semantic.Schema.{QueryDsl, Filter}
use future_bi.Security.Guard.{
  Registry, Verdict, granted, refused, apply_policy, referenced_fields, all_metric_fields,
}
use future_bi.Security.Scope.{is_field_allowed}
use future_bi.Security.Agree.{granted-InScope, passed}
use future_bi.Compiler.Fault.{Compiled, ok, fail}
use future_bi.Compiler.Fields.{Setting}
use future_bi.Compiler.Sql.{compile_sql}
use future_bi.Compiler.Sql.Known.{compile_sql-IsKnown, contains-append}
use future_bi.Retrieval.Guardrails.{
  Contract, Payload, Fields, Validated, valid, violation, validate_dsl_payload,
}
use future_bi.Retrieval.Guardrails.Clean.{IsAllowed, structure, validate_dsl_payload-IsAllowed}
use future_bi.Retrieval.{
  compile_validated, compile_dsl_to_duckdb, sql, broken, compile_dsl, compile_granted,
}

compiled :
    (o : Compiled String) (text : String)
    → elim o [ ok t ↦ sql t | fail e ↦ broken e ] ≡ sql text
    → o ≡ ok text
compiled (ok t) text e = ground arith
compiled (fail x) text e = absurd (ground arith)

-- what is behind a text
compile_granted-sql :
    {F : Type 0} (s : Setting F) (o : Verdict (QueryDsl F)) (text : String)
    → compile_granted s o ≡ sql text
    → (q : QueryDsl F) × (o ≡ granted q) × (compile_sql s q ≡ ok text)
unfolding compile_granted
compile_granted-sql s (refused e) text h = absurd (ground arith)
compile_granted-sql s (granted q) text h = (q, refl, compiled (compile_sql s q) text h)

pub compile_dsl-granted :
    {F : Type 0} (r : Registry F) (s : Setting F) (principal : Option String) (q q' : QueryDsl F)
    (text : String)
    → apply_policy r q principal ≡ granted q'
    → compile_sql s q' ≡ ok text
    → compile_dsl r s principal q ≡ sql text
unfolding compile_dsl compile_granted
compile_dsl-granted r s principal q q' text through made =
    rw (through, compile_granted) (rw (made, compile_granted) refl)

fields_grow :
    {F : Type 0} (q : QueryDsl F) (extra : List (Filter F)) (f : String)
    → contains (referenced_fields q) f ≡ true
    → contains (referenced_fields (record q { filters = q.filters ++ extra })) f ≡ true
unfolding referenced_fields
fields_grow q extra f used =
    let metrics : List String = all_metric_fields q.metrics in
    let dims : List String = map (λ d. d.field) q.dimensions in
    let filters : List String = map (λ e. e.field) q.filters in
    ground (
      arith,
      map-append (λ e. e.field) q.filters extra,
      contains-append metrics (dims ++ filters) f,
      contains-append dims filters f,
      contains-append metrics (dims ++ (filters ++ map (λ e. e.field) extra)) f,
      contains-append dims (filters ++ map (λ e. e.field) extra) f,
      contains-append filters (map (λ e. e.field) extra) f,
    )

module _ {F : Type 0} (r : Registry F) (s : Setting F) (who : String) where
  -- When the guard and the compiler read one catalog and SQL comes out of a query for a principal, every
  -- field of its metrics, its dimensions and its filters is one that the principal may use. The field of
  -- the time filter, which the guard does not check, is not among them.
  pub compile_dsl-Allowed :
      (q : QueryDsl F) (text f : String)
      → r.columns ≡ s.catalog.columns
      → compile_dsl r s (some who) q ≡ sql text
      → contains (referenced_fields q) f ≡ true
      → is_field_allowed r (some who) f ≡ granted true
  unfolding compile_dsl
  compile_dsl-Allowed q text f same h used =
      let (q', let_through, made) = compile_granted-sql s (apply_policy r q (some who)) text h in
      let (_, _, (_, _, extra, _, result)) = passed r q who q' let_through in
      let (meta, known) =
        compile_sql-IsKnown q' s text f made (rw result (fields_grow q extra f used)) in
      (granted-InScope r q who q' f meta let_through used (rw same known)).0

contains-All :
    {P : String → Type 0} (l : List String) → ((x : String) → contains l x ≡ true → P x) → All P l
contains-All [] h = tt
contains-All (x ∷ l) h =
    (h x (rw (eq_refl x) refl), contains-All l (λ y there. h y (ground (arith, there))))

module _ {F : Type 0} (r : Registry F) (s : Setting F) (c : Contract (QueryDsl F))
    (who : String) where
  validated_sql :
      (v : Validated (QueryDsl F)) (text : String)
      → compile_validated r s (some who) v ≡ inr (sql text)
      → (q : QueryDsl F) × (v ≡ valid q) × (compile_dsl r s (some who) q ≡ sql text)
  unfolding compile_validated
  validated_sql (violation e) text h = absurd (ground (arith, h))
  validated_sql (valid q) text h = (q, refl, ground (arith, h))

  pub compile_valid :
      (p : Payload (QueryDsl F)) (q : QueryDsl F) (text : String)
      → validate_dsl_payload c p ≡ valid q
      → compile_dsl r s (some who) q ≡ sql text
      → compile_dsl_to_duckdb r s c (some who) p ≡ inr (sql text)
  unfolding compile_dsl_to_duckdb compile_validated
  compile_valid p q text through made = rw (through, compile_validated) (ap inr made)

  -- When the guard and the compiler read one catalog and SQL comes out of a payload for a principal, the
  -- payload has no forbidden key at its top and no text that looks like SQL at a path that is checked, the
  -- contract rebuilds it to a query, and every field of the query's metrics, dimensions and filters is one
  -- that the principal may use. The field of the time filter, on which the SQL also filters, is not among
  -- them: the guard does not check it.
  pub compile_dsl_to_duckdb-Allowed :
      (p : Payload (QueryDsl F)) (text : String)
      → r.columns ≡ s.catalog.columns
      → compile_dsl_to_duckdb r s c (some who) p ≡ inr (sql text)
      → (q : QueryDsl F) × (f : Fields) × (structure c p ≡ some f)
        × IsAllowed c f q
        × All (λ x. is_field_allowed r (some who) x ≡ granted true) (referenced_fields q)
  unfolding compile_dsl_to_duckdb
  compile_dsl_to_duckdb-Allowed p text same h =
      let (q, through, made) = validated_sql (validate_dsl_payload c p) text h in
      let (f, seen, allowed) = (validate_dsl_payload-IsAllowed c p q).0 through in
      (
        q,
        f,
        seen,
        allowed,
        contains-All (referenced_fields q)
            (λ x used. compile_dsl-Allowed r s who q text x same made used),
      )
