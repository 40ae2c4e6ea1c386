-- ===== src/Retrieval/Guardrails/Clean.antt =====
-- What a payload has that the gateway lets through.
use future_bi.Base.{
  ℕ, suc, String, ◌≡◌, refl, false, Option, none, some, List, [], ◌∷◌, ◌++◌, arith, is_some, any,
  ◌↔◌, Bool-cases, inl, inr,
}
use future_bi.Retrieval.Guardrails.{
  Json, text, dict, list, scalar, Fields, no_fields, field, Items, no_items, item, Contract,
  forbidden_keys, has_key, first_key, looks_like_sql, field_path, item_path, walk_strings,
  walk_fields, walk_items, is_free, first_sql, Payload, query, structured, plain_text, other, valid,
  validate_fields, validate_dsl_payload,
}

-- Each text below a path is free, or looks like no SQL.
unfoldable mutual
  pub IsClean : {Q : Type 0} → Contract Q → String → Json → Type 0
  IsClean c path (text s) = is_free path ≡ false → looks_like_sql c s ≡ false
  IsClean c path (dict f) = AreCleanFields c path f
  IsClean c path (list l) = AreCleanItems c path 0 l
  IsClean c path scalar = Unit

  pub AreCleanFields : {Q : Type 0} → Contract Q → String → Fields → Type 0
  AreCleanFields c path no_fields = Unit
  AreCleanFields c path (field key v f) =
      IsClean c (field_path path key) v × AreCleanFields c path f

  pub AreCleanItems : {Q : Type 0} → Contract Q → String → ℕ → Items → Type 0
  AreCleanItems c path i no_items = Unit
  AreCleanItems c path i (item v l) =
      IsClean c (item_path path i) v × AreCleanItems c path (suc i) l

module _ {Q : Type 0} (c : Contract Q) where
  first_sql-append :
      (k l : List (String × String))
      → first_sql c (k ++ l) ≡ none
      → (first_sql c k ≡ none) × (first_sql c l ≡ none)
  unfolding first_sql
  first_sql-append [] l h = (refl, h)
  first_sql-append ((path, s) ∷ k) l h = let e = first_sql-append k l in ground (arith, e)

  mutual
    unfolding walk_strings IsClean first_sql

    walk-IsClean :
        (path : String) (v : Json) → first_sql c (walk_strings path v) ≡ none → IsClean c path v
    walk-IsClean path (text s) h = λ bound. ground (arith, bound)
    walk-IsClean path (dict f) h = walk_fields-AreCleanFields path f h
    walk-IsClean path (list l) h = walk_items-AreCleanItems path 0 l h
    walk-IsClean path scalar h = tt

    walk_fields-AreCleanFields :
        (path : String) (f : Fields)
        → first_sql c (walk_fields path f) ≡ none
        → AreCleanFields c path f
    walk_fields-AreCleanFields path no_fields h = tt
    walk_fields-AreCleanFields path (field key v f) h =
        let (e, g) =
          first_sql-append (walk_strings (field_path path key) v) (walk_fields path f) h in
        (walk-IsClean (field_path path key) v e, walk_fields-AreCleanFields path f g)

    walk_items-AreCleanItems :
        (path : String) (i : ℕ) (l : Items)
        → first_sql c (walk_items path i l) ≡ none
        → AreCleanItems c path i l
    walk_items-AreCleanItems path i no_items h = tt
    walk_items-AreCleanItems path i (item v l) h =
        let (e, g) =
          first_sql-append (walk_strings (item_path path i) v) (walk_items path (suc i) l) h in
        (walk-IsClean (item_path path i) v e, walk_items-AreCleanItems path (suc i) l g)

  first_sql-none :
      (k l : List (String × String))
      → first_sql c k ≡ none
      → first_sql c l ≡ none
      → first_sql c (k ++ l) ≡ none
  unfolding first_sql
  first_sql-none [] l h g = g
  first_sql-none ((path, s) ∷ k) l h g = let e = first_sql-none k l in ground (arith, e)

  mutual
    unfolding walk_strings IsClean first_sql

    walk_clean :
        (path : String) (v : Json) → IsClean c path v → first_sql c (walk_strings path v) ≡ none
    walk_clean path (text s) h = elim (Bool-cases (is_free path)) [
      | inl free ↦ ground (arith, free)
      | inr bound ↦ let e = h bound in ground (arith, e, bound)
    ]
    walk_clean path (dict f) h = walk_clean_fields path f h
    walk_clean path (list l) h = walk_clean_items path 0 l h
    walk_clean path scalar h = refl

    walk_clean_fields :
        (path : String) (f : Fields)
        → AreCleanFields c path f
        → first_sql c (walk_fields path f) ≡ none
    walk_clean_fields path no_fields h = refl
    walk_clean_fields path (field key v f) (e, g) =
        first_sql-none (walk_strings (field_path path key) v) (walk_fields path f)
          (walk_clean (field_path path key) v e) (walk_clean_fields path f g)

    walk_clean_items :
        (path : String) (i : ℕ) (l : Items)
        → AreCleanItems c path i l
        → first_sql c (walk_items path i l) ≡ none
    walk_clean_items path i no_items h = refl
    walk_clean_items path i (item v l) (e, g) =
        first_sql-none (walk_strings (item_path path i) v) (walk_items path (suc i) l)
          (walk_clean (item_path path i) v e) (walk_clean_items path (suc i) l g)

  first_key-any :
      (l : List String) (f : Fields) → is_some (first_key l f) ≡ any (λ k. has_key k f) l
  unfolding first_key
  first_key-any [] f = refl
  first_key-any (k ∷ l) f = ground (arith, first_key-any l f)

  -- what the gateway asks of a structured payload that stands for a query
  pub record IsAllowed (f : Fields) (q : Q) : Type 0 where
    pub no_key : any (λ k. has_key k f) forbidden_keys ≡ false
    pub clean : AreCleanFields c "" f
    pub rebuilt : c.model_validate f ≡ some q

  fields-IsAllowed : (f : Fields) (q : Q) → validate_fields c f ≡ valid q → IsAllowed f q
  unfolding validate_fields
  fields-IsAllowed f q h =
      let e = first_key-any forbidden_keys f in
      record {
        no_key = ground (arith, e);
        clean = walk_fields-AreCleanFields "" f (ground arith);
        rebuilt = ground arith;
      }

  allowed_fields : (f : Fields) (q : Q) → IsAllowed f q → validate_fields c f ≡ valid q
  unfolding validate_fields
  allowed_fields f q a =
      let e = first_key-any forbidden_keys f in
      let w = walk_clean_fields "" f a.clean in
      let k = a.no_key in let r = a.rebuilt in ground (arith, e, w, k, r)

  -- the structured payload that a payload is judged by
  unfoldable pub structure : Payload Q → Option Fields
  structure (query q) = some (c.model_dump q)
  structure (structured f) = some f
  structure (plain_text s) = none
  structure other = none

-- the payload is judged by its structure
structure-IsAllowed :
    {Q : Type 0} (c : Contract Q) (g f : Fields) (q : Q)
    → some g ≡ some f
    → IsAllowed c f q
    → validate_fields c g ≡ valid q
structure-IsAllowed c g f q e a =
    let same : g ≡ f = ground (arith, e) in rw same (allowed_fields c f q a)

-- A query comes out of the gateway exactly when the payload is a query or structured, has none of the
-- forbidden keys at its top, has no text that looks like SQL at a path that is checked, however deep, and
-- the contract rebuilds it to that query.
pub validate_dsl_payload-IsAllowed :
    {Q : Type 0} (c : Contract Q) (p : Payload Q) (q : Q)
    → (validate_dsl_payload c p ≡ valid q)
      ↔ ((f : Fields) × (structure c p ≡ some f) × IsAllowed c f q)
unfolding validate_dsl_payload structure
validate_dsl_payload-IsAllowed c (query a) q = (
  (λ h. (c.model_dump a, refl, fields-IsAllowed c (c.model_dump a) q h)),
  (λ (f, e, k). structure-IsAllowed c (c.model_dump a) f q e k),
)
validate_dsl_payload-IsAllowed c (structured g) q =
    ((λ h. (g, refl, fields-IsAllowed c g q h)), (λ (f, e, k). structure-IsAllowed c g f q e k))
validate_dsl_payload-IsAllowed c (plain_text s) q =
    ((λ h. absurd (ground (arith, h))), (λ (f, e, a'). absurd (ground (arith, e))))
validate_dsl_payload-IsAllowed c other q =
    ((λ h. absurd (ground (arith, h))), (λ (f, e, a'). absurd (ground (arith, e))))
