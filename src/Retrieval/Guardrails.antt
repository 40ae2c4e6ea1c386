-- ===== src/Retrieval/Guardrails.antt =====
-- core/retrieval/guardrails.py: what may pass as a query. The regular expression for SQL and the model
-- of pydantic, which a payload is rebuilt by, are the record `Contract`.
pub mod Clean
use Prim.Native.String.{◌++◌ as append}
use mathlib.Core.List.{reverse}
use future_bi.Base.{
  ℕ, zero, suc, String, Bool, true, false, not, ◌||◌, Option, none, some, List, [], ◌∷◌, ◌++◌, map,
  any, is_some, str_eq, if◌then◌else◌,
}
use future_bi.Base.Text.{codes, is_prefix, is_nonempty, show}

-- a structured payload; numbers, truth values and `None` are scalars
mutual
  pub data Json : Type 0 where
    text : String → Json
    dict : Fields → Json
    list : Items → Json
    scalar : Json

  pub data Fields : Type 0 where
    no_fields : Fields
    field : String → Json → Fields → Fields

  pub data Items : Type 0 where
    no_items : Items
    item : Json → Items → Items

pub record Contract (Q : Type 0) : Type 0 where
  -- `_SQL_STATEMENT_RE.search`
  pub has_statement : String → Bool
  -- `QueryDSL.model_validate`; `none` is a `ValidationError`
  pub model_validate : Fields → Option Q
  -- `model_dump(mode="json")`
  pub model_dump : Q → Fields

pub data GuardrailViolation : Type 0 where
  raw_text unsupported_type off_contract : GuardrailViolation
  forbidden_key : String → GuardrailViolation
  -- the path of the text
  raw_sql : String → GuardrailViolation

abbrev pub forbidden_keys : List String
forbidden_keys = "sql" ∷ "raw_sql" ∷ "query_sql" ∷ "statement" ∷ []

-- `key in payload`
unfoldable pub has_key : String → Fields → Bool
has_key k no_fields = false
has_key k (field j v f) = let rest = has_key k f in if str_eq j k then true else rest

unfoldable pub first_key : List String → Fields → Option String
first_key [] f = none
first_key (k ∷ l) f = let rest = first_key l f in if has_key k f then some k else rest

unfoldable pub looks_like_sql : {Q : Type 0} → Contract Q → String → Bool
looks_like_sql c s = if is_nonempty s then c.has_statement s else false

-- the path of a field, and of the item at an index
unfoldable pub field_path : String → String → String
field_path path key = if is_nonempty path then append path (append "." key) else key

unfoldable pub item_path : String → ℕ → String
item_path path i = append path (append "[" (append (show i) "]"))

-- `_walk_strings`: the texts with their paths
unfoldable mutual
  pub walk_strings : String → Json → List (String × String)
  walk_strings path (text s) = (path, s) ∷ []
  walk_strings path (dict f) = walk_fields path f
  walk_strings path (list l) = walk_items path 0 l
  walk_strings path scalar = []

  pub walk_fields : String → Fields → List (String × String)
  walk_fields path no_fields = []
  walk_fields path (field key v f) = walk_strings (field_path path key) v ++ walk_fields path f

  pub walk_items : String → ℕ → Items → List (String × String)
  walk_items path i no_items = []
  walk_items path i (item v l) = walk_strings (item_path path i) v ++ walk_items path (suc i) l

unfoldable pub ends_with : String → String → Bool
ends_with s w = is_prefix (reverse (codes w)) (reverse (codes s))

abbrev pub free_endings : List String
free_endings = "alias" ∷ "field" ∷ "metric" ∷ "dimension" ∷ "time_field" ∷ "by" ∷ "name" ∷ []

-- whether the texts at a path go unchecked
unfoldable pub is_free : String → Bool
is_free path = any (ends_with path) free_endings

-- the path of the first text that looks like SQL
unfoldable pub first_sql : {Q : Type 0} → Contract Q → List (String × String) → Option String
first_sql c [] = none
first_sql c ((path, s) ∷ l) =
    let rest = first_sql c l in
    if is_free path then rest else if looks_like_sql c s then some path else rest

pub data Payload (Q : Type 0) : Type 0 where
  query : Q → Payload Q
  structured : Fields → Payload Q
  plain_text : String → Payload Q
  other : Payload Q

pub data Validated (Q : Type 0) : Type 0 where
  valid : Q → Validated Q
  violation : GuardrailViolation → Validated Q

module _ {Q : Type 0} where
  unfoldable pub validate_fields : Contract Q → Fields → Validated Q
  validate_fields c f = elim (first_key forbidden_keys f) [
    | some k ↦ violation (forbidden_key k)
    | none ↦ elim (first_sql c (walk_fields "" f)) [
      | some path ↦ violation (raw_sql path)
      | none ↦ elim (c.model_validate f) [ none ↦ violation off_contract | some q ↦ valid q ]
    ]
  ]

  unfoldable pub validate_dsl_payload : Contract Q → Payload Q → Validated Q
  validate_dsl_payload c (query q) = validate_fields c (c.model_dump q)
  validate_dsl_payload c (structured f) = validate_fields c f
  validate_dsl_payload c (plain_text s) = violation raw_text
  validate_dsl_payload c other = violation unsupported_type
