-- ===== src/Retrieval.antt =====
-- core/retrieval/tools.py: from a payload to SQL, as `compile_dsl_to_duckdb` and `execute_dsl_query` both
-- go: the check of the payload, the guard, then the compiler.
pub mod Allowed
pub mod Guardrails
use future_bi.Base.{String, Option, some, none, ◌⊎◌, inl, inr}
use future_bi.Semantic.Schema.{QueryDsl}
use future_bi.Security.Guard.{Registry, Refusal, Verdict, granted, refused, apply_policy}
use future_bi.Compiler.Fault.{Fault, Compiled, ok, fail}
use future_bi.Compiler.Fields.{Setting}
use future_bi.Compiler.Sql.{compile_sql}
use future_bi.Retrieval.Guardrails.{
  Contract, Payload, GuardrailViolation, Validated, valid, violation, validate_dsl_payload,
}

-- the text, or which of the two raised
pub data Guarded : Type 0 where
  sql : String → Guarded
  denied : Refusal → Guarded
  broken : Fault → Guarded

compile_granted : {F : Type 0} → Setting F → Verdict (QueryDsl F) → Guarded
compile_granted s (refused e) = denied e
compile_granted s (granted q) = elim (compile_sql s q) [ ok text ↦ sql text | fail e ↦ broken e ]

-- `compile_dsl_to_duckdb` after `validate_dsl_payload`
unfoldable pub compile_dsl :
    {F : Type 0} → Registry F → Setting F → Option String → QueryDsl F → Guarded
unfolding compile_granted
compile_dsl r s principal q = compile_granted s (apply_policy r q principal)

compile_validated :
    {F : Type 0}
    → Registry F
    → Setting F
    → Option String
    → Validated (QueryDsl F)
    → GuardrailViolation ⊎ Guarded
compile_validated r s principal (violation e) = inl e
compile_validated r s principal (valid q) = inr (compile_dsl r s principal q)

-- the whole of `compile_dsl_to_duckdb`
unfoldable pub compile_dsl_to_duckdb :
    {F : Type 0}
    → Registry F
    → Setting F
    → Contract (QueryDsl F)
    → Option String
    → Payload (QueryDsl F)
    → GuardrailViolation ⊎ Guarded
unfolding compile_validated
compile_dsl_to_duckdb r s c principal p = compile_validated r s principal (validate_dsl_payload c p)
