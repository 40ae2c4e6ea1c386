-- ===== src/Exec/Audit.antt =====
-- exec/audit.py: the audit of a statement before it runs. What sqlglot makes of a text is a parameter: the
-- statements, as far as the checks look at them. The texts of the findings are left out.
pub mod Approved
use future_bi.Base.{
  String, Bool, true, false, not, ◌&&◌, ◌||◌, Option, none, some, List, [], ◌∷◌, ◌++◌, any, all,
  keep, str_eq, if◌then◌else◌,
}
use future_bi.Exec.Guards.{Scanner, UnsafeSql, structure_fault}

-- the kind is in capital letters, and empty where there is none
pub record Join : Type 0 where
  pub kind : String
  pub has_on : Bool
  pub has_using : Bool

pub record Root : Type 0 where
  pub is_select : Bool
  pub has_group : Bool
  pub has_distinct : Bool
  -- for each item of the SELECT whether it is an aggregate
  pub projections : List Bool
  -- for each FROM in the tree whether a table or a subquery stands beside the first
  pub has_extras : List Bool
  -- the joins in the tree, and whether a LIMIT stands anywhere in it
  pub joins : List Join
  pub has_limit : Bool

pub data GuardrailFinding : Type 0 where
  unparsable multiple cross_join bare_join comma_join : GuardrailFinding
  unsafe : UnsafeSql → GuardrailFinding
  scalar_unbounded unbounded : GuardrailFinding

-- whether the severity is "rejected"; the other one is "warning"
unfoldable pub is_rejected : GuardrailFinding → Bool
is_rejected scalar_unbounded = false
is_rejected unbounded = false
is_rejected _ = true

unfoldable pub finding_cartesian : Join → Option GuardrailFinding
finding_cartesian j =
    if str_eq j.kind "CROSS"
    then some cross_join
    else if not j.has_on && not j.has_using && not (str_eq j.kind "LATERAL")
    then some bare_join
    else none

-- the loop over the FROMs
unfoldable pub from_findings : List Bool → List GuardrailFinding
from_findings [] = []
from_findings (extra ∷ l) = let rest = from_findings l in if extra then comma_join ∷ rest else rest

unfoldable pub join_findings : List Join → List GuardrailFinding
join_findings [] = []
join_findings (j ∷ l) =
    let rest = join_findings l in elim (finding_cartesian j) [ none ↦ rest | some f ↦ f ∷ rest ]

unfoldable pub is_scalar_aggregate : Root → Bool
is_scalar_aggregate r =
    if r.is_select
    then if r.has_group || r.has_distinct
      then false
      else elim r.projections [ [] ↦ false | p ∷ l ↦ all (λ b. b) (p ∷ l) ]
    else false

unfoldable pub limit_findings : Root → List GuardrailFinding
limit_findings r =
    if r.has_limit
    then []
    else if is_scalar_aggregate r
    then scalar_unbounded ∷ []
    else unbounded ∷ []

unfoldable pub audit_root : Scanner → String → Root → List GuardrailFinding
audit_root k sql r = elim (structure_fault k sql) [
  | some why ↦ unsafe why ∷ []
  | none ↦ from_findings r.has_extras ++ (join_findings r.joins ++ limit_findings r)
]

unfoldable pub audit_compiled_sql :
    Scanner → (String → Option (List Root)) → String → List GuardrailFinding
audit_compiled_sql k parse sql = elim (parse sql) [
  | none ↦ unparsable ∷ []
  | some [] ↦ multiple ∷ []
  | some (r ∷ []) ↦ audit_root k sql r
  | some (r ∷ s ∷ l) ↦ multiple ∷ []
]

-- `none` is a `GuardrailRejected`
unfoldable pub assert_guardrails :
    Scanner → (String → Option (List Root)) → String → Option (List GuardrailFinding)
assert_guardrails k parse sql =
    let findings = audit_compiled_sql k parse sql in
    if any is_rejected findings then none else some (keep (λ f. not (is_rejected f)) findings)
