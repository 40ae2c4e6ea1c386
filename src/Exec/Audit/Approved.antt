-- ===== src/Exec/Audit/Approved.antt =====
-- What a statement has that the audit lets through.
use future_bi.Base.{
  String, ◌≡◌, refl, ap, sym, ◌∙◌, ◌↔◌, Bool, true, false, not, ◌&&◌, ◌||◌, Option, none, some,
  List, [], ◌∷◌, ◌++◌, any, all, keep, str_eq, arith, Option-cases, inl, inr,
}
use future_bi.Exec.Guards.{Scanner, structure_fault}
use future_bi.Exec.Audit.{
  Join, Root, GuardrailFinding, is_rejected, finding_cartesian, from_findings, join_findings,
  limit_findings, audit_root, audit_compiled_sql, assert_guardrails,
}

-- a join with a condition, or lateral
abbrev pub is_bound : Join → Bool
is_bound j = not (str_eq j.kind "CROSS") && (j.has_on || j.has_using || str_eq j.kind "LATERAL")

from_findings-any : (l : List Bool) → any is_rejected (from_findings l) ≡ any (λ b. b) l
unfolding from_findings is_rejected
from_findings-any [] = refl
from_findings-any (b ∷ l) = ground (arith, from_findings-any l)

join_findings-any : (l : List Join) → any is_rejected (join_findings l) ≡ not (all is_bound l)
unfolding join_findings is_rejected finding_cartesian
join_findings-any [] = refl
join_findings-any (j ∷ l) = ground (arith, join_findings-any l)

from_clean : (l : List Bool) → any (λ b. b) l ≡ false → from_findings l ≡ []
unfolding from_findings
from_clean [] h = refl
from_clean (b ∷ l) h = ground (arith, from_clean l)

join_clean : (l : List Join) → all is_bound l ≡ true → join_findings l ≡ []
unfolding join_findings finding_cartesian
join_clean [] h = refl
join_clean (j ∷ l) h = ground (arith, join_clean l)

limit_kept : (r : Root) → keep (λ f. not (is_rejected f)) (limit_findings r) ≡ limit_findings r
unfolding limit_findings is_rejected
limit_kept r = ground arith

limit_mild : (r : Root) → any is_rejected (limit_findings r) ≡ false
unfolding limit_findings is_rejected
limit_mild r = ground arith

any-append :
    (l m : List GuardrailFinding)
    → any is_rejected (l ++ m) ≡ (any is_rejected l || any is_rejected m)
any-append [] m = refl
any-append (f ∷ l) m = ground (arith, any-append l m)

-- whether the statement is refused for its tables and joins
root_refused :
    (r : Root)
    → any is_rejected (from_findings r.has_extras ++ (join_findings r.joins ++ limit_findings r))
      ≡ (any (λ b. b) r.has_extras || not (all is_bound r.joins))
root_refused r =
    let a = any-append (from_findings r.has_extras) (join_findings r.joins ++ limit_findings r) in
    let b = any-append (join_findings r.joins) (limit_findings r) in
    let c = from_findings-any r.has_extras in
    let d = join_findings-any r.joins in let e = limit_mild r in ground (arith, a, b, c, d, e)

-- what the audit asks of a statement, and the warnings that it leaves
pub record IsApproved (k : Scanner) (parse : String → Option (List Root)) (sql : String)
    (warnings : List GuardrailFinding) : Type 0 where
  pub root : Root
  pub parsed : parse sql ≡ some (root ∷ [])
  pub readonly : structure_fault k sql ≡ none
  pub single : any (λ b. b) root.has_extras ≡ false
  pub bound : all is_bound root.joins ≡ true
  pub warned : warnings ≡ limit_findings root

-- the audit of one statement whose structure is sound
audit_sound :
    (k : Scanner) (parse : String → Option (List Root)) (sql : String) (r : Root)
    → parse sql ≡ some (r ∷ [])
    → structure_fault k sql ≡ none
    → audit_compiled_sql k parse sql
      ≡ from_findings r.has_extras ++ (join_findings r.joins ++ limit_findings r)
unfolding audit_compiled_sql audit_root
audit_sound k parse sql r e h = ground (arith, e, h)

approved :
    (k : Scanner) (parse : String → Option (List Root)) (sql : String) (w : List GuardrailFinding)
    → IsApproved k parse sql w
    → assert_guardrails k parse sql ≡ some w
unfolding assert_guardrails
approved k parse sql w a =
    let r = a.root in
    let made : audit_compiled_sql k parse sql ≡ limit_findings r =
      audit_sound k parse sql r a.parsed a.readonly
      ∙ rw (from_clean r.has_extras a.single) (rw (join_clean r.joins a.bound) refl) in
    rw made (ground (arith, limit_mild r, limit_kept r, a.warned))

-- such a statement that passes has bound joins and single tables, and the findings that are left warn
sound_IsApproved :
    (k : Scanner) (parse : String → Option (List Root)) (sql : String) (w : List GuardrailFinding)
    (r : Root)
    → parse sql ≡ some (r ∷ [])
    → structure_fault k sql ≡ none
    → assert_guardrails k parse sql ≡ some w
    → IsApproved k parse sql w
unfolding assert_guardrails
sound_IsApproved k parse sql w r e h made =
    let all_of_it = audit_sound k parse sql r e h in
    let verdict = root_refused r in
    let mild : any is_rejected (audit_compiled_sql k parse sql) ≡ false = ground (arith, made) in
    let none_refused : (any (λ b. b) r.has_extras || not (all is_bound r.joins)) ≡ false =
      sym verdict ∙ (sym (ap (any is_rejected) all_of_it) ∙ mild) in
    let single : any (λ b. b) r.has_extras ≡ false = ground (arith, none_refused) in
    let bound : all is_bound r.joins ≡ true = ground (arith, none_refused) in
    let a : (v : List GuardrailFinding)
        → v ≡ limit_findings r
        → assert_guardrails k parse sql ≡ some v =
      (λ v same. approved k parse sql v (record {
        root = r;
        parsed = e;
        readonly = h;
        single = single;
        bound = bound;
        warned = same;
      })) in
    record {
      root = r;
      parsed = e;
      readonly = h;
      single = single;
      bound = bound;
      warned = ground (arith, made, a (limit_findings r) refl);
    }

audited :
    (k : Scanner) (parse : String → Option (List Root)) (sql : String) (w : List GuardrailFinding)
    (o : Option (List Root))
    → parse sql ≡ o
    → assert_guardrails k parse sql ≡ some w
    → IsApproved k parse sql w
unfolding assert_guardrails audit_compiled_sql audit_root is_rejected
audited k parse sql w none e made = absurd (ground (arith, e, made))
audited k parse sql w (some []) e made = absurd (ground (arith, e, made))
audited k parse sql w (some (r ∷ s ∷ l)) e made = absurd (ground (arith, e, made))
audited k parse sql w (some (r ∷ [])) e made = elim (Option-cases (structure_fault k sql)) [
  | inl sound ↦ sound_IsApproved k parse sql w r e sound made
  | inr (why, unsound) ↦ absurd (ground (arith, e, made, unsound))
]

-- A statement passes the audit, with these warnings, exactly when it parses as one statement whose
-- structure is read-only, no FROM of it has a second table, each join of it has a condition or is lateral
-- and none is a cross join; the warnings are then those for a missing LIMIT.
pub assert_guardrails-IsApproved :
    (k : Scanner) (parse : String → Option (List Root)) (sql : String) (w : List GuardrailFinding)
    → (assert_guardrails k parse sql ≡ some w) ↔ IsApproved k parse sql w
assert_guardrails-IsApproved k parse sql w =
    (audited k parse sql w (parse sql) refl, approved k parse sql w)
