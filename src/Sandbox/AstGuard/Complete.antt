-- ===== src/Sandbox/AstGuard/Complete.antt =====
-- What a script has when the static check lets it through.
use future_bi.Base.{
  ℕ, ◌≡◌, refl, String, Bool, true, false, not, ◌&&◌, Option, List, [], ◌∷◌, ◌++◌, arith, ltb,
  is_some, all,
}
use future_bi.Sandbox.AstGuard.{
  Node, Nodes, import_names, import_from, call, attribute, name, constant, other, nil, cons,
  StaticGuardReport, is_forbidden_module, is_forbidden_attr, import_module, from_module, call_fault,
  flag, visit_call, visit_import, visit_import_from, visit_attribute, visit_name, visit, visit_all,
  Parsed, tree, syntax_error, clean_report, static_check,
}

-- all nodes of a tree, as `ast.walk` gives them
mutual
  pub walk : Node → List Node
  walk (call line func args keywords) =
      call line func args keywords ∷ (walk func ++ (walk_all args ++ walk_all keywords))
  walk (attribute line object attr) = attribute line object attr ∷ walk object
  walk (other line children) = other line children ∷ walk_all children
  walk n = n ∷ []

  pub walk_all : Nodes → List Node
  walk_all nil = []
  walk_all (cons n ns) = walk n ++ walk_all ns

-- a node that does nothing forbidden by itself
abbrev pub is_harmless : Node → Bool
is_harmless n = elim n [
  | import_names line names ↦ not (is_forbidden_module (import_module names))
  | import_from line module_name level ↦
      not (is_forbidden_module (from_module module_name)) && not (ltb 0 level)
  | call line func args keywords ↦ not (is_some (call_fault func args))
  | attribute line object attr ↦ not (is_forbidden_attr attr)
  | name line id ↦ not (is_forbidden_attr id)
  | _ ↦ true
]

all-append : (p : Node → Bool) (l m : List Node) → all p (l ++ m) ≡ (all p l && all p m)
all-append p [] m = refl
all-append p (n ∷ l) m = ground (arith, all-append p l m)

visit_import-is_ok :
    (r : StaticGuardReport) (line : ℕ) (names : List String)
    → (visit_import r line names).is_ok
      ≡ (r.is_ok && not (is_forbidden_module (import_module names)))
unfolding visit_import flag
visit_import-is_ok r line names = ground arith

visit_import_from-is_ok :
    (r : StaticGuardReport) (line : ℕ) (m : Option String) (level : ℕ)
    → (visit_import_from r line m level).is_ok
      ≡ (r.is_ok && (not (is_forbidden_module (from_module m)) && not (ltb 0 level)))
unfolding visit_import_from flag
visit_import_from-is_ok r line m level = ground arith

visit_call-is_ok :
    (r : StaticGuardReport) (line : ℕ) (func : Node) (args : Nodes)
    → (visit_call r line func args).is_ok ≡ (r.is_ok && not (is_some (call_fault func args)))
unfolding visit_call flag
visit_call-is_ok r line func args = ground arith

visit_attribute-is_ok :
    (r : StaticGuardReport) (line : ℕ) (attr : String)
    → (visit_attribute r line attr).is_ok ≡ (r.is_ok && not (is_forbidden_attr attr))
unfolding visit_attribute flag
visit_attribute-is_ok r line attr = ground arith

visit_name-is_ok :
    (r : StaticGuardReport) (line : ℕ) (id : String)
    → (visit_name r line id).is_ok ≡ (r.is_ok && not (is_forbidden_attr id))
unfolding visit_name flag
visit_name-is_ok r line id = ground arith

and_true : (a b : Bool) → (a && b) ≡ (a && (b && true))
and_true a b = ground arith

and_assoc : (a b c : Bool) → ((a && b) && c) ≡ (a && (b && c))
and_assoc a b c = ground arith

-- Each node is judged by itself, and what was found before stays.
mutual
  unfolding walk visit

  visit-is_ok :
      (r : StaticGuardReport) (n : Node) → (visit r n).is_ok ≡ (r.is_ok && all is_harmless (walk n))
  visit-is_ok r (import_names line names) = rw (visit_import-is_ok r line names) (and_true _ _)
  visit-is_ok r (import_from line m level) =
      rw (visit_import_from-is_ok r line m level) (and_true _ _)
  visit-is_ok r (call line func args keywords) =
      let r0 = visit_call r line func args in
      rw
        (
          visit_all-is_ok (visit_all (visit r0 func) args) keywords,
          visit_all-is_ok (visit r0 func) args,
          visit-is_ok r0 func,
          visit_call-is_ok r line func args,
          all-append is_harmless (walk func) (walk_all args ++ walk_all keywords),
          all-append is_harmless (walk_all args) (walk_all keywords),
        )
        (simp and_assoc)
  visit-is_ok r (attribute line object attr) =
      rw (visit-is_ok (visit_attribute r line attr) object, visit_attribute-is_ok r line attr)
        (simp and_assoc)
  visit-is_ok r (name line id) = rw (visit_name-is_ok r line id) (and_true _ _)
  visit-is_ok r (constant line text) = ground arith
  visit-is_ok r (other line children) = visit_all-is_ok r children

  visit_all-is_ok :
      (r : StaticGuardReport) (ns : Nodes)
      → (visit_all r ns).is_ok ≡ (r.is_ok && all is_harmless (walk_all ns))
  visit_all-is_ok r nil = ground arith
  visit_all-is_ok r (cons n ns) =
      rw
        (
          visit_all-is_ok (visit r n) ns,
          visit-is_ok r n,
          all-append is_harmless (walk n) (walk_all ns),
        )
        (simp and_assoc)

judged :
    (t : Parsed)
    → (static_check (λ script. t) "").is_ok
      ≡ elim t [ tree n ↦ all is_harmless (walk n) | syntax_error line detail ↦ false ]
unfolding static_check
judged (tree n) = visit-is_ok clean_report n
judged (syntax_error line detail) = refl

-- The check lets a script through exactly when it parses and no node anywhere in its tree is forbidden:
-- an import whose first module is on the list, a relative one, a call of a forbidden function or of a
-- reflection on a forbidden attribute, such an attribute or name.
pub static_check-is_ok :
    (parse : String → Parsed) (script : String)
    → (static_check parse script).is_ok
      ≡ elim (parse script) [ tree n ↦ all is_harmless (walk n) | syntax_error line detail ↦ false ]
unfolding static_check
static_check-is_ok parse script = judged (parse script)

-- An `import` of several modules is judged by the first: whatever stands after a harmless one passes.
pub visit-import_tail :
    (r : StaticGuardReport) (line : ℕ) (first : String) (rest : List String)
    → visit r (import_names line (first ∷ rest)) ≡ visit r (import_names line (first ∷ []))
unfolding visit visit_import import_module
visit-import_tail r line first rest = refl
