-- ===== src/Security/Loader/Named.antt =====
-- The policies that security/policy_loader.py installs from a configuration.
use future_bi.Base.{
  String, ◌≡◌, refl, ap, ◌∙◌, List, Bool, str_eq, eq_iff, Bool-cases, true, false, ◌||◌, ◌⊎◌, inl,
  inr, subst, none, some, is_some, [], ◌∷◌, All, arith,
}
use future_bi.Base.Dict.{
  Dict, lookup, insert, insert-All, lookup-insert, lookup-insert_self, IsDistinct,
}
use future_bi.Security.Policy.{Policy, RowFilter, Attrs, post_init}
use future_bi.Security.Loader.{
  Spec, config, Globals, no_object, object, policy_of, build_each, build_policies, refresh_policies,
}

result-cases : {A B : Type 0} (o : A ⊎ B) → ((a : A) × (o ≡ inl a)) ⊎ ((b : B) × (o ≡ inr b))
result-cases (inl a) = inl (a, refl)
result-cases (inr b) = inr (b, refl)

or_false : (b : Bool) → (b || false) ≡ b
or_false true = refl
or_false false = refl

module _ {F : Type 0} where
  -- a policy under its own name, which its constructor accepts
  abbrev pub IsNamed : String × Policy F → Type 0
  IsNamed e = (e.1.name ≡ e.0) × (is_some (post_init e.1) ≡ true)

  policy_of-IsNamed :
      (name : String) (s : Spec F) (p : Policy F) → policy_of name s ≡ inr p → IsNamed (name, p)
  unfolding policy_of post_init
  policy_of-IsNamed name no_object p h = absurd (ground (arith, h))
  policy_of-IsNamed name (object [] forbidden filters) p h = absurd (ground (arith, h))
  policy_of-IsNamed name (object (t ∷ l) forbidden filters) p h =
      (ground (arith, h), ground (arith, h))

  build_each-cons :
      (name : String) (s : Spec F) (l : Dict (Spec F)) (made d : Dict (Policy F))
      → build_each ((name, s) ∷ l) made ≡ inr d
      → (p : Policy F) × (policy_of name s ≡ inr p) × (build_each l (insert name p made) ≡ inr d)
  unfolding build_each
  build_each-cons name s l made d h = elim (result-cases (policy_of name s)) [
    | inl (e, bad) ↦ absurd (ground (arith, bad, h))
    | inr (p, good) ↦ (p, good, ground (arith, good, h))
  ]

  build_each-IsNamed :
      (l : Dict (Spec F)) (made d : Dict (Policy F))
      → build_each l made ≡ inr d
      → All IsNamed made
      → All IsNamed d
  unfolding build_each
  build_each-IsNamed [] made d h named =
      let same : made ≡ d = ground (arith, h) in subst (All IsNamed) same named
  build_each-IsNamed ((name, s) ∷ l) made d h named =
      let (p, good, rest) = build_each-cons name s l made d h in
      build_each-IsNamed l (insert name p made) d rest
        (insert-All (λ k v. IsNamed (k, v)) name p made (policy_of-IsNamed name s p good) named)

  -- the names are those before and those of the declarations
  build_each-names :
      (l : Dict (Spec F)) (made d : Dict (Policy F)) (who : String)
      → build_each l made ≡ inr d
      → is_some (lookup who d) ≡ (is_some (lookup who l) || is_some (lookup who made))
  unfolding build_each lookup
  build_each-names [] made d who h = let same : made ≡ d = ground (arith, h) in ground (arith, same)
  build_each-names ((name, s) ∷ l) made d who h =
      let (p, good, rest) = build_each-cons name s l made d h in
      let e = build_each-names l (insert name p made) d who rest in
      let f = lookup-insert name who p made in ground (arith, e, f)

  -- what is built for a name stays, unless it is declared again
  build_each-kept :
      (l : Dict (Spec F)) (made d : Dict (Policy F)) (who : String)
      → build_each l made ≡ inr d
      → lookup who l ≡ none
      → lookup who d ≡ lookup who made
  unfolding build_each lookup
  build_each-kept [] made d who h missing =
      let same : made ≡ d = ground (arith, h) in ground (arith, same)
  build_each-kept ((name, s) ∷ l) made d who h missing =
      let (p, good, rest) = build_each-cons name s l made d h in
      let e = build_each-kept l (insert name p made) d who rest in
      let f = lookup-insert name who p made in ground (arith, e, f)

  -- each declaration is built, and what is built is found under its name
  build_each-built :
      (l : Dict (Spec F)) (made d : Dict (Policy F)) (who : String) (s : Spec F)
      → IsDistinct l
      → build_each l made ≡ inr d
      → lookup who l ≡ some s
      → (p : Policy F) × (policy_of who s ≡ inr p) × (lookup who d ≡ some p)
  unfolding lookup
  build_each-built [] made d who s apart h there = absurd (ground (arith, there))
  build_each-built ((name, s') ∷ l) made d who s (apart, rest_apart) h there =
      let (p, good, rest) = build_each-cons name s' l made d h in
      elim (Bool-cases (str_eq name who)) [
        | inl here ↦
            let is : name ≡ who = (eq_iff name who).0 here in
            let spec : s' ≡ s = ground (arith, here, there) in
            let f = lookup-insert_self name p made in
            let kept = build_each-kept l (insert name p made) d name rest apart in
            (
              p,
              subst (λ t. policy_of who t ≡ inr p) spec
                  (subst (λ n. policy_of n s' ≡ inr p) is good),
              subst (λ n. lookup n d ≡ some p) is (kept ∙ f),
            )
        | inr other ↦
            build_each-built l (insert name p made) d who s rest_apart rest
              (ground (arith, other, there))
      ]

  policy_of-object :
      (who : String) (tables forbidden : List String) (filters : List (RowFilter F)) (p : Policy F)
      → policy_of who (object tables forbidden filters) ≡ inr p
      → p ≡ record {
        name = who;
        allowed_tables = tables;
        forbidden_columns = forbidden;
        row_filters = filters;
      }
  unfolding policy_of
  policy_of-object who [] forbidden filters p h = absurd (ground (arith, h))
  policy_of-object who (t ∷ l) forbidden filters p h = ground (arith, h)

  -- what stands behind the globals after a refresh
  pub record IsInstalled (specs : Dict (Spec F)) (d : Dict (Policy F)) : Type 0 where
    pub named : All IsNamed d
    pub names : (who : String) → is_some (lookup who d) ≡ is_some (lookup who specs)
    pub exact :
        (who : String) (tables forbidden : List String) (filters : List (RowFilter F))
        → lookup who specs ≡ some (object tables forbidden filters)
        → lookup who d
          ≡ some (record {
            name = who;
            allowed_tables = tables;
            forbidden_columns = forbidden;
            row_filters = filters;
          })

  built :
      (attrs : Attrs) (specs : Dict (Spec F)) (g : Globals F)
      → IsDistinct specs
      → build_policies (config attrs (some specs)) ≡ inr g
      → IsInstalled specs g.policies × (g.attrs ≡ attrs)
  unfolding build_policies lookup
  built attrs [] g apart h = absurd (ground (arith, h))
  built attrs (e ∷ l) g apart h = elim (result-cases (build_each (e ∷ l) [])) [
    | inl (fault, bad) ↦ absurd (ground (arith, bad, h))
    | inr (d, made) ↦
        let same : record { policies = d; attrs = attrs } ≡ g = ground (arith, made, h) in
        let installed : IsInstalled (e ∷ l) d = record {
          named = build_each-IsNamed (e ∷ l) [] d made tt;
          names = λ who.
              build_each-names (e ∷ l) [] d who made ∙ or_false (is_some (lookup who (e ∷ l)));
          exact = λ who tables forbidden filters there.
              let (p, good, at) = build_each-built (e ∷ l) [] d who _ apart made there in
              at ∙ ap some (policy_of-object who tables forbidden filters p good);
        } in
        subst (λ k. IsInstalled (e ∷ l) k.policies × (k.attrs ≡ attrs)) same (installed, refl)
  ]

-- A configuration with declarations, no name declared twice, is installed whole or not at all: where the
-- refresh raises, the globals stay as they were; where it does not, there is a policy for exactly the
-- declared names, each is the declared one, with its name and with the allowed tables, the forbidden
-- columns and the row filters of its declaration, each allows a table, and the attributes are those of
-- the configuration.
pub refresh_policies-IsInstalled :
    {F : Type 0} (g : Globals F) (attrs : Attrs) (specs : Dict (Spec F))
    → IsDistinct specs
    → (((refresh_policies g (config attrs (some specs))).0 ≡ g)
        × (is_some (refresh_policies g (config attrs (some specs))).1 ≡ true))
      ⊎ (((refresh_policies g (config attrs (some specs))).1 ≡ none)
          × IsInstalled specs (refresh_policies g (config attrs (some specs))).0.policies
          × ((refresh_policies g (config attrs (some specs))).0.attrs ≡ attrs))
unfolding refresh_policies
refresh_policies-IsInstalled g attrs specs apart =
    elim (result-cases (build_policies (config attrs (some specs)))) [
      | inl (e, bad) ↦ inl (ground (arith, bad), ground (arith, bad))
      | inr (g', good) ↦ inr (
          rw (good, refresh_policies)
            (refl, (built attrs specs g' apart good).0, (built attrs specs g' apart good).1))
    ]
