-- ===== src/Security/Loader.antt =====
-- security/policy_loader.py: the policies of a configuration. The file is read by I/O: a `Config` is what
-- `_read_config` finds there, with its texts already made by `str` and its row filters as in
-- security/policy.py. The globals are a record.
pub mod Named
use future_bi.Base.{String, ◌⊎◌, inl, inr, Option, none, some, List, [], ◌∷◌}
use future_bi.Base.Dict.{Dict, insert}
use future_bi.Security.Policy.{Policy, RowFilter, Attrs, builtin_policies, builtin_attrs}

-- the declaration of one policy
pub data Spec (F : Type 0) : Type 0 where
  no_object : Spec F
  object : List String → List String → List (RowFilter F) → Spec F

-- the entry `policies`, where it is an object
pub data Config (F : Type 0) : Type 0 where
  no_file : Config F
  bad_top : Config F
  config : Attrs → Option (Dict (Spec F)) → Config F

-- `ValueError` by what it complains of
pub data LoadFault : Type 0 where
  top_level no_policies : LoadFault
  bad_spec no_tables : String → LoadFault

pub record Globals (F : Type 0) : Type 0 where
  pub policies : Dict (Policy F)
  pub attrs : Attrs

module _ {F : Type 0} where
  unfoldable pub policy_of : String → Spec F → LoadFault ⊎ Policy F
  policy_of name no_object = inl (bad_spec name)
  policy_of name (object [] forbidden filters) = inl (no_tables name)
  policy_of name (object (t ∷ l) forbidden filters) = inr (record {
    name = name;
    allowed_tables = t ∷ l;
    forbidden_columns = forbidden;
    row_filters = filters;
  })

  -- the loop over the declarations
  unfoldable pub build_each : Dict (Spec F) → Dict (Policy F) → LoadFault ⊎ Dict (Policy F)
  build_each [] made = inr made
  build_each ((name, s) ∷ l) made = elim (policy_of name s) [
    | inl e ↦ inl e
    | inr p ↦ build_each l (insert name p made)
  ]

  abbrev with_attrs : Attrs → LoadFault ⊎ Dict (Policy F) → LoadFault ⊎ Globals F
  with_attrs attrs (inl e) = inl e
  with_attrs attrs (inr d) = inr (record { policies = d; attrs = attrs })

  unfoldable pub build_policies : Config F → LoadFault ⊎ Globals F
  build_policies no_file = inr (record { policies = builtin_policies; attrs = builtin_attrs })
  build_policies bad_top = inl top_level
  build_policies (config attrs none) = inl no_policies
  build_policies (config attrs (some [])) = inl no_policies
  build_policies (config attrs (some (e ∷ l))) = with_attrs attrs (build_each (e ∷ l) [])

  -- what the globals are after `refresh_policies`, and the exception, if one was raised
  unfoldable pub refresh_policies : Globals F → Config F → Globals F × Option LoadFault
  refresh_policies g c = elim (build_policies c) [ inl e ↦ (g, some e) | inr g' ↦ (g', none) ]

  unfoldable pub reset_default_policies : Globals F → Globals F
  reset_default_policies g = record { policies = builtin_policies; attrs = builtin_attrs }
