-- ===== src/Agent/Memory/Filters/Strip.antt =====
-- The row rules of a policy are taken out of a query that the guard has let through.
use future_bi.Base.{
  String, Bool, true, ◌≡◌, refl, sym, ◌∙◌, some, List, [], ◌∷◌, ◌++◌, any, All, keep, arith,
}
use mathlib.Core.List.{append-nil}
use future_bi.Base.Dict.{lookup}
use future_bi.Semantic.Schema.{Filter, QueryDsl}
use future_bi.Security.Policy.{Policy, RowFilter}
use future_bi.Security.Guard.{Registry, granted, row_level, apply_policy}
use future_bi.Security.Agree.{passed}
use future_bi.Agent.Memory.Filters.{Equality, is_new, strip_policy, strip_rls_filters}

module _ {F : Type 0} (e : Equality F) (same_self : (f : Filter F) → e.same_filter f f ≡ true) where
  keep-append :
      (p : Filter F → Bool) (l m : List (Filter F)) → keep p (l ++ m) ≡ keep p l ++ keep p m
  keep-append p [] m = refl
  keep-append p (f ∷ l) m = ground (arith, keep-append p l m)

  occurs : List (Filter F) → Filter F → Bool
  occurs l f = any (λ g. e.same_filter g f) l

  occurs-weaken :
      (g : Filter F) (l m : List (Filter F))
      → All (λ f. occurs l f ≡ true) m
      → All (λ f. occurs (g ∷ l) f ≡ true) m
  unfolding occurs
  occurs-weaken g l [] h = tt
  occurs-weaken g l (f ∷ m) h = (ground (arith, h.0), occurs-weaken g l m h.1)

  occurs_self : (l : List (Filter F)) → All (λ f. occurs l f ≡ true) l
  unfolding occurs
  occurs_self [] = tt
  occurs_self (f ∷ l) = (ground (arith, same_self f), occurs-weaken f l l (occurs_self l))

  keep-old : (l m : List (Filter F)) → All (λ f. occurs l f ≡ true) m → keep (is_new e l) m ≡ []
  unfolding occurs
  keep-old l [] h = refl
  keep-old l (f ∷ m) h = ground (arith, h.0, keep-old l m h.1)

  strip-extra :
      (extra l : List (Filter F)) → keep (is_new e extra) (l ++ extra) ≡ keep (is_new e extra) l
  strip-extra extra l =
      rw (keep-append (is_new e extra) l extra, keep-old extra extra (occurs_self extra))
        (append-nil (keep (is_new e extra) l))

  keep-all : (l : List (Filter F)) → keep (is_new e []) l ≡ l
  keep-all [] = refl
  keep-all (f ∷ l) = ground (arith, keep-all l)

  strip_policy_lem :
      (r : Registry F) (q : QueryDsl F) (who : String) (p : Policy F) (extra : List (Filter F))
      → row_level r.attrs who p.row_filters ≡ granted extra
      → strip_policy e r q who p ≡ granted (record q { filters = keep (is_new e extra) q.filters })
  unfolding strip_policy
  strip_policy_lem r q who p extra rows = rw rows refl

  stripped :
      (r : Registry F) (q : QueryDsl F) (who : String) (p : Policy F) (rules : List (RowFilter F))
      (extra : List (Filter F))
      → lookup who r.policies ≡ some p
      → p.row_filters ≡ rules
      → row_level r.attrs who p.row_filters ≡ granted extra
      → strip_rls_filters e r q (some who)
        ≡ granted (record q { filters = keep (is_new e extra) q.filters })
  unfolding strip_rls_filters
  stripped r q who p [] extra found shape rows =
      let no_rows : extra ≡ [] = unfold row_level in ground (arith, rw shape at rows) in
      rw (found, strip_rls_filters) (rw shape (rw (no_rows, keep-all q.filters) refl))
  stripped r q who p (rf ∷ rules) extra found shape rows =
      rw (found, strip_rls_filters) (rw shape (strip_policy_lem r q who p extra rows))

  -- To strip a query that the guard has let through is to strip it as it was before: the row rules that
  -- the guard had added are gone, and the same rules are looked for in the same filters.
  pub strip-apply_policy :
      (r : Registry F) (q q' : QueryDsl F) (who : String)
      → apply_policy r q (some who) ≡ granted q'
      → strip_rls_filters e r q' (some who) ≡ strip_rls_filters e r q (some who)
  strip-apply_policy r q q' who h =
      let (p, found, (_, _, extra, rows, result)) = passed r q who q' h in
      stripped r q' who p p.row_filters extra found refl rows
      ∙ (rw result (rw (strip-extra extra q.filters) refl)
          ∙ sym (stripped r q who p p.row_filters extra found refl rows))
