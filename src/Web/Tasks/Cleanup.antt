-- ===== src/Web/Tasks/Cleanup.antt =====
-- A cleanup takes away finished tasks only.
use future_bi.Base.{
  ℕ, zero, suc, String, ◌≡◌, refl, sym, ◌∙◌, inl, inr, Bool, true, false, none, some, List, [], ◌∷◌,
  map, keep, contains, arith, str_eq, eq_iff, leb, Bool-cases, All,
}
use future_bi.Base.Dict.{Dict, lookup, remove, IsDistinct, remove-IsDistinct}
use future_bi.Web.Tasks.{
  Task, Manager, cleanup, pop_all, by_age, insert_by_age, drop_overflow, is_final, is_expired,
}

module _ {R : Type 0} where
  remove_other :
      (d : Dict (Task R)) (k id : String)
      → str_eq k id ≡ false
      → lookup id (remove k d) ≡ lookup id d
  unfolding lookup remove
  remove_other [] k id h = refl
  remove_other ((j, t) ∷ d) k id h =
      ground (arith, remove_other d k id, eq_iff j k, eq_iff j id, eq_iff k id)

  pop_others :
      (ids : List String) (d : Dict (Task R)) (id : String)
      → contains ids id ≡ false
      → lookup id (pop_all ids d) ≡ lookup id d
  unfolding pop_all
  pop_others [] d id h = refl
  pop_others (k ∷ ids) d id h = ground (arith, pop_others ids (remove k d) id, remove_other d k id)

  kept_absent :
      (p : Task R → Bool) (d : Dict (Task R)) (id : String)
      → lookup id d ≡ none
      → contains (map (λ e. e.0) (keep (λ e. p e.1) d)) id ≡ false
  unfolding lookup
  kept_absent p [] id h = refl
  kept_absent p ((j, t) ∷ d) id h = ground (arith, kept_absent p d id)

  kept_not :
      (p : Task R → Bool) (d : Dict (Task R)) (id : String) (t : Task R)
      → IsDistinct d
      → lookup id d ≡ some t
      → p t ≡ false
      → contains (map (λ e. e.0) (keep (λ e. p e.1) d)) id ≡ false
  unfolding lookup
  kept_not p [] id t h there not_p = refl
  kept_not p ((j, s) ∷ d) id t h there not_p = elim (Bool-cases (str_eq j id)) [
    | inl here ↦
        let own : s ≡ t = ground arith in
        let absent : lookup id d ≡ none = rw (sym ((eq_iff j id).0 here)) h.0 in
        ground (arith, kept_absent p d id absent)
    | inr other ↦ ground (arith, kept_not p d id t h.1 (ground arith) not_p)
  ]

  -- a final entry is another's
  abbrev Spares : String → String × Task R → Type 0
  Spares id e = is_final e.1.status ≡ true → str_eq e.0 id ≡ false

  insert-Spares :
      (id : String) (e : String × Task R) (l : Dict (Task R))
      → Spares id e
      → All (Spares id) l
      → All (Spares id) (insert_by_age e l)
  unfolding insert_by_age
  insert-Spares id e [] p h = (p, tt)
  insert-Spares id e (f ∷ l) p h = elim (Bool-cases (leb e.1.created_at f.1.created_at)) [
    | inl older ↦ rw older (p, h)
    | inr younger ↦ rw younger (h.0, insert-Spares id e l p h.1)
  ]

  by_age-Spares : (id : String) (l : Dict (Task R)) → All (Spares id) l → All (Spares id) (by_age l)
  unfolding by_age
  by_age-Spares id [] h = tt
  by_age-Spares id (e ∷ l) h = insert-Spares id e (by_age l) h.0 (by_age-Spares id l h.1)

  drop_keeps :
      (n : ℕ) (l d : Dict (Task R)) (id : String)
      → All (Spares id) l
      → lookup id (drop_overflow n l d) ≡ lookup id d
  unfolding drop_overflow
  drop_keeps n [] d id h = refl
  drop_keeps zero (e ∷ l) d id h = refl
  drop_keeps (suc n) (e ∷ l) d id h = elim (Bool-cases (is_final e.1.status)) [
    | inl final ↦
        rw final (drop_keeps n l (remove e.0 d) id h.1 ∙ remove_other d e.0 id (h.0 final))
    | inr live ↦ rw live (drop_keeps (suc n) l d id h.1)
  ]

  absent-Spares : (id : String) (d : Dict (Task R)) → lookup id d ≡ none → All (Spares id) d
  unfolding lookup
  absent-Spares id [] h = tt
  absent-Spares id ((j, s) ∷ d) h = elim (Bool-cases (str_eq j id)) [
    | inl here ↦ absurd (ground arith)
    | inr other ↦ (λ final. other, absent-Spares id d (ground arith))
  ]

  live-Spares :
      (id : String) (t : Task R) (d : Dict (Task R))
      → IsDistinct d
      → lookup id d ≡ some t
      → is_final t.status ≡ false
      → All (Spares id) d
  unfolding lookup
  live-Spares id t [] h there live = tt
  live-Spares id t ((j, s) ∷ d) h there live = elim (Bool-cases (str_eq j id)) [
    | inl here ↦
        let own : s ≡ t = ground arith in
        let absent : lookup id d ≡ none = rw (sym ((eq_iff j id).0 here)) h.0 in
        (λ final. absurd (ground arith), absent-Spares id d absent)
    | inr other ↦ (λ final. other, live-Spares id t d h.1 (ground arith) live)
  ]

  pop_all-IsDistinct :
      (ids : List String) (d : Dict (Task R)) → IsDistinct d → IsDistinct (pop_all ids d)
  unfolding pop_all
  pop_all-IsDistinct [] d h = h
  pop_all-IsDistinct (id ∷ ids) d h =
      pop_all-IsDistinct ids (remove id d) (remove-IsDistinct id d h)

  -- A task that has not ended survives every cleanup, however old it is and however full the history.
  pub cleanup_spares :
      (m : Manager R) (now : ℕ) (id : String) (t : Task R)
      → IsDistinct m.tasks
      → lookup id m.tasks ≡ some t
      → is_final t.status ≡ false
      → lookup id (cleanup m now).tasks ≡ some t
  unfolding cleanup
  cleanup_spares m now id t distinct there live =
      let expired = map (λ e. e.0) (keep (λ e. is_expired m.ttl now e.1) m.tasks) in
      let left : lookup id (pop_all expired m.tasks) ≡ some t =
        pop_others expired m.tasks id
          (kept_not (is_expired m.ttl now) m.tasks id t distinct there (ground arith))
        ∙ there in
      drop_keeps _ _ (pop_all expired m.tasks) id (
        by_age-Spares id (pop_all expired m.tasks) (
          live-Spares id t (pop_all expired m.tasks) (pop_all-IsDistinct expired m.tasks distinct)
            left live))
      ∙ left
