-- ===== src/Exec/QueryCache/Evict.antt =====
-- The eviction loop of `QueryCache.put`, and removal from an ordered dictionary.
use mathlib.Core.List.{tail}
use future_bi.Base.{
  ℕ, suc, ◌≤◌, ◌<◌, String, ◌≡◌, ◌≢◌, refl, none, some, List, [], ◌∷◌, ◌++◌, arith, eq_iff, length,
}
use future_bi.Base.Dict.{Dict, lookup, remove, IsDistinct, lookup-remove, lookup-append}
use future_bi.Exec.QueryCache.{evict}

pub evict_fits {ℓ} : {A : Type ℓ} (n : ℕ) (d : List A) → length d ≤ n → evict n d ≡ d
unfolding evict
evict_fits n [] h = refl
evict_fits n (e ∷ d) h = ground arith

pub evict_one {ℓ} : {A : Type ℓ} (n : ℕ) (d : List A) → length d ≡ suc n → evict n d ≡ tail d
unfolding evict
evict_one n [] h = refl
evict_one n (e ∷ d) h = ground (arith, evict_fits n d)

pub length-evict-le {ℓ} : {A : Type ℓ} (n : ℕ) (d : List A) → length (evict n d) ≤ n
unfolding evict
length-evict-le n [] = omega arith
length-evict-le n (e ∷ d) = ground (arith, length-evict-le n d)

module _ {ℓ} {V : Type ℓ} where
  pub evict-IsDistinct : (n : ℕ) (d : Dict V) → IsDistinct d → IsDistinct (evict n d)
  unfolding evict
  evict-IsDistinct n [] h = h
  evict-IsDistinct n ((k, v) ∷ d) h = ground (arith, evict-IsDistinct n d)

  pub remove-append_ne :
      (j k : String) (v : V) (d : Dict V)
      → j ≢ k
      → remove j (d ++ (k, v) ∷ []) ≡ remove j d ++ (k, v) ∷ []
  unfolding remove
  remove-append_ne j k v [] h = ground (arith, eq_iff k j)
  remove-append_ne j k v ((i, w) ∷ d) h = ground (arith, remove-append_ne j k v d)

  -- the last but one entry survives an overflow by one, if two fit
  pub lookup-evict :
      (n : ℕ) (k j : String) (v w : V) (d : Dict V)
      → 2 ≤ n
      → length (d ++ (k, v) ∷ (j, w) ∷ []) ≤ suc n
      → lookup k d ≡ none
      → lookup k (evict n (d ++ (k, v) ∷ (j, w) ∷ [])) ≡ some v
  unfolding lookup evict
  lookup-evict n k j v w [] two size out = ground (arith, eq_iff k k)
  lookup-evict n k j v w ((i, u) ∷ d) two size out = ground (
    arith,
    evict_fits n (d ++ (k, v) ∷ (j, w) ∷ []),
    lookup-append k d ((k, v) ∷ (j, w) ∷ []),
    eq_iff k k,
  )

  pub lookup-evict_last :
      (n : ℕ) (k : String) (v : V) (d : Dict V)
      → length (d ++ (k, v) ∷ []) ≤ suc n
      → 0 < n
      → lookup k d ≡ none
      → lookup k (evict n (d ++ (k, v) ∷ [])) ≡ some v
  unfolding lookup evict
  lookup-evict_last n k v [] size one out = ground (arith, eq_iff k k)
  lookup-evict_last n k v ((i, u) ∷ d) size one out =
      ground (arith, evict_fits n (d ++ (k, v) ∷ []), lookup-append k d ((k, v) ∷ []), eq_iff k k)

  pub removed : (k : String) (d : Dict V) → IsDistinct d → lookup k (remove k d) ≡ none
  removed k d h = ground (arith, lookup-remove k k d h, eq_iff k k)

  -- the last entry survives every eviction, if one fits
  pub lookup-evict_end :
      (n : ℕ) (k : String) (v : V) (d : Dict V)
      → 0 < n
      → lookup k d ≡ none
      → lookup k (evict n (d ++ (k, v) ∷ [])) ≡ some v
  unfolding lookup evict
  lookup-evict_end n k v [] pos out = ground (arith, eq_iff k k)
  lookup-evict_end n k v ((i, w) ∷ d) pos out =
      ground (arith, lookup-evict_end n k v d, lookup-append k d ((k, v) ∷ []), eq_iff k k)
