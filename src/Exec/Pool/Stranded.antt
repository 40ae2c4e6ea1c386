-- ===== src/Exec/Pool/Stranded.antt =====
-- What `close` does to the threads that are blocked in `acquire`.
use future_bi.Base.{ℕ, zero, suc, ◌≡◌, refl, List, [], ◌∷◌, arith, Bool, true, false, any}
use future_bi.Exec.Pool.{Pool, Thread, Move, act, step, run}

-- in `release`, past the check of `_closed`: about to put a connection into the queue
abbrev pub is_returning : Thread → Bool
is_returning t = elim t [ Thread.returning c ↦ true | _ ↦ false ]

-- the thread at a place is blocked in `acquire`
abbrev pub WaitsAt : ℕ → List Thread → Type 0
WaitsAt i [] = ⊥
WaitsAt zero (t ∷ ts) = t ≡ Thread.waiting
WaitsAt (suc i) (t ∷ ts) = WaitsAt i ts

-- a closed pool with an empty queue
pub record IsDrained (p : Pool) : Type 0 where
  pub closed : p.is_closed ≡ true
  pub empty : p.idle ≡ []

act-IsDrained :
    (m : Move) (p : Pool) (t : Thread)
    → IsDrained p
    → is_returning t ≡ false
    → IsDrained (act m p t).0 × (is_returning (act m p t).1 ≡ false)
unfolding act
act-IsDrained Move.acquire p Thread.outside d quiet = ground arith
act-IsDrained Move.release p (Thread.holds c) d quiet = ground arith
act-IsDrained Move.close p Thread.outside d quiet = ground arith
act-IsDrained Move.go p Thread.entered d quiet = ground arith
act-IsDrained Move.go p Thread.missed d quiet = ground arith
act-IsDrained Move.fail p Thread.missed d quiet = ground arith
act-IsDrained Move.go p Thread.waiting d quiet = ground arith
act-IsDrained Move.go p (Thread.returning c) d quiet = absurd (ground arith)
act-IsDrained Move.go p Thread.closing d quiet = ground arith
act-IsDrained m p t d quiet = (d, quiet)

act-waiting : (m : Move) (p : Pool) → IsDrained p → (act m p Thread.waiting).1 ≡ Thread.waiting
unfolding act
act-waiting Move.go p d = ground arith
act-waiting m p d = refl

step-IsDrained :
    (m : Move) (i : ℕ) (p : Pool) (ts : List Thread)
    → IsDrained p
    → any is_returning ts ≡ false
    → IsDrained (step m i p ts).0 × (any is_returning (step m i p ts).1 ≡ false)
unfolding step
step-IsDrained m i p [] d quiet = (d, quiet)
step-IsDrained m zero p (t ∷ ts) d quiet = ground (arith, act-IsDrained m p t d (ground arith))
step-IsDrained m (suc i) p (t ∷ ts) d quiet =
    ground (arith, step-IsDrained m i p ts d (ground arith))

step-WaitsAt :
    (m : Move) (i j : ℕ) (p : Pool) (ts : List Thread)
    → IsDrained p
    → WaitsAt j ts
    → WaitsAt j (step m i p ts).1
unfolding step
step-WaitsAt m i j p [] d w = w
step-WaitsAt m zero zero p (t ∷ ts) d w = rw w (act-waiting m p d)
step-WaitsAt m zero (suc j) p (t ∷ ts) d w = w
step-WaitsAt m (suc i) zero p (t ∷ ts) d w = w
step-WaitsAt m (suc i) (suc j) p (t ∷ ts) d w = step-WaitsAt m i j p ts d w

-- Once the pool is closed and its queue is empty, and no thread is about to put a connection back, a
-- thread that is blocked in `acquire` stays blocked whatever the threads do, also when every lent
-- connection is released.
pub run-WaitsAt :
    (l : List (Move × ℕ)) (j : ℕ) (p : Pool) (ts : List Thread)
    → IsDrained p
    → any is_returning ts ≡ false
    → WaitsAt j ts
    → WaitsAt j (run l p ts).1
unfolding run
run-WaitsAt [] j p ts d quiet w = w
run-WaitsAt ((m, i) ∷ l) j p ts d quiet w =
    let (d', quiet') = step-IsDrained m i p ts d quiet in
    run-WaitsAt l j _ _ d' quiet' (step-WaitsAt m i j p ts d w)
