-- ===== src/Exec/Pool/Accounting.antt =====
-- Every connection of the pool is in one place, whatever the order of the threads.
use future_bi.Base.{
  ℕ, zero, suc, ◌+◌, ◌≤◌, ◌<◌, ◌≡◌, refl, ap, List, [], ◌∷◌, ◌++◌, arith, length, length-append,
  ltb, ◌==◌, if◌then◌else◌,
}
use future_bi.Exec.Pool.{
  Pool, Thread, Move, init, act, take, connect, connect_raising, give_back, drain, step, run,
}

-- how often a connection stands in a list
abbrev pub count : ℕ → List ℕ → ℕ
count c [] = 0
count c (d ∷ l) = (if d == c then 1 else 0) + count c l

-- the connection that a thread has
abbrev pub held : Thread → List ℕ
held t = elim t [ Thread.holds c ↦ c ∷ [] | Thread.returning c ↦ c ∷ [] | _ ↦ [] ]

abbrev pub lent : List Thread → List ℕ
lent [] = []
lent (t ∷ ts) = held t ++ lent ts

count-append : (c : ℕ) (l m : List ℕ) → count c (l ++ m) ≡ count c l + count c m
count-append c [] m = omega arith
count-append c (d ∷ l) m = omega (arith, count-append c l m)

-- Each connection that was made is idle, lent to one thread, or closed, and no other is anywhere; at
-- most as many as the capacity were made.
pub record IsValid (p : Pool) (ts : List Thread) : Type 0 where
  pub bounded : p.created ≤ p.capacity
  pub placed :
      (c : ℕ)
      → count c p.idle + count c (lent ts) + count c p.shut ≡ (if ltb c p.created then 1 else 0)
  pub total : length p.idle + length (lent ts) + length p.shut ≡ p.created

-- how many of the made connections a number stands for
abbrev made : Pool → ℕ → ℕ
made p c = if ltb c p.created then 1 else 0

-- what one action does to the places, seen by the thread that acts
record Moves (p : Pool) (l : List ℕ) (p' : Pool) (l' : List ℕ) : Type 0 where
  capacity : p'.capacity ≡ p.capacity
  bounded : p.created ≤ p.capacity → p'.created ≤ p'.capacity
  placed :
      (c : ℕ)
      → count c p'.idle + count c l' + count c p'.shut + made p c
        ≡ count c p.idle + count c l + count c p.shut + made p' c
  total :
      length p'.idle + length l' + length p'.shut + p.created
      ≡ length p.idle + length l + length p.shut + p'.created

take-Moves : (p : Pool) (t : Thread) → held t ≡ [] → Moves p [] (take p t).0 (held (take p t).1)
take-Moves p t free = record {
  capacity = ground arith;
  bounded = λ h. ground arith;
  placed = λ c. ground (arith, ap (count c) free);
  total = ground (arith, ap length free);
}

connect-Moves : (p : Pool) → Moves p [] (connect p).0 (held (connect p).1)
unfolding connect
connect-Moves p = record {
  capacity = ground arith;
  bounded = λ h. ground arith;
  placed = λ c. ground arith;
  total = ground arith;
}

connect_raising-Moves : (p : Pool) → Moves p [] (connect_raising p).0 (held (connect_raising p).1)
unfolding connect_raising
connect_raising-Moves p = record {
  capacity = ground arith;
  bounded = λ h. ground arith;
  placed = λ c. ground arith;
  total = ground arith;
}

give_back-Moves : (p : Pool) (c : ℕ) → Moves p (c ∷ []) (give_back p c).0 (held (give_back p c).1)
unfolding give_back
give_back-Moves p c = record {
  capacity = ground arith;
  bounded = λ h. ground arith;
  placed = λ d. ground (arith, count-append d p.idle (c ∷ []));
  total = ground (arith, length-append p.idle (c ∷ []));
}

drain-Moves : (p : Pool) → Moves p [] (drain p).0 (held (drain p).1)
unfolding drain
drain-Moves p = record {
  capacity = ground arith;
  bounded = λ h. ground arith;
  placed = λ c. ground arith;
  total = ground arith;
}

still : (p : Pool) (t : Thread) → Moves p (held t) p (held t)
still p t = record { capacity = refl; bounded = λ h. h; placed = λ c. refl; total = refl }

acquire-Moves :
    (p : Pool)
    → Moves p [] (act Move.acquire p Thread.outside).0 (held (act Move.acquire p Thread.outside).1)
unfolding act
acquire-Moves p = record {
  capacity = ground arith;
  bounded = λ h. ground arith;
  placed = λ c. ground arith;
  total = ground arith;
}

-- the call of `release` with a connection
release-Moves :
    (p : Pool) (c : ℕ)
    → Moves p
        (c ∷ [])
        (act Move.release p (Thread.holds c)).0
        (held (act Move.release p (Thread.holds c)).1)
unfolding act
release-Moves p c = record {
  capacity = ground arith;
  bounded = λ h. ground arith;
  placed = λ d. ground arith;
  total = ground arith;
}

-- `act` lends, takes back and closes, but loses and doubles nothing.
act-Moves : (m : Move) (p : Pool) (t : Thread) → Moves p (held t) (act m p t).0 (held (act m p t).1)
unfolding act
act-Moves Move.acquire p Thread.outside = acquire-Moves p
act-Moves Move.release p (Thread.holds c) = release-Moves p c
act-Moves Move.close p Thread.outside = record {
  capacity = refl;
  bounded = λ h. h;
  placed = λ c. refl;
  total = refl;
}
act-Moves Move.go p Thread.entered = take-Moves p Thread.missed refl
act-Moves Move.go p Thread.missed = connect-Moves p
act-Moves Move.fail p Thread.missed = connect_raising-Moves p
act-Moves Move.go p Thread.waiting = take-Moves p Thread.waiting refl
act-Moves Move.go p (Thread.returning c) = give_back-Moves p c
act-Moves Move.go p Thread.closing = drain-Moves p
act-Moves m p t = still p t

step-Moves :
    (m : Move) (i : ℕ) (p : Pool) (ts : List Thread)
    → Moves p (lent ts) (step m i p ts).0 (lent (step m i p ts).1)
unfolding step
step-Moves m i p [] = record { capacity = refl; bounded = λ h. h; placed = λ c. refl; total = refl }
step-Moves m zero p (t ∷ ts) =
    let h = act-Moves m p t in
    record {
      capacity = h.capacity;
      bounded = h.bounded;
      placed = λ c. omega (
        arith,
        h.placed c,
        count-append c (held t) (lent ts),
        count-append c (held (act m p t).1) (lent ts),
      );
      total = omega (
        arith,
        h.total,
        length-append (held t) (lent ts),
        length-append (held (act m p t).1) (lent ts),
      );
    }
step-Moves m (suc i) p (t ∷ ts) =
    let h = step-Moves m i p ts in
    record {
      capacity = h.capacity;
      bounded = h.bounded;
      placed = λ c. omega (
        arith,
        h.placed c,
        count-append c (held t) (lent ts),
        count-append c (held t) (lent (step m i p ts).1),
      );
      total = omega (
        arith,
        h.total,
        length-append (held t) (lent ts),
        length-append (held t) (lent (step m i p ts).1),
      );
    }

step-IsValid :
    (m : Move) (i : ℕ) (p : Pool) (ts : List Thread)
    → IsValid p ts
    → IsValid (step m i p ts).0 (step m i p ts).1
step-IsValid m i p ts v =
    let h = step-Moves m i p ts in
    record {
      bounded = h.bounded v.bounded;
      placed = λ c. omega (arith, h.placed c, v.placed c);
      total = omega (arith, h.total, v.total);
    }

run-IsValid :
    (l : List (Move × ℕ)) (p : Pool) (ts : List Thread)
    → IsValid p ts
    → IsValid (run l p ts).0 (run l p ts).1
unfolding run
run-IsValid [] p ts v = v
run-IsValid ((m, i) ∷ l) p ts v = run-IsValid l _ _ (step-IsValid m i p ts v)

-- all threads outside
abbrev pub idlers : ℕ → List Thread
idlers zero = []
idlers (suc n) = Thread.outside ∷ idlers n

lent-idlers : (n : ℕ) → lent (idlers n) ≡ []
lent-idlers zero = refl
lent-idlers (suc n) = lent-idlers n

init-IsValid : (capacity n : ℕ) → IsValid (init capacity) (idlers n)
unfolding init
init-IsValid capacity n = record {
  bounded = omega arith;
  placed = λ c. ground (arith, ap (count c) (lent-idlers n));
  total = omega (arith, ap length (lent-idlers n));
}

-- From a new pool, whatever any number of threads do in any order, each connection that was made is
-- idle, lent to one thread or closed, and stands in one of these places once; at most as many as the
-- capacity were made.
pub run-init-IsValid :
    (l : List (Move × ℕ)) (capacity n : ℕ)
    → IsValid (run l (init capacity) (idlers n)).0 (run l (init capacity) (idlers n)).1
run-init-IsValid l capacity n = run-IsValid l _ _ (init-IsValid capacity n)

-- In a valid pool a thread that gives its connection back is never blocked by a full queue.
give_back_fits :
    (p : Pool) (ts : List Thread) (c : ℕ)
    → IsValid p ts
    → 0 < length (lent ts)
    → (give_back p c).1 ≡ Thread.outside
unfolding give_back
give_back_fits p ts c v some_lent = ground (arith, v.bounded, v.total)
