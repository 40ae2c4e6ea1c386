-- ===== src/Exec/QueryCache/Lru.antt =====
-- What `QueryCache` promises: the capacity, reads after writes, and which entry an overflow drops.
use mathlib.Core.List.{tail, append_assoc}
use future_bi.Base.{
  ℕ, ◌-◌, ◌≤◌, ◌<◌, String, ◌≡◌, ◌≢◌, refl, none, some, [], ◌∷◌, ◌++◌, arith, eq_iff, ltb, false,
  Option-cases, Bool-cases, inl, inr, if◌then◌else◌, length, length-append,
}
use future_bi.Base.Dict.{
  Dict, lookup, remove, push_end, move_to_end, move_to_end-insert, lookup-push_end,
  push_end-IsDistinct, remove-IsDistinct, length-remove, length-remove-le, lookup-remove,
}
use future_bi.Exec.QueryCache.{QueryCache, Payload, IsValid, init, get, put, is_stale}
use future_bi.Exec.QueryCache.Evict.{
  evict_fits, evict_one, length-evict-le, evict-IsDistinct, remove-append_ne, lookup-evict,
  lookup-evict_last, removed,
}

module _ {Cell : Type 0} where
  pub init-IsValid : (max_entries ttl : ℕ) → IsValid (init {Cell = Cell} max_entries ttl)
  unfolding init
  init-IsValid max_entries ttl = record {
    positive = omega arith;
    bounded = omega arith;
    distinct = tt;
  }

  -- A write to a valid cache keeps it within its capacity and every key unique.
  pub put-IsValid :
      (c : QueryCache Cell) (now : ℕ) (key : String) (p : Payload Cell)
      → IsValid c
      → IsValid (put c now key p)
  unfolding put
  put-IsValid c now key p h = record {
    positive = h.positive;
    bounded = length-evict-le c.max_entries _;
    distinct = rw move_to_end-insert (
        evict-IsDistinct c.max_entries (push_end key (now, p) c.store)
          (push_end-IsDistinct key (now, p) c.store h.distinct));
  }

  length-push_end :
      (key : String) (v w : ℕ × Payload Cell) (d : Dict (ℕ × Payload Cell))
      → lookup key d ≡ some w
      → length (push_end key v d) ≡ length d
  length-push_end key v w d e =
      omega (arith, length-append (remove key d) ((key, v) ∷ []), length-remove key w d e)

  hit-IsValid :
      (c : QueryCache Cell) (key : String) (item : ℕ × Payload Cell)
      → lookup key c.store ≡ some item
      → IsValid c
      → IsValid (record c { store = move_to_end key c.store })
  unfolding move_to_end
  hit-IsValid c key item hit h =
      rw (hit, move_to_end)
        (record {
          positive = h.positive;
          bounded = omega (arith, h.bounded, length-push_end key item item c.store hit);
          distinct = push_end-IsDistinct key item c.store h.distinct;
        })

  drop-IsValid :
      (c : QueryCache Cell) (key : String)
      → IsValid c
      → IsValid (record c { store = remove key c.store })
  drop-IsValid c key h = record {
    positive = h.positive;
    bounded = omega (arith, h.bounded, length-remove-le key c.store);
    distinct = remove-IsDistinct key c.store h.distinct;
  }

  -- A read of a valid cache keeps it within its capacity and every key unique, whether it hits,
  -- misses or drops a stale entry.
  pub get-IsValid :
      (c : QueryCache Cell) (now : ℕ) (key : String) → IsValid c → IsValid (get c now key).0
  unfolding get
  get-IsValid c now key h = elim (Option-cases (lookup key c.store)) [
    | inl miss ↦ rw (miss, get) h
    | inr ((at, p), hit) ↦ elim (Bool-cases (is_stale c now at)) [
      | inl stale ↦ rw (hit, get) (rw stale (drop-IsValid c key h))
      | inr fresh ↦ rw (hit, get) (rw fresh (hit-IsValid c key (at, p) hit h))
    ]
  ]

  -- A read returns the payload of the entry at the key exactly when there is one within its TTL.
  pub get-result :
      (c : QueryCache Cell) (now : ℕ) (key : String)
      → (get c now key).1 ≡ elim (lookup key c.store) [
        | none ↦ none
        | some (at, p) ↦ if is_stale c now at then none else some p
      ]
  unfolding get
  get-result c now key = ground arith

  lookup-put_self :
      (c : QueryCache Cell) (now : ℕ) (key : String) (p : Payload Cell)
      → IsValid c
      → lookup key (put c now key p).store ≡ some (now, p)
  unfolding put
  lookup-put_self c now key p h = rw move_to_end-insert (
      lookup-evict_last c.max_entries key (now, p) (remove key c.store)
        (omega (
          arith,
          h.bounded,
          length-append (remove key c.store) ((key, (now, p)) ∷ []),
          length-remove-le key c.store,
        ))
        h.positive (removed key c.store h.distinct))

  -- In a valid cache a read after a write of the same key returns the payload until the TTL has
  -- passed, then nothing.
  pub get-put :
      (c : QueryCache Cell) (now later : ℕ) (key : String) (p : Payload Cell)
      → IsValid c
      → (get (put c now key p) later key).1 ≡ (if ltb c.ttl (later - now) then none else some p)
  get-put c now later key p h = rw (get-result, lookup-put_self c now key p h) (unfold put in refl)

  -- A write that fits changes no other key.
  pub lookup-put_ne :
      (c : QueryCache Cell) (now : ℕ) (key j : String) (p : Payload Cell)
      → IsValid c
      → key ≢ j
      → length (remove key c.store) < c.max_entries
      → lookup j (put c now key p).store ≡ lookup j c.store
  unfolding put
  lookup-put_ne c now key j p h ne fits = rw move_to_end-insert (
      rw
        (evict_fits c.max_entries (push_end key (now, p) c.store)
          (omega (arith, length-append (remove key c.store) ((key, (now, p)) ∷ []))))
        (ground (arith, lookup-push_end key j (now, p) c.store h.distinct, eq_iff key j)))

  -- A write to a valid cache that is full without the key drops one entry, the first of the store,
  -- and appends the new one at the end.
  pub put_drops_oldest :
      (c : QueryCache Cell) (now : ℕ) (key : String) (p : Payload Cell)
      → IsValid c
      → length (remove key c.store) ≡ c.max_entries
      → (put c now key p).store ≡ tail (remove key c.store ++ (key, (now, p)) ∷ [])
  unfolding put
  put_drops_oldest c now key p h full = rw move_to_end-insert (
      evict_one c.max_entries (push_end key (now, p) c.store)
        (omega (arith, length-append (remove key c.store) ((key, (now, p)) ∷ []))))

  get_hit :
      (c : QueryCache Cell) (now : ℕ) (key : String) (p : Payload Cell)
      → (get c now key).1 ≡ some p
      → (at : ℕ) × (lookup key c.store ≡ some (at, p))
        × (is_stale c now at ≡ false)
        × ((get c now key).0 ≡ record c { store = push_end key (at, p) c.store })
  unfolding get
  get_hit c now key p e = elim (Option-cases (lookup key c.store)) [
    | inl miss ↦ absurd (ground arith)
    | inr ((at, p'), hit) ↦ elim (Bool-cases (is_stale c now at)) [
      | inl stale ↦ absurd (ground arith)
      | inr fresh ↦ (at, ground arith, fresh, unfold move_to_end in ground arith)
    ]
  ]

  survives :
      (c : QueryCache Cell) (later : ℕ) (key j : String) (item : ℕ × Payload Cell)
      (q : Payload Cell)
      → IsValid c
      → 2 ≤ c.max_entries
      → j ≢ key
      → lookup key c.store ≡ some item
      → lookup key (put (record c { store = push_end key item c.store }) later j q).store
        ≡ some item
  unfolding put
  survives c later key j item q h two ne found =
      rw (move_to_end-insert, remove-append_ne j key item (remove key c.store) ne, append_assoc)
        (lookup-evict c.max_entries key j item (later, q) (remove j (remove key c.store)) two
          (omega (
            arith,
            h.bounded,
            length-append (remove j (remove key c.store)) ((key, item) ∷ (j, (later, q)) ∷ []),
            length-remove-le j (remove key c.store),
            length-remove key item c.store found,
          ))
          (ground (
            arith,
            lookup-remove j key (remove key c.store) (remove-IsDistinct key c.store h.distinct),
            removed key c.store h.distinct,
          )))

  -- In a valid cache for two or more, an entry that was just read survives the next write of another
  -- key, and a read finds it again.
  pub get_protects :
      (c : QueryCache Cell) (now later : ℕ) (key j : String) (p q : Payload Cell)
      → IsValid c
      → 2 ≤ c.max_entries
      → j ≢ key
      → (get c now key).1 ≡ some p
      → (get (put (get c now key).0 later j q) now key).1 ≡ some p
  get_protects c now later key j p q h two ne hit =
      let (at, found, fresh, after) = get_hit c now key p hit in
      rw (after, get-result, survives c later key j (at, p) q h two ne found)
        (unfold put in rw fresh refl)
