-- ===== src/Exec/Pool.antt =====
-- exec/pool.py, `ReadOnlyConnectionPool`: its threads, each at some point of `acquire`, `release` or
-- `close`, run one atomic action at a time, in any order. The connections are numbered as they are made.
pub mod Accounting
pub mod Stranded
use future_bi.Base.{
  ℕ, zero, suc, ◌+◌, Bool, true, false, List, [], ◌∷◌, ◌++◌, length, ltb, if◌then◌else◌,
}

pub record Pool : Type 0 where
  pub capacity : ℕ
  pub created : ℕ
  pub idle : List ℕ
  pub is_closed : Bool
  -- the connections that have been closed
  pub shut : List ℕ

-- Where a thread stands: outside the pool, in `acquire` past the check of `_closed`, past the empty
-- queue, or blocked in `get`; with a connection, and in `release` past the check; in the loop of `close`.
pub data Thread : Type 0 where
  outside entered missed waiting closing : Thread
  holds : ℕ → Thread
  returning : ℕ → Thread

-- A thread calls an operation, or goes on with the one it is in; with `fail` as with `go`, but a
-- `duckdb.connect` that it comes to raises.
pub data Move : Type 0 where
  acquire release close go fail : Move

unfoldable pub init : ℕ → Pool
init capacity = record { capacity = capacity; created = 0; idle = []; is_closed = false; shut = [] }

-- `get_nowait`, or a blocked `get`: `other` is what a thread does while the queue is empty
abbrev pub take : Pool → Thread → Pool × Thread
take p other = elim p.idle [
  | [] ↦ (p, other)
  | c ∷ rest ↦ (record p { idle = rest }, Thread.holds c)
]

-- the block under the lock
unfoldable pub connect : Pool → Pool × Thread
connect p =
    if ltb p.created p.capacity
    then (record p { created = p.created + 1 }, Thread.holds p.created)
    else (p, Thread.waiting)

-- the block under the lock when `duckdb.connect` raises: the exception leaves `acquire`
unfoldable pub connect_raising : Pool → Pool × Thread
connect_raising p = if ltb p.created p.capacity then (p, Thread.outside) else (p, Thread.waiting)

-- `_queue.put`, which blocks while the queue is full
unfoldable pub give_back : Pool → ℕ → Pool × Thread
give_back p c =
    if ltb (length p.idle) p.capacity
    then (record p { idle = p.idle ++ c ∷ [] }, Thread.outside)
    else (p, Thread.returning c)

-- a round of the loop of `close`
unfoldable pub drain : Pool → Pool × Thread
drain p = elim p.idle [
  | [] ↦ (p, Thread.outside)
  | c ∷ rest ↦ (record p { idle = rest; shut = c ∷ p.shut }, Thread.closing)
]

-- the next atomic action of a thread; a call that its place does not allow changes nothing
unfoldable pub act : Move → Pool → Thread → Pool × Thread
unfolding connect connect_raising give_back drain
act Move.acquire p Thread.outside = if p.is_closed then (p, Thread.outside) else (p, Thread.entered)
act Move.release p (Thread.holds c) =
    if p.is_closed
    then (record p { shut = c ∷ p.shut }, Thread.outside)
    else (p, Thread.returning c)
act Move.close p Thread.outside = (record p { is_closed = true }, Thread.closing)
act Move.go p Thread.entered = take p Thread.missed
act Move.go p Thread.missed = connect p
act Move.fail p Thread.missed = connect_raising p
act Move.go p Thread.waiting = take p Thread.waiting
act Move.go p (Thread.returning c) = give_back p c
act Move.go p Thread.closing = drain p
act m p t = (p, t)

-- the move of the thread at a place
unfoldable pub step : Move → ℕ → Pool → List Thread → Pool × List Thread
step m i p [] = (p, [])
step m zero p (t ∷ ts) = let (p', t') = act m p t in (p', t' ∷ ts)
step m (suc i) p (t ∷ ts) = let (p', ts') = step m i p ts in (p', t ∷ ts')

-- a schedule of moves
unfoldable pub run : List (Move × ℕ) → Pool → List Thread → Pool × List Thread
run [] p ts = (p, ts)
run ((m, i) ∷ l) p ts = let (p', ts') = step m i p ts in run l p' ts'
