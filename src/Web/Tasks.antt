-- ===== src/Web/Tasks.antt =====
-- web/tasks.py, `TaskManager`: background queries. A thread takes a task through its statuses while
-- others submit, read and clean up; each block under the lock is one step, so that `submit` is two. The events
-- that `wait` waits for are left out. Results are a type `R`, of which a `None` that the function returns
-- is a value like any other; time is a number.
pub mod Lifecycle
pub mod Cleanup
use future_bi.Base.{
  ℕ, zero, suc, ◌-◌, String, Bool, true, false, ◌&&◌, Option, none, some, List, [], ◌∷◌, map, keep,
  length, ltb, leb, str_eq, if◌then◌else◌,
}
use future_bi.Base.Dict.{Dict, lookup, insert, remove}

pub data Status : Type 0 where
  pending running success failed : Status

-- `status in ("success", "failed")`
abbrev pub is_final : Status → Bool
is_final s = elim s [ Status.success ↦ true | Status.failed ↦ true | _ ↦ false ]

pub record Task (R : Type 0) : Type 0 where
  pub task_id : String
  pub status : Status
  pub created_at : ℕ
  pub started_at : Option ℕ
  pub finished_at : Option ℕ
  pub result : Option R
  pub error : Option String
  pub owner : Option String

pub record Manager (R : Type 0) : Type 0 where
  pub max_history : ℕ
  pub ttl : ℕ
  pub tasks : Dict (Task R)

-- what the submitted function does
pub data Outcome (R : Type 0) : Type 0 where
  returned : R → Outcome R
  raised : String → Outcome R

-- whether `task.get("owner") != owner` does not refuse
abbrev pub is_owned : Option String → String → Bool
is_owned none who = false
is_owned (some o) who = str_eq o who

module _ {R : Type 0} where
  -- final, and finished for longer than the TTL
  abbrev pub is_expired : ℕ → ℕ → Task R → Bool
  is_expired ttl now t =
      is_final t.status && elim t.finished_at [ none ↦ false | some at ↦ ltb ttl (now - at) ]

  unfoldable pub pop_all : List String → Dict (Task R) → Dict (Task R)
  pop_all [] d = d
  pop_all (id ∷ ids) d = pop_all ids (remove id d)

  -- `sorted(..., key=created_at)`, which is stable
  unfoldable pub insert_by_age : String × Task R → Dict (Task R) → Dict (Task R)
  insert_by_age e [] = e ∷ []
  insert_by_age e (f ∷ l) =
      let rest = insert_by_age e l in
      if leb e.1.created_at f.1.created_at then e ∷ f ∷ l else f ∷ rest

  unfoldable pub by_age : Dict (Task R) → Dict (Task R)
  by_age [] = []
  by_age (e ∷ l) = insert_by_age e (by_age l)

  -- the loop over the sorted entries: final ones go while there are too many
  unfoldable pub drop_overflow : ℕ → Dict (Task R) → Dict (Task R) → Dict (Task R)
  drop_overflow overflow [] d = d
  drop_overflow zero (e ∷ l) d = d
  drop_overflow (suc n) (e ∷ l) d =
      let dropped = drop_overflow n l (remove e.0 d) in
      let kept = drop_overflow (suc n) l d in if is_final e.1.status then dropped else kept

  -- `_cleanup_locked`
  unfoldable pub cleanup : Manager R → ℕ → Manager R
  cleanup m now =
      let fresh : Dict (Task R) =
        pop_all (map (λ e. e.0) (keep (λ e. is_expired m.ttl now e.1) m.tasks)) m.tasks in
      record m { tasks = drop_overflow (length fresh - m.max_history) (by_age fresh) fresh }

  abbrev pub new_task : String → ℕ → Option String → Task R
  new_task id now owner = record {
    task_id = id;
    status = Status.pending;
    created_at = now;
    started_at = none;
    finished_at = none;
    result = none;
    error = none;
    owner = owner;
  }

  -- the locked block of `submit` after the cleanup, for the id that `uuid4` made
  unfoldable pub enter : Manager R → ℕ → String → Option String → Manager R
  enter m now id owner = record m { tasks = insert id (new_task id now owner) m.tasks }

  -- `submit`, with no other thread between the cleanup and the entry
  unfoldable pub submit : Manager R → ℕ → String → Option String → Manager R
  submit m now id owner = enter (cleanup m now) now id owner

  -- a change of a task that is still there
  unfoldable pub update : String → (Task R → Task R) → Manager R → Manager R
  update id f m = elim (lookup id m.tasks) [
    | none ↦ m
    | some t ↦ record m { tasks = insert id (f t) m.tasks }
  ]

  -- `_run`, before the function is called
  unfoldable pub start : Manager R → ℕ → String → Manager R
  start m now id = update id (λ t. record t { status = Status.running; started_at = some now }) m

  abbrev pub ended : ℕ → Outcome R → Task R → Task R
  ended now (returned r) t = record t {
    status = Status.success;
    result = some r;
    error = none;
    finished_at = some now;
  }
  ended now (raised e) t = record t {
    status = Status.failed;
    result = none;
    error = some e;
    finished_at = some now;
  }

  -- `_run`, after it
  unfoldable pub finish : Manager R → ℕ → String → Outcome R → Manager R
  finish m now id o = update id (ended now o) m

  unfoldable pub snapshot : Manager R → String → Option String → Option (Task R)
  snapshot m id none = lookup id m.tasks
  snapshot m id (some who) = elim (lookup id m.tasks) [
    | none ↦ none
    | some t ↦ if is_owned t.owner who then some t else none
  ]
