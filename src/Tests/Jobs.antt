-- ===== src/Tests/Jobs.antt =====
-- Runs of the background tasks.
use future_bi.Base.{ℕ, ◌≡◌, refl, subst, arith, some, [], ◌∷◌}
use future_bi.Base.Dict.{lookup, insert}
use future_bi.Web.Tasks.{
  Status, Task, Manager, cleanup, submit, enter, start, snapshot, pop_all, by_age, drop_overflow,
  new_task,
}
use future_bi.Web.Tasks.Lifecycle.{IsValid, enters, cleans, starts, here, after, Reaches-IsValid}
use future_bi.Web.Tasks.Cleanup.{cleanup_spares}

abbrev idle : Manager ℕ
idle = record { max_history = 1; ttl = 60; tasks = [] }

abbrev asked : Manager ℕ
asked = submit idle 5 "t1" (some "ann")

waits : (t : Task ℕ) → lookup "t1" asked.tasks ≡ some t → t.status ≡ Status.pending
unfolding submit enter cleanup pop_all by_age drop_overflow insert lookup
waits t there =
    let same : new_task "t1" 5 (some "ann") ≡ t = ground arith in
    subst (λ u. u.status ≡ Status.pending) same refl

Reaches-IsValid_example : IsValid (start asked 6 "t1")
unfolding submit
Reaches-IsValid_example =
    Reaches-IsValid refl
      (after (after (after here (cleans 5)) (enters 5 "t1" (some "ann"))) (starts 6 "t1" waits))

-- a history of one that is full of a task that still runs
abbrev running_task : Task ℕ
running_task = record (new_task "t1" 5 (some "ann")) {
  status = Status.running;
  started_at = some 6;
}

abbrev busy : Manager ℕ
busy = record idle { max_history = 0; tasks = ("t1", running_task) ∷ [] }

seen : snapshot busy "t1" (some "ann") ≡ some running_task
unfolding snapshot lookup
seen = refl

cleanup_spares_example : lookup "t1" (cleanup busy 500).tasks ≡ some running_task
unfolding lookup
cleanup_spares_example = cleanup_spares busy 500 "t1" running_task (refl, tt) refl refl
