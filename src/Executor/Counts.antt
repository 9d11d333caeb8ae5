-- ===== src/Executor/Counts.antt =====
-- The counters of blocking_executor.cc and the threads that there are.
use galay_kernel.Prelude.{
  ℕ, suc, ◌+◌, ◌-◌, ◌≤◌, ◌<◌, ◌≡◌, refl, ap, Bool, true, not, ◌&&◌, List, [], ◌∷◌, ◌++◌, arith, ltb,
  ◌==◌, if◌then◌else◌, if_elim, is_empty, length, length-append, count, count-append,
}
use galay_kernel.Executor
use galay_kernel.Executor.{
  Executor, Outcome, accepted, failed, stopping, After, quiet, notifies, spawns, submit, Place,
  runs, waits, gone, retire, next_task, wake, shut_down, init,
}

-- The executor with the numbers of its threads that run a task and that wait, and the tasks accepted
-- and those that a thread has started, the latest first.
pub record System : Type 0 where
  pub executor : Executor
  pub running : ℕ
  pub waiting : ℕ
  pub taken_over : List ℕ
  pub started : List ℕ

pub data Event : Type 0 where
  submits : (task : ℕ) → Event
  finishes : Event  -- a running worker ends its task
  wakes : (ready : Bool) → Event  -- a waiting worker gets the mutex back
  shuts_down : Event

abbrev pub runs_more : Place → ℕ
runs_more (runs task) = 1
runs_more (waits can_time_out) = 0
runs_more gone = 0

abbrev pub waits_more : Place → ℕ
waits_more (runs task) = 0
waits_more (waits can_time_out) = 1
waits_more gone = 0

abbrev pub spawned : After → ℕ
spawned quiet = 0
spawned notifies = 0
spawned (spawns task) = 1

abbrev pub begun : Place → List ℕ
begun (runs task) = task ∷ []
begun (waits can_time_out) = []
begun gone = []

abbrev pub spawned_task : After → List ℕ
spawned_task quiet = []
spawned_task notifies = []
spawned_task (spawns task) = task ∷ []

abbrev pub taken : Outcome → ℕ → List ℕ
taken accepted task = task ∷ []
taken (failed code) task = []

-- Events for which there is no thread change nothing.
abbrev pub step : Event → System → System
step (submits task) s =
    let (out, after, e) = submit task s.executor in
    record {
      executor = e;
      running = s.running + spawned after;
      waiting = s.waiting;
      taken_over = taken out task ++ s.taken_over;
      started = spawned_task after ++ s.started;
    }
step finishes s =
    if s.running == 0
    then s
    else (let (place, e) = next_task s.executor in
        record {
          executor = e;
          running = (s.running - 1) + runs_more place;
          waiting = s.waiting + waits_more place;
          taken_over = s.taken_over;
          started = begun place ++ s.started;
        })
step (wakes ready) s =
    if s.waiting == 0
    then s
    else (let (place, e) = wake ready s.executor in
        record {
          executor = e;
          running = s.running + runs_more place;
          waiting = (s.waiting - 1) + waits_more place;
          taken_over = s.taken_over;
          started = begun place ++ s.started;
        })
step shuts_down s = record s { executor = shut_down s.executor }

abbrev pub run : List Event → System → System
run [] s = s
run (e ∷ es) s = run es (step e s)

abbrev pub start : ℕ → ℕ → System
start min_workers max_workers = record {
  executor = init min_workers max_workers;
  running = 0;
  waiting = 0;
  taken_over = [];
  started = [];
}

-- The counters are the numbers of threads, never more than the maximum; queued tasks have a thread
-- to run them; each task was accepted as often as it has been started and is queued, taken together.
pub record Sound (s : System) : Type 0 where
  pub workers : s.executor.worker_count ≡ s.running + s.waiting
  pub idle : s.executor.idle_workers ≡ s.waiting
  pub bounded : s.executor.worker_count ≤ s.executor.max_workers
  pub some_allowed : 0 < s.executor.max_workers
  pub served : 0 < length s.executor.tasks → 0 < s.executor.worker_count
  pub conserved : (a : ℕ) → count a s.taken_over ≡ count a s.started + count a s.executor.tasks

submits-Sound : (task : ℕ) (s : System) → Sound s → Sound (step (submits task) s)
unfolding submit
submits-Sound task s g =
    let more : length (s.executor.tasks ++ task ∷ []) ≡ length s.executor.tasks + 1 =
      length-append s.executor.tasks (task ∷ []) in
    record {
      workers = ground (arith, g.workers);
      idle = ground (arith, g.idle);
      bounded = ground (arith, g.bounded);
      some_allowed = ground (arith, g.some_allowed);
      served = λ h. ground (arith, g.served, g.workers, g.idle, g.some_allowed, h);
      conserved = λ a. ground (arith, g.conserved a, count-append a s.executor.tasks (task ∷ []));
    }

-- A worker that has the mutex and no task in hand, counted among none: what it does next.
settle-Sound :
    (e : Executor) (running waiting : ℕ) (taken_over started tasks : List ℕ)
    → e.tasks ≡ tasks
    → e.worker_count ≡ suc (running + waiting)
    → e.idle_workers ≡ waiting
    → e.worker_count ≤ e.max_workers
    → ((a : ℕ) → count a taken_over ≡ count a started + count a tasks)
    → let (place, e') = Executor.settle e tasks in
      Sound (record {
        executor = e';
        running = running + runs_more place;
        waiting = waiting + waits_more place;
        taken_over = taken_over;
        started = begun place ++ started;
      })
unfolding Executor.settle retire
settle-Sound e running waiting taken_over started [] q workers idle bounded conserved = record {
  workers = ground arith;
  idle = ground arith;
  bounded = ground arith;
  some_allowed = ground arith;
  served = λ h. ground (arith, ap length q, h);
  conserved = λ a. ground (arith, ap (count a) q, conserved a);
}
settle-Sound e running waiting taken_over started (x ∷ xs) q workers idle bounded conserved =
    record {
      workers = omega arith;
      idle = omega arith;
      bounded = omega arith;
      some_allowed = omega arith;
      served = λ h. omega arith;
      conserved = λ a. ground (arith, conserved a);
    }

finishes-Sound : (s : System) → Sound s → Sound (step finishes s)
unfolding next_task
finishes-Sound s g =
    if_elim Sound (s.running == 0) (λ _. g)
      (λ some_run.
        settle-Sound s.executor (s.running - 1) s.waiting s.taken_over s.started s.executor.tasks
          refl (ground (arith, g.workers)) g.idle g.bounded g.conserved)

no_tasks : (xs : List ℕ) → is_empty xs ≡ true → length xs ≡ 0
no_tasks [] e = refl
no_tasks (x ∷ xs) e = absurd (cc)

wakes-Sound : (ready : Bool) (s : System) → Sound s → Sound (step (wakes ready) s)
unfolding wake next_task retire
wakes-Sound ready s g =
    if_elim Sound (s.waiting == 0) (λ _. g)
      (λ some_wait.
        let e = record s.executor { idle_workers = s.executor.idle_workers - 1 } in
        if_elim
          (λ (r : Place × Executor). Sound (record {
            executor = r.1;
            running = s.running + runs_more r.0;
            waiting = (s.waiting - 1) + waits_more r.0;
            taken_over = s.taken_over;
            started = begun r.0 ++ s.started;
          }))
          (not ready && is_empty e.tasks && ltb e.min_workers e.worker_count)
          (λ retired.
            let none_left : length s.executor.tasks ≡ 0 =
              no_tasks s.executor.tasks (ground arith) in
            record {
              workers = ground (arith, g.workers, g.idle);
              idle = ground (arith, g.idle);
              bounded = ground (arith, g.bounded);
              some_allowed = ground (arith, g.some_allowed);
              served = λ h. absurd (omega (arith, none_left, h));
              conserved = λ a. ground (arith, g.conserved a);
            })
          (λ _.
            settle-Sound e s.running (s.waiting - 1) s.taken_over s.started e.tasks refl
              (ground (arith, g.workers)) (ground (arith, g.idle)) g.bounded g.conserved))

step-Sound : (event : Event) (s : System) → Sound s → Sound (step event s)
unfolding shut_down
step-Sound (submits task) s g = submits-Sound task s g
step-Sound finishes s g = finishes-Sound s g
step-Sound (wakes ready) s g = wakes-Sound ready s g
step-Sound shuts_down s g = record {
  workers = g.workers;
  idle = g.idle;
  bounded = g.bounded;
  some_allowed = g.some_allowed;
  served = g.served;
  conserved = g.conserved;
}

run-Sound_from : (es : List Event) (s : System) → Sound s → Sound (run es s)
run-Sound_from [] s g = g
run-Sound_from (e ∷ es) s g = run-Sound_from es (step e s) (step-Sound e s g)

-- In every order of submissions, ends of tasks, wake-ups, timeouts and shutdown: the executor's
-- counters are the numbers of its threads and of those that wait, there are never more threads than
-- the maximum, a queued task has a thread to run it, and each task that was accepted once is either
-- queued, once, or was started, once: no other task is run in its place, none is run twice or lost.
pub run-Sound :
    (min_workers max_workers : ℕ) (es : List Event) → Sound (run es (start min_workers max_workers))
unfolding init
run-Sound min_workers max_workers es = run-Sound_from es (start min_workers max_workers) (record {
  workers = refl;
  idle = refl;
  bounded = omega arith;
  some_allowed = ground arith;
  served = λ h. h;
  conserved = λ a. refl;
})

count_none : (a : ℕ) (xs : List ℕ) → length xs ≡ 0 → count a xs ≡ 0
count_none a [] e = refl
count_none a (x ∷ xs) e = absurd (omega (arith, e))

-- When no worker is left, as the destructor waits for, every accepted task has been started and none
-- is running or queued.
pub run-drained :
    (min_workers max_workers : ℕ) (es : List Event)
    → let s = run es (start min_workers max_workers) in
      s.executor.worker_count ≡ 0
      → ((a : ℕ) → count a s.taken_over ≡ count a s.started)
        × (s.running ≡ 0)
        × (length s.executor.tasks ≡ 0)
run-drained min_workers max_workers es none_left =
    let g = run-Sound min_workers max_workers es in
    let empty : length (run es (start min_workers max_workers)).executor.tasks ≡ 0 =
      ground (arith, g.served) in
    let nothing : (a : ℕ) → count a (run es (start min_workers max_workers)).executor.tasks ≡ 0 =
      λ a. count_none a (run es (start min_workers max_workers)).executor.tasks empty in
    ((λ a. omega (arith, g.conserved a, nothing a)), omega (arith, g.workers, none_left), empty)
