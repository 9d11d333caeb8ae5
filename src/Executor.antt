-- ===== src/Executor.antt =====
-- galay-kernel/kernel/blocking_executor.cc: a pool of threads for blocking tasks. A task is a
-- number. The state is what `m_mutex` guards, and a step is what one thread does while it holds the
-- mutex: a call of submit, or a worker between two waits. When a worker waits, is notified or times
-- out, and in which order threads get the mutex, is left open. Thread creation always succeeds.
pub mod Counts
mod Tests
use galay_kernel.Prelude.{
  ℕ, zero, suc, ◌+◌, ◌-◌, ◌≤◌, ◌<◌, ◌≡◌, max, min, Bool, true, false, not, ◌&&◌, ◌||◌, List, [],
  ◌∷◌, ◌++◌, ltb, ◌==◌, if◌then◌else◌, is_empty,
}

-- BlockingExecutorErrorCode.
pub data ErrorCode : Type 0 where
  stopping : ErrorCode

pub data Outcome : Type 0 where
  accepted : Outcome
  failed : (code : ErrorCode) → Outcome

pub record Executor : Type 0 where
  pub min_workers : ℕ
  pub max_workers : ℕ
  pub tasks : List ℕ
  pub worker_count : ℕ
  pub idle_workers : ℕ
  pub is_stopping : Bool

pub init : ℕ → ℕ → Executor
init min_workers max_workers =
    let most = if ltb 0 max_workers then max_workers else 1 in
    record {
      min_workers = if ltb most min_workers then most else min_workers;
      max_workers = most;
      tasks = [];
      worker_count = 0;
      idle_workers = 0;
      is_stopping = false;
    }

-- `hardware` is what std::thread::hardware_concurrency returns, 0 if that is not known.
pub default_max_workers : ℕ → ℕ
default_max_workers hardware = if ltb 0 hardware then hardware else 4

pub init_default : ℕ → Executor
unfolding init default_max_workers
init_default hardware = init 0 (default_max_workers hardware)

-- What submit does after the lock: nothing, notify_one, or start a thread with the task.
pub data After : Type 0 where
  quiet : After
  notifies : After
  spawns : (task : ℕ) → After

-- submit with a task that is not empty.
pub submit : ℕ → Executor → Outcome × After × Executor
submit task e =
    if e.is_stopping
    then (failed stopping, quiet, e)
    else if ltb 0 e.idle_workers
    then (accepted, notifies, record e { tasks = e.tasks ++ task ∷ [] })
    else if ltb e.worker_count e.max_workers
    then (accepted, spawns task, record e { worker_count = e.worker_count + 1 })
    else (accepted, quiet, record e { tasks = e.tasks ++ task ∷ [] })

-- Where a worker is when it does not hold the mutex.
pub data Place : Type 0 where
  runs : (task : ℕ) → Place
  waits : (can_time_out : Bool) → Place
  gone : Place

-- retireWorkerLocked; the notification of `m_shutdownCv` is left out, its waiter tests the counter.
pub retire : Executor → Executor
retire e = record e { worker_count = e.worker_count - 1 }

-- workerLoop from the test of its inner loop on, after a task has run.
settle : Executor → List ℕ → Place × Executor
unfolding retire
settle e [] =
    if e.is_stopping
    then (gone, retire e)
    else (waits (ltb e.min_workers e.worker_count), record e { idle_workers = e.idle_workers + 1 })
settle e (task ∷ tasks) = (runs task, record e { tasks = tasks })

pub next_task : Executor → Place × Executor
unfolding settle
next_task e = settle e e.tasks

-- A waiting worker gets the mutex back: `ready` is the result of wait_for, and true after wait. Both
-- return true only if there is a task or the executor stops, and wait_for false only if not.
pub wake : Bool → Executor → Place × Executor
unfolding next_task retire
wake ready e =
    let e' = record e { idle_workers = e.idle_workers - 1 } in
    if not ready && is_empty e'.tasks && ltb e'.min_workers e'.worker_count
    then (gone, retire e')
    else next_task e'

-- The destructor, before it waits for the counter of workers to reach zero.
pub shut_down : Executor → Executor
shut_down e = record e { is_stopping = true }
