-- ===== src/Task/Continuations.antt =====
-- Continuations of tasks (galay-kernel/kernel/task.h and task.cc): `then`, the parent of a co_await, and
-- what the end of a task schedules. What a scheduler returns for a task in a queue is ignored by the
-- code; running a child at once is a parameter. The notification of waiting threads is left out.
use galay_kernel.Prelude.{
  ℕ, zero, suc, ◌≡◌, refl, Bool, true, false, not, Option, none, some, is_some, List, [], ◌∷◌, ◌++◌,
  ◌==◌, if◌then◌else◌, update,
}
use galay_kernel.Task.{
  TaskState, ErrorCode, schedule_failed, store_task_error, task_exception, store_task_result,
}
use galay_kernel.Task.Results.{End, returns, throws, record_end}
pub mod Attached
pub mod Awaits

-- The tasks, and the calls of schedule: the scheduler and the task.
pub record World : Type 0 where
  pub tasks : ℕ → TaskState
  pub scheduled : List (ℕ × ℕ)

abbrev pub write : ℕ → TaskState → World → World
write t s w = record w { tasks = update w.tasks t s }

abbrev pub inherit_task_runtime : ℕ → Option ℕ → World → World
inherit_task_runtime t runtime w =
    if is_some (w.tasks t).runtime then w else write t (record (w.tasks t) { runtime = runtime }) w

-- setTaskRuntime, with the task of `then`.
abbrev pub inherit_if_any : Option ℕ → Option ℕ → World → World
inherit_if_any none runtime w = w
inherit_if_any (some t) runtime w = inherit_task_runtime t runtime w

pub set_task_runtime : ℕ → Option ℕ → World → World
set_task_runtime t runtime w =
    inherit_if_any (w.tasks t).then_task runtime
      (write t (record (w.tasks t) { runtime = runtime }) w)

-- setTaskScheduler, which goes down the tasks of `then` that have no scheduler; `fuel` bounds their
-- number.
abbrev pub and_then : (ℕ → World → World) → Option ℕ → World → World
and_then follow none w = w
and_then follow (some next) w = if is_some (w.tasks next).scheduler then w else follow next w

unfoldable pub set_task_scheduler : ℕ → ℕ → ℕ → World → World
set_task_scheduler zero scheduler t w =
    write t (record (w.tasks t) { scheduler = some scheduler }) w
set_task_scheduler (suc fuel) scheduler t w =
    let w' = write t (record (w.tasks t) { scheduler = some scheduler }) w in
    and_then (λ next. set_task_scheduler fuel scheduler next) (w'.tasks t).then_task w'

abbrev pub give_scheduler : ℕ → ℕ → Option ℕ → World → World
give_scheduler fuel t none w = w
give_scheduler fuel t (some scheduler) w =
    if is_some (w.tasks t).scheduler then w else set_task_scheduler fuel scheduler t w

-- attachTaskContinuation
unfoldable pub attach_task_continuation : ℕ → ℕ → ℕ → World → World
attach_task_continuation fuel t next w =
    let w' = inherit_task_runtime next (w.tasks t).runtime w in
    let w'' = give_scheduler fuel next (w'.tasks t).scheduler w' in
    write t (record (w''.tasks t) { then_task = some next }) w''

abbrev pub schedule_on : ℕ → Option ℕ → World → World
schedule_on t none w = w
schedule_on t (some scheduler) w = record w { scheduled = w.scheduled ++ (scheduler, t) ∷ [] }

abbrev pub schedule_if_any : Option ℕ → World → World
schedule_if_any none w = w
schedule_if_any (some t) w = schedule_on t (w.tasks t).scheduler w

pub complete_task_state : ℕ → World → World
complete_task_state t w =
    let w1 = write t (record (w.tasks t) { done = true }) w in
    let w2 =
      schedule_if_any (w1.tasks t).then_task
        (write t (record (w1.tasks t) { then_task = none }) w1) in
    schedule_if_any (w2.tasks t).next_task (write t (record (w2.tasks t) { next_task = none }) w2)

-- return_value, return_void and unhandled_exception
pub end_task : Bool → End → ℕ → World → World
unfolding complete_task_state
end_task is_inline end t w =
    complete_task_state t (write t (record_end is_inline end (w.tasks t)) w)

-- Where await_suspend of a TaskAwaiter stores an error and completes the child itself.
pub fail_child : ℕ → World → World
unfolding complete_task_state
fail_child child w =
    complete_task_state child (write child (store_task_error schedule_failed (w.tasks child)) w)

-- After scheduleTaskImmediately.
abbrev pub after_run : ℕ → ℕ → Bool × World → Bool × World
after_run parent child (false, w) = (false, fail_child child w)
after_run parent child (true, w) =
    if (w.tasks child).done
    then (false, w)
    else (true, write child (record (w.tasks child) { next_task = some parent }) w)

abbrev pub suspend_on : ℕ → (ℕ → World → Bool × World) → ℕ → ℕ → Option ℕ → World → Bool × World
suspend_on fuel run parent child none w = (false, fail_child child w)
suspend_on fuel run parent child (some scheduler) w =
    after_run parent child (run child (give_scheduler fuel child (some scheduler) w))

-- TaskAwaiter::await_suspend of a child that is valid; `run` is scheduleTaskImmediately.
pub await_suspend : ℕ → (ℕ → World → Bool × World) → ℕ → ℕ → World → Bool × World
await_suspend fuel run parent child w =
    let w' = inherit_task_runtime child (w.tasks parent).runtime w in
    if (w.tasks child).done
    then (false, w)
    else suspend_on fuel run parent child (w'.tasks parent).scheduler w'
