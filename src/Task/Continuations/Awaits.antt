-- ===== src/Task/Continuations/Awaits.antt =====
-- co_await of a task (galay-kernel/kernel/task.h).
use galay_kernel.Prelude.{ℕ, ◌≡◌, refl, Bool, true, false, Option, none, some, if_elim, arith}
use galay_kernel.Task.{store_task_error, schedule_failed}
use galay_kernel.Task.Continuations.{
  World, write, schedule_on, schedule_if_any, complete_task_state, fail_child, after_run,
  suspend_on, await_suspend, inherit_task_runtime, give_scheduler,
}

pub tasks-schedule_if_any : (o : Option ℕ) (w : World) → (schedule_if_any o w).tasks ≡ w.tasks
tasks-schedule_if_any none w = refl
tasks-schedule_if_any (some t) w = tasks-schedule_on (w.tasks t).scheduler
  where
    tasks-schedule_on : (scheduler : Option ℕ) → (schedule_on t scheduler w).tasks ≡ w.tasks
    tasks-schedule_on none = refl
    tasks-schedule_on (some scheduler) = refl

pub done-complete_task_state : (t : ℕ) (w : World) → ((complete_task_state t w).tasks t).done ≡ true
unfolding complete_task_state
done-complete_task_state t w =
    let w1 = write t (record (w.tasks t) { done = true }) w in
    let w1' = write t (record (w1.tasks t) { then_task = none }) w1 in
    let w2 = schedule_if_any (w1.tasks t).then_task w1' in
    let w2' = write t (record (w2.tasks t) { next_task = none }) w2 in
    ground (
      arith,
      tasks-schedule_if_any (w1.tasks t).then_task w1',
      tasks-schedule_if_any (w2.tasks t).next_task w2',
    )

-- What await_suspend means for its parent.
pub data Awaited (parent child : ℕ) : Bool × World → Type 0 where
  suspended :
      (w : World)
      → (w.tasks child).done ≡ false
      → (w.tasks child).next_task ≡ some parent
      → Awaited parent child (true, w)
  resumed : (w : World) → (w.tasks child).done ≡ true → Awaited parent child (false, w)

failed-Awaited : (parent child : ℕ) (w : World) → Awaited parent child (false, fail_child child w)
unfolding fail_child
failed-Awaited parent child w = resumed (fail_child child w) (
    done-complete_task_state child
      (write child (store_task_error schedule_failed (w.tasks child)) w))

after_run-Awaited :
    (parent child : ℕ) (out : Bool × World) → Awaited parent child (after_run parent child out)
after_run-Awaited parent child (false, w) = failed-Awaited parent child w
after_run-Awaited parent child (true, w) =
    if_elim (λ (out : Bool × World). Awaited parent child out) (w.tasks child).done
      (λ finished. resumed w finished)
      (λ going.
        suspended (write child (record (w.tasks child) { next_task = some parent }) w)
          (ground arith) (ground arith))

-- co_await of a child, whatever running it does: either the parent is suspended, and a child that is
-- not done has it as the task to schedule at its end, or the parent goes on, and the child is done,
-- so that await_resume does not block the thread.
pub await_suspend-Awaited :
    (fuel parent child : ℕ) (run : ℕ → World → Bool × World) (w : World)
    → Awaited parent child (await_suspend fuel run parent child w)
unfolding await_suspend
await_suspend-Awaited fuel parent child run w =
    let w' = inherit_task_runtime child (w.tasks parent).runtime w in
    if_elim (λ (out : Bool × World). Awaited parent child out) (w.tasks child).done
      (λ finished. resumed w finished) (λ going. by_scheduler (w'.tasks parent).scheduler w')
  where
    by_scheduler :
        (scheduler : Option ℕ) (u : World)
        → Awaited parent child (suspend_on fuel run parent child scheduler u)
    by_scheduler none u = failed-Awaited parent child u
    by_scheduler (some scheduler) u =
        after_run-Awaited parent child (run child (give_scheduler fuel child (some scheduler) u))
