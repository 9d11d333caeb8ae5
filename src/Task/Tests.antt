-- ===== src/Task/Tests.antt =====
-- Small runs of tasks.
use galay_kernel.Prelude.{
  ℕ, ◌+◌, ◌≤◌, ◌<◌, ◌≡◌, refl, Bool, true, false, none, some, List, [], ◌∷◌, length, word32, arith,
}
use galay_kernel.Task.{
  new_completion, set_value, of_blocking, new_state, of_task, joins, taken, failed,
  already_consumed,
}
use galay_kernel.Task.Results.{returns, record_end, joins-Once, joins-Blocking}
use galay_kernel.Task.Resumes
use galay_kernel.Task.Resumes.{
  State, Step, wins, marks, enqueues, begins_wake, clears, Reachable, starts, moves, queued-Resumes,
}
use galay_kernel.Task.References
use galay_kernel.Task.References.{Call, creates, copies, destroys, copy_assigns, move_assigns, run}
use galay_kernel.Task.References.Counted.{RefCounted}
use galay_kernel.Task.References.Runs.{run-RefCounted}
use galay_kernel.Task.Continuations.{
  World, complete_task_state, await_suspend, set_task_scheduler, attach_task_continuation,
}
use galay_kernel.Task.Continuations.Attached.{attach_all, attach-Last}
use galay_kernel.Task.Continuations.Awaits.{Awaited, await_suspend-Awaited}

joins-Once_example :
    joins true 3 (of_task (record_end true (returns 5) new_state))
    ≡ taken 5 ∷ failed already_consumed ∷ failed already_consumed ∷ []
joins-Once_example = joins-Once true (returns 5) 3 new_state refl refl

joins-Blocking_example :
    joins false 3 (of_blocking (set_value 5 new_completion))
    ≡ joins true 3 (of_task (record_end true (returns 5) new_state))
joins-Blocking_example = joins-Blocking true false 5 3 new_state refl refl

abbrev after_win : State
after_win = record Resumes.init { queued = true; claims = 1 }

abbrev after_mark : State
after_mark = record after_win { owner_only = true; claims = 0; marked = 1 }

abbrev after_enqueue : State
after_enqueue = record after_mark { marked = 0; wakes = 1; enqueued = 1 }

woken_once : Reachable after_enqueue
woken_once = moves (moves (moves starts (wins refl)) (marks 0 refl)) (enqueues 0 refl)

-- The entry that is left may be stolen: its mark went with the second store of resume.
abbrev after_clash : State
after_clash = record Resumes.init {
  queued = true;
  wakes = 1;
  enqueued = 2;
  begun = 1;
  owner_only = false;
}

after_clash-Reachable : Reachable after_clash
after_clash-Reachable =
    moves
      (moves (moves (moves (moves woken_once (begins_wake 0 refl)) (wins refl)) (marks 0 refl))
        (clears 0 refl))
      (enqueues 0 refl)

queued-Resumes_example :
    1 ≤ after_enqueue.claims + after_enqueue.marked + after_enqueue.refused + after_enqueue.wakes
queued-Resumes_example = queued-Resumes woken_once refl refl

-- Two states; the second reference to the first one goes last.
abbrev calls : List Call
calls =
    creates
    ∷ copies 0
    ∷ creates
    ∷ destroys 0
    ∷ copy_assigns 0 2
    ∷ move_assigns 1 2
    ∷ destroys 0
    ∷ []

calls-small : length (run calls References.init).references < word32
unfolding References.create References.copy_construct References.destroy References.copy_assign
    References.move_assign References.release
calls-small = omega arith

run-RefCounted_example : RefCounted (run calls References.init)
run-RefCounted_example = run-RefCounted calls calls-small

-- Tasks 1 to 3 on the scheduler 8.
abbrev on_eight : World
on_eight = record { tasks = λ t. record new_state { scheduler = some 8 }; scheduled = [] }

alone_at_first : (on_eight.tasks 1).next_task ≡ none
alone_at_first = refl

bound_then : ((attach_all 4 1 (2 ∷ 3 ∷ []) on_eight).tasks 3).scheduler ≡ some 8
unfolding attach_task_continuation set_task_scheduler
bound_then = refl

attach-Last_example :
    (complete_task_state 1 (attach_all 4 1 (2 ∷ 3 ∷ []) on_eight)).scheduled ≡ (8, 3) ∷ []
attach-Last_example = attach-Last 4 1 3 8 (2 ∷ []) on_eight alone_at_first bound_then

abbrev does_nothing : ℕ → World → Bool × World
does_nothing child w = (true, w)

await_suspend-Awaited_example : Awaited 1 2 (await_suspend 4 does_nothing 1 2 on_eight)
await_suspend-Awaited_example = await_suspend-Awaited 4 1 2 does_nothing on_eight
