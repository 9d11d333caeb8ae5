-- ===== src/Executor/Tests.antt =====
-- Runs of the executor of blocking_executor.cc at concrete inputs.
use galay_kernel.Prelude.{◌≡◌, refl, true, List, [], ◌∷◌}
use galay_kernel.Executor
use galay_kernel.Executor.{init, submit, shut_down, next_task, wake, retire}
use galay_kernel.Executor.Counts.{
  Event, submits, finishes, wakes, shuts_down, run, start, Sound, run-Sound,
}

-- One worker waits while two more tasks come: no second worker is started for them.
abbrev burst : List Event
burst = submits 1 ∷ finishes ∷ submits 2 ∷ submits 3 ∷ wakes true ∷ []

run-burst_queued : (run burst (start 0 4)).executor.tasks ≡ 3 ∷ []
unfolding init submit next_task wake Executor.settle retire
run-burst_queued = refl

run-burst_workers : (run burst (start 0 4)).executor.worker_count ≡ 1
unfolding init submit next_task wake Executor.settle retire
run-burst_workers = refl

run-Sound_example : Sound (run burst (start 0 4))
run-Sound_example = run-Sound 0 4 burst

abbrev closed : List Event
closed = submits 1 ∷ finishes ∷ shuts_down ∷ wakes true ∷ []
