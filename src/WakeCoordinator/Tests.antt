-- ===== src/WakeCoordinator/Tests.antt =====
-- Runs of the coordinator of wake_coordinator.h at concrete inputs.
use galay_kernel.Prelude.{◌≡◌, refl, true, false, List, [], ◌∷◌, arith}
use galay_kernel.WakeCoordinator.{
  init, request_wake, force_wake, mark_sleeping, mark_awake, cancel_pending_wake,
  on_remote_collected,
}
use galay_kernel.WakeCoordinator.Counts.{
  Op, requests, forces, sleeps, collects, run, trues, Counted, run-Counted,
}

abbrev ops : List Op
ops = sleeps ∷ requests false ∷ requests true ∷ collects 2 ∷ forces ∷ requests true ∷ []

run-ops : trues (run ops (init false false)).0 ≡ 3
unfolding init request_wake force_wake mark_sleeping mark_awake cancel_pending_wake
    on_remote_collected
run-ops = refl

run-Counted_example : Counted ops (init false false) (run ops (init false false))
unfolding init
run-Counted_example = run-Counted ops (init false false) (omega arith) (omega arith)
