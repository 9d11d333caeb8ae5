-- ===== src/WaitRegistration/Tests.antt =====
-- Runs of the registration of wait_registration.h at concrete inputs.
use galay_kernel.Prelude.{◌+◌, ◌≤◌, ◌≡◌, refl, some, List, [], ◌∷◌}
use galay_kernel.WaitRegistration
use galay_kernel.WaitRegistration.{init, arm, clear, consume_wake}
use galay_kernel.WaitRegistration.Uses.{Op, arms, clears, consumes, is_it, run, run-used}

abbrev ops : List Op
ops = arms (some 7) ∷ clears (some 8) ∷ consumes ∷ clears (some 7) ∷ arms (some 7) ∷ []

run-ops_used : (run 7 ops init).1 ≡ 1
unfolding init arm clear consume_wake WaitRegistration.clear_if
run-ops_used = refl

run-used_example :
    let (armed, used, r) = run 7 ops init in used + is_it 7 r.waiter ≤ armed + is_it 7 init.waiter
run-used_example = run-used 7 ops init
