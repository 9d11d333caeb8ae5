-- ===== src/Ring/Tests.antt =====
-- Runs of the ring of io_scheduler.hpp at concrete inputs.
use galay_kernel.Prelude.{
  ℕ, ◌≡◌, refl, Bool, true, false, none, some, List, [], ◌∷◌, arith, update, ◌==◌,
}
use galay_kernel.Ring.{Ring, capacity, push_back, pop_back, steal_front}
use galay_kernel.Ring.Deque
use galay_kernel.Ring.Deque.{Op, pushes, pops, steals, reply}
use galay_kernel.Ring.Refine.{IsValid, run, run_refines}

-- 7, then 8, round the end of the slots.
abbrev busy : Ring
busy = record {
  slots = update (update (λ _. none) 255 (some 7)) 0 (some 8);
  head = 255;
  tail = 257;
}

abbrev not_seven : ℕ → Bool
not_seven task = task == 7

abbrev script : List Op
script = pushes 9 ∷ pops ∷ steals ∷ pops ∷ pops ∷ []

busy-IsValid : IsValid busy
busy-IsValid = omega arith

run-busy :
    run (λ _. false) busy script
    ≡ (true, none)
      ∷ (true, some (some 9))
      ∷ (true, some (some 7))
      ∷ (true, some (some 8))
      ∷ (false, none)
      ∷ []
unfolding run push_back pop_back steal_front
run-busy = refl

steal-busy_refused : (steal_front not_seven busy).0 ≡ none
unfolding steal_front
steal-busy_refused = refl

run_refines_example : run not_seven busy script ≡ Deque.run capacity not_seven (7 ∷ 8 ∷ []) script
run_refines_example = run_refines not_seven script busy-IsValid (omega arith)
