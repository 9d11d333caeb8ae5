-- ===== src/Ring/Race/Tests.antt =====
-- Interleavings of the ring's owner and thieves at concrete states.
use galay_kernel.Prelude.{ℕ, ◌+◌, ◌<◌, ◌≡◌, ◌≢◌, refl, false, none, some, [], ◌∷◌, arith, update}
use galay_kernel.Ring.{Ring}
use galay_kernel.Ring.Race.{
  idle, rest, got_head, got_tail, chosen, stolen, steal_head, steal_tail, steal_read, steal_cas_win,
  System, Steps, thief_moves, here, next,
}
use galay_kernel.Ring.Race.OwnerSide.{claimed, owner_claimed}
use galay_kernel.Ring.Race.Claims.{IsQuiet, claims_exclusive}
use galay_kernel.Ring.Race.Loss.{full_ring_loses_task}

-- 256 tasks, the oldest of them 10.
abbrev full_ring : Ring
full_ring = record { slots = λ j. some (j + 10); head = 0; tail = 256 }

abbrev at_rest : System
at_rest = record { ring = full_ring; owner = idle; thief = λ _. rest; given = [] }

abbrev after_win : System
after_win = record {
  ring = record full_ring { head = 1 };
  owner = idle;
  thief =
      update (update (update (update (λ _. rest) 2 (got_head 0)) 2 (got_tail 0 256)) 2 (chosen 0)) 2
        (stolen 0);
  given = [];
}

abbrev win : Steps (λ _. false) at_rest after_win
win =
    next
      (next (next (next here (thief_moves 2 steal_head)) (thief_moves 2 steal_tail))
        (thief_moves 2 (steal_read 10 (omega arith) refl refl)))
      (thief_moves 2 (steal_cas_win refl))

at_rest-IsQuiet : IsQuiet at_rest
at_rest-IsQuiet = record { owner_idle = refl; thieves_rest = λ _. refl; ordered = omega arith }

claims_exclusive_example :
    (0 < 1)
    × (owner_claimed after_win.owner ≢ some 0)
    × ((j : ℕ) → claimed (after_win.thief j) ≡ some 0 → 2 ≡ j)
claims_exclusive_example = claims_exclusive at_rest-IsQuiet win tt 2 0 refl

full_ring_loses_task_example :
    (t : System) × Steps (λ _. false) at_rest t
    × (t.owner ≡ idle)
    × (t.thief 2 ≡ rest)
    × (t.given ≡ some 3 ∷ [])
    × (t.ring.tail ≡ 257)
    × (t.ring.slots 0 ≡ none)
    × ((j : ℕ) → t.ring.slots j ≢ some 10)
full_ring_loses_task_example =
    full_ring_loses_task (λ _. false) at_rest 2 10 3 refl refl refl (omega arith) refl refl
      (omega arith) (λ j ne e. ground arith)
