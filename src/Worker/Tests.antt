-- ===== src/Worker/Tests.antt =====
-- Runs of the worker of io_scheduler.hpp at concrete inputs, with a list for its queue.
use galay_kernel.Prelude.{
  ℕ, ◌+◌, ◌≤◌, ◌≡◌, ◌≢◌, refl, true, false, Option, none, some, List, [], ◌∷◌, arith, update,
  length, count, replicate,
}
use galay_kernel.Concurrent.{list_queue}
use galay_kernel.Ring.{Ring, capacity, remaining_capacity}
use galay_kernel.Ring.Refine
use galay_kernel.Ring.Refine.{contents}
use galay_kernel.Worker
use galay_kernel.Worker.{Worker}
use galay_kernel.Worker.Pushes.{handed}
use galay_kernel.Worker.Conserve.{
  IsValid, HasRoom, HasMemory, Keeps, holds, schedule_local-Keeps, drain_injected-Keeps,
  pop_next-Keeps,
}
use galay_kernel.Worker.Order.{Hot, spin, lifo_starves_ring}
use galay_kernel.Worker.Steal.{Probed, try_steal-Probed}

-- Two tasks, 7 and 8.
abbrev two : Ring
two = record { slots = update (update (λ _. none) 0 (some 7)) 1 (some 8); head = 0; tail = 2 }

abbrev none_yet : Ring
none_yet = record { slots = λ _. none; head = 0; tail = 0 }

-- A worker with the ring, the slot and the queue given.
abbrev sample : Ring → Option ℕ → List ℕ → Worker list_queue
sample ring slot queue = record {
  lifo_slot = slot;
  local_ring = ring;
  inject_queue = queue;
  inject_buffer_size = 4;
  injected_outstanding = length queue;
  consecutive_lifo_polls = 8;
  lifo_poll_limit = 8;
  polls_since_inject = 0;
  inject_check_interval = 8;
  lifo_enabled = true;
  stealing_enabled = true;
  steal_attempts = 0;
  steal_successes = 0;
  self_index = 1;
}

two-IsValid : Refine.IsValid two
two-IsValid = omega arith

none_yet-IsValid : Refine.IsValid none_yet
none_yet-IsValid = omega arith

abbrev full_slot : Worker list_queue
full_slot = sample two (some 5) (3 ∷ 4 ∷ [])

abbrev idle : Worker list_queue
idle = sample none_yet none []

full_slot-IsValid : IsValid list_queue full_slot
full_slot-IsValid = record {
  ring = two-IsValid;
  outstanding = refl;
  countable = omega arith;
  buffer = omega arith;
}

full_slot-HasRoom : HasRoom list_queue full_slot capacity
full_slot-HasRoom = record { ring = omega arith; queue = omega arith }

full_slot-HasRoom_one : HasRoom list_queue full_slot 1
full_slot-HasRoom_one = record { ring = omega arith; queue = omega arith }

abbrev no_slot : Worker list_queue
no_slot = sample two none (3 ∷ 4 ∷ [])

no_slot-IsValid : IsValid list_queue no_slot
no_slot-IsValid = record {
  ring = two-IsValid;
  outstanding = refl;
  countable = omega arith;
  buffer = omega arith;
}

no_slot-HasRoom : HasRoom list_queue no_slot capacity
no_slot-HasRoom = record { ring = omega arith; queue = omega arith }

abbrev siblings : List (Option Ring)
siblings = some two ∷ some none_yet ∷ none ∷ []

full_slot-HasMemory : (x : ℕ) → HasMemory list_queue full_slot x
unfolding HasMemory
full_slot-HasMemory x full = refl

schedule_local-Keeps_example :
    Keeps list_queue (6 ∷ []) full_slot (Worker.schedule_local list_queue full_slot (some 6))
schedule_local-Keeps_example =
    schedule_local-Keeps list_queue 6 full_slot-HasMemory full_slot-IsValid full_slot-HasRoom_one

drain_injected-Keeps_example :
    let (drained, w') = Worker.drain_injected list_queue full_slot in
    Keeps list_queue [] full_slot w'
    × (drained + length w'.inject_queue ≡ 2)
    × (drained + remaining_capacity w'.local_ring ≡ remaining_capacity two)
    × (drained ≤ 4)
drain_injected-Keeps_example = drain_injected-Keeps list_queue full_slot-IsValid full_slot-HasRoom

pop_next-Keeps_example :
    let (out, w') = Worker.pop_next list_queue full_slot in
    IsValid list_queue w'
    × ((a : ℕ) → holds list_queue a full_slot ≡ count a (handed out) + holds list_queue a w')
    × (out ≢ some none)
    × (out ≡ none → (full_slot.lifo_slot ≡ none) × (contents two ≡ []))
pop_next-Keeps_example =
    pop_next-Keeps list_queue full_slot-HasMemory full_slot-IsValid full_slot-HasRoom_one

full_slot-Hot : Hot list_queue full_slot 5
full_slot-Hot = record {
  ring = two-IsValid;
  slot = refl;
  on = refl;
  free = ground (arith, (Refine.size_lem two-IsValid));
}

lifo_starves_ring_example :
    let (outs, w') = spin list_queue 9 5 full_slot in
    (outs ≡ replicate 9 (some (some 5))) × (contents w'.local_ring ≡ 7 ∷ 8 ∷ [])
lifo_starves_ring_example = lifo_starves_ring list_queue 9 5 full_slot-Hot (omega arith)

try_steal-Probed_example :
    Probed list_queue siblings idle (Worker.try_steal list_queue (λ _. false) 0 siblings idle)
try_steal-Probed_example =
    try_steal-Probed list_queue (λ _. false) 0 siblings idle (two-IsValid, (none_yet-IsValid, tt))
      none_yet-IsValid (omega arith)
