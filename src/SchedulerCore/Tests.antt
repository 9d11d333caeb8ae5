-- ===== src/SchedulerCore/Tests.antt =====
-- Runs of scheduler_core.h at concrete inputs, with a list for the queue.
use galay_kernel.Prelude.{◌+◌, ◌≡◌, refl, true, none, [], ◌∷◌, length, arith}
use galay_kernel.Concurrent.{list_queue}
use galay_kernel.Ring.{capacity}
use galay_kernel.Worker.{Worker}
use galay_kernel.Worker.Conserve.{IsValid, HasRoom, Keeps}
use galay_kernel.SchedulerCore.{Core, collect_remote}
use galay_kernel.SchedulerCore.Collect.{batch, collect_remote-Keeps}

abbrev worker : Worker list_queue
worker = record {
  lifo_slot = none;
  local_ring = record { slots = λ _. none; head = 0; tail = 0 };
  inject_queue = 3 ∷ 4 ∷ [];
  inject_buffer_size = 4;
  injected_outstanding = 2;
  consecutive_lifo_polls = 0;
  lifo_poll_limit = 8;
  polls_since_inject = 0;
  inject_check_interval = 8;
  lifo_enabled = true;
  stealing_enabled = true;
  steal_attempts = 0;
  steal_successes = 0;
  self_index = 0;
}

abbrev core : Core list_queue
core = record { worker = worker; ready_budget = 1 }

worker-IsValid : IsValid list_queue worker
worker-IsValid = record {
  ring = omega arith;
  outstanding = refl;
  countable = omega arith;
  buffer = omega arith;
}

worker-HasRoom : HasRoom list_queue worker capacity
worker-HasRoom = record { ring = omega arith; queue = omega arith }

collect_remote-Keeps_example :
    let (drained, core') = collect_remote list_queue core in
    Keeps list_queue [] worker core'.worker
    × (drained ≡ length (batch list_queue worker))
    × (drained + length core'.worker.inject_queue ≡ length worker.inject_queue)
collect_remote-Keeps_example = collect_remote-Keeps list_queue core worker-IsValid worker-HasRoom
