-- ===== src/SchedulerCore/Collect.antt =====
-- What fetching injected tasks does to the worker of a scheduler_core.h.
use galay_kernel.Prelude.{
  ℕ, ◌+◌, ◌≤◌, ◌≡◌, refl, not, ◌||◌, ◌==◌, ◌⊎◌, inl, inr, List, [], arith, length, min, if_elim,
}
use galay_kernel.Concurrent.{ConcurrentQueue}
use galay_kernel.Ring.{capacity, remaining_capacity}
use galay_kernel.Worker
use galay_kernel.Worker.{Worker}
use galay_kernel.Worker.Conserve.{IsValid, HasRoom, Keeps, drain_injected-Keeps}
use galay_kernel.SchedulerCore.{Core, collect_remote, local_followup_pass_limit}

-- For every batch size there is at least one follow-up pass and never more than sixteen.
pub local_followup_pass_limit-bounds :
    (batch_size : ℕ)
    → (1 ≤ local_followup_pass_limit batch_size) × (local_followup_pass_limit batch_size ≤ 16)
unfolding local_followup_pass_limit
local_followup_pass_limit-bounds batch_size = (ground arith, ground arith)

module _ (c : ConcurrentQueue) where
  -- What one batch from the injection queue gives: at most the ring's free slots and the buffer's size.
  abbrev pub batch : Worker c → List ℕ
  batch w =
      (c.try_dequeue_bulk w.inject_queue
        (min (remaining_capacity w.local_ring) w.inject_buffer_size)).0

  -- A batch is empty if the queue or the ring has nothing to spare.
  batch_empty :
      (w : Worker c)
      → (length (c.items w.inject_queue) ≡ 0) ⊎ (remaining_capacity w.local_ring ≡ 0)
      → 0 ≡ length (batch w)
  batch_empty w (inl e) =
      let n = min (remaining_capacity w.local_ring) w.inject_buffer_size in
      omega (arith, (c.length-dequeue n w.inject_queue).1, e)
  batch_empty w (inr e) =
      let n = min (remaining_capacity w.local_ring) w.inject_buffer_size in
      omega (arith, (c.length-dequeue n w.inject_queue).0, e)

  drain_injected-batch :
      (w : Worker c) → IsValid c w → (Worker.drain_injected c w).0 ≡ length (batch w)
  unfolding Worker.drain_injected
  drain_injected-batch w v =
      if_elim (λ (r : ℕ × Worker c). r.0 ≡ length (batch w)) (w.inject_buffer_size == 0)
        (λ e. absurd (ground (arith, v.buffer)))
        (λ _.
          if_elim (λ (r : ℕ × Worker c). r.0 ≡ length (batch w))
            (remaining_capacity w.local_ring == 0) (λ full. batch_empty w (inr (ground arith)))
            (λ _. refl))

  -- Fetching injected tasks brings in as many as one batch from the injection queue gives, at most the
  -- ring's free slots and the size of the buffer, also when the code takes it not to be due. It loses
  -- none of the worker's tasks and makes up none, keeps the worker well formed, and reports how many
  -- left the injection queue.
  -- The 64-bit counters have room for a full ring.
  pub collect_remote-Keeps :
      (core : Core c)
      → IsValid c core.worker
      → HasRoom c core.worker capacity
      → let (drained, core') = collect_remote c core in
        Keeps c [] core.worker core'.worker
        × (drained ≡ length (batch core.worker))
        × (drained + length (c.items core'.worker.inject_queue)
            ≡ length (c.items core.worker.inject_queue))
  unfolding collect_remote Worker.has_pending_injected
  collect_remote-Keeps core v room =
      let d = drain_injected-Keeps c v room in
      if_elim
        (λ (r : ℕ × Core c).
          Keeps c [] core.worker r.1.worker
          × (r.0 ≡ length (batch core.worker))
          × (r.0 + length (c.items r.1.worker.inject_queue)
              ≡ length (c.items core.worker.inject_queue)))
        (not (Worker.has_local_work c core.worker)
          || Worker.should_check_injected c core.worker
          || Worker.has_pending_injected c core.worker)
        (λ due. (d.0, drain_injected-batch core.worker v, d.1))
        (λ not_due. (
          record { valid = v; kept = λ a. omega arith },
          batch_empty core.worker (inl (ground (arith, v.outstanding))),
          omega arith,
        ))
