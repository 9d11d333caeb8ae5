-- ===== src/Worker.antt =====
-- galay-kernel/kernel/io_scheduler.hpp, struct IOSchedulerWorkerState: where a scheduler thread
-- keeps the tasks that are ready: a LIFO slot, its ring, and the queue by which other threads inject
-- tasks. `inject_queue` is a moodycamel queue, a parameter. `inject_buffer` is known by its size,
-- since what it holds between calls is never read. Counters wrap at their width.
-- Each operation runs alone here: the calls of other threads fall between the owner's calls.
pub mod Conserve
mod Pushes
pub mod Order
pub mod Drains
pub mod Moves
pub mod Steal
mod Tests
use galay_kernel.Prelude.{
  ℕ, zero, suc, ◌+◌, ◌-◌, ◌/◌, ◌%◌, min, max, Bool, true, false, not, ◌&&◌, ◌||◌, Option, none,
  some, List, [], ◌∷◌, ltb, leb, ◌==◌, if◌then◌else◌, is_some, length, get_elem?, set, add64, sub64,
  add32,
}
use galay_kernel.Concurrent.{ConcurrentQueue}
use galay_kernel.Ring
use galay_kernel.Ring.{Ring, push_back, pop_back, steal_front, remaining_capacity, is_empty_ring}

-- The loop of drainInjected that pushes `inject_buffer[count - 1]` first and `inject_buffer[0]` last.
pub push_reversed : Ring → List ℕ → Ring
push_reversed ring [] = ring
push_reversed ring (x ∷ xs) = (push_back (push_reversed ring xs) (some x)).1

-- The inner loop of trySteal, `target` rounds left: how many tasks it moves, the victim's ring and
-- the thief's own. A task that the thief's ring refuses is dropped.
pub steal_some : (ℕ → Bool) → ℕ → Ring → Ring → ℕ × Ring × Ring
steal_some owner_only zero victim ring = (0, victim, ring)
steal_some owner_only (suc target) victim ring =
    let (out, victim') = steal_front owner_only victim in
    elim out [
      | none ↦ (0, victim', ring)
      | some task ↦
          let (taken, ring') = push_back ring task in
          let (stolen, victim'', ring'') = steal_some owner_only target victim' ring' in
          if taken then (suc stolen, victim'', ring'') else (0, victim', ring')
    ]

module _ (c : ConcurrentQueue) where
  open c use {Queue, enqueue, try_dequeue_bulk}

  pub record Worker : Type 0 where
    pub lifo_slot : Option ℕ
    pub local_ring : Ring
    pub inject_queue : Queue
    pub inject_buffer_size : ℕ
    pub injected_outstanding : ℕ  -- uint64_t
    pub consecutive_lifo_polls : ℕ  -- uint32_t
    pub lifo_poll_limit : ℕ
    pub polls_since_inject : ℕ  -- uint32_t
    pub inject_check_interval : ℕ
    pub lifo_enabled : Bool
    pub stealing_enabled : Bool
    pub steal_attempts : ℕ  -- uint64_t
    pub steal_successes : ℕ  -- uint64_t
    pub self_index : ℕ

  -- The constructor, with its three arguments.
  pub init : ℕ → ℕ → ℕ → Worker
  init inject_batch_size lifo_limit inject_interval = record {
    lifo_slot = none;
    local_ring = Ring.empty_ring;
    inject_queue = c.empty;
    inject_buffer_size = max 1 inject_batch_size;
    injected_outstanding = 0;
    consecutive_lifo_polls = 0;
    lifo_poll_limit = lifo_limit;
    polls_since_inject = 0;
    inject_check_interval = inject_interval;
    lifo_enabled = true;
    stealing_enabled = true;
    steal_attempts = 0;
    steal_successes = 0;
    self_index = 0;
  }

  pub resize_inject_buffer : ℕ → Worker → Worker
  resize_inject_buffer inject_batch_size w = record w {
    inject_buffer_size = max 1 inject_batch_size;
  }

  unfoldable pub has_pending_injected : Worker → Bool
  has_pending_injected w = ltb 0 w.injected_outstanding

  pub should_check_injected : Worker → Bool
  should_check_injected w = leb w.inject_check_interval w.polls_since_inject

  pub has_local_work : Worker → Bool
  has_local_work w = is_some w.lifo_slot || not (is_empty_ring w.local_ring)

  -- Also the body of enqueueDeferredFifo. The result of `enqueue` is not looked at.
  pub fallback_to_inject : Worker → ℕ → Worker
  fallback_to_inject w task = record w {
    inject_queue = (enqueue w.inject_queue task).1;
    injected_outstanding = add64 w.injected_outstanding 1;
  }

  pub enqueue_deferred : Worker → ℕ → Worker
  unfolding fallback_to_inject
  enqueue_deferred w task =
      if remaining_capacity w.local_ring == 0
      then fallback_to_inject w task
      else record w { local_ring = (push_back w.local_ring (some task)).1 }

  -- The task that was in the LIFO slot, if any, makes room.
  defer_slot : Worker → Option ℕ → Worker
  unfolding enqueue_deferred
  defer_slot w none = w
  defer_slot w (some old) = enqueue_deferred w old

  pub schedule_local : Worker → Option ℕ → Worker
  unfolding defer_slot
  schedule_local w none = w
  schedule_local w (some task) =
      if w.lifo_enabled
      then (let w' = defer_slot w w.lifo_slot in record w' { lifo_slot = some task })
      else enqueue_deferred w task

  pub schedule_local_deferred : Worker → Option ℕ → Worker
  unfolding fallback_to_inject
  schedule_local_deferred w none = w
  schedule_local_deferred w (some task) = fallback_to_inject w task

  -- The flag says whether nothing was outstanding before.
  pub schedule_injected : Worker → Option ℕ → Bool × Worker
  schedule_injected w none = (false, w)
  schedule_injected w (some task) = (
    w.injected_outstanding == 0,
    record w {
      injected_outstanding = add64 w.injected_outstanding 1;
      inject_queue = (enqueue w.inject_queue task).1;
    },
  )

  unfoldable pub drain_injected : Worker → ℕ × Worker
  unfolding push_reversed
  drain_injected w =
      if w.inject_buffer_size == 0
      then (0, w)
      else (let remaining = remaining_capacity w.local_ring in
          if remaining == 0
          then (0, w)
          else (let (out, q) =
                try_dequeue_bulk w.inject_queue (min remaining w.inject_buffer_size) in
              (
                length out,
                record w {
                  inject_queue = q;
                  local_ring = push_reversed w.local_ring out;
                  injected_outstanding =
                      if ltb 0 (length out)
                      then sub64 w.injected_outstanding (length out)
                      else w.injected_outstanding;
                  polls_since_inject = 0;
                },
              )))

  pub prepare_for_run : Worker → Worker
  unfolding defer_slot
  prepare_for_run w =
      if w.lifo_enabled && is_some w.lifo_slot && leb w.lifo_poll_limit w.consecutive_lifo_polls
      then (let w' = defer_slot w w.lifo_slot in
          record w' { lifo_slot = none; lifo_enabled = false; consecutive_lifo_polls = 0 })
      else w

  take_next : Worker → Option ℕ → Option (Option ℕ) × Worker
  take_next w (some task) = (
    some (some task),
    record w {
      lifo_slot = none;
      consecutive_lifo_polls = add32 w.consecutive_lifo_polls 1;
      polls_since_inject = add32 w.polls_since_inject 1;
    },
  )
  take_next w none =
      let (out, ring) = pop_back w.local_ring in
      if is_some out
      then (
        out,
        record w {
          local_ring = ring;
          lifo_enabled = true;
          consecutive_lifo_polls = 0;
          polls_since_inject = add32 w.polls_since_inject 1;
        },
      )
      else (none, record w { local_ring = ring })

  -- `none` is the result false, `some out` the result true with `out` assigned.
  pub pop_next : Worker → Option (Option ℕ) × Worker
  unfolding prepare_for_run take_next
  pop_next w = let w' = prepare_for_run w in take_next w' w'.lifo_slot

  pub steal_from : (ℕ → Bool) → Worker → Option (Option ℕ) × Worker
  steal_from owner_only w =
      let (out, ring) = steal_front owner_only w.local_ring in (out, record w { local_ring = ring })

  -- The rest of the loop body of trySteal for the sibling at `index`, looked up: the ring of its
  -- worker, or `none` where there is no scheduler or it has no such worker. The flag is the return
  -- with true; otherwise the loop goes on.
  steal_at :
      (ℕ → Bool)
      → ℕ
      → ℕ
      → List (Option Ring)
      → Worker
      → Option (Option Ring)
      → Bool × List (Option Ring) × Worker
  unfolding steal_some
  steal_at owner_only local_capacity index siblings w none = (false, siblings, w)
  steal_at owner_only local_capacity index siblings w (some none) = (false, siblings, w)
  steal_at owner_only local_capacity index siblings w (some (some victim)) =
      let victim_size = Ring.size victim in
      if victim_size == 0
      then (false, siblings, w)
      else (let target = min local_capacity (max 1 (victim_size / 2)) in
          let (stolen, victim', ring) = steal_some owner_only target victim w.local_ring in
          let siblings' = set siblings index (some victim') in
          let w' = record w { local_ring = ring } in
          if ltb 0 stolen
          then (
            true,
            siblings',
            record w' {
              lifo_enabled = true;
              consecutive_lifo_polls = 0;
              polls_since_inject = 0;
              steal_successes = add64 w.steal_successes 1;
            },
          )
          else (false, siblings', w'))

  -- The loop of trySteal over the siblings, `rounds` of them left, `probe` behind it.
  probe_siblings :
      (ℕ → Bool) → ℕ → ℕ → ℕ → ℕ → List (Option Ring) → Worker → Bool × List (Option Ring) × Worker
  unfolding steal_at
  probe_siblings owner_only local_capacity start zero probe siblings w = (false, siblings, w)
  probe_siblings owner_only local_capacity start (suc rounds) probe siblings w =
      let victim_index = (start + probe) % length siblings in
      let (found, siblings', w') =
        if victim_index == w.self_index
        then (false, siblings, w)
        else steal_at owner_only local_capacity victim_index siblings w
            (get_elem? siblings victim_index) in
      let rest = probe_siblings owner_only local_capacity start rounds (probe + 1) siblings' w' in
      if found then (found, siblings', w') else rest

  -- `start` is what the random device draws, below the number of siblings.
  pub try_steal : (ℕ → Bool) → ℕ → List (Option Ring) → Worker → Bool × List (Option Ring) × Worker
  unfolding probe_siblings
  try_steal owner_only start siblings w =
      if not w.stealing_enabled
        || has_local_work w
        || has_pending_injected w
        || leb (length siblings) 1
      then (false, siblings, w)
      else (let local_capacity = remaining_capacity w.local_ring in
          if local_capacity == 0
          then (false, siblings, w)
          else probe_siblings owner_only local_capacity start (length siblings) 0 siblings
              (record w { steal_attempts = add64 w.steal_attempts 1 }))
