-- ===== src/Worker/Conserve.antt =====
-- No operation of a worker loses a task or makes one up, and each keeps the worker well formed.
use galay_kernel.Prelude.{
  ℕ, ◌+◌, ◌≤◌, ◌<◌, ◌≡◌, ◌≢◌, refl, ap, ◌↔◌, true, Option, none, some, List, [], ◌∷◌, arith, length,
  length-append, count, option_list, word64, ◌==◌, min, is_some, ◌&&◌, leb, if_elim,
}
use galay_kernel.Concurrent.{ConcurrentQueue}
use galay_kernel.Ring.{capacity, pop_back, remaining_capacity}
use galay_kernel.Ring.Refine.{contents, push_room, pop_refines, size_lem}
use galay_kernel.Ring.Refine
use galay_kernel.Worker
use galay_kernel.Worker.Pushes.{push-Pushed, pop-Popped, handed, Reversed, push_reversed-Reversed}
use galay_kernel.Worker.{Worker}

module _ (c : ConcurrentQueue) where
  open c use {
    items, enqueue, try_dequeue_bulk, count-enqueue, length-enqueue, count-dequeue, length-dequeue,
  }

  -- How often a task is in the worker, without and with its LIFO slot.
  abbrev pub stored : ℕ → Worker c → ℕ
  stored a w = count a (contents w.local_ring) + count a (items w.inject_queue)

  abbrev pub holds : ℕ → Worker c → ℕ
  holds a w = count a (option_list w.lifo_slot) + stored a w

  -- The counter says what the queue holds, and the buffer has room for a task.
  pub record IsValid (w : Worker c) : Type 0 where
    pub ring : Refine.IsValid w.local_ring
    pub outstanding : w.injected_outstanding ≡ length (items w.inject_queue)
    pub countable : length (items w.inject_queue) < word64
    pub buffer : 0 < w.inject_buffer_size

  -- The 64-bit counters have `n` values left.
  pub record HasRoom (w : Worker c) (n : ℕ) : Type 0 where
    pub ring : w.local_ring.tail + n < word64
    pub queue : length (items w.inject_queue) + n < word64

  -- `w'` is well formed and has the tasks of `w` and `added`.
  pub record Keeps (added : List ℕ) (w w' : Worker c) : Type 0 where
    pub valid : IsValid w'
    pub kept : (a : ℕ) → holds a w' ≡ count a added + holds a w

  -- What is left after a task was taken, if one was.
  pub record Took (w : Worker c) (result : Option (Option ℕ) × Worker c) : Type 0 where
    pub valid : IsValid result.1
    pub kept : (a : ℕ) → holds a w ≡ count a (handed result.0) + holds a result.1
    pub task : result.0 ≢ some none
    pub empty : (result.0 ≡ none) ↔ ((w.lifo_slot ≡ none) × (contents w.local_ring ≡ []))

  -- The same where the LIFO slots are left aside.
  record Stores (added : List ℕ) (w w' : Worker c) : Type 0 where
    valid : IsValid w'
    kept : (a : ℕ) → stored a w' ≡ count a added + stored a w

  -- If the ring is full, the injection queue takes one more task.
  unfoldable pub HasMemory : Worker c → ℕ → Type 0
  HasMemory w task = remaining_capacity w.local_ring ≡ 0 → (enqueue w.inject_queue task).0 ≡ true

  fallback-Stores :
      {w : Worker c} (task : ℕ)
      → (enqueue w.inject_queue task).0 ≡ true
      → IsValid w
      → HasRoom w 1
      → Stores (task ∷ []) w (Worker.fallback_to_inject c w task)
  unfolding Worker.fallback_to_inject
  fallback-Stores {w} task memory v room =
      let q = w.inject_queue in
      record {
        valid = ground (arith, memory, length-enqueue task q);
        kept = λ a. ground (arith, memory, count-enqueue a task q);
      }

  enqueue-Stores :
      {w : Worker c} (task : ℕ)
      → HasMemory w task
      → IsValid w
      → HasRoom w 1
      → Stores (task ∷ []) w (Worker.enqueue_deferred c w task)
  unfolding Worker.enqueue_deferred HasMemory
  enqueue-Stores {w} task memory v room =
      if_elim (Stores (task ∷ []) w) (remaining_capacity w.local_ring == 0)
        (λ full. fallback-Stores task (memory (ground arith)) v room)
        (λ free.
          let p = push-Pushed task v.ring room.ring (ground arith) in
          record {
            valid = record {
              ring = p.valid;
              outstanding = v.outstanding;
              countable = v.countable;
              buffer = v.buffer;
            };
            kept = λ a. omega (arith, p.more a);
          })

  enqueue-slot :
      (w : Worker c) (task : ℕ) → (Worker.enqueue_deferred c w task).lifo_slot ≡ w.lifo_slot
  unfolding Worker.enqueue_deferred
  enqueue-slot w task =
      if_elim (λ (x : Worker c). x.lifo_slot ≡ w.lifo_slot) (remaining_capacity w.local_ring == 0)
        (λ _. refl) (λ _. refl)

  defer-Stores :
      {w : Worker c} (slot : Option ℕ)
      → ((task : ℕ) → HasMemory w task)
      → IsValid w
      → HasRoom w 1
      → Stores (option_list slot) w (Worker.defer_slot c w slot)
  unfolding Worker.defer_slot
  defer-Stores none memory v room = record { valid = v; kept = λ a. omega arith }
  defer-Stores (some old) memory v room = enqueue-Stores old (memory old) v room

  -- Scheduling a task on its own thread keeps the worker well formed and adds that task alone,
  -- whether it goes to the LIFO slot, moves the task there to the ring, or finds the ring full. It is
  -- assumed that if the ring is full, the injection queue takes one more task (an enqueue that finds
  -- no memory fails, and the task is lost), and that the 64-bit counters have a value left.
  pub schedule_local-Keeps :
      {w : Worker c} (task : ℕ)
      → ((x : ℕ) → HasMemory w x)
      → IsValid w
      → HasRoom w 1
      → Keeps (task ∷ []) w (Worker.schedule_local c w (some task))
  unfolding Worker.schedule_local
  schedule_local-Keeps {w} task memory v room =
      if_elim (Keeps (task ∷ []) w) w.lifo_enabled
        (λ on.
          let d = defer-Stores w.lifo_slot memory v room in
          record {
            valid = record {
              ring = d.valid.ring;
              outstanding = d.valid.outstanding;
              countable = d.valid.countable;
              buffer = d.valid.buffer;
            };
            kept = λ a. omega (arith, d.kept a);
          })
        (λ off.
          let d = enqueue-Stores task (memory task) v room in
          record {
            valid = d.valid;
            kept = λ a. rw (enqueue-slot w task) (omega (arith, d.kept a));
          })

  -- So does injecting it from another thread, if the queue takes it, and the flag says that nothing
  -- was outstanding.
  pub schedule_injected-Keeps :
      {w : Worker c} (task : ℕ)
      → (enqueue w.inject_queue task).0 ≡ true
      → IsValid w
      → HasRoom w 1
      → let (was_empty, w') = Worker.schedule_injected c w (some task) in
        Keeps (task ∷ []) w w' × ((was_empty ≡ true) ↔ (length (items w.inject_queue) ≡ 0))
  unfolding Worker.schedule_injected Worker.fallback_to_inject
  schedule_injected-Keeps {w} task memory v room =
      let d = fallback-Stores task memory v room in
      (
        record { valid = d.valid; kept = λ a. omega (arith, d.kept a) },
        (ground arith, ground arith),
      )

  -- Draining keeps the worker well formed and moves tasks from the queue to the ring, none is lost,
  -- and the count returned is how many: at most the ring's free slots and the size of the buffer. The
  -- 64-bit counters have room for a full ring.
  pub drain_injected-Keeps :
      {w : Worker c}
      → IsValid w
      → HasRoom w capacity
      → let (drained, w') = Worker.drain_injected c w in
        Keeps [] w w'
        × (drained + length (items w'.inject_queue) ≡ length (items w.inject_queue))
        × (drained + remaining_capacity w'.local_ring ≡ remaining_capacity w.local_ring)
        × (drained ≤ w.inject_buffer_size)
  unfolding Worker.drain_injected
  drain_injected-Keeps {w} v room =
      if_elim Good (w.inject_buffer_size == 0) (λ e. unmoved)
        (λ _.
          if_elim Good (remaining_capacity w.local_ring == 0) (λ e. unmoved)
            (λ free. (
              record {
                valid = record {
                  ring = p.valid;
                  outstanding = ground (arith, l.1, v.outstanding, v.countable);
                  countable = omega (arith, l.1, v.countable);
                  buffer = v.buffer;
                };
                kept = λ a. omega (arith, p.more a, count-dequeue a target w.inject_queue);
              },
              l.1,
              p.room,
              omega (arith, l.0),
            )))
    where
      Good : ℕ × Worker c → Type 0
      Good (drained, w') =
          Keeps [] w w'
          × (drained + length (items w'.inject_queue) ≡ length (items w.inject_queue))
          × (drained + remaining_capacity w'.local_ring ≡ remaining_capacity w.local_ring)
          × (drained ≤ w.inject_buffer_size)

      unmoved : Good (0, w)
      unmoved =
          (record { valid = v; kept = λ a. omega arith }, omega arith, omega arith, omega arith)

      target : ℕ
      target = min (remaining_capacity w.local_ring) w.inject_buffer_size

      l :
          (length (try_dequeue_bulk w.inject_queue target).0 ≤ target)
          × (length (try_dequeue_bulk w.inject_queue target).0
                + length (items (try_dequeue_bulk w.inject_queue target).1)
              ≡ length (items w.inject_queue))
      l = length-dequeue target w.inject_queue

      p :
          Reversed w.local_ring
            (Worker.push_reversed w.local_ring (try_dequeue_bulk w.inject_queue target).0)
            (try_dequeue_bulk w.inject_queue target).0
      p =
          push_reversed-Reversed (try_dequeue_bulk w.inject_queue target).0 v.ring
            (omega (arith, l.0, room.ring, size_lem v.ring)) (omega (arith, l.0))

  -- Before a task is taken, the LIFO slot may be emptied into the ring: no task is lost by it.
  prepare-Keeps :
      {w : Worker c}
      → ((x : ℕ) → HasMemory w x)
      → IsValid w
      → HasRoom w 1
      → Keeps [] w (Worker.prepare_for_run c w)
  unfolding Worker.prepare_for_run
  prepare-Keeps {w} memory v room =
      if_elim (Keeps [] w)
        (w.lifo_enabled && is_some w.lifo_slot && leb w.lifo_poll_limit w.consecutive_lifo_polls)
        (λ on.
          let d = defer-Stores w.lifo_slot memory v room in
          record {
            valid = record {
              ring = d.valid.ring;
              outstanding = d.valid.outstanding;
              countable = d.valid.countable;
              buffer = d.valid.buffer;
            };
            kept = λ a. omega (arith, d.kept a);
          })
        (λ off. record { valid = v; kept = λ a. omega arith })

  take-Took :
      {w : Worker c} (slot : Option ℕ)
      → w.lifo_slot ≡ slot
      → IsValid w
      → Took w (Worker.take_next c w slot)
  unfolding Worker.take_next
  take-Took {w} none e v =
      let p = pop-Popped v.ring in
      if_elim (Took w) (is_some (pop_back w.local_ring).0)
        (λ got. record {
          valid = record {
            ring = p.valid;
            outstanding = v.outstanding;
            countable = v.countable;
            buffer = v.buffer;
          };
          kept = λ a. omega (arith, p.less a);
          task = p.task;
          empty = (λ q. (e, p.empty.0 q), λ q. p.empty.1 q.1);
        })
        (λ missed.
          let o : (pop_back w.local_ring).0 ≡ none = ground arith in
          record {
            valid = record {
              ring = p.valid;
              outstanding = v.outstanding;
              countable = v.countable;
              buffer = v.buffer;
            };
            kept = λ a. omega (arith, p.less a, ap (λ q. count a (handed q)) o);
            task = λ q. cc;
            empty = (λ q. (e, p.empty.0 o), λ q. refl);
          })
  take-Took {w} (some t) e v = record {
    valid = record {
      ring = v.ring;
      outstanding = v.outstanding;
      countable = v.countable;
      buffer = v.buffer;
    };
    kept = λ a. ground (arith, e);
    task = λ q. cc;
    empty = (λ q. cc, λ q. cc);
  }

  enqueue_nonempty :
      {w : Worker c} (task : ℕ)
      → IsValid w
      → HasRoom w 1
      → contents (Worker.enqueue_deferred c w task).local_ring ≢ []
  unfolding Worker.enqueue_deferred Worker.fallback_to_inject
  enqueue_nonempty {w} task v room =
      if_elim (λ (x : Worker c). contents x.local_ring ≢ []) (remaining_capacity w.local_ring == 0)
        (λ full e. ground (arith, size_lem v.ring, e))
        (λ free e.
          let p = push-Pushed task v.ring room.ring (ground arith) in
          absurd (
            omega (
              arith,
              ap length p.order,
              ap length e,
              length-append (contents w.local_ring) (task ∷ []),
            )))

  defer_empty :
      {w : Worker c} (slot : Option ℕ)
      → IsValid w
      → HasRoom w 1
      → contents (Worker.defer_slot c w slot).local_ring ≡ []
      → (slot ≡ none) × (contents w.local_ring ≡ [])
  unfolding Worker.defer_slot
  defer_empty none v room e = (refl, e)
  defer_empty (some old) v room e = absurd (enqueue_nonempty old v room e)

  -- With nothing in slot and ring after the preparation there was nothing before.
  prepare_empty :
      {w : Worker c}
      → IsValid w
      → HasRoom w 1
      → let w' = Worker.prepare_for_run c w in
        (w'.lifo_slot ≡ none) × (contents w'.local_ring ≡ [])
        → (w.lifo_slot ≡ none) × (contents w.local_ring ≡ [])
  unfolding Worker.prepare_for_run
  prepare_empty {w} v room =
      if_elim
        (λ (x : Worker c).
          (x.lifo_slot ≡ none) × (contents x.local_ring ≡ [])
          → (w.lifo_slot ≡ none) × (contents w.local_ring ≡ []))
        (w.lifo_enabled && is_some w.lifo_slot && leb w.lifo_poll_limit w.consecutive_lifo_polls)
        (λ on h. defer_empty w.lifo_slot v room h.1) (λ off h. h)

  -- Taking the next task keeps the worker well formed, hands out one of its tasks, never a null
  -- one, and keeps all others; it hands out none only if the LIFO slot and the ring are empty. It is
  -- assumed that if the ring is full, the injection queue takes one more task (an enqueue that finds
  -- no memory fails, and the task of the LIFO slot may be lost), and that the 64-bit counters have a
  -- value left.
  pub pop_next-Keeps :
      {w : Worker c}
      → ((x : ℕ) → HasMemory w x)
      → IsValid w
      → HasRoom w 1
      → let (out, w') = Worker.pop_next c w in
        IsValid w'
        × ((a : ℕ) → holds a w ≡ count a (handed out) + holds a w')
        × (out ≢ some none)
        × (out ≡ none → (w.lifo_slot ≡ none) × (contents w.local_ring ≡ []))
  unfolding Worker.pop_next
  pop_next-Keeps {w} memory v room =
      let k = prepare-Keeps memory v room in
      let t = take-Took (Worker.prepare_for_run c w).lifo_slot refl k.valid in
      (
        t.valid,
        (λ a. omega (arith, t.kept a, k.kept a)),
        t.task,
        λ e. prepare_empty v room (t.empty.0 e),
      )
