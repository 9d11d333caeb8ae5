-- ===== src/Worker/Drains.antt =====
-- Tasks that are taken from the ring come in the order in which they were injected (io_scheduler.hpp,
-- drainInjected and popNext).
use mathlib.Core.List.{reverse, reverse-cons, append_assoc, append-nil}
use mathlib.Core.Path.{ap₂}
use galay_kernel.Prelude.{
  ℕ, zero, suc, ◌+◌, ◌≤◌, ◌≡◌, refl, ap, ◌∙◌, sym, Option, none, some, List, [], ◌∷◌, ◌++◌, arith,
  length, count, map, min, if_elim, is_some, ◌&&◌, leb, ◌==◌,
}
use galay_kernel.Concurrent.{ConcurrentQueue}
use galay_kernel.Ring.{capacity, pop_back, remaining_capacity}
use galay_kernel.Ring.Deque
use galay_kernel.Ring.Refine
use galay_kernel.Ring.Refine.{contents, pop_refines, size_lem, tail_bounds}
use galay_kernel.Ring.Deque.{pop-snoc}
use galay_kernel.Worker
use galay_kernel.Worker.{Worker}
use galay_kernel.Worker.Pushes.{push_reversed-Reversed}
use galay_kernel.Worker.Conserve.{IsValid, HasRoom}

module _ (c : ConcurrentQueue) where
  -- `n` tasks taken one after the other.
  pub takes : ℕ → Worker c → List (Option (Option ℕ)) × Worker c
  takes zero w = ([], w)
  takes (suc n) w =
      let (out, w') = Worker.pop_next c w in let (outs, w'') = takes n w' in (out ∷ outs, w'')

  -- With an empty LIFO slot the task at the back of the ring is next.
  record FromRing (task : ℕ) (rest : List ℕ) (result : Option (Option ℕ) × Worker c) : Type 0 where
    ring : Refine.IsValid result.1.local_ring
    slot : result.1.lifo_slot ≡ none
    task_out : result.0 ≡ some (some task)
    others : contents result.1.local_ring ≡ rest

  take-FromRing :
      (w : Worker c) (rest : List ℕ) (task : ℕ)
      → Refine.IsValid w.local_ring
      → w.lifo_slot ≡ none
      → contents w.local_ring ≡ rest ++ task ∷ []
      → (slot : Option ℕ) → slot ≡ none
      → FromRing task rest (Worker.take_next c w slot)
  unfolding Worker.take_next
  take-FromRing w rest task v empty e (some x) q = absurd (cc)
  take-FromRing w rest task v empty e none q =
      let (out, left, valid) = pop_refines v in
      let d = ap Deque.pop e ∙ pop-snoc rest task in
      let got : (pop_back w.local_ring).0 ≡ some (some task) = ground (arith, out, d) in
      if_elim (FromRing task rest) (is_some (pop_back w.local_ring).0)
        (λ _. record {
          ring = valid;
          slot = empty;
          task_out = got;
          others = ground (arith, left, d);
        })
        (λ missed. absurd (ground (arith, got)))

  pop_next-FromRing :
      (w : Worker c) (rest : List ℕ) (task : ℕ)
      → Refine.IsValid w.local_ring
      → w.lifo_slot ≡ none
      → contents w.local_ring ≡ rest ++ task ∷ []
      → FromRing task rest (Worker.pop_next c w)
  unfolding Worker.pop_next
  pop_next-FromRing w rest task v empty e =
      if_elim (λ (x : Worker c). FromRing task rest (Worker.take_next c x x.lifo_slot))
        (w.lifo_enabled && is_some w.lifo_slot && leb w.lifo_poll_limit w.consecutive_lifo_polls)
        (λ on. absurd (ground (arith, empty)))
        (λ off. take-FromRing w rest task v empty e w.lifo_slot empty)

  takes_reversed :
      (w : Worker c) (out rest : List ℕ)
      → Refine.IsValid w.local_ring
      → w.lifo_slot ≡ none
      → contents w.local_ring ≡ rest ++ reverse out
      → let (outs, w') = takes (length out) w in
        (outs ≡ map (λ t. some (some t)) out) × (contents w'.local_ring ≡ rest)
  unfolding takes
  takes_reversed w [] rest v empty e = (refl, e ∙ append-nil rest)
  takes_reversed w (x ∷ xs) rest v empty e =
      let p = pop_next-FromRing w (rest ++ reverse xs) x v empty (
        e
        ∙ ap (λ ts. rest ++ ts) (reverse-cons x xs)
        ∙ sym (append_assoc rest (reverse xs) (x ∷ []))) in
      let again = takes_reversed (Worker.pop_next c w).1 xs rest p.ring p.slot p.others in
      (ap₂ ◌∷◌ p.task_out again.0, again.1)

  -- A batch that was moved from the queue of `w`, and what runs after it.
  pub record Drained (w : Worker c) (result : ℕ × Worker c) : Type 0 where
    pub batch : List ℕ
    pub counted : result.0 ≡ length batch
    pub taken :
        (a : ℕ)
        → count a batch + count a (c.items result.1.inject_queue) ≡ count a (c.items w.inject_queue)
    pub next_run : (takes result.0 result.1).0 ≡ map (λ t. some (some t)) batch
    pub then_ring : contents (takes result.0 result.1).1.local_ring ≡ contents w.local_ring

  none_moved : (w : Worker c) → Drained w (0, w)
  unfolding takes
  none_moved w = record {
    batch = [];
    counted = refl;
    taken = λ a. omega arith;
    next_run = refl;
    then_ring = refl;
  }

  -- Draining while the LIFO slot is empty keeps the order of the injection queue: the tasks of the
  -- batch that the queue gave out run next, first come first served, and then those of the ring.
  pub drain_fifo :
      {w : Worker c}
      → IsValid c w
      → HasRoom c w capacity
      → w.lifo_slot ≡ none
      → Drained w (Worker.drain_injected c w)
  unfolding Worker.drain_injected
  drain_fifo {w} v room idle =
      if_elim (Drained w) (w.inject_buffer_size == 0) (λ _. none_moved w)
        (λ _.
          if_elim (Drained w) (remaining_capacity w.local_ring == 0) (λ _. none_moved w)
            (λ free.
              let p =
                push_reversed-Reversed out v.ring (omega (arith, few, room.ring, size_lem v.ring))
                  (omega (arith, few)) in
              let t =
                takes_reversed
                  (record w {
                    inject_queue = left;
                    local_ring = Worker.push_reversed w.local_ring out;
                    injected_outstanding = _;
                    polls_since_inject = 0;
                  })
                  out (contents w.local_ring) p.valid idle p.order in
              record {
                batch = out;
                counted = refl;
                taken = λ a. c.count-dequeue a target w.inject_queue;
                next_run = t.0;
                then_ring = t.1;
              }))
    where
      target : ℕ
      target = min (remaining_capacity w.local_ring) w.inject_buffer_size

      out : List ℕ
      out = (c.try_dequeue_bulk w.inject_queue target).0

      left : c.Queue
      left = (c.try_dequeue_bulk w.inject_queue target).1

      few : length out ≤ target
      few = (c.length-dequeue target w.inject_queue).0
