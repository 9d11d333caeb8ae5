-- ===== src/Worker/Order.antt =====
-- Which task runs next on a worker of io_scheduler.hpp.
use mathlib.Core.Path.{ap₂}
use galay_kernel.Prelude.{
  ℕ, zero, suc, ◌+◌, ◌≤◌, ◌<◌, ◌≡◌, refl, ap, ◌∙◌, sym, subst, true, false, Option, none, some,
  List, [], ◌∷◌, arith, length, replicate, word64, if_elim, is_some, ◌&&◌, leb, ◌==◌,
}
use galay_kernel.Concurrent.{ConcurrentQueue}
use galay_kernel.Ring.{Ring, push_back, pop_back, remaining_capacity}
use galay_kernel.Ring.Deque
use galay_kernel.Ring.Refine
use galay_kernel.Ring.Refine.{contents, pop_refines, size_lem, tail_bounds}
use galay_kernel.Ring.Deque.{pop-snoc}
use galay_kernel.Worker
use galay_kernel.Worker.{Worker}
use galay_kernel.Worker.Pushes.{push-Pushed}

-- A task just pushed is the one that the owner pops, and the ring is as before.
record Returned (r r' : Ring) (task : ℕ) (out : Option (Option ℕ)) : Type 0 where
  valid : Refine.IsValid r'
  same_task : out ≡ some (some task)
  others : contents r' ≡ contents r
  tail : r'.tail ≤ r.tail + 1

pop-push :
    {r : Ring} (task : ℕ)
    → Refine.IsValid r
    → r.tail + 1 < word64
    → 0 < remaining_capacity r
    → let (out, r') = pop_back (push_back r (some task)).1 in Returned r r' task out
pop-push {r} task v fresh room =
    let p = push-Pushed task v fresh room in
    let (e, f, valid) = pop_refines p.valid in
    let d = ap Deque.pop p.order ∙ pop-snoc (contents r) task in
    record {
      valid = valid;
      same_task = ground (arith, e, d);
      others = ground (arith, f, d);
      tail = omega (arith, (tail_bounds (λ _. false) 0 p.valid).1, p.tail);
    }

module _ (c : ConcurrentQueue) where
  -- The slot is in use and holds `t`, and the ring has a free slot.
  pub record Hot (w : Worker c) (t : ℕ) : Type 0 where
    pub ring : Refine.IsValid w.local_ring
    pub slot : w.lifo_slot ≡ some t
    pub on : w.lifo_enabled ≡ true
    pub free : 0 < remaining_capacity w.local_ring

  deferred :
      (w : Worker c) (t : ℕ) (slot : Option ℕ)
      → slot ≡ some t
      → 0 < remaining_capacity w.local_ring
      → Worker.defer_slot c w slot ≡ record w { local_ring = (push_back w.local_ring (some t)).1 }
  unfolding Worker.defer_slot
  deferred w t none e free = absurd (cc)
  deferred w t (some x) e free =
      if_elim (λ y. y ≡ record w { local_ring = (push_back w.local_ring (some t)).1 })
        (remaining_capacity w.local_ring == 0) (λ full. absurd (ground arith))
        (λ _. ap (λ o. record w { local_ring = (push_back w.local_ring o).1 }) e)

  -- What taking the next task of a hot worker does.
  record Spun (w : Worker c) (t : ℕ) (result : Option (Option ℕ) × Worker c) : Type 0 where
    ring : Refine.IsValid result.1.local_ring
    task : result.0 ≡ some (some t)
    slot : result.1.lifo_slot ≡ none
    on : result.1.lifo_enabled ≡ true
    others : contents result.1.local_ring ≡ contents w.local_ring
    tail : result.1.local_ring.tail ≤ w.local_ring.tail + 1

  pop_next-Spun :
      {w : Worker c} (t : ℕ)
      → Hot w t
      → w.local_ring.tail + 1 < word64
      → Spun w t (Worker.pop_next c w)
  unfolding Worker.pop_next
  pop_next-Spun {w} t h fresh =
      if_elim (λ (x : Worker c). Spun w t (Worker.take_next c x x.lifo_slot))
        (w.lifo_enabled && is_some w.lifo_slot && leb w.lifo_poll_limit w.consecutive_lifo_polls)
        (λ limit.
          subst
            (λ (y : Worker c). Spun w t (
              Worker.take_next c
                (record y { lifo_slot = none; lifo_enabled = false; consecutive_lifo_polls = 0 })
                none))
            (sym (deferred w t w.lifo_slot h.slot h.free))
            (let p = pop-push t h.ring fresh h.free in
              if_elim (Spun w t) (is_some (pop_back (push_back w.local_ring (some t)).1).0)
                (λ got. record {
                  ring = p.valid;
                  task = p.same_task;
                  slot = refl;
                  on = refl;
                  others = p.others;
                  tail = p.tail;
                })
                (λ missed. absurd (ground (arith, p.same_task)))))
        (λ below.
          subst (λ o. Spun w t (Worker.take_next c w o)) (sym h.slot)
            (record {
              ring = h.ring;
              task = refl;
              slot = refl;
              on = h.on;
              others = refl;
              tail = omega arith;
            }))

  -- A task that schedules itself again whenever it runs, `n` times, with what each take hands out.
  pub spin : ℕ → ℕ → Worker c → List (Option (Option ℕ)) × Worker c
  spin zero t w = ([], w)
  spin (suc n) t w =
      let (out, w') = Worker.pop_next c w in
      let (outs, w'') = spin n t (Worker.schedule_local c w' (some t)) in (out ∷ outs, w'')

  reschedule :
      (w : Worker c) (t : ℕ)
      → w.lifo_slot ≡ none
      → w.lifo_enabled ≡ true
      → Worker.schedule_local c w (some t) ≡ record w { lifo_slot = some t }
  unfolding Worker.schedule_local
  reschedule w t slot on =
      if_elim (λ y. y ≡ record w { lifo_slot = some t }) w.lifo_enabled
        (λ _.
          subst
            (λ o.
              (let y = Worker.defer_slot c w o in record y { lifo_slot = some t })
              ≡ record w { lifo_slot = some t })
            (sym slot) refl)
        (λ off. absurd (cc))

  respun-Hot :
      {w : Worker c} (t : ℕ)
      → Hot w t
      → w.local_ring.tail + 1 < word64
      → Hot (record (Worker.pop_next c w).1 { lifo_slot = some t }) t
  respun-Hot {w} t h fresh =
      let p = pop_next-Spun t h fresh in
      record {
        ring = p.ring;
        slot = refl;
        on = p.on;
        free = omega (arith, size_lem p.ring, size_lem h.ring, ap length p.others, h.free);
      }

  -- The limit on consecutive LIFO polls does not let other tasks run: while the ring has a free
  -- slot, a task in the LIFO slot that schedules itself again whenever it runs is handed out each
  -- time, however often, and the tasks in the ring stay where they are. What the limit moves to the
  -- ring is popped from there at once.
  pub lifo_starves_ring :
      (n : ℕ) {w : Worker c} (t : ℕ)
      → Hot w t
      → w.local_ring.tail + n < word64
      → let (outs, w') = spin n t w in
        (outs ≡ replicate n (some (some t))) × (contents w'.local_ring ≡ contents w.local_ring)
  unfolding spin
  lifo_starves_ring zero t h fresh = (refl, refl)
  lifo_starves_ring (suc n) {w} t h fresh =
      let p = pop_next-Spun t h (omega arith) in
      let again = lifo_starves_ring n t (respun-Hot t h (omega arith)) (omega (arith, p.tail)) in
      rw (reschedule (Worker.pop_next c w).1 t p.slot p.on)
        (ap₂ ◌∷◌ p.task again.0, again.1 ∙ p.others)
