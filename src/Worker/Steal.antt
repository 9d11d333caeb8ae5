-- ===== src/Worker/Steal.antt =====
-- Stealing from sibling workers loses no task and gives none to two of them.
use mathlib.Core.List.{append-nil}
use galay_kernel.Prelude.{
  ℕ, zero, suc, ◌+◌, ◌/◌, ◌%◌, ◌≤◌, ◌<◌, add64, ◌≡◌, refl, ap, ◌∙◌, sym, subst, Bool, true, false,
  Option, none, some, List, ◌++◌, arith, length, count, count-append, word64, if_elim, set,
  get_elem?, min, max, ltb, ◌==◌, leb, not, ◌||◌, if◌then◌else◌,
}
use galay_kernel.Concurrent.{ConcurrentQueue}
use galay_kernel.Ring
use galay_kernel.Ring.{Ring, capacity, push_back, steal_front, remaining_capacity}
use galay_kernel.Ring.Refine
use galay_kernel.Ring.Refine.{contents, steal_refines, push_room, size_lem, returned}
use galay_kernel.Worker
use galay_kernel.Worker.{Worker}
use galay_kernel.Worker.Moves.{
  steal_some-Moved, AllValid, total, IsValid-at, AllValid-set, total-set, nil_of_length,
}

module _ (c : ConcurrentQueue) where
  -- The tasks of a worker and its siblings before and after; the thief's slot, queue and counter of
  -- injected tasks are left alone, and a call that reports no success has moved nothing.
  pub record Probed (siblings : List (Option Ring)) (w : Worker c)
      (result : Bool × List (Option Ring) × Worker c) : Type 0 where
    pub valid : AllValid result.1
    pub valid_own : Refine.IsValid result.2.local_ring
    pub kept :
        (a : ℕ)
        → total a result.1 + count a (contents result.2.local_ring)
          ≡ total a siblings + count a (contents w.local_ring)
    pub same_slot : result.2.lifo_slot ≡ w.lifo_slot
    pub same_queue : result.2.inject_queue ≡ w.inject_queue
    pub failed :
        result.0 ≡ false
        → (contents result.2.local_ring ≡ contents w.local_ring)
          × (result.2.local_ring.tail ≡ w.local_ring.tail)

  unprobed :
      {siblings : List (Option Ring)} {w : Worker c} (w' : Worker c)
      → AllValid siblings
      → Refine.IsValid w.local_ring
      → w'.local_ring ≡ w.local_ring
      → w'.lifo_slot ≡ w.lifo_slot
      → w'.inject_queue ≡ w.inject_queue
      → Probed siblings w (false, siblings, w')
  unprobed {siblings} {w} w' hs hr e f g = record {
    valid = hs;
    valid_own = subst Refine.IsValid (sym e) hr;
    kept = λ a. ap (λ (x : Ring). total a siblings + count a (contents x)) e;
    same_slot = f;
    same_queue = g;
    failed = λ _. (ap contents e, ap (λ (x : Ring). x.tail) e);
  }

  steal_at-Probed :
      (owner_only : ℕ → Bool) (room i : ℕ) (siblings : List (Option Ring)) (w : Worker c)
      (found : Option (Option Ring))
      → found ≡ get_elem? siblings i
      → AllValid siblings
      → Refine.IsValid w.local_ring
      → w.local_ring.tail + room < word64
      → room ≤ remaining_capacity w.local_ring
      → Probed siblings w (Worker.steal_at c owner_only room i siblings w found)
  unfolding Worker.steal_at
  steal_at-Probed owner_only room i siblings w none e hs hr fresh fits =
      unprobed w hs hr refl refl refl
  steal_at-Probed owner_only room i siblings w (some none) e hs hr fresh fits =
      unprobed w hs hr refl refl refl
  steal_at-Probed owner_only room i siblings w (some (some victim)) e hs hr fresh fits =
      if_elim (Probed siblings w) (Ring.size victim == 0) (λ _. unprobed w hs hr refl refl refl)
        (λ _.
          let m =
            steal_some-Moved owner_only (min room (max 1 (Ring.size victim / 2)))
              (IsValid-at siblings i hs (sym e)) hr (omega arith) (omega arith) in
          let (moved, left, own, counted) = m.order in
          let kept : (a : ℕ)
              → total a (
                    set siblings i (
                      some
                        (Worker.steal_some owner_only (min room (max 1 (Ring.size victim / 2)))
                          victim w.local_ring).1))
                  + count a (
                      contents
                        (Worker.steal_some owner_only (min room (max 1 (Ring.size victim / 2)))
                          victim w.local_ring).2)
                ≡ total a siblings + count a (contents w.local_ring) =
            λ a. omega (
              arith,
              ap (count a) left,
              ap (count a) own,
              count-append a (contents w.local_ring) moved,
              count-append a moved (
                  contents
                    (Worker.steal_some owner_only (min room (max 1 (Ring.size victim / 2))) victim
                      w.local_ring).1),
              total-set a siblings i
                  (Worker.steal_some owner_only (min room (max 1 (Ring.size victim / 2))) victim
                    w.local_ring).1
                  (sym e),
            ) in
          if_elim (Probed siblings w)
            (ltb 0
              (Worker.steal_some owner_only (min room (max 1 (Ring.size victim / 2))) victim
                w.local_ring).0)
            (λ some_stolen. record {
              valid = AllValid-set siblings i _ hs m.valid;
              valid_own = m.valid_own;
              kept = kept;
              same_slot = refl;
              same_queue = refl;
              failed = λ q. cc;
            })
            (λ no_stolen. record {
              valid = AllValid-set siblings i _ hs m.valid;
              valid_own = m.valid_own;
              kept = kept;
              same_slot = refl;
              same_queue = refl;
              failed = λ q. (
                own
                    ∙ ap (λ ts. contents w.local_ring ++ ts)
                        (nil_of_length moved (ground (arith, counted, no_stolen)))
                    ∙ append-nil (contents w.local_ring),
                ground (arith, m.tail, no_stolen),
              );
            }))

  Probed-then :
      {siblings : List (Option Ring)} {w : Worker c} {step : Bool × List (Option Ring) × Worker c}
      (rest : Bool × List (Option Ring) × Worker c)
      → step.0 ≡ false
      → Probed siblings w step
      → Probed step.1 step.2 rest
      → Probed siblings w rest
  Probed-then rest missed p q = record {
    valid = q.valid;
    valid_own = q.valid_own;
    kept = λ a. omega (arith, p.kept a, q.kept a);
    same_slot = q.same_slot ∙ p.same_slot;
    same_queue = q.same_queue ∙ p.same_queue;
    failed = λ e. ((q.failed e).0 ∙ (p.failed missed).0, (q.failed e).1 ∙ (p.failed missed).1);
  }

  probe-Probed :
      (owner_only : ℕ → Bool) (room start rounds probe : ℕ) (siblings : List (Option Ring))
      (w : Worker c)
      → AllValid siblings
      → Refine.IsValid w.local_ring
      → w.local_ring.tail + room < word64
      → room ≤ remaining_capacity w.local_ring
      → Probed siblings w (Worker.probe_siblings c owner_only room start rounds probe siblings w)
  unfolding Worker.probe_siblings
  probe-Probed owner_only room start zero probe siblings w hs hr fresh fits =
      unprobed w hs hr refl refl refl
  probe-Probed owner_only room start (suc rounds) probe siblings w hs hr fresh fits =
      go _ p (λ s x a b d e. probe-Probed owner_only room start rounds (probe + 1) s x a b d e)
    where
      i : ℕ
      i = (start + probe) % length siblings

      Step : Type 0
      Step = Bool × List (Option Ring) × Worker c

      step : Step
      step =
          if i == w.self_index
          then (false, siblings, w)
          else Worker.steal_at c owner_only room i siblings w (get_elem? siblings i)

      p : Probed siblings w step
      p =
          if_elim (Probed siblings w) (i == w.self_index) (λ _. unprobed w hs hr refl refl refl)
            (λ _.
              steal_at-Probed owner_only room i siblings w (get_elem? siblings i) refl hs hr fresh
                fits)

      go :
          (s : Step)
          → Probed siblings w s
          → ((s : List (Option Ring)) (x : Worker c)
              → AllValid s
              → Refine.IsValid x.local_ring
              → x.local_ring.tail + room < word64
              → room ≤ remaining_capacity x.local_ring
              → Probed s x (Worker.probe_siblings c owner_only room start rounds (probe + 1) s x))
          → Probed siblings w (
              if s.0
              then (s.0, s.1, s.2)
              else Worker.probe_siblings c owner_only room start rounds (probe + 1) s.1 s.2)
      go (true, s, x) q ih = q
      go (false, s, x) q ih =
          let f = q.failed refl in
          Probed-then (Worker.probe_siblings c owner_only room start rounds (probe + 1) s x) refl q
            (ih s x q.valid q.valid_own (omega (arith, f.1))
              (omega (arith, size_lem q.valid_own, size_lem hr, ap length f.0)))

  -- Whatever sibling the search starts at and whatever tasks only their owner may run, stealing
  -- loses no task of the thief or its siblings and doubles none, keeps all rings well formed,
  -- leaves the LIFO slot and the injection queue alone, and a call that returns false has not
  -- changed what the thief's ring holds.
  pub try_steal-Probed :
      (owner_only : ℕ → Bool) (start : ℕ) (siblings : List (Option Ring)) (w : Worker c)
      → AllValid siblings
      → Refine.IsValid w.local_ring
      → w.local_ring.tail + capacity < word64
      → Probed siblings w (Worker.try_steal c owner_only start siblings w)
  unfolding Worker.try_steal
  try_steal-Probed owner_only start siblings w hs hr fresh =
      if_elim (Probed siblings w)
        (not w.stealing_enabled
          || Worker.has_local_work c w
          || Worker.has_pending_injected c w
          || leb (length siblings) 1)
        (λ _. unprobed w hs hr refl refl refl)
        (λ _.
          if_elim (Probed siblings w) (remaining_capacity w.local_ring == 0)
            (λ _. unprobed w hs hr refl refl refl)
            (λ _.
              let p =
                probe-Probed owner_only (remaining_capacity w.local_ring) start (length siblings) 0
                  siblings (record w { steal_attempts = add64 w.steal_attempts 1 }) hs hr
                  (omega (arith, size_lem hr)) (omega arith) in
              record {
                valid = p.valid;
                valid_own = p.valid_own;
                kept = p.kept;
                same_slot = p.same_slot;
                same_queue = p.same_queue;
                failed = p.failed;
              }))
