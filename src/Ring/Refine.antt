-- ===== src/Ring/Refine.antt =====
-- Run by one thread at a time, the ring of io_scheduler.hpp is a bounded deque of its tasks.
use galay_kernel.Prelude.{
  ℕ, zero, suc, ◌+◌, ◌-◌, ◌%◌, ◌≤◌, ◌<◌, ◌≡◌, refl, ap, ◌∙◌, Bool, true, false, Option, none, some,
  List, [], ◌++◌, ◌∷◌, ◌++◌, arith, length, length-append, word64, option_list, update,
}
use galay_kernel.Ring.{
  Ring, capacity, push_back, pop_back, steal_front, size, remaining_capacity, clear, clear_from,
}
use galay_kernel.Ring.Deque
use galay_kernel.Ring.Deque.{Op, pushes, pops, steals, Reply, reply, pop-snoc}
use galay_kernel.Ring.Window.{
  window, window-update_end, split_last, split_first, window-update_start, window-push,
}

-- The tasks in the ring, the one to be stolen first at the front.
abbrev pub contents : Ring → List ℕ
contents r = window r.slots r.head (r.tail - r.head)

pub record IsValid (r : Ring) : Type 0 where
  pub ordered : r.head ≤ r.tail
  pub fits : r.tail - r.head ≤ capacity
  pub small : r.tail < word64
  pub full : length (contents r) ≡ r.tail - r.head

abbrev pub returned : Option (Option ℕ) → Reply
returned none = (false, none)
returned (some out) = (true, some out)

-- With room the owner's push puts the task behind the others and takes it over; in a full ring it
-- changes nothing and leaves the task with the caller. Either way the ring stays valid, as long as
-- the 64-bit tail index does not run out.
pub push_refines :
    {r : Ring} (task : ℕ)
    → IsValid r
    → r.tail + 1 < word64
    → let (taken, r') = push_back r (some task) in
      ((taken, contents r') ≡ Deque.push capacity (contents r) task) × IsValid r'
unfolding push_back
push_refines {r} task v fresh = ground (
  arith,
  window-push r.slots task r.head r.tail v.ordered,
  length-append (contents r) (task ∷ []),
)

pop_window :
    {r : Ring} (n : ℕ)
    → IsValid r
    → r.tail ≡ r.head + n
    → let (out, r') = pop_back r in
      let (x, rest) = Deque.pop (contents r) in
      (returned out ≡ reply x) × (contents r' ≡ rest) × IsValid r'
unfolding pop_back Deque.pop
pop_window {r} zero v e =
    let d : r.tail - r.head ≡ 0 = omega arith in
    let w : contents r ≡ [] = ap (window r.slots r.head) d in ground (arith, w)
pop_window {r} (suc n) v e =
    let (x, hx, split, len) = split_last r.slots r.head (r.tail - r.head) n (omega arith) v.full in
    let i : r.tail - 1 ≡ r.head + n = omega arith in
    let u : window (update r.slots ((r.head + n) % 256) none) r.head n ≡ window r.slots r.head n =
      window-update_end r.slots none (r.head + n) r.head n (omega arith) (omega arith) in
    rw (split, pop-snoc) (ground (arith, i, hx, u, len))

-- The same, where the task is taken over.
pub push_room :
    {r : Ring} (task : ℕ)
    → IsValid r
    → r.tail + 1 < word64
    → r.tail - r.head < capacity
    → ((push_back r (some task)).0 ≡ true)
      × (contents (push_back r (some task)).1 ≡ contents r ++ task ∷ [])
      × IsValid (push_back r (some task)).1
      × ((push_back r (some task)).1.tail ≡ r.tail + 1)
      × ((push_back r (some task)).1.head ≡ r.head)
unfolding push_back
push_room {r} task v fresh room = ground (
  arith,
  window-push r.slots task r.head r.tail v.ordered,
  length-append (contents r) (task ∷ []),
)

-- The owner's pop hands out the task pushed last, never a null one, and fails exactly on an empty
-- ring; the ring stays valid and keeps the other tasks in order.
pub pop_refines :
    {r : Ring}
    → IsValid r
    → let (out, r') = pop_back r in
      let (x, rest) = Deque.pop (contents r) in
      (returned out ≡ reply x) × (contents r' ≡ rest) × IsValid r'
pop_refines {r} v = pop_window (r.tail - r.head) v (omega (arith, v.ordered))

steal_window :
    {r : Ring} (owner_only : ℕ → Bool) (n : ℕ)
    → IsValid r
    → r.tail ≡ r.head + n
    → let (out, r') = steal_front owner_only r in
      let (x, rest) = Deque.steal owner_only (contents r) in
      (returned out ≡ reply x) × (contents r' ≡ rest) × IsValid r'
unfolding steal_front
steal_window {r} owner_only zero v e =
    let d : r.tail - r.head ≡ 0 = omega arith in
    let w : contents r ≡ [] = ap (window r.slots r.head) d in ground (arith, w)
steal_window {r} owner_only (suc n) v e =
    let (x, hx, split, len) = split_first r.slots r.head (r.tail - r.head) n (omega arith) v.full in
    let i : r.tail - (r.head + 1) ≡ n = omega arith in
    let u : window (update r.slots (r.head % 256) none) (suc r.head) n
        ≡ window r.slots (suc r.head) n =
      window-update_start r.slots none r.head (suc r.head) n (omega arith) (omega arith) in
    rw split (ground (arith, i, hx, u, len))

-- A thief gets the task pushed first, unless that task must be resumed by its owner or the ring is
-- empty: then nothing changes.
pub steal_refines :
    {r : Ring} (owner_only : ℕ → Bool)
    → IsValid r
    → let (out, r') = steal_front owner_only r in
      let (x, rest) = Deque.steal owner_only (contents r) in
      (returned out ≡ reply x) × (contents r' ≡ rest) × IsValid r'
steal_refines {r} owner_only v =
    steal_window owner_only (r.tail - r.head) v (omega (arith, v.ordered))

pub size_lem :
    {r : Ring}
    → IsValid r
    → (size r ≡ length (contents r)) × (size r + remaining_capacity r ≡ capacity)
unfolding size remaining_capacity
size_lem v = ground arith

released_window :
    (slots : ℕ → Option ℕ) (h n : ℕ) → n ≤ capacity → (clear_from slots h n).0 ≡ window slots h n
unfolding clear_from
released_window slots h zero le = refl
released_window slots h (suc n) le =
    ap (λ ts. option_list (slots (h % 256)) ++ ts)
      (released_window (update slots (h % 256) none) (suc h) n (omega arith)
        ∙ window-update_start slots none h (suc h) n (omega arith) (omega arith))

-- Destruction releases every task that is still in the ring, each once, and leaves it empty.
pub clear_lem :
    {r : Ring}
    → IsValid r
    → let (released, r') = clear r in (released ≡ contents r) × (contents r' ≡ []) × IsValid r'
unfolding clear
clear_lem {r} v =
    let d : r.tail - r.tail ≡ 0 = omega arith in
    let w : window (clear r).1.slots r.tail (r.tail - r.tail) ≡ [] =
      ap (window (clear r).1.slots r.tail) d in
    (released_window r.slots r.head _ v.fits, w, ground (arith, w))

-- The calls of the owner and its thieves, one after the other, with what each returns.
unfoldable pub run : (ℕ → Bool) → Ring → List Op → List Reply
run owner_only r [] = []
run owner_only r (pushes t ∷ ops) =
    let (taken, r') = push_back r (some t) in (taken, none) ∷ run owner_only r' ops
run owner_only r (pops ∷ ops) = let (out, r') = pop_back r in returned out ∷ run owner_only r' ops
run owner_only r (steals ∷ ops) =
    let (out, r') = steal_front owner_only r in returned out ∷ run owner_only r' ops

pub tail_bounds :
    {r : Ring} (owner_only : ℕ → Bool) (t : ℕ)
    → IsValid r
    → ((push_back r (some t)).1.tail ≤ r.tail + 1)
      × ((pop_back r).1.tail ≤ r.tail)
      × ((steal_front owner_only r).1.tail ≤ r.tail)
unfolding push_back pop_back steal_front
tail_bounds owner_only t v = (ground arith, ground arith, ground arith)

-- No sequence of calls tells the ring from the bounded deque of its tasks, as long as fewer calls
-- are made than the 64-bit tail index has values left.
pub run_refines :
    (owner_only : ℕ → Bool) (ops : List Op) {r : Ring}
    → IsValid r
    → r.tail + length ops < word64
    → run owner_only r ops ≡ Deque.run capacity owner_only (contents r) ops
unfolding run Deque.run
run_refines owner_only [] v h = refl
run_refines owner_only (pushes t ∷ ops) {r} v h =
    let (e, v') = push_refines t v (omega arith) in
    rw (run_refines owner_only ops v' (omega (arith, (tail_bounds owner_only t v).0)), ← e)
run_refines owner_only (pops ∷ ops) {r} v h =
    let (e, f, v') = pop_refines v in
    rw (run_refines owner_only ops v' (omega (arith, (tail_bounds owner_only 0 v).1)), e, f)
run_refines owner_only (steals ∷ ops) {r} v h =
    let (e, f, v') = steal_refines owner_only v in
    rw (run_refines owner_only ops v' (omega (arith, (tail_bounds owner_only 0 v).2)), e, f)
