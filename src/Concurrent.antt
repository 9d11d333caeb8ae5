-- ===== src/Concurrent.antt =====
-- moodycamel::ConcurrentQueue, which the repository includes and does not contain. Its operations
-- are parameters, and the laws are what its documentation promises of a queue: what is dequeued was
-- enqueued, once, and a bulk call returns no more than was asked for. Nothing is assumed of order,
-- and a dequeue may come back empty at any time. Elements are numbers: the code only moves them.
use galay_kernel.Prelude.{
  ℕ, ◌+◌, ◌≤◌, ◌≡◌, refl, Bool, true, Option, none, some, option_list, List, [], ◌∷◌, ◌++◌, arith,
  length, length-append, count, count-append, same, take, drop, take-append-drop, length-take,
  if◌then◌else◌, ap, sym, ◌∙◌,
}

pub record ConcurrentQueue : Type 1 where
  pub Queue : Type 0
  pub empty : Queue
  -- What was enqueued and not yet dequeued.
  pub items : Queue → List ℕ
  -- The flag is false if memory for the element could not be had.
  pub enqueue : Queue → ℕ → Bool × Queue
  pub try_dequeue_bulk : Queue → ℕ → List ℕ × Queue
  pub try_dequeue : Queue → Option ℕ × Queue
  -- All elements are taken over or, if memory could not be had, none.
  pub enqueue_bulk : Queue → List ℕ → Bool × Queue
  pub items-empty : items empty ≡ []
  pub count-enqueue :
      (a x : ℕ) (q : Queue)
      → let (taken, q') = enqueue q x in
        count a (items q') ≡ (if taken then same x a else 0) + count a (items q)
  pub length-enqueue :
      (x : ℕ) (q : Queue)
      → let (taken, q') = enqueue q x in
        length (items q') ≡ (if taken then 1 else 0) + length (items q)
  pub count-dequeue :
      (a n : ℕ) (q : Queue)
      → let (out, q') = try_dequeue_bulk q n in count a out + count a (items q') ≡ count a (items q)
  pub length-dequeue :
      (n : ℕ) (q : Queue)
      → let (out, q') = try_dequeue_bulk q n in
        (length out ≤ n) × (length out + length (items q') ≡ length (items q))
  pub count-try_dequeue :
      (a : ℕ) (q : Queue)
      → let (out, q') = try_dequeue q in
        count a (option_list out) + count a (items q') ≡ count a (items q)
  pub length-try_dequeue :
      (q : Queue)
      → let (out, q') = try_dequeue q in
        length (option_list out) + length (items q') ≡ length (items q)
  pub count-enqueue_bulk :
      (a : ℕ) (q : Queue) (xs : List ℕ)
      → let (taken, q') = enqueue_bulk q xs in
        count a (items q') ≡ (if taken then count a xs else 0) + count a (items q)
  pub length-enqueue_bulk :
      (q : Queue) (xs : List ℕ)
      → let (taken, q') = enqueue_bulk q xs in
        length (items q') ≡ (if taken then length xs else 0) + length (items q)

-- A list, oldest first, is one such queue.
pub count-take-drop : (a n : ℕ) (q : List ℕ) → count a (take n q) + count a (drop n q) ≡ count a q
count-take-drop a n q =
    sym (count-append a (take n q) (drop n q)) ∙ ap (count a) (take-append-drop n q)

pub length-take-drop :
    (n : ℕ) (q : List ℕ)
    → (length (take n q) ≤ n) × (length (take n q) + length (drop n q) ≡ length q)
length-take-drop n q = (
  omega (arith, length-take n q),
  sym (length-append (take n q) (drop n q)) ∙ ap length (take-append-drop n q),
)

pub count-snoc : (a x : ℕ) (q : List ℕ) → count a (q ++ x ∷ []) ≡ same x a + count a q
count-snoc a x q = omega (arith, count-append a q (x ∷ []))

pub length-snoc : (x : ℕ) (q : List ℕ) → length (q ++ x ∷ []) ≡ 1 + length q
length-snoc x q = omega (arith, length-append q (x ∷ []))

abbrev pub pop_front : List ℕ → Option ℕ × List ℕ
pop_front [] = (none, [])
pop_front (x ∷ q) = (some x, q)

pub count-pop_front :
    (a : ℕ) (q : List ℕ)
    → count a (option_list (pop_front q).0) + count a (pop_front q).1 ≡ count a q
count-pop_front a [] = omega arith
count-pop_front a (x ∷ q) = omega arith

pub length-pop_front :
    (q : List ℕ) → length (option_list (pop_front q).0) + length (pop_front q).1 ≡ length q
length-pop_front [] = omega arith
length-pop_front (x ∷ q) = omega arith

abbrev pub list_queue : ConcurrentQueue
list_queue = record {
  Queue = List ℕ;
  empty = [];
  items = λ q. q;
  enqueue = λ q x. (true, q ++ x ∷ []);
  try_dequeue_bulk = λ q n. (take n q, drop n q);
  try_dequeue = pop_front;
  enqueue_bulk = λ q xs. (true, q ++ xs);
  items-empty = refl;
  count-enqueue = count-snoc;
  length-enqueue = length-snoc;
  count-dequeue = count-take-drop;
  length-dequeue = length-take-drop;
  count-try_dequeue = count-pop_front;
  length-try_dequeue = length-pop_front;
  count-enqueue_bulk = λ a q xs. omega (arith, count-append a q xs);
  length-enqueue_bulk = λ q xs. omega (arith, length-append q xs);
}
