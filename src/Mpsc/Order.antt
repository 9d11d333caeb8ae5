-- ===== src/Mpsc/Order.antt =====
-- In which order a queue gives its elements back, as a relation between lists of elements that its
-- operations keep to. The theorems on the channel of mpsc_channel.h hold for each such relation.
use galay_kernel.Prelude.{
  ℕ, ◌+◌, ◌≡◌, refl, ◌∙◌, ap, Bool, true, false, if◌then◌else◌, List, [], ◌∷◌, ◌++◌, arith, count,
  count-append, option_list, take-append-drop,
}
use galay_kernel.Concurrent.{ConcurrentQueue, list_queue, pop_front}

pub record Order (c : ConcurrentQueue) : Type 1 where
  pub Like : List ℕ → List ℕ → Type 0
  pub like_refl : {xs : List ℕ} → Like xs xs
  pub like_trans : {xs ys zs : List ℕ} → Like xs ys → Like ys zs → Like xs zs
  pub like_front : (xs : List ℕ) {ys zs : List ℕ} → Like ys zs → Like (xs ++ ys) (xs ++ zs)
  pub like_back : (zs : List ℕ) {xs ys : List ℕ} → Like xs ys → Like (xs ++ zs) (ys ++ zs)
  pub like_enqueue :
      (x : ℕ) (q : c.Queue)
      → let (taken, q') = c.enqueue q x in
        Like (c.items q') (c.items q ++ (if taken then x ∷ [] else []))
  pub like_enqueue_bulk :
      (xs : List ℕ) (q : c.Queue)
      → let (taken, q') = c.enqueue_bulk q xs in
        Like (c.items q') (c.items q ++ (if taken then xs else []))
  pub like_dequeue :
      (q : c.Queue)
      → let (out, q') = c.try_dequeue q in Like (option_list out ++ c.items q') (c.items q)
  pub like_dequeue_bulk :
      (n : ℕ) (q : c.Queue)
      → let (out, q') = c.try_dequeue_bulk q n in Like (out ++ c.items q') (c.items q)

unordered_enqueue :
    (old new after : List ℕ) (taken : Bool) (a : ℕ)
    → count a after ≡ (if taken then count a new else 0) + count a old
    → count a after ≡ count a (old ++ (if taken then new else []))
unordered_enqueue old new after true a e = omega (arith, e, count-append a old new)
unordered_enqueue old new after false a e = omega (arith, e, count-append a old [])

-- Nothing is said of the order, only that each element is there as often as before: any number of
-- producers.
pub unordered : (c : ConcurrentQueue) → Order c
unordered c = record {
  Like = λ xs ys. (a : ℕ) → count a xs ≡ count a ys;
  like_refl = λ a. refl;
  like_trans = λ p q a. p a ∙ q a;
  like_front = λ xs {ys} {zs} p a. omega (arith, p a, count-append a xs ys, count-append a xs zs);
  like_back = λ zs {xs} {ys} p a. omega (arith, p a, count-append a xs zs, count-append a ys zs);
  like_enqueue = λ x q a.
      unordered_enqueue (c.items q) (x ∷ []) (c.items (c.enqueue q x).1) (c.enqueue q x).0 a
        (ground (arith, c.count-enqueue a x q));
  like_enqueue_bulk = λ xs q a.
      unordered_enqueue (c.items q) xs (c.items (c.enqueue_bulk q xs).1) (c.enqueue_bulk q xs).0 a
        (c.count-enqueue_bulk a q xs);
  like_dequeue = λ q a. omega (
    arith,
    c.count-try_dequeue a q,
    count-append a (option_list (c.try_dequeue q).0) (c.items (c.try_dequeue q).1),
  );
  like_dequeue_bulk = λ n q a. omega (
    arith,
    c.count-dequeue a n q,
    count-append a (c.try_dequeue_bulk q n).0 (c.items (c.try_dequeue_bulk q n).1),
  );
}

-- A list gives its elements back in the order they came, as a moodycamel queue does for the elements
-- of one producer.
pub pop_front-like : (q : List ℕ) → let (out, q') = pop_front q in option_list out ++ q' ≡ q
pop_front-like [] = refl
pop_front-like (x ∷ q) = refl

abbrev pub in_order : Order list_queue
in_order = record {
  Like = λ xs ys. xs ≡ ys;
  like_refl = refl;
  like_trans = λ p q. p ∙ q;
  like_front = λ xs p. ap (λ ys. xs ++ ys) p;
  like_back = λ zs p. ap (λ ys. ys ++ zs) p;
  like_enqueue = λ x q. refl;
  like_enqueue_bulk = λ xs q. refl;
  like_dequeue = pop_front-like;
  like_dequeue_bulk = λ n q. take-append-drop n q;
}
