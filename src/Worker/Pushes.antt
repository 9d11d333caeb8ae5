-- ===== src/Worker/Pushes.antt =====
-- What single and reversed pushes do to a valid ring, in the words that a worker's laws need.
use mathlib.Core.List.{reverse, reverse-cons, append-nil, append_assoc}
use galay_kernel.Prelude.{
  ℕ, ◌+◌, ◌≤◌, ◌<◌, ◌≡◌, ◌≢◌, ◌↔◌, refl, subst, inl, inr, Option, none, length-append, sym, ap, ◌∙◌,
  some, List, [], ◌∷◌, ◌++◌, arith, length, count, count-append, same, word64,
}
use galay_kernel.Ring.{Ring, push_back, pop_back, remaining_capacity}
use galay_kernel.Ring.Refine.{contents, push_room, pop_refines, size_lem}
use galay_kernel.Ring.Deque.{pop_cases}
use galay_kernel.Ring.Refine
use galay_kernel.Worker

-- A task pushed into a ring with room is there once more.
pub record Pushed (r r' : Ring) (task : ℕ) : Type 0 where
  pub valid : Refine.IsValid r'
  pub more : (a : ℕ) → count a (contents r') ≡ same task a + count a (contents r)
  pub tail : r'.tail ≡ r.tail + 1
  pub room : remaining_capacity r' + 1 ≡ remaining_capacity r
  pub order : contents r' ≡ contents r ++ task ∷ []

pub push-Pushed :
    {r : Ring} (task : ℕ)
    → Refine.IsValid r
    → r.tail + 1 < word64
    → 0 < remaining_capacity r
    → Pushed r (push_back r (some task)).1 task
push-Pushed {r} task v fresh room =
    let (taken, added, valid, tail, head) =
      push_room task v fresh (omega (arith, size_lem v, v.full)) in
    record {
      valid = valid;
      more = λ a. ap (count a) added ∙ omega (arith, count-append a (contents r) (task ∷ []));
      tail = tail;
      room = omega (arith, size_lem v, size_lem valid, v.full, valid.full, tail, head);
      order = added;
    }

-- A list of tasks pushed from its end on stands reversed behind the others.
pub record Reversed (r r' : Ring) (out : List ℕ) : Type 0 where
  pub valid : Refine.IsValid r'
  pub more : (a : ℕ) → count a (contents r') ≡ count a out + count a (contents r)
  pub tail : r'.tail ≡ r.tail + length out
  pub room : length out + remaining_capacity r' ≡ remaining_capacity r
  pub order : contents r' ≡ contents r ++ reverse out

pub push_reversed-Reversed :
    {r : Ring} (out : List ℕ)
    → Refine.IsValid r
    → r.tail + length out < word64
    → length out ≤ remaining_capacity r
    → Reversed r (Worker.push_reversed r out) out
unfolding Worker.push_reversed
push_reversed-Reversed {r} [] v fresh room = record {
  valid = v;
  more = λ a. omega arith;
  tail = omega arith;
  room = omega arith;
  order = sym (append-nil (contents r));
}
push_reversed-Reversed {r} (x ∷ xs) v fresh room =
    let q = push_reversed-Reversed xs v (omega arith) (omega arith) in
    let p = push-Pushed x q.valid (omega (arith, q.tail)) (omega (arith, q.room)) in
    record {
      valid = p.valid;
      more = λ a. omega (arith, p.more a, q.more a);
      tail = omega (arith, p.tail, q.tail);
      room = omega (arith, p.room, q.room);
      order =
          p.order
          ∙ ap (λ ts. ts ++ x ∷ []) q.order
          ∙ append_assoc (contents r) (reverse xs) (x ∷ [])
          ∙ ap (λ ts. contents r ++ ts) (sym (reverse-cons x xs));
    }

-- The task handed out, in a list; a null task would stand for none.
abbrev pub handed : Option (Option ℕ) → List ℕ
handed none = []
handed (some none) = []
handed (some (some t)) = t ∷ []

-- What a pop of a valid ring does, whatever the ring holds.
pub record Popped (r r' : Ring) (out : Option (Option ℕ)) : Type 0 where
  pub valid : Refine.IsValid r'
  pub task : out ≢ some none
  pub empty : (out ≡ none) ↔ (contents r ≡ [])
  pub order : contents r ≡ contents r' ++ handed out
  pub less : (a : ℕ) → count a (handed out) + count a (contents r') ≡ count a (contents r)

Popped-none :
    {r r' : Ring} → Refine.IsValid r' → contents r ≡ [] → contents r' ≡ [] → Popped r r' none
Popped-none v e f = record {
  valid = v;
  task = λ q. cc;
  empty = (λ _. e, λ _. refl);
  order = rw (e, f) refl;
  less = λ a. rw (e, f) refl;
}

Popped-some :
    {r r' : Ring} (x : ℕ)
    → Refine.IsValid r'
    → contents r ≡ contents r' ++ x ∷ []
    → Popped r r' (some (some x))
Popped-some {r} {r'} x v e = record {
  valid = v;
  task = λ q. cc;
  empty = (
    λ q. cc,
    λ q. absurd (omega (arith, ap length e, ap length q, length-append (contents r') (x ∷ []))),
  );
  order = e;
  less = λ a. omega (arith, ap (count a) e, count-append a (contents r') (x ∷ []));
}

pub pop-Popped : {r : Ring} → Refine.IsValid r → Popped r (pop_back r).1 (pop_back r).0
pop-Popped {r} v =
    let (e, f, valid) = pop_refines v in
    elim (pop_cases (contents r)) [
      | inl (nothing, p) ↦
          let o : none ≡ (pop_back r).0 = ground (arith, e, p) in
          subst (Popped r (pop_back r).1) o
            (Popped-none valid nothing (f ∙ ap (λ (q : Option ℕ × List ℕ). q.1) p))
      | inr (x, ys, split, p) ↦
          let o : some (some x) ≡ (pop_back r).0 = ground (arith, e, p) in
          subst (Popped r (pop_back r).1) o (
            Popped-some x valid
              (split ∙ ap (λ ts. ts ++ x ∷ []) (sym (f ∙ ap (λ (q : Option ℕ × List ℕ). q.1) p))))
    ]
