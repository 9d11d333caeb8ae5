-- ===== src/Worker/Moves.antt =====
-- What one steal moves between two rings, and how many tasks a list of rings holds
-- (galay-kernel/kernel/io_scheduler.hpp).
use mathlib.Core.List.{append-nil, append_assoc}
use galay_kernel.Prelude.{
  ℕ, zero, suc, ◌+◌, ◌≤◌, ◌<◌, ◌≡◌, ◌≢◌, refl, ap, ◌∙◌, sym, subst, Bool, false, Option, none, some,
  List, [], ◌∷◌, ◌++◌, arith, length, count, word64, if_elim, set, get_elem?, if◌then◌else◌, inl,
  inr, Bool-cases,
}
use galay_kernel.Ring.{Ring, push_back, steal_front, remaining_capacity}
use galay_kernel.Ring.Deque
use galay_kernel.Ring.Refine
use galay_kernel.Ring.Refine.{contents, steal_refines, push_room, size_lem, returned}
use galay_kernel.Worker
use galay_kernel.Worker.{Worker}
use galay_kernel.Worker.Pushes.{push-Pushed, handed}

-- What a steal from a valid ring does, whatever the ring holds.
pub record Stolen (owner_only : ℕ → Bool) (r r' : Ring) (out : Option (Option ℕ)) : Type 0 where
  pub valid : Refine.IsValid r'
  pub task : out ≢ some none
  pub order : contents r ≡ handed out ++ contents r'
  pub allowed : (t : ℕ) → out ≡ some (some t) → owner_only t ≡ false

pub Stolen-of :
    {r r' : Ring} (owner_only : ℕ → Bool) (out : Option (Option ℕ)) (xs : List ℕ)
    → contents r ≡ xs
    → returned out ≡ Deque.reply (Deque.steal owner_only xs).0
    → contents r' ≡ (Deque.steal owner_only xs).1
    → Refine.IsValid r'
    → Stolen owner_only r r' out
Stolen-of owner_only none [] e f g v = record {
  valid = v;
  task = λ q. cc;
  order = e ∙ sym g;
  allowed = λ t q. cc;
}
Stolen-of owner_only (some o) [] e f g v = absurd (cc)
Stolen-of {r} {r'} owner_only out (x ∷ xs) e f g v = elim (Bool-cases (owner_only x)) [
  | inl kept ↦
      let o : none ≡ out = ground arith in
      let left : contents r' ≡ x ∷ xs = ground arith in
      subst (Stolen owner_only r r') o
        (record { valid = v; task = λ q. cc; order = e ∙ sym left; allowed = λ t q. cc })
  | inr free ↦
      let o : some (some x) ≡ out = ground arith in
      let left : xs ≡ contents r' = ground arith in
      subst (Stolen owner_only r r') o (record {
        valid = v;
        task = λ q. cc;
        order = e ∙ ap (λ ts. x ∷ ts) left;
        allowed = λ t q. ground (arith, free);
      })
]

pub steal-Stolen :
    {r : Ring} (owner_only : ℕ → Bool)
    → Refine.IsValid r
    → Stolen owner_only r (steal_front owner_only r).1 (steal_front owner_only r).0
steal-Stolen {r} owner_only v =
    let (e, f, valid) = steal_refines owner_only v in
    Stolen-of owner_only (steal_front owner_only r).0 (contents r) refl e f valid

-- Tasks moved from the front of one ring to the back of another.
pub record Moved (v r : Ring) (limit : ℕ) (result : ℕ × Ring × Ring) : Type 0 where
  pub valid : Refine.IsValid result.1
  pub valid_own : Refine.IsValid result.2
  pub some_moved : result.0 ≤ limit
  pub tail : result.2.tail ≡ r.tail + result.0
  pub order :
      (moved : List ℕ) × (contents v ≡ moved ++ contents result.1)
      × (contents result.2 ≡ contents r ++ moved)
      × (length moved ≡ result.0)

-- What a thief takes from a victim are the oldest tasks of the victim, in order, put behind its own:
-- no task is lost, none is left with both, and at most `n` are moved.
pub steal_some-Moved :
    (owner_only : ℕ → Bool) (n : ℕ) {v r : Ring}
    → Refine.IsValid v
    → Refine.IsValid r
    → r.tail + n < word64
    → n ≤ remaining_capacity r
    → Moved v r n (Worker.steal_some owner_only n v r)
unfolding Worker.steal_some
steal_some-Moved owner_only zero {v} {r} hv hr fresh room = record {
  valid = hv;
  valid_own = hr;
  some_moved = omega arith;
  tail = omega arith;
  order = ([], refl, sym (append-nil (contents r)), refl);
}
steal_some-Moved owner_only (suc n) {v} {r} hv hr fresh room =
    let st = steal-Stolen owner_only hv in
    go (steal_front owner_only v).0 st (λ r' a b c.
      steal_some-Moved owner_only n {v = (steal_front owner_only v).1} {r = r'} st.valid a b c)
  where
    v' : Ring
    v' = (steal_front owner_only v).1

    go :
        (out : Option (Option ℕ))
        → Stolen owner_only v v' out
        → ((r' : Ring)
            → Refine.IsValid r'
            → r'.tail + n < word64
            → n ≤ remaining_capacity r'
            → Moved v' r' n (Worker.steal_some owner_only n v' r'))
        → Moved v r (suc n) (elim out [
          | none ↦ (0, v', r)
          | some task ↦
              let (taken, ring') = push_back r task in
              let (stolen, victim'', ring'') = Worker.steal_some owner_only n v' ring' in
              if taken then (suc stolen, victim'', ring'') else (0, v', ring')
        ])
    go none st ih = record {
      valid = st.valid;
      valid_own = hr;
      some_moved = omega arith;
      tail = omega arith;
      order = ([], st.order, sym (append-nil (contents r)), refl);
    }
    go (some none) st ih = absurd (st.task refl)
    go (some (some t)) st ih =
        let p = push-Pushed t hr (omega arith) (omega arith) in
        let m =
          ih (push_back r (some t)).1 p.valid (omega (arith, p.tail)) (omega (arith, p.room)) in
        let (moved, left, own, counted) = m.order in
        if_elim (Moved v r (suc n)) (push_back r (some t)).0
          (λ taken. record {
            valid = m.valid;
            valid_own = m.valid_own;
            some_moved = omega (arith, m.some_moved);
            tail = omega (arith, m.tail, p.tail);
            order = (
              t ∷ moved,
              st.order ∙ ap (λ ts. t ∷ ts) left,
              own ∙ ap (λ ts. ts ++ moved) p.order ∙ append_assoc (contents r) (t ∷ []) moved,
              ap suc counted,
            );
          })
          (λ refused.
            absurd (cc ((push_room t hr (omega arith) (omega (arith, size_lem hr, hr.full))).0)))

-- The rings of the siblings that have one.
abbrev pub AllValid : List (Option Ring) → Type 0
AllValid [] = Unit {0}
AllValid (none ∷ rs) = AllValid rs
AllValid (some r ∷ rs) = Refine.IsValid r × AllValid rs

abbrev pub total : ℕ → List (Option Ring) → ℕ
total a [] = 0
total a (none ∷ rs) = total a rs
total a (some r ∷ rs) = count a (contents r) + total a rs

pub IsValid-at :
    (rs : List (Option Ring)) (i : ℕ) {v : Ring}
    → AllValid rs
    → get_elem? rs i ≡ some (some v)
    → Refine.IsValid v
IsValid-at [] i h e = absurd (cc)
IsValid-at (none ∷ rs) zero h e = absurd (cc)
IsValid-at (some r ∷ rs) zero {v} h e = let q : r ≡ v = cc in subst Refine.IsValid q h.0
IsValid-at (none ∷ rs) (suc i) h e = IsValid-at rs i h e
IsValid-at (some r ∷ rs) (suc i) h e = IsValid-at rs i h.1 e

pub AllValid-set :
    (rs : List (Option Ring)) (i : ℕ) (v : Ring)
    → AllValid rs
    → Refine.IsValid v
    → AllValid (set rs i (some v))
AllValid-set [] i v h hv = tt
AllValid-set (none ∷ rs) zero v h hv = (hv, h)
AllValid-set (some r ∷ rs) zero v h hv = (hv, h.1)
AllValid-set (none ∷ rs) (suc i) v h hv = AllValid-set rs i v h hv
AllValid-set (some r ∷ rs) (suc i) v h hv = (h.0, AllValid-set rs i v h.1 hv)

pub total-set :
    (a : ℕ) (rs : List (Option Ring)) (i : ℕ) {v : Ring} (v' : Ring)
    → get_elem? rs i ≡ some (some v)
    → total a (set rs i (some v')) + count a (contents v) ≡ total a rs + count a (contents v')
total-set a [] i v' e = absurd (cc)
total-set a (none ∷ rs) zero v' e = absurd (cc)
total-set a (some r ∷ rs) zero {v} v' e =
    let q : r ≡ v = cc in omega (arith, ap (λ x. count a (contents x)) q)
total-set a (none ∷ rs) (suc i) v' e = total-set a rs i v' e
total-set a (some r ∷ rs) (suc i) v' e = omega (arith, total-set a rs i v' e)

pub nil_of_length : (xs : List ℕ) → length xs ≡ 0 → xs ≡ []
nil_of_length [] e = refl
nil_of_length (x ∷ xs) e = absurd (omega arith)
