-- ===== src/Ring/Race/OwnerSide.antt =====
-- The invariant of claims in the ring of io_scheduler.hpp, and the moves of its owner.
use galay_kernel.Prelude.{
  ℕ, suc, ◌≤◌, ◌<◌, ◌≡◌, ◌≢◌, refl, Option, none, some, update, arith, ◌+◌, word64, ltb,
  if◌then◌else◌,
}
use galay_kernel.Ring.{Ring}
use galay_kernel.Ring.Race.{
  Owner, popping, pop_loaded, pop_lost, pop_won, pop_taking, Thief, rest, got_head, got_tail,
  chosen, stolen, OwnerMove, push_load, push_full, push_store, push_publish, pop_empty, pop_lower,
  pop_load, pop_restore, pop_take, pop_cas_win, pop_cas_lose, pop_give_up, pop_raise, pop_last,
}

-- The index that a thief, or the owner, has won and whose slot it is about to empty.
abbrev pub claimed : Thief → Option ℕ
claimed (stolen h) = some h
claimed _ = none

abbrev pub owner_claimed : Owner → Option ℕ
owner_claimed (pop_loaded t h) = if ltb h t then some t else none
owner_claimed (pop_won t) = some t
owner_claimed (pop_taking t) = some t
owner_claimed _ = none

-- The end of the indices that thieves may still win.
abbrev pub limit : ℕ → Owner → ℕ
limit tail (popping t) = suc t
limit tail (pop_loaded t h) = if ltb h t then t else suc t
limit tail (pop_lost h) = h
limit tail (pop_won t) = suc t
limit tail (pop_taking t) = suc t
limit tail _ = tail

abbrev pub OwnerFacts : ℕ → ℕ → Owner → Type 0
OwnerFacts head tail (popping t) = tail ≡ t
OwnerFacts head tail (pop_loaded t h) = (tail ≡ t) × (h ≤ head)
OwnerFacts head tail (pop_lost h) = tail ≤ h
OwnerFacts head tail (pop_won t) = (tail ≡ t) × (t < head)
OwnerFacts head tail (pop_taking t) = (tail ≡ suc t) × (t < head)
OwnerFacts head tail _ = Unit {0}

abbrev pub loaded : Thief → Option ℕ
loaded (got_head h) = some h
loaded (got_tail h t) = some h
loaded (chosen h) = some h
loaded _ = none

abbrev pub passed : Thief → Option ℕ
passed (got_tail h t) = if ltb h t then some h else none
passed (chosen h) = some h
passed _ = none

pub record Inv (head tail : ℕ) (o : Owner) (th : ℕ → Thief) : Type 0 where
  pub bounded : head ≤ limit tail o
  pub facts : OwnerFacts head tail o
  pub behind : (i h : ℕ) → loaded (th i) ≡ some h → h ≤ head
  pub below : (i h : ℕ) → passed (th i) ≡ some h → h ≡ head → h < limit tail o
  pub past : (i h : ℕ) → claimed (th i) ≡ some h → h < head
  pub unique : (i j h : ℕ) → claimed (th i) ≡ some h → claimed (th j) ≡ some h → i ≡ j
  pub apart : (i h : ℕ) → claimed (th i) ≡ some h → owner_claimed o ≢ some h

-- What passed its test was loaded.
pub passed-loaded : (t : Thief) (h : ℕ) → passed t ≡ some h → loaded t ≡ some h
passed-loaded (got_tail x y) h e = ground arith
passed-loaded (chosen x) h e = e
passed-loaded (got_head x) h e = cc
passed-loaded rest h e = cc
passed-loaded (stolen x) h e = cc

-- The owner's step keeps the invariant if it keeps each part that speaks of it.
pub owner_step :
    {head tail head' tail' : ℕ} {o o' : Owner} {th : ℕ → Thief}
    → Inv head tail o th
    → head ≤ head'
    → head' ≤ limit tail' o'
    → OwnerFacts head' tail' o'
    → ((h : ℕ) → h ≤ head → (h ≡ head → h < limit tail o) → h ≡ head' → h < limit tail' o')
    → ((h : ℕ) → h < head → owner_claimed o ≢ some h → owner_claimed o' ≢ some h)
    → Inv head' tail' o' th
owner_step {th} v up bounded facts below apart = record {
  bounded = bounded;
  facts = facts;
  behind = λ i h e. omega (arith, v.behind i h e);
  below = λ i h e. below h (v.behind i h (passed-loaded (th i) h e)) (v.below i h e);
  past = λ i h e. omega (arith, v.past i h e);
  unique = v.unique;
  apart = λ i h e. apart h (v.past i h e) (v.apart i h e);
}

-- `m_tail` does not wrap in the move.
abbrev pub Fits :
    {m m' : Ring} {o o' : Owner} {out : Option (Option ℕ)} → OwnerMove m o m' o' out → Type 0
Fits {m} push_publish = m.tail + 1 < word64
Fits _ = Unit {0}

pub OwnerMove-Inv :
    {m m' : Ring} {o o' : Owner} {th : ℕ → Thief} {out : Option (Option ℕ)}
    → (mv : OwnerMove m o m' o' out) → Fits mv
    → Inv m.head m.tail o th
    → Inv m'.head m'.tail o' th
OwnerMove-Inv (push_load task) fits v =
    owner_step v (omega arith) (omega (arith, v.bounded)) tt (λ h a b c. ground (arith, b c))
      (λ h a b. b)
OwnerMove-Inv (push_full x) fits v =
    owner_step v (omega arith) (omega (arith, v.bounded)) tt (λ h a b c. ground (arith, b c))
      (λ h a b. b)
OwnerMove-Inv (push_store x) fits v =
    owner_step v (omega arith) (omega (arith, v.bounded)) tt (λ h a b c. ground (arith, b c))
      (λ h a b. b)
OwnerMove-Inv {m} push_publish fits v =
    owner_step v (omega arith) (ground (arith, v.bounded, fits)) tt
      (λ h a b c. ground (arith, b c, fits)) (λ h a b. b)
OwnerMove-Inv (pop_empty x) fits v =
    owner_step v (omega arith) (omega (arith, v.bounded)) tt (λ h a b c. ground (arith, b c))
      (λ h a b. b)
OwnerMove-Inv (pop_lower t x) fits v =
    owner_step v (omega arith) (omega (arith, v.bounded)) refl (λ h a b c. ground (arith, b c))
      (λ h a b. b)
OwnerMove-Inv pop_load fits v =
    owner_step v (omega arith) (ground (arith, v.bounded)) (ground (arith, v.facts))
      (λ h a b c. ground (arith, b c)) (λ h a b. ground arith)
OwnerMove-Inv (pop_restore x) fits v =
    owner_step v (omega arith) (ground (arith, v.bounded, v.facts)) tt
      (λ h a b c. ground (arith, b c, v.facts, v.bounded)) (λ h a b. ground arith)
OwnerMove-Inv (pop_take x) fits v =
    owner_step v (omega arith) (ground (arith, v.bounded, v.facts)) tt
      (λ h a b c. ground (arith, b c, v.facts)) (λ h a b. ground arith)
OwnerMove-Inv (pop_cas_win x y) fits v =
    owner_step v (omega arith) (ground (arith, v.bounded, v.facts)) (ground (arith, v.facts))
      (λ h a b c. ground (arith, v.facts)) (λ h a b. ground arith)
OwnerMove-Inv (pop_cas_lose x y) fits v =
    owner_step v (omega arith) (ground (arith, v.bounded, v.facts)) (omega (arith, v.facts))
      (λ h a b c. ground (arith, b c, v.facts, v.bounded)) (λ h a b. ground arith)
OwnerMove-Inv pop_give_up fits v =
    owner_step v (omega arith) (ground (arith, v.bounded, v.facts)) tt
      (λ h a b c. ground (arith, b c, v.facts)) (λ h a b. ground arith)
OwnerMove-Inv pop_raise fits v =
    owner_step v (omega arith) (ground (arith, v.bounded, v.facts)) (ground (arith, v.facts))
      (λ h a b c. ground (arith, b c, v.facts)) (λ h a b. ground arith)
OwnerMove-Inv pop_last fits v =
    owner_step v (omega arith) (ground (arith, v.bounded, v.facts)) tt
      (λ h a b c. ground (arith, b c, v.facts)) (λ h a b. ground arith)

-- A thief's step that wins nothing keeps the invariant if it keeps each part that speaks of it.
pub thief_step :
    {head tail : ℕ} {o : Owner} {th : ℕ → Thief} (i : ℕ) (t' : Thief)
    → Inv head tail o th
    → ((h : ℕ) → loaded t' ≡ some h → h ≤ head)
    → ((h : ℕ) → passed t' ≡ some h → h ≡ head → h < limit tail o)
    → claimed t' ≡ none
    → Inv head tail o (update th i t')
thief_step i t' v behind below unclaimed = record {
  bounded = v.bounded;
  facts = v.facts;
  behind = λ j h. ground (arith, v.behind j h, behind h);
  below = λ j h. ground (arith, v.below j h, below h);
  past = λ j h. ground (arith, v.past j h);
  unique = λ j k h. ground (arith, v.unique j k h);
  apart = λ j h. ground (arith, v.apart j h);
}
