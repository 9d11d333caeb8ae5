-- ===== src/Ring/Race/Claims.antt =====
-- However owner and thieves interleave, no index of the ring is claimed twice at once.
use galay_kernel.Prelude.{
  ℕ, ◌+◌, ◌≤◌, ◌<◌, ◌≡◌, ◌≢◌, refl, sym, subst, Bool, Option, some, update, arith,
}
use galay_kernel.Ring.{Ring}
use galay_kernel.Ring.Race.{
  Owner, idle, popping, pop_loaded, pop_lost, pop_won, pop_taking, Thief, rest, got_head, got_tail,
  chosen, stolen, ThiefMove, steal_head, steal_tail, steal_none, steal_null, steal_refused,
  steal_read, steal_cas_win, steal_cas_lose, steal_take, System, owner_moves, thief_moves, Steps,
  here, next,
}
use galay_kernel.Ring.Race.OwnerSide.{
  claimed, owner_claimed, limit, Fits, OwnerFacts, loaded, passed, Inv, passed-loaded,
  OwnerMove-Inv, thief_step,
}

-- What the invariant says of one thief.
record At (head tail : ℕ) (o : Owner) (t : Thief) : Type 0 where
  behind : (h : ℕ) → loaded t ≡ some h → h ≤ head
  below : (h : ℕ) → passed t ≡ some h → h ≡ head → h < limit tail o

thief-At :
    {head tail : ℕ} {o : Owner} {th : ℕ → Thief} {t : Thief}
    → Inv head tail o th
    → (i : ℕ) → th i ≡ t
    → At head tail o t
thief-At v i e = record {
  behind = λ h. rw (← e) (v.behind i h);
  below = λ h. rw (← e) (v.below i h);
}

facts_up : (head tail : ℕ) (o : Owner) → OwnerFacts head tail o → OwnerFacts (head + 1) tail o
facts_up head tail (popping t) f = f
facts_up head tail (pop_loaded t h) f = omega arith
facts_up head tail (pop_lost h) f = f
facts_up head tail (pop_won t) f = omega arith
facts_up head tail (pop_taking t) f = omega arith
facts_up head tail _ f = tt

fresh_claim :
    (head tail : ℕ) (o : Owner)
    → OwnerFacts head tail o
    → head < limit tail o
    → owner_claimed o ≢ some head
fresh_claim head tail (pop_loaded t h) f lt = ground arith
fresh_claim head tail (pop_won t) f lt = absurd (omega arith)
fresh_claim head tail (pop_taking t) f lt = absurd (omega arith)
fresh_claim head tail _ f lt = λ e. cc

-- Winning the compare-exchange moves `head` past the index won.
win_step :
    {head tail : ℕ} {o : Owner} {th : ℕ → Thief} (i : ℕ)
    → Inv head tail o th
    → head < limit tail o
    → Inv (head + 1) tail o (update th i (stolen head))
win_step {head} {tail} {o} {th} i v below = record {
  bounded = omega arith;
  facts = facts_up head tail o v.facts;
  behind = λ j h. ground (arith, v.behind j h);
  below = λ j h. ground (arith, v.below j h, v.behind j h, passed-loaded (th j) h);
  past = λ j h. ground (arith, v.past j h);
  unique = λ j k h. ground (arith, v.unique j k h, v.past j h, v.past k h);
  apart = λ j h. ground (arith, v.apart j h, fresh_claim head tail o v.facts below);
}

-- The tail that thieves see never lies past the limit.
tail-le-limit : (head tail : ℕ) (o : Owner) → OwnerFacts head tail o → tail ≤ limit tail o
tail-le-limit head tail (popping t) f = omega arith
tail-le-limit head tail (pop_loaded t h) f = ground arith
tail-le-limit head tail (pop_lost h) f = f
tail-le-limit head tail (pop_won t) f = omega arith
tail-le-limit head tail (pop_taking t) f = omega arith
tail-le-limit head tail _ f = omega arith

ThiefMove-Inv :
    {owner_only : ℕ → Bool} {m m' : Ring} {o : Owner} {th : ℕ → Thief} {t t' : Thief}
    {out : Option (Option ℕ)}
    → Inv m.head m.tail o th
    → (i : ℕ) → th i ≡ t
    → ThiefMove owner_only m t m' t' out
    → Inv m'.head m'.tail o (update th i t')
ThiefMove-Inv {m} v i e steal_head =
    thief_step i (got_head m.head) v (λ h. ground arith) (λ h. ground arith) refl
ThiefMove-Inv {m} {o} v i e (steal_tail {head}) =
    thief_step i (got_tail head m.tail) v (thief-At v i e).behind
      (λ h. ground (arith, tail-le-limit m.head m.tail o v.facts)) refl
ThiefMove-Inv v i e (steal_none x) =
    thief_step i rest v (λ h. ground arith) (λ h. ground arith) refl
ThiefMove-Inv v i e (steal_null x y) =
    thief_step i rest v (λ h. ground arith) (λ h. ground arith) refl
ThiefMove-Inv v i e (steal_refused c x y z) =
    thief_step i rest v (λ h. ground arith) (λ h. ground arith) refl
ThiefMove-Inv v i e (steal_read {head} c x y z) =
    thief_step i (chosen head) v (λ h. ground (arith, (thief-At v i e).behind h))
      (λ h. ground (arith, (thief-At v i e).below h)) refl
ThiefMove-Inv {m} {o} {th} v i e (steal_cas_win {head} x) =
    subst (λ h. Inv (h + 1) m.tail o (update th i (stolen h))) x
      (win_step i v (omega (arith, (thief-At v i e).below head refl (sym x))))
ThiefMove-Inv v i e (steal_cas_lose x) =
    thief_step i rest v (λ h. ground arith) (λ h. ground arith) refl
ThiefMove-Inv v i e steal_take = thief_step i rest v (λ h. ground arith) (λ h. ground arith) refl

-- A start, or a moment when no call is running.
pub record IsQuiet (s : System) : Type 0 where
  pub owner_idle : s.owner ≡ idle
  pub thieves_rest : (i : ℕ) → s.thief i ≡ rest
  pub ordered : s.ring.head ≤ s.ring.tail

IsQuiet-Inv : {s : System} → IsQuiet s → Inv s.ring.head s.ring.tail s.owner s.thief
IsQuiet-Inv {s} q = rw q.owner_idle (record {
  bounded = q.ordered;
  facts = tt;
  behind = λ i h e. ground (arith, q.thieves_rest i);
  below = λ i h e. ground (arith, q.thieves_rest i);
  past = λ i h e. ground (arith, q.thieves_rest i);
  unique = λ i j h e. ground (arith, q.thieves_rest i);
  apart = λ i h e. ground (arith, q.thieves_rest i);
})

-- No push of the run makes `m_tail` wrap.
abbrev pub AllFit : {owner_only : ℕ → Bool} {s t : System} → Steps owner_only s t → Type 0
AllFit here = Unit {0}
AllFit (next r (owner_moves mv)) = AllFit r × Fits mv
AllFit (next r (thief_moves i mv)) = AllFit r

Steps-Inv :
    {owner_only : ℕ → Bool} {s t : System}
    → (r : Steps owner_only s t) → AllFit r
    → Inv s.ring.head s.ring.tail s.owner s.thief
    → Inv t.ring.head t.ring.tail t.owner t.thief
Steps-Inv here fit v = v
Steps-Inv (next r (owner_moves mv)) (fit, fits) v = OwnerMove-Inv mv fits (Steps-Inv r fit v)
Steps-Inv (next r (thief_moves i mv)) fit v = ThiefMove-Inv (Steps-Inv r fit v) i refl mv

-- After any interleaving of a quiet ring's owner with any number of thieves, an index that one thief
-- has won is won by no other thief and is not being popped by the owner, and it lies before `head`, as
-- long as no push makes the 64-bit `m_tail` wrap.
pub claims_exclusive :
    {owner_only : ℕ → Bool} {s t : System}
    → IsQuiet s
    → (r : Steps owner_only s t) → AllFit r
    → (i h : ℕ) → claimed (t.thief i) ≡ some h
    → (h < t.ring.head)
      × (owner_claimed t.owner ≢ some h)
      × ((j : ℕ) → claimed (t.thief j) ≡ some h → i ≡ j)
claims_exclusive q r fit i h e =
    let v = Steps-Inv r fit (IsQuiet-Inv q) in (v.past i h e, v.apart i h e, λ j. v.unique i j h e)
