-- ===== src/Ring/Race/Loss.antt =====
-- What the claims of `Ring.Race.Claims` do not protect: the slot between a thief's compare-exchange
-- and its exchange. In a full ring the owner may reuse that slot in between.
use galay_kernel.Prelude.{
  ℕ, ◌+◌, ◌-◌, ◌<◌, ◌≡◌, ◌≢◌, refl, sym, subst, Bool, false, Option, none, some, ◌∷◌, update, arith,
  word64,
}
use galay_kernel.Ring.{Ring, capacity, mask}
use galay_kernel.Ring.Race.{
  idle, push_load, push_store, push_publish, Thief, rest, got_head, got_tail, chosen, stolen,
  ThiefMove, steal_head, steal_tail, steal_read, steal_cas_win, steal_take, System, Step,
  record_given, owner_moves, OwnerMove, Owner, thief_moves, Steps, here, next,
}

thief_acts :
    {owner_only : ℕ → Bool} {s : System} (i : ℕ) {t t' : Thief} {m : Ring} {out : Option (Option ℕ)}
    → s.thief i ≡ t
    → ThiefMove owner_only s.ring t m t' out
    → Step owner_only s
        (record s { ring = m; thief = update s.thief i t'; given = record_given out s.given })
thief_acts {owner_only} {s} i {t'} {m} {out} e mv =
    thief_moves i (subst (λ x. ThiefMove owner_only s.ring x m t' out) (sym e) mv)

owner_acts :
    {owner_only : ℕ → Bool} {s : System} {o o' : Owner} {m : Ring} {out : Option (Option ℕ)}
    → s.owner ≡ o
    → OwnerMove s.ring o m o' out
    → Step owner_only s (record s { ring = m; owner = o'; given = record_given out s.given })
owner_acts {s} {o'} {m} {out} e mv =
    owner_moves (subst (λ x. OwnerMove s.ring x m o' out) (sym e) mv)

update_self {ℓ} : {A : Type ℓ} (f : ℕ → A) (i : ℕ) (v : A) → update f i v i ≡ v
update_self f i v = ground arith

-- In a full ring whose oldest task `a` may be stolen and stands in no other slot: a thief that has
-- won `a` and waits before it empties the slot, and an owner that then pushes `b`, leave a quiet
-- ring where `a` stands in no slot and was handed to nobody. The thief got `b`, and the index of the
-- push holds a null task.
pub full_ring_loses_task :
    (owner_only : ℕ → Bool) (s : System) (i a b : ℕ)
    → s.owner ≡ idle
    → s.thief i ≡ rest
    → s.ring.tail ≡ s.ring.head + capacity
    → s.ring.tail + 1 < word64
    → s.ring.slots (mask s.ring.head) ≡ some a
    → owner_only a ≡ false
    → a ≢ b
    → ((j : ℕ) → j ≢ mask s.ring.head → s.ring.slots j ≢ some a)
    → (t : System) × Steps owner_only s t
      × (t.owner ≡ idle)
      × (t.thief i ≡ rest)
      × (t.given ≡ some b ∷ s.given)
      × (t.ring.tail ≡ s.ring.tail + 1)
      × (t.ring.slots (mask s.ring.tail) ≡ none)
      × ((j : ℕ) → t.ring.slots j ≢ some a)
full_ring_loses_task owner_only s i a b idles rests full small oldest free differ only =
    let h = s.ring.head in
    let seen : h < s.ring.tail = omega arith in
    let room : s.ring.tail - (h + 1) < capacity = omega arith in
    let e : mask s.ring.tail ≡ mask h = omega arith in
    let th1 = update s.thief i (got_head h) in
    let th2 = update th1 i (got_tail h s.ring.tail) in
    let th3 = update th2 i (chosen h) in
    let th4 = update th3 i (stolen h) in
    let r1 = next here (thief_acts i rests steal_head) in
    let r2 = next r1 (thief_acts i (update_self s.thief i (got_head h)) steal_tail) in
    let r3 =
      next r2 (
        thief_acts i (update_self th1 i (got_tail h s.ring.tail))
          (steal_read a seen oldest free)) in
    let r4 = next r3 (thief_acts i (update_self th2 i (chosen h)) (steal_cas_win refl)) in
    let r5 = next r4 (owner_acts idles (push_load b)) in
    let r6 = next r5 (owner_moves (push_store room)) in
    let r7 = next r6 (owner_moves push_publish) in
    let r8 = next r7 (thief_acts i (update_self th3 i (stolen h)) steal_take) in
    (
      _,
      r8,
      refl,
      update_self th4 i rest,
      ground (arith, e),
      omega (arith, small),
      ground (arith, e),
      λ j. ground (arith, e, only j),
    )
