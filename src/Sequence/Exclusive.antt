-- ===== src/Sequence/Exclusive.antt =====
-- No two sequences own the same slot of a controller, and no single operation waits in a slot that a
-- sequence owns (galay-kernel/kernel/awaitable.h).
use galay_kernel.Prelude.{
  ℕ, ◌≡◌, refl, sym, ◌∙◌, ap, subst, inl, inr, Bool, true, false, not, ◌&&◌, ◌||◌, ◌==◌, Option,
  none, some, is_some, if◌then◌else◌, if_elim, update, arith, Bool-cases, ==_iff,
}
use galay_kernel.Sequence
use galay_kernel.Sequence.{
  Slot, reads, writes, Domain, read_domain, write_domain, read_write_domain, EventType, Controller,
  owner_domain_uses_slot, claim_requested_domain, release_registered_domain, is_taken,
  fill_awaitable, remove_awaitable, can_claim, write_slot, slot_of, event_in_slot,
}
use galay_kernel.Sequence.Slots.{
  World, Step, claims, releases, fills, removes, Reachable, starts, moves, Shared,
  unregistered-Shared, claim-Shared,
}

freed_same :
    (b : Bool) (s : Slot) (f : Slot → Option ℕ)
    → Sequence.freed_if b s f s ≡ (if b then none else f s)
unfolding Sequence.freed_if
freed_same true reads f = refl
freed_same true writes f = refl
freed_same false s f = refl

freed_writes : (b : Bool) (f : Slot → Option ℕ) → Sequence.freed_if b writes f reads ≡ f reads
unfolding Sequence.freed_if
freed_writes true f = refl
freed_writes false f = refl

freed_reads : (b : Bool) (f : Slot → Option ℕ) → Sequence.freed_if b reads f writes ≡ f writes
unfolding Sequence.freed_if
freed_reads true f = refl
freed_reads false f = refl

freed_both :
    (d : Domain) (i : ℕ) (f : Slot → Option ℕ) (s : Slot)
    → (let f1 =
          Sequence.freed_if
            (owner_domain_uses_slot d reads && Sequence.is_this i (f reads))
            reads
            f in
        Sequence.freed_if
          (owner_domain_uses_slot d writes && Sequence.is_this i (f1 writes))
          writes
          f1
          s)
      ≡ (if owner_domain_uses_slot d s && Sequence.is_this i (f s) then none else f s)
freed_both d i f reads =
    let b = owner_domain_uses_slot d reads && Sequence.is_this i (f reads) in
    let f1 = Sequence.freed_if b reads f in
    freed_writes (owner_domain_uses_slot d writes && Sequence.is_this i (f1 writes)) f1
    ∙ freed_same b reads f
freed_both d i f writes =
    let b = owner_domain_uses_slot d reads && Sequence.is_this i (f reads) in
    let f1 = Sequence.freed_if b reads f in
    freed_same (owner_domain_uses_slot d writes && Sequence.is_this i (f1 writes)) writes f1
    ∙ ap (λ x. if owner_domain_uses_slot d writes && Sequence.is_this i x then none else x)
        (freed_reads b f)

module _ (requested : ℕ → Domain) where
  -- `i`, which is registered, owns the slot and gives it up.
  abbrev gives_up : World → ℕ → Slot → Bool
  gives_up w i s =
      owner_domain_uses_slot (requested i) s && Sequence.is_this i (w.controller.sequence_owner s)

  released-Shared :
      (w : World) (i : ℕ) (c : Controller)
      → Shared requested w
      → w.registered i ≡ true
      → ((s : Slot)
          → c.sequence_owner s ≡ (if gives_up w i s then none else w.controller.sequence_owner s))
      → ((s : Slot) → c.awaitable s ≡ w.controller.awaitable s)
      → Shared requested (record { controller = c; registered = update w.registered i false })
  released-Shared w i c h was owner awaitable = record {
    owns = λ s j e. elim (Bool-cases (gives_up w i s)) [
      | inl yes_it_does ↦ let clash : none ≡ some j = sym (gone s yes_it_does) ∙ e in absurd (cc)
      | inr keeps ↦
          let e' : w.controller.sequence_owner s ≡ some j = sym (left s keeps) ∙ e in
          let before = h.owns s j e' in
          elim (Bool-cases (i == j)) [
            | inl same ↦ absurd (own_is_given s j ((==_iff i j).0 same) e' before.1 keeps)
            | inr other ↦ (ground (arith, before.0), before.1)
          ]
    ];
    owned = λ s j r uses.
        let before = h.owned s j (ground (arith, r)) uses in
        left s (not_own s j (ground (arith, r)) before) ∙ before;
    alone = λ s. elim (Bool-cases (gives_up w i s)) [
      | inl yes_it_does ↦ ap (λ x. is_some x && is_some (c.awaitable s)) (gone s yes_it_does)
      | inr keeps ↦
          ap (λ x. is_some x && is_some (c.awaitable s)) (left s keeps)
          ∙ ap (λ x. is_some (w.controller.sequence_owner s) && is_some x) (awaitable s)
          ∙ h.alone s
    ];
  }
    where
      gone : (s : Slot) → gives_up w i s ≡ true → c.sequence_owner s ≡ none
      gone s b = owner s ∙ ap (λ x. if x then none else w.controller.sequence_owner s) b

      left :
          (s : Slot) → gives_up w i s ≡ false → c.sequence_owner s ≡ w.controller.sequence_owner s
      left s b = owner s ∙ ap (λ x. if x then none else w.controller.sequence_owner s) b

      own_is_given :
          (s : Slot) (j : ℕ)
          → i ≡ j
          → w.controller.sequence_owner s ≡ some j
          → owner_domain_uses_slot (requested j) s ≡ true
          → ¬ (gives_up w i s ≡ false)
      own_is_given s j same e uses keeps =
          let uses_i : owner_domain_uses_slot (requested i) s ≡ true =
            subst (λ k. owner_domain_uses_slot (requested k) s ≡ true) (sym same) uses in
          let again : (owner_domain_uses_slot (requested i) s && (j == i)) ≡ false =
            ap (λ x. owner_domain_uses_slot (requested i) s && Sequence.is_this i x) (sym e)
            ∙ keeps in
          ground (arith)

      not_own :
          (s : Slot) (j : ℕ)
          → (i == j) ≡ false
          → w.controller.sequence_owner s ≡ some j
          → gives_up w i s ≡ false
      not_own s j other e =
          ap (λ x. owner_domain_uses_slot (requested i) s && Sequence.is_this i x) e
          ∙ ground (arith)

  release-Shared :
      (w : World) (i : ℕ)
      → Shared requested w
      → Shared requested (record {
        controller = release_registered_domain i (requested i) (w.registered i) w.controller;
        registered = update w.registered i false;
      })
  unfolding release_registered_domain
  release-Shared w i h =
      if_elim
        (λ (c : Controller).
          Shared requested (record { controller = c; registered = update w.registered i false }))
        (not (w.registered i)) (λ free. unregistered-Shared requested w i h (ground (arith)))
        (λ was.
          released-Shared w i _ h (ground (arith))
            (λ s. freed_both (requested i) i w.controller.sequence_owner s) (λ s. refl))

  put-Shared :
      (w : World) (x : Option Slot) (v : Option ℕ)
      → Shared requested w
      → ((s : Slot) → x ≡ some s → (is_some (w.controller.sequence_owner s) && is_some v) ≡ false)
      → Shared requested (record w { controller = Sequence.put x v w.controller })
  unfolding Sequence.put
  put-Shared w none v h free = h
  put-Shared w (some slot) v h free = record {
    owns = h.owns;
    owned = h.owned;
    alone = alone slot (free slot refl);
  }
    where
      alone :
          (slot : Slot)
          → (is_some (w.controller.sequence_owner slot) && is_some v) ≡ false
          → (s : Slot)
          → (is_some (w.controller.sequence_owner s)
              && is_some (write_slot slot v w.controller.awaitable s))
            ≡ false
      alone reads e reads = e
      alone reads e writes = h.alone writes
      alone writes e reads = h.alone reads
      alone writes e writes = e

  fill-Shared :
      (w : World) (type : EventType) (i : ℕ)
      → Shared requested w
      → is_taken type w.controller ≡ false
      → Shared requested (record w { controller = fill_awaitable type i w.controller })
  unfolding fill_awaitable is_taken
  fill-Shared w type i h free =
      put-Shared w (slot_of type) (some i) h (λ s e. untaken (slot_of type) s e free)
    where
      untaken :
          (x : Option Slot) (s : Slot)
          → x ≡ some s
          → ((event_in_slot x reads && is_some (w.controller.sequence_owner reads))
              || (event_in_slot x writes && is_some (w.controller.sequence_owner writes)))
            ≡ false
          → (is_some (w.controller.sequence_owner s) && is_some {A = ℕ} (some i)) ≡ false
      untaken none s e f = absurd (cc)
      untaken (some reads) reads e f = ground (arith)
      untaken (some writes) writes e f = ground (arith)
      untaken (some reads) writes e f = absurd (cc)
      untaken (some writes) reads e f = absurd (cc)

  remove-Shared :
      (w : World) (type : EventType)
      → Shared requested w
      → Shared requested (record w { controller = remove_awaitable type w.controller })
  unfolding remove_awaitable
  remove-Shared w type h =
      put-Shared w (slot_of type) none h (λ s e. nobody (w.controller.sequence_owner s))
    where
      nobody : (o : Option ℕ) → (is_some o && is_some {A = ℕ} none) ≡ false
      nobody none = refl
      nobody (some j) = refl

  -- Sequences claim and release, and single operations come and go, in any order, where a sequence
  -- claims only while it is not registered and an operation is refused while a sequence owns its slot.
  -- Then the owner of a slot is a registered sequence that asked for the slot, a registered sequence
  -- owns every slot that it asked for, so that no two of them share one, and no single operation
  -- waits in a slot that a sequence owns.
  pub Reachable-Shared : (w : World) → Reachable requested w → Shared requested w
  Reachable-Shared w starts = record {
    owns = λ s i e. absurd (cc);
    owned = λ s i e. absurd (cc);
    alone = λ s. refl;
  }
  Reachable-Shared w (moves {v} r step) = step-Shared v w (Reachable-Shared v r) step
    where
      step-Shared : (v w : World) → Shared requested v → Step requested v w → Shared requested w
      step-Shared v w h (claims i free) = claim-Shared requested v i h free
      step-Shared v w h (releases i) = release-Shared v i h
      step-Shared v w h (fills type i free) = fill-Shared v type i h free
      step-Shared v w h (removes type) = remove-Shared v type h
