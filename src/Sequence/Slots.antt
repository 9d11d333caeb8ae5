-- ===== src/Sequence/Slots.antt =====
-- Who owns the slots of a controller (galay-kernel/kernel/awaitable.h).
use galay_kernel.Prelude.{
  ℕ, ◌≡◌, refl, sym, ◌∙◌, ap, subst, inl, inr, Bool, true, false, not, ◌&&◌, ◌||◌, ◌==◌, Option,
  none, some, is_some, if◌then◌else◌, if_elim, update, arith, Bool-cases, ==_iff,
}
use galay_kernel.Sequence
use galay_kernel.Sequence.{
  Slot, reads, writes, Domain, read_domain, write_domain, read_write_domain, EventType, Controller,
  owner_domain_uses_slot, claim_requested_domain, release_registered_domain, is_taken,
  fill_awaitable, remove_awaitable, can_claim, write_slot,
}

-- The controller and `m_registered` of each sequence.
pub record World : Type 0 where
  pub controller : Controller
  pub registered : ℕ → Bool

owned_both :
    (d : Domain) (i : ℕ) (f : Slot → Option ℕ) (s : Slot)
    → Sequence.owned_if
        (owner_domain_uses_slot d writes)
        writes
        i
        (Sequence.owned_if (owner_domain_uses_slot d reads) reads i f)
        s
      ≡ (if owner_domain_uses_slot d s then some i else f s)
unfolding Sequence.owned_if
owned_both read_domain i f reads = refl
owned_both read_domain i f writes = refl
owned_both write_domain i f reads = refl
owned_both write_domain i f writes = refl
owned_both read_write_domain i f reads = refl
owned_both read_write_domain i f writes = refl

-- `requested` is m_requested_domain, which the constructor sets.
module _ (requested : ℕ → Domain) where
  pub data Step (w : World) : World → Type 0 where
    claims :
        (i : ℕ)
        → w.registered i ≡ false
        → Step w (record {
          controller = (claim_requested_domain i (requested i) w.controller).1;
          registered =
              update w.registered i (claim_requested_domain i (requested i) w.controller).0;
        })
    releases :
        (i : ℕ)
        → Step w (record {
          controller = release_registered_domain i (requested i) (w.registered i) w.controller;
          registered = update w.registered i false;
        })
    fills :
        (type : EventType) (i : ℕ)
        → is_taken type w.controller ≡ false
        → Step w (record w { controller = fill_awaitable type i w.controller })
    removes :
        (type : EventType) → Step w (record w { controller = remove_awaitable type w.controller })

  pub data Reachable : World → Type 0 where
    starts : Reachable (record {
      controller = record {
        awaitable = λ s. none;
        sequence_owner = λ s. none;
        has_sequence = false;
      };
      registered = λ i. false;
    })
    moves : {v w : World} → Reachable v → Step v w → Reachable w

  pub record Shared (w : World) : Type 0 where
    -- The owner of a slot is registered and has asked for the slot.
    pub owns :
        (s : Slot) (i : ℕ)
        → w.controller.sequence_owner s ≡ some i
        → (w.registered i ≡ true) × (owner_domain_uses_slot (requested i) s ≡ true)
    -- A registered sequence owns each slot that it has asked for.
    pub owned :
        (s : Slot) (i : ℕ)
        → w.registered i ≡ true
        → owner_domain_uses_slot (requested i) s ≡ true
        → w.controller.sequence_owner s ≡ some i
    -- No single operation waits in a slot that a sequence owns.
    pub alone :
        (s : Slot)
        → (is_some (w.controller.sequence_owner s) && is_some (w.controller.awaitable s)) ≡ false

  pub some_inj : {x y : ℕ} → some x ≡ some y → x ≡ y
  some_inj e = cc

  update_here : (f : ℕ → Bool) (i : ℕ) (b : Bool) → update f i b i ≡ b
  update_here f i b = ground (arith)

  -- What a successful claim by `i` makes of the owner of a slot.
  claimed-Shared :
      (w : World) (i : ℕ) (c : Controller)
      → Shared w
      → ((s : Slot)
          → c.sequence_owner s ≡ (
              if owner_domain_uses_slot (requested i) s
              then some i
              else w.controller.sequence_owner s))
      → ((s : Slot) → c.awaitable s ≡ w.controller.awaitable s)
      → ((s : Slot)
          → owner_domain_uses_slot (requested i) s ≡ true
          → can_claim i w.controller s ≡ true)
      → Shared (record { controller = c; registered = update w.registered i true })
  unfolding can_claim
  claimed-Shared w i c h owner awaitable claimable = record {
    owns = λ s j e. elim (Bool-cases (owner_domain_uses_slot (requested i) s)) [
      | inl u ↦
          let same : i ≡ j = some_inj (sym (taken s u) ∙ e) in
          subst
            (λ k.
              (update w.registered i true k ≡ true)
              × (owner_domain_uses_slot (requested k) s ≡ true))
            same (update_here w.registered i true, u)
      | inr u ↦ let before = h.owns s j (sym (left s u) ∙ e) in (ground (arith, before.0), before.1)
    ];
    owned = λ s j r uses. elim (Bool-cases (i == j)) [
      | inl same ↦
          let e : i ≡ j = (==_iff i j).0 same in
          taken s (subst (λ k. owner_domain_uses_slot (requested k) s ≡ true) (sym e) uses)
          ∙ ap some e
      | inr other ↦
          let before = h.owned s j (ground (arith, r)) uses in
          elim (Bool-cases (owner_domain_uses_slot (requested i) s)) [
            | inl u ↦ absurd (not_claimable s j other before (claimable s u))
            | inr u ↦ left s u ∙ before
          ]
    ];
    alone = λ s. elim (Bool-cases (owner_domain_uses_slot (requested i) s)) [
      | inl u ↦
          ap (λ x. is_some (c.sequence_owner s) && is_some x) (awaitable s)
          ∙ nothing_waits s (claimable s u)
      | inr u ↦
          ap (λ x. is_some x && is_some (c.awaitable s)) (left s u)
          ∙ ap (λ x. is_some (w.controller.sequence_owner s) && is_some x) (awaitable s)
          ∙ h.alone s
    ];
  }
    where
      taken :
          (s : Slot) → owner_domain_uses_slot (requested i) s ≡ true → c.sequence_owner s ≡ some i
      taken s u = owner s ∙ ap (λ b. if b then some i else w.controller.sequence_owner s) u

      left :
          (s : Slot)
          → owner_domain_uses_slot (requested i) s ≡ false
          → c.sequence_owner s ≡ w.controller.sequence_owner s
      left s u = owner s ∙ ap (λ b. if b then some i else w.controller.sequence_owner s) u

      not_claimable :
          (s : Slot) (j : ℕ)
          → (i == j) ≡ false
          → w.controller.sequence_owner s ≡ some j
          → ¬ (can_claim i w.controller s ≡ true)
      not_claimable s j other e can =
          let j_again : (not (is_some (w.controller.awaitable s))
                && (not (is_some {A = ℕ} (some j)) || (j == i)))
              ≡ true =
            ap
              (λ x.
                not (is_some (w.controller.awaitable s))
                && (not (is_some x) || Sequence.is_this i x))
              (sym e)
            ∙ can in
          ground (arith)

      nothing_waits :
          (s : Slot)
          → can_claim i w.controller s ≡ true
          → (is_some (c.sequence_owner s) && is_some (w.controller.awaitable s)) ≡ false
      nothing_waits s can = ground (arith)

  -- A sequence that is not registered, and stays so.
  pub unregistered-Shared :
      (w : World) (i : ℕ)
      → Shared w
      → w.registered i ≡ false
      → Shared (record w { registered = update w.registered i false })
  unregistered-Shared w i h free = record {
    owns = λ s j e.
        let before = h.owns s j e in
        elim (Bool-cases (i == j)) [
          | inl same ↦
              let is_free : w.registered j ≡ false =
                subst (λ k. w.registered k ≡ false) ((==_iff i j).0 same) free in
              absurd (cc (is_free, before.0))
          | inr other ↦ (ground (arith, before.0), before.1)
        ];
    owned = λ s j r uses. h.owned s j (ground (arith, r)) uses;
    alone = h.alone;
  }

  pub claim-Shared :
      (w : World) (i : ℕ)
      → Shared w
      → w.registered i ≡ false
      → let (registered, c) = claim_requested_domain i (requested i) w.controller in
        Shared (record { controller = c; registered = update w.registered i registered })
  unfolding claim_requested_domain
  claim-Shared w i h free =
      let c = w.controller in
      let d = requested i in
      if_elim
        (λ (r : Bool × Controller).
          Shared (record { controller = r.1; registered = update w.registered i r.0 }))
        ((owner_domain_uses_slot d reads && not (can_claim i c reads))
          || (owner_domain_uses_slot d writes && not (can_claim i c writes)))
        (λ _. unregistered-Shared w i h free)
        (λ allowed.
          claimed-Shared w i _ h (λ s. owned_both d i c.sequence_owner s) (λ s. refl)
            (λ s uses. allowed_slot allowed s uses))
    where
      allowed_slot :
          ((owner_domain_uses_slot (requested i) reads && not (can_claim i w.controller reads))
              || (owner_domain_uses_slot (requested i) writes
                  && not (can_claim i w.controller writes)))
            ≡ false
          → (s : Slot) → owner_domain_uses_slot (requested i) s ≡ true
          → can_claim i w.controller s ≡ true
      allowed_slot allowed reads uses = ground (arith)
      allowed_slot allowed writes uses = ground (arith)
