-- ===== src/Sequence/Tests.antt =====
-- A sequence claims both slots of an idle controller.
use galay_kernel.Prelude.{ℕ, ◌≡◌, refl, false, none, some, update}
use galay_kernel.Sequence
use galay_kernel.Sequence.{Domain, read_write_domain, reads, Controller, claim_requested_domain}
use galay_kernel.Sequence.Slots.{World, starts, moves, claims, Shared}
use galay_kernel.Sequence.Exclusive.{Reachable-Shared}

abbrev idle : World
idle = record {
  controller = record { awaitable = λ s. none; sequence_owner = λ s. none; has_sequence = false };
  registered = λ i. false;
}

abbrev asks_both : ℕ → Domain
asks_both i = read_write_domain

abbrev claimed : World
claimed = record {
  controller = (claim_requested_domain 7 read_write_domain idle.controller).1;
  registered =
      update idle.registered 7 (claim_requested_domain 7 read_write_domain idle.controller).0;
}

claim-owner : claimed.controller.sequence_owner reads ≡ some 7
unfolding claim_requested_domain Sequence.can_claim Sequence.owned_if
claim-owner = refl

Reachable-Shared_example : Shared asks_both claimed
Reachable-Shared_example = Reachable-Shared asks_both claimed (moves starts (claims 7 refl))
