-- ===== src/Sequence.antt =====
-- How awaitables share the read and the write slot of a controller, for the reactors that report
-- readiness: SequenceAwaitableBase, and suspendRegisteredAwaitable with fillAwaitable and
-- removeAwaitable for single operations, of galay-kernel/kernel/awaitable.h and io_scheduler.hpp. An
-- awaitable is its address. The masks of interest are left out.
pub mod Slots
pub mod Exclusive
mod Tests
use galay_kernel.Prelude.{
  ℕ, Bool, true, false, not, ◌&&◌, ◌||◌, ◌==◌, Option, none, some, is_some, if◌then◌else◌,
}

pub data Slot : Type 0 where
  reads : Slot
  writes : Slot

-- SequenceOwnerDomain
pub data Domain : Type 0 where
  read_domain : Domain
  write_domain : Domain
  read_write_domain : Domain

pub data EventType : Type 0 where
  invalid : EventType
  accept : EventType
  connect : EventType
  recv : EventType
  send : EventType
  readv : EventType
  writev : EventType
  send_file : EventType
  file_read : EventType
  file_write : EventType
  file_watch : EventType
  recv_from : EventType
  send_to : EventType
  sequence : EventType

abbrev pub owner_domain_uses_slot : Domain → Slot → Bool
owner_domain_uses_slot read_domain reads = true
owner_domain_uses_slot read_domain writes = false
owner_domain_uses_slot write_domain reads = false
owner_domain_uses_slot write_domain writes = true
owner_domain_uses_slot read_write_domain slot = true

abbrev pub slot_of : EventType → Option Slot
slot_of invalid = none
slot_of accept = some reads
slot_of connect = some writes
slot_of recv = some reads
slot_of send = some writes
slot_of readv = some reads
slot_of writev = some writes
slot_of send_file = some writes
slot_of file_read = some reads
slot_of file_write = some writes
slot_of file_watch = some reads
slot_of recv_from = some reads
slot_of send_to = some writes
slot_of sequence = none

abbrev same_slot : Slot → Slot → Bool
same_slot reads reads = true
same_slot reads writes = false
same_slot writes reads = false
same_slot writes writes = true

abbrev event_in_slot : Option Slot → Slot → Bool
event_in_slot none slot = false
event_in_slot (some s) slot = same_slot s slot

abbrev pub event_uses_slot : EventType → Slot → Bool
event_uses_slot type slot = event_in_slot (slot_of type) slot

pub record Controller : Type 0 where
  pub awaitable : Slot → Option ℕ
  pub sequence_owner : Slot → Option ℕ
  -- The bit SEQUENCE of m_type.
  pub has_sequence : Bool

abbrev pub write_slot : Slot → Option ℕ → (Slot → Option ℕ) → Slot → Option ℕ
write_slot slot v f s = if same_slot slot s then v else f s

abbrev is_this : ℕ → Option ℕ → Bool
is_this i none = false
is_this i (some j) = j == i

pub can_claim : ℕ → Controller → Slot → Bool
can_claim i c slot =
    not (is_some (c.awaitable slot))
    && (not (is_some (c.sequence_owner slot)) || is_this i (c.sequence_owner slot))

owned_if : Bool → Slot → ℕ → (Slot → Option ℕ) → Slot → Option ℕ
owned_if true slot i f = write_slot slot (some i) f
owned_if false slot i f = f

-- claimRequestedDomain: the flag is m_registered.
pub claim_requested_domain : ℕ → Domain → Controller → Bool × Controller
unfolding can_claim owned_if
claim_requested_domain i requested c =
    let need_read = owner_domain_uses_slot requested reads in
    let need_write = owner_domain_uses_slot requested writes in
    if (need_read && not (can_claim i c reads)) || (need_write && not (can_claim i c writes))
    then (false, c)
    else (
      true,
      record c {
        sequence_owner = owned_if need_write writes i (owned_if need_read reads i c.sequence_owner);
        has_sequence = true;
      },
    )

freed_if : Bool → Slot → (Slot → Option ℕ) → Slot → Option ℕ
freed_if true slot f = write_slot slot none f
freed_if false slot f = f

-- releaseRegisteredDomain of an awaitable whose m_registered is `registered`.
pub release_registered_domain : ℕ → Domain → Bool → Controller → Controller
unfolding freed_if
release_registered_domain i domain registered c =
    let owner =
      freed_if (owner_domain_uses_slot domain reads && is_this i (c.sequence_owner reads)) reads
        c.sequence_owner in
    let owner2 =
      freed_if (owner_domain_uses_slot domain writes && is_this i (owner writes)) writes owner in
    if not registered then c else record c {
      sequence_owner = owner2;
      has_sequence =
          if not (is_some (owner2 reads)) && not (is_some (owner2 writes))
          then false
          else c.has_sequence;
    }

-- The test of suspendRegisteredAwaitable: a slot that a sequence owns is not available.
pub is_taken : EventType → Controller → Bool
is_taken type c =
    (event_uses_slot type reads && is_some (c.sequence_owner reads))
    || (event_uses_slot type writes && is_some (c.sequence_owner writes))

put : Option Slot → Option ℕ → Controller → Controller
put none v c = c
put (some slot) v c = record c { awaitable = write_slot slot v c.awaitable }

pub fill_awaitable : EventType → ℕ → Controller → Controller
unfolding put
fill_awaitable type i c = put (slot_of type) (some i) c

pub remove_awaitable : EventType → Controller → Controller
unfolding put
remove_awaitable type c = put (slot_of type) none c
