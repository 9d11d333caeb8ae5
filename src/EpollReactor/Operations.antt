-- ===== src/EpollReactor/Operations.antt =====
-- The operations of galay-kernel/kernel/epoll_reactor.cc on controllers, and the masks of interest of
-- sequences (galay-kernel/kernel/awaitable.h). An awaitable is its address; `active` says which event
-- each sequence waits for, and `completes` whether handleComplete of an awaitable returns true.
use galay_kernel.Prelude.{
  ℕ, Bool, true, false, ◌||◌, Option, none, some, ◌==◌, if◌then◌else◌, update,
}
use galay_kernel.Sequence.{Slot, reads, writes, EventType, sequence, event_uses_slot}
use galay_kernel.EpollReactor.{
  only_edges, Controller, Request, Answer, Reactor, apply_events, build_events,
  discard_pending_change, same_events, store_backend_error, sequence_interest_to_epoll_events,
}

-- kImmediateReady, 0 and -1
pub data Code : Type 0 where
  immediate : Code
  waiting : Code
  failure : Code

abbrev pub code_of : Bool → Code
code_of true = waiting
code_of false = failure

-- sequenceInterestMask, for an owner
abbrev pub owner_interest : (ℕ → EventType) → Option ℕ → Slot → Bool
owner_interest active none slot = false
owner_interest active (some owner) slot = event_uses_slot (active owner) slot

abbrev same_owner : Option ℕ → Option ℕ → Bool
same_owner (some a) (some b) = a == b
same_owner (some a) none = false
same_owner none b = false

-- collectSequenceInterestMask: an owner of both slots is asked once.
abbrev pub collect_sequence_interest_mask : (ℕ → EventType) → Controller → Slot → Bool
collect_sequence_interest_mask active c slot =
    owner_interest active (c.sequence_owner reads) slot
    || (if same_owner (c.sequence_owner writes) (c.sequence_owner reads)
        then false
        else owner_interest active (c.sequence_owner writes) slot)

abbrev pub sync_sequence_interest_mask : {K : Type 0} → (ℕ → EventType) → ℕ → Reactor K → Reactor K
sync_sequence_interest_mask active i r = record r {
  controllers = update r.controllers i (record (r.controllers i) {
    sequence_interest = collect_sequence_interest_mask active (r.controllers i);
  });
}

abbrev no_slot : {A : Type 0} → Slot → Option A
no_slot slot = none

abbrev pub closed_controller : Controller
closed_controller = record {
  handle = none;
  type = λ type. false;
  awaitable = no_slot;
  sequence_owner = no_slot;
  sequence_interest = λ slot. false;
  registered_events = none;
}

module _ {K : Type 0} (close : ℕ → K → K) where
  abbrev pub add_close_of : ℕ → Reactor K → Option ℕ → Reactor K
  add_close_of i r none = r
  add_close_of i r (some fd) = record r {
    controllers = update r.controllers i closed_controller;
    pending_changes = discard_pending_change i r.pending_changes;
    kernel = close fd r.kernel;
  }

  -- addClose, which returns 0.
  unfoldable pub add_close : ℕ → Reactor K → Reactor K
  add_close i r = add_close_of i r (r.controllers i).handle

module _ {K : Type 0} (epoll_ctl : Request → ℕ → K → Answer × K) (patience : ℕ) where
  abbrev pub as_code : Bool × Reactor K → Code × Reactor K
  as_code (ok, r) = (code_of ok, r)

  -- What addAccept, addConnect, addRecv, addSend, addReadv, addWritev and addSendFile do with the
  -- awaitable in the slot of their operation.
  abbrev pub add_awaitable : (ℕ → Bool) → ℕ → Reactor K → Option ℕ → Code × Reactor K
  add_awaitable completes i r none = (failure, r)
  add_awaitable completes i r (some a) =
      if completes a
      then (immediate, r)
      else as_code (apply_events epoll_ctl patience i (build_events (r.controllers i)) r)

  pub add_operation : (ℕ → Bool) → ℕ → Slot → Reactor K → Code × Reactor K
  add_operation completes i slot r = add_awaitable completes i r ((r.controllers i).awaitable slot)

  -- addRecvFrom and addSendTo
  pub add_datagram : (ℕ → Bool) → ℕ → Slot → Reactor K → Code × Reactor K
  unfolding add_operation
  add_datagram completes i slot r = add_operation completes i slot r

  pub add_file_read : ℕ → Reactor K → Code × Reactor K
  add_file_read i r =
      as_code (apply_events epoll_ctl patience i (record { readable = true; writable = false }) r)

  pub add_file_write : ℕ → Reactor K → Code × Reactor K
  add_file_write i r =
      as_code (apply_events epoll_ctl patience i (record { readable = false; writable = true }) r)

  abbrev add_file_watch_of : ℕ → Reactor K → Option ℕ → Code × Reactor K
  add_file_watch_of i r none = (failure, r)
  add_file_watch_of i r (some a) =
      as_code (apply_events epoll_ctl patience i (build_events (r.controllers i)) r)

  pub add_file_watch : ℕ → Reactor K → Code × Reactor K
  add_file_watch i r = add_file_watch_of i r ((r.controllers i).awaitable reads)

  unfoldable pub add_sequence : (ℕ → EventType) → ℕ → Reactor K → Code × Reactor K
  add_sequence active i r =
      let r' = sync_sequence_interest_mask active i r in
      as_code (apply_events epoll_ctl patience i (build_events (r'.controllers i)) r')

  abbrev pub remove_of : ℕ → Reactor K → Option ℕ → Code × Reactor K
  remove_of i r none = (waiting, r)
  remove_of i r (some fd) = as_code (apply_events epoll_ctl patience i only_edges r)

  pub remove : ℕ → Reactor K → Code × Reactor K
  remove i r = remove_of i r (r.controllers i).handle

  pub process_sequence : EventType → ℕ → Reactor K → Code × Reactor K
  process_sequence type i r =
      let events = sequence_interest_to_epoll_events (event_uses_slot type) in
      if same_events events only_edges
      then (failure, r)
      else as_code (apply_events epoll_ctl patience i events r)

  abbrev pub store_if_failed : ℕ → Bool × Reactor K → Reactor K
  store_if_failed errno (true, r) = r
  store_if_failed errno (false, r) = store_backend_error errno r

  -- syncEvents; `errno` is what the last failed call of the thread left there.
  unfoldable pub sync_events : (ℕ → EventType) → ℕ → ℕ → Reactor K → Reactor K
  sync_events active errno i r =
      let r' =
        if (r.controllers i).type sequence then sync_sequence_interest_mask active i r else r in
      store_if_failed errno (apply_events epoll_ctl patience i (build_events (r'.controllers i)) r')
