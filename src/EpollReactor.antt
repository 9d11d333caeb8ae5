-- ===== src/EpollReactor.antt =====
-- galay-kernel/kernel/epoll_reactor.cc: changes of the interest in a controller's descriptor wait in
-- a list and go to epoll_ctl together, before epoll_wait. A controller is its number, and the fields
-- that the reactor uses are a record of this model. epoll_ctl and close are parameters over the
-- state of the epoll instance. A mask always holds EPOLLET; no mask is the number 0. Null pointers
-- to controllers are left out.
pub mod Operations
pub mod Registered
pub mod Flush
pub mod Wanted
pub mod Changes
pub mod Requests
pub mod Runs
pub mod Stall
pub mod Bounds
pub mod Kept
pub mod Synchronised
pub mod Once
pub mod Dispatch
mod Tests
use galay_kernel.Prelude.{
  ℕ, zero, suc, ◌≡◌, Bool, true, false, not, ◌&&◌, ◌||◌, Option, none, some, is_some, List, [], ◌∷◌,
  ◌++◌, leb, ◌==◌, if◌then◌else◌, update, length,
}
use galay_kernel.Error
use galay_kernel.Error.{IoError}
use galay_kernel.Sequence.{
  Slot, reads, writes, EventType, accept, connect, recv, send, readv, writev, send_file, file_read,
  file_write, file_watch, recv_from, send_to, sequence,
}

-- EPOLLIN and EPOLLOUT
pub record Events : Type 0 where
  pub readable : Bool
  pub writable : Bool

abbrev pub only_edges : Events
only_edges = record { readable = false; writable = false }

pub record Controller : Type 0 where
  pub handle : Option ℕ
  -- The bits of m_type.
  pub type : EventType → Bool
  pub awaitable : Slot → Option ℕ
  pub sequence_owner : Slot → Option ℕ
  pub sequence_interest : Slot → Bool
  pub registered_events : Option Events

pub record PendingChange : Type 0 where
  pub controller : ℕ
  pub events : Events

-- The operations of epoll_ctl, and what it answers: 0, or an error number.
pub data Request : Type 0 where
  add : (events : Events) → Request
  modify : (events : Events) → Request
  delete : Request

pub data Answer : Type 0 where
  accepted : Answer
  refused : (errno : ℕ) → Answer

pub record Reactor (K : Type 0) : Type 0 where
  pub controllers : ℕ → Controller
  pub pending_changes : List PendingChange
  pub last_error : Option IoError
  pub kernel : K

abbrev pub eintr : ℕ
eintr = 4

abbrev pub enoent : ℕ
enoent = 2

abbrev pub batch_threshold : ℕ
batch_threshold = 32

abbrev pub same_bit : Bool → Bool → Bool
same_bit true b = b
same_bit false b = not b

abbrev pub same_events : Events → Events → Bool
same_events a b = same_bit a.readable b.readable && same_bit a.writable b.writable

abbrev pub is_registered : Events → Option Events → Bool
is_registered events none = false
is_registered events (some e) = same_events events e

abbrev pub io_type_to_epoll_events : (EventType → Bool) → Events
io_type_to_epoll_events t = record {
  readable = t accept || t recv || t readv || t recv_from || t file_read || t file_watch;
  writable = t connect || t send || t writev || t send_to || t send_file || t file_write;
}

abbrev pub sequence_interest_to_epoll_events : (Slot → Bool) → Events
sequence_interest_to_epoll_events mask = record { readable = mask reads; writable = mask writes }

abbrev pub build_events : Controller → Events
build_events c =
    let events = io_type_to_epoll_events c.type in
    let more = sequence_interest_to_epoll_events c.sequence_interest in
    if not (c.type sequence) then events else record {
      readable = events.readable || more.readable;
      writable = events.writable || more.writable;
    }

-- findPendingChangeIndex with the read of the change at the index.
abbrev pub find_pending_change : ℕ → List PendingChange → Option Events
find_pending_change i [] = none
find_pending_change i (c ∷ changes) =
    if c.controller == i then some c.events else find_pending_change i changes

-- erasePendingChange at the index of a controller, which is discardPendingChange.
abbrev pub discard_pending_change : ℕ → List PendingChange → List PendingChange
discard_pending_change i [] = []
discard_pending_change i (c ∷ changes) =
    if c.controller == i then changes else c ∷ discard_pending_change i changes

-- The write to `events` of the change at the index.
abbrev pub replace_pending_change : ℕ → Events → List PendingChange → List PendingChange
replace_pending_change i events [] = []
replace_pending_change i events (c ∷ changes) =
    if c.controller == i
    then record c { events = events } ∷ changes
    else c ∷ replace_pending_change i events changes

-- storeBackendError with kNotReady
abbrev pub store_backend_error : {K : Type 0} → ℕ → Reactor K → Reactor K
store_backend_error errno r = record r { last_error = some (Error.make 1 errno) }

abbrev pub set_registered : {K : Type 0} → ℕ → Option Events → Reactor K → Reactor K
set_registered i events r = record r {
  controllers = update r.controllers i (record (r.controllers i) { registered_events = events });
}

-- What an iteration of flushPendingChanges does with its change: erase it, or return -1.
pub data Verdict : Type 0 where
  erases : Verdict
  fails : Verdict

-- Another call after one that fails with `stop`: the loops on EINTR, and the EPOLL_CTL_ADD that
-- follows ENOENT.
abbrev pub again_on : {K : Type 0} → ℕ → (K → Answer × K) → Answer × K → Answer × K
again_on stop retry (accepted, k) = (accepted, k)
again_on stop retry (refused errno, k) = if errno == stop then retry k else (refused errno, k)

module _ {K : Type 0} (epoll_ctl : Request → ℕ → K → Answer × K) where
  -- The loops on EINTR around epoll_ctl, ended after `patience` interruptions.
  unfoldable pub call : ℕ → Request → ℕ → K → Answer × K
  call zero request fd k = epoll_ctl request fd k
  call (suc patience) request fd k =
      again_on eintr (λ k'. call patience request fd k') (epoll_ctl request fd k)

  abbrev pub add_or_modify : ℕ → Option Events → Events → ℕ → K → Answer × K
  add_or_modify patience none events fd k = call patience (add events) fd k
  add_or_modify patience (some e) events fd k =
      again_on enoent (λ k'. call patience (add events) fd k') (call patience (modify events) fd k)

  abbrev pub after_add : ℕ → Events → Reactor K → Answer × K → Verdict × Reactor K
  after_add i events r (accepted, k) =
      (erases, set_registered i (some events) (record r { kernel = k }))
  after_add i events r (refused errno, k) =
      (fails, store_backend_error errno (record r { kernel = k }))

  abbrev pub after_delete : ℕ → Reactor K → Answer × K → Verdict × Reactor K
  after_delete i r (accepted, k) = (erases, set_registered i none (record r { kernel = k }))
  after_delete i r (refused errno, k) =
      if errno == enoent
      then (erases, set_registered i none (record r { kernel = k }))
      else (fails, store_backend_error errno (record r { kernel = k }))

  abbrev pub submit_to : ℕ → PendingChange → Reactor K → Option ℕ → Verdict × Reactor K
  submit_to patience change r none = (erases, r)
  submit_to patience change r (some fd) =
      let i = change.controller in
      let events = change.events in
      let registered = (r.controllers i).registered_events in
      if is_registered events registered
      then (erases, r)
      else if same_events events only_edges
      then (if not (is_some registered)
          then (erases, r)
          else after_delete i r (call patience delete fd r.kernel))
      else after_add i events r (add_or_modify patience registered events fd r.kernel)

  -- One iteration of flushPendingChanges.
  unfoldable pub submit : ℕ → PendingChange → Reactor K → Verdict × Reactor K
  submit patience change r = submit_to patience change r (r.controllers change.controller).handle

  -- An iteration always looks at index 0. The flag says that the result is 0, not -1.
  abbrev pub continue_flush :
      (Reactor K → Bool × Reactor K)
      → PendingChange
      → List PendingChange
      → Verdict × Reactor K
      → Bool × Reactor K
  continue_flush flush_rest change rest (erases, r) =
      flush_rest (record r { pending_changes = rest })
  continue_flush flush_rest change rest (fails, r) =
      (false, record r { pending_changes = change ∷ rest })

  unfoldable pub flush_changes : ℕ → List PendingChange → Reactor K → Bool × Reactor K
  unfolding submit
  flush_changes patience [] r = (true, record r { pending_changes = [] })
  flush_changes patience (change ∷ rest) r =
      continue_flush (flush_changes patience rest) change rest (submit patience change r)

  unfoldable pub flush_pending_changes : ℕ → Reactor K → Bool × Reactor K
  unfolding flush_changes
  flush_pending_changes patience r = flush_changes patience r.pending_changes r

  abbrev pub flush_if_full : ℕ → Reactor K → Bool × Reactor K
  flush_if_full patience r =
      if leb batch_threshold (length r.pending_changes)
      then flush_pending_changes patience r
      else (true, r)

  -- applyEvents on an open handle, by the pending change of the controller.
  abbrev pub apply_over : ℕ → ℕ → Events → Reactor K → Option Events → Bool × Reactor K
  apply_over patience i events r none =
      if is_registered events (r.controllers i).registered_events
      then (true, r)
      else flush_if_full patience (record r {
        pending_changes = r.pending_changes ++ record { controller = i; events = events } ∷ [];
      })
  apply_over patience i events r (some pending) =
      if is_registered events (r.controllers i).registered_events
      then (true, record r { pending_changes = discard_pending_change i r.pending_changes })
      else if same_events pending events
      then (true, r)
      else flush_if_full patience
          (record r { pending_changes = replace_pending_change i events r.pending_changes })

  abbrev pub apply_events_to : ℕ → ℕ → Events → Reactor K → Option ℕ → Bool × Reactor K
  apply_events_to patience i events r none = (false, r)
  apply_events_to patience i events r (some fd) =
      apply_over patience i events r (find_pending_change i r.pending_changes)

  unfoldable pub apply_events : ℕ → ℕ → Events → Reactor K → Bool × Reactor K
  unfolding flush_pending_changes
  apply_events patience i events r = apply_events_to patience i events r (r.controllers i).handle
