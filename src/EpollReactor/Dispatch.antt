-- ===== src/EpollReactor/Dispatch.antt =====
-- poll and processEvent of galay-kernel/kernel/epoll_reactor.cc. What the system calls and the
-- awaitables answer while an event is handled comes with the event; the results of file reads and
-- file watches are left out, not whom they wake.
use galay_kernel.Prelude.{
  ℕ, Bool, true, false, not, ◌&&◌, ◌||◌, Option, none, some, List, [], ◌∷◌, ◌==◌, if◌then◌else◌,
}
use galay_kernel.Sequence.{
  Slot, reads, writes, EventType, accept, connect, recv, send, readv, writev, send_file, file_read,
  file_write, file_watch, recv_from, send_to, sequence, event_uses_slot,
}
use galay_kernel.EpollReactor.{
  only_edges, Controller, Request, Answer, Reactor, apply_events, store_backend_error, enoent,
  eintr, flush_pending_changes,
}
use galay_kernel.EpollReactor.Operations.{
  Code, immediate, waiting, failure, add_sequence, sync_events, sync_sequence_interest_mask,
}

pub record Outcomes : Type 0 where
  pub completes : ℕ → Bool
  -- onActiveEvent of a sequence: whether it is completed, and the event it waits for next.
  pub on_active_event : ℕ → Bool × EventType
  pub errno : ℕ

-- An event of epoll_wait; the eventfd has no controller.
pub record Event : Type 0 where
  pub target : Option ℕ
  pub readable : Bool
  pub writable : Bool
  pub has_error : Bool
  pub outcomes : Outcomes

-- The reactor, the events that sequences wait for, and who was asked and woken so far.
pub record Turn (K : Type 0) : Type 0 where
  pub reactor : Reactor K
  pub active : ℕ → EventType
  pub asked : List ℕ  -- the calls of onActiveEvent
  pub woken : List ℕ  -- the calls of wakeUp
  pub cancels : Bool  -- cancelPendingWake was called

abbrev pub is_invalid : (EventType → Bool) → Bool
is_invalid t = not (
    t accept
    || t connect
    || t recv
    || t send
    || t readv
    || t writev
    || t send_file
    || t file_read
    || t file_write
    || t file_watch
    || t recv_from
    || t send_to
    || t sequence)

abbrev pub wake : {K : Type 0} → ℕ → Turn K → Turn K
wake a t = record t { woken = a ∷ t.woken }

abbrev pub complete_awaitable_and_wake : {K : Type 0} → Outcomes → Option ℕ → Turn K → Turn K
complete_awaitable_and_wake o none t = t
complete_awaitable_and_wake o (some a) t = if o.completes a then wake a t else t

abbrev pub wake_if_any : {K : Type 0} → Option ℕ → Turn K → Turn K
wake_if_any none t = t
wake_if_any (some a) t = wake a t

abbrev pub set_active : {K : Type 0} → ℕ → EventType → Turn K → Turn K
set_active a type t = record t {
  active = λ owner. if a == owner then type else t.active owner;
  asked = a ∷ t.asked;
}

abbrev pub waits_on : {K : Type 0} → Turn K → ℕ → Slot → Bool
waits_on t owner slot = event_uses_slot (t.active owner) slot

abbrev pub is_dispatched : Option ℕ → ℕ → Bool
is_dispatched none owner = false
is_dispatched (some first) owner = first == owner

-- What epoll_wait answers: an error number, or events.
pub data Waited : Type 0 where
  wait_failed : (errno : ℕ) → Waited
  ready : (events : List Event) → Waited

module _ {K : Type 0} (epoll_ctl : Request → ℕ → K → Answer × K) (patience : ℕ) where
  -- A file read withdraws the interest of its descriptor.
  abbrev pub store_unless_absent : ℕ → Bool × Reactor K → Reactor K
  store_unless_absent errno (true, r) = r
  store_unless_absent errno (false, r) = if errno == enoent then r else store_backend_error errno r

  abbrev pub end_file_read : Outcomes → ℕ → Option ℕ → Turn K → Turn K
  end_file_read o i none t = t
  end_file_read o i (some a) t = wake a (record t {
    reactor = store_unless_absent o.errno (apply_events epoll_ctl patience i only_edges t.reactor);
  })

  abbrev pub on_readable : Outcomes → ℕ → Controller → Turn K → Turn K
  on_readable o i c t =
      if c.type accept || c.type recv || c.type readv || c.type recv_from
      then complete_awaitable_and_wake o (c.awaitable reads) t
      else if c.type file_read
      then end_file_read o i (c.awaitable reads) t
      else if c.type file_watch
      then wake_if_any (c.awaitable reads) t
      else t

  abbrev pub on_writable : Outcomes → Controller → Turn K → Turn K
  on_writable o c t =
      if c.type connect
        || c.type send
        || c.type writev
        || c.type send_to
        || c.type file_write
        || c.type send_file
      then complete_awaitable_and_wake o (c.awaitable writes) t
      else t

  abbrev pub after_add : ℕ → ℕ → Turn K → Code × Reactor K → Turn K
  after_add errno owner t (immediate, r) = wake owner (record t { reactor = r })
  after_add errno owner t (waiting, r) = record t { reactor = r }
  after_add errno owner t (failure, r) =
      wake owner (record t { reactor = store_backend_error errno r })

  -- dispatch_owner
  unfoldable pub dispatch_owner : Outcomes → ℕ → ℕ → Turn K → Turn K
  dispatch_owner o i owner t =
      let (completed, next) = o.on_active_event owner in
      let t' = set_active owner next t in
      if completed
      then wake owner (record t' { reactor = sync_sequence_interest_mask t'.active i t'.reactor })
      else after_add o.errno owner t' (add_sequence epoll_ctl patience t'.active i t'.reactor)

  -- The owner of the read slot, which is then `dispatched`.
  abbrev pub dispatch_reader : Outcomes → ℕ → Option ℕ → Turn K → Option ℕ × Turn K
  dispatch_reader o i none t = (none, t)
  dispatch_reader o i (some owner) t =
      if waits_on t owner reads then (some owner, dispatch_owner o i owner t) else (none, t)

  abbrev pub dispatch_writer : Outcomes → ℕ → Option ℕ → Option ℕ × Turn K → Turn K
  dispatch_writer o i none (dispatched, t) = t
  dispatch_writer o i (some owner) (dispatched, t) =
      if not (is_dispatched dispatched owner) && waits_on t owner writes
      then dispatch_owner o i owner t
      else t

  abbrev pub dispatch_sequences : Outcomes → ℕ → Bool → Bool → Controller → Turn K → Turn K
  dispatch_sequences o i readable writable c t =
      let (dispatched, t1) =
        if readable then dispatch_reader o i (c.sequence_owner reads) t else (none, t) in
      if writable then dispatch_writer o i (c.sequence_owner writes) (dispatched, t1) else t1

  unfoldable pub process_event : Outcomes → ℕ → Bool → Bool → Turn K → Turn K
  unfolding dispatch_owner
  process_event o i readable writable t =
      let c = t.reactor.controllers i in
      let t1 = if readable then on_readable o i c t else t in
      let t2 = if writable then on_writable o c t1 else t1 in
      let t3 = if c.type sequence then dispatch_sequences o i readable writable c t2 else t2 in
      if is_invalid c.type
      then t
      else record t3 { reactor = sync_events epoll_ctl patience t3.active o.errno i t3.reactor }

  abbrev pub handle_target : Event → Turn K → Option ℕ → Turn K
  handle_target e t none = record t { cancels = true }
  handle_target e t (some i) =
      process_event e.outcomes i (e.readable || e.has_error) (e.writable || e.has_error) t

  abbrev pub handle_events : List Event → Turn K → Turn K
  handle_events [] t = t
  handle_events (e ∷ events) t = handle_events events (handle_target e t e.target)

  abbrev pub after_wait : Turn K → Waited → Turn K
  after_wait t (wait_failed errno) =
      if errno == eintr then t else record t { reactor = store_backend_error errno t.reactor }
  after_wait t (ready events) = handle_events events t

  -- The flag of the result says whether epoll_wait was called.
  abbrev pub poll_after : (K → Waited × K) → Turn K → Bool × Reactor K → Bool × Turn K
  poll_after epoll_wait t (false, r) = (false, record t { reactor = r })
  poll_after epoll_wait t (true, r) =
      let (waited, k) = epoll_wait r.kernel in
      (true, after_wait (record t { reactor = record r { kernel = k } }) waited)

  unfoldable pub poll : (K → Waited × K) → Turn K → Bool × Turn K
  poll epoll_wait t = poll_after epoll_wait t (flush_pending_changes epoll_ctl patience t.reactor)
