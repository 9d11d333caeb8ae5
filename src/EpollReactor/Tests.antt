-- ===== src/EpollReactor/Tests.antt =====
-- An epoll instance that keeps its interest list, and runs of the reactor over it.
use galay_kernel.Prelude.{
  ℕ, ◌≤◌, ◌<◌, ◌≡◌, refl, Bool, true, false, Option, none, some, List, [], ◌∷◌, ◌==◌, if◌then◌else◌,
  update, length, count, arith,
}
use galay_kernel.Sequence.{Slot, reads, writes, EventType, recv}
use galay_kernel.EpollReactor
use galay_kernel.EpollReactor.{
  Events, only_edges, Controller, PendingChange, Request, add, modify, delete, Answer, accepted,
  refused, Reactor, flush_pending_changes, apply_events, batch_threshold, call, same_events, eintr,
  build_events,
}
use galay_kernel.EpollReactor.Operations.{closed_controller, add_close}
use galay_kernel.EpollReactor.Registered.{settle, wanted, wish, Follows, obeyed, declined}
use galay_kernel.EpollReactor.Wanted.{WellFormed}
use galay_kernel.EpollReactor.Bounds.{apply_events-Short}
use galay_kernel.EpollReactor.Runs.{Call, requests, flushes, closes, CloseLaw, run, run-Refines}
use galay_kernel.EpollReactor.Dispatch.{Turn, Outcomes, Waited, ready, process_event}
use galay_kernel.EpollReactor.Stall.{polls, polls-Stall}
use galay_kernel.EpollReactor.Once.{process_event-Once}
use galay_kernel.EpollReactor.Synchronised.{process_event-Settles}

abbrev Instance : Type 0
Instance = ℕ → Option Events

abbrev held : Instance → ℕ → Option Events
held k fd = k fd

-- EEXIST is 17.
abbrev add_answer : Events → ℕ → Instance → Option Events → Answer × Instance
add_answer events fd k none = (accepted, update k fd (some events))
add_answer events fd k (some e) = (refused 17, k)

abbrev modify_answer : Option Events → ℕ → Instance → Option Events → Answer × Instance
modify_answer wished fd k none = (refused 2, k)
modify_answer wished fd k (some e) = (accepted, update k fd wished)

abbrev ctl : Request → ℕ → Instance → Answer × Instance
ctl (add events) fd k = add_answer events fd k (k fd)
ctl (modify events) fd k = modify_answer (some events) fd k (k fd)
ctl delete fd k = modify_answer none fd k (k fd)

written-obeyed :
    (wished : Option Events) (fd : ℕ) (k : Instance)
    → Follows held wished fd (held k) (accepted, update k fd wished)
written-obeyed wished fd k =
    obeyed (update k fd wished) (ground arith) (λ other apart. ground arith)

ctl-law :
    (request : Request) (fd : ℕ) (k : Instance)
    → Follows held (wish request) fd (held k) (ctl request fd k)
ctl-law (add events) fd k = by_held (k fd) refl
  where
    by_held :
        (o : Option Events)
        → k fd ≡ o
        → Follows held (some events) fd (held k) (add_answer events fd k o)
    by_held none e = written-obeyed (some events) fd k
    by_held (some x) e = declined 17 k (λ other. refl) (λ h. ground arith)
ctl-law (modify events) fd k = by_held (k fd) refl
  where
    by_held :
        (o : Option Events)
        → k fd ≡ o
        → Follows held (some events) fd (held k) (modify_answer (some events) fd k o)
    by_held none e = declined 2 k (λ other. refl) (λ h. e)
    by_held (some x) e = written-obeyed (some events) fd k
ctl-law delete fd k = by_held (k fd) refl
  where
    by_held :
        (o : Option Events) → k fd ≡ o → Follows held none fd (held k) (modify_answer none fd k o)
    by_held none e = declined 2 k (λ other. refl) (λ h. e)
    by_held (some x) e = written-obeyed none fd k

abbrev drop_fd : ℕ → Instance → Instance
drop_fd fd k = update k fd none

drop_fd-law : CloseLaw held drop_fd
drop_fd-law = record { gone = λ fd k. ground arith; rest = λ fd other k apart. ground arith }

-- Controllers 1 and 2 are open, with the descriptors 11 and 12.
abbrev only_recv : EventType → Bool
only_recv recv = true
only_recv type = false

abbrev reader : Slot → Option ℕ
reader reads = some 7
reader writes = none

abbrev opened_as : ℕ → Controller
opened_as fd = record closed_controller { handle = some fd; type = only_recv; awaitable = reader }

abbrev controllers_at_first : ℕ → Controller
controllers_at_first i =
    if i == 1 then opened_as 11 else if i == 2 then opened_as 12 else closed_controller

abbrev at_first : Reactor Instance
at_first = record {
  controllers = controllers_at_first;
  pending_changes = [];
  last_error = none;
  kernel = λ fd. none;
}

at_first-WellFormed : WellFormed held at_first
at_first-WellFormed = record {
  synced = record {
    distinct = λ i j fd hi hj. ground arith;
    agrees = λ i fd hi. ground arith;
    never_bare = λ i events hi. ground arith;
  };
  unique = λ i. ground arith;
}

abbrev both : Events
both = record { readable = true; writable = true }

abbrev reading : Events
reading = record { readable = true; writable = false }

abbrev calls_example : List Call
calls_example =
    requests 1 reading
    ∷ requests 2 both
    ∷ requests 1 both
    ∷ flushes
    ∷ requests 1 only_edges
    ∷ closes 2
    ∷ requests 1 reading
    ∷ []

abbrev after_calls : Reactor Instance
after_calls = run ctl drop_fd 3 calls_example at_first

after_calls-handle : (after_calls.controllers 1).handle ≡ some 11
unfolding apply_events flush_pending_changes EpollReactor.flush_changes EpollReactor.submit call
    add_close
after_calls-handle = refl

after_calls-flush : (flush_pending_changes ctl 3 after_calls).0 ≡ true
unfolding apply_events flush_pending_changes EpollReactor.flush_changes EpollReactor.submit call
    add_close
after_calls-flush = refl

run-Refines_example :
    (held (flush_pending_changes ctl 3 after_calls).1.kernel 11 ≡ some reading)
    × ((flush_pending_changes ctl 3 after_calls).1.pending_changes ≡ [])
run-Refines_example =
    run-Refines held ctl ctl-law drop_fd drop_fd-law 3 calls_example at_first 1 11
      at_first-WellFormed after_calls-handle after_calls-flush

requested : (apply_events ctl 3 1 both at_first).0 ≡ true
unfolding apply_events flush_pending_changes EpollReactor.flush_changes EpollReactor.submit call
requested = refl

apply_events-Short_example :
    length (apply_events ctl 3 1 both at_first).1.pending_changes < batch_threshold
apply_events-Short_example = apply_events-Short ctl 3 1 both at_first (omega arith) requested

-- One event of controller 1, whose awaitable completes.
abbrev completing : Outcomes
completing = record { completes = λ a. true; on_active_event = λ owner. (false, recv); errno = 0 }

abbrev turn_at_first : Turn Instance
turn_at_first = record {
  reactor = at_first;
  active = λ owner. recv;
  asked = [];
  woken = [];
  cancels = false;
}

process_event-Settles_example :
    let r = (process_event ctl 3 completing 1 true true turn_at_first).reactor in
    WellFormed held r × (wanted r 1 ≡ settle (build_events (r.controllers 1)))
process_event-Settles_example =
    process_event-Settles held ctl ctl-law 3 completing 1 11 true true turn_at_first
      at_first-WellFormed refl refl

-- Sequence 9 owns both slots of controller 1.
abbrev owned : Controller
owned = record (opened_as 11) {
  type = λ type. true;
  awaitable = λ slot. none;
  sequence_owner = λ slot. some 9;
}

abbrev turn_owned : Turn Instance
turn_owned = record turn_at_first {
  reactor = record at_first { controllers = update controllers_at_first 1 owned };
}

process_event-Once_example :
    count 9 (process_event ctl 3 completing 1 true true turn_owned).asked ≤ 1
process_event-Once_example = process_event-Once ctl 3 completing 1 9 true true turn_owned

-- EPERM for every change: the descriptor cannot be polled.
abbrev refusing : Request → ℕ → Instance → Answer × Instance
refusing request fd k = (refused 1, k)

abbrev nothing_ready : Instance → Waited × Instance
nothing_ready k = (ready [], k)

abbrev change_of : ℕ → PendingChange
change_of i = record { controller = i; events = both }

abbrev turn_stuck : Turn Instance
turn_stuck = record turn_at_first {
  reactor = record at_first { pending_changes = change_of 1 ∷ change_of 2 ∷ [] };
}

polls-Stall_example :
    ((polls refusing 3 nothing_ready 5 turn_stuck).0 ≡ 0)
    × ((polls refusing 3 nothing_ready 5 turn_stuck).1.reactor.pending_changes
        ≡ change_of 1 ∷ change_of 2 ∷ [])
polls-Stall_example =
    polls-Stall refusing 3 nothing_ready (change_of 1) (change_of 2 ∷ []) 11 1 5 turn_stuck
      (λ k. refl) refl refl (record { first = refl; opened = refl; unregistered = refl })
