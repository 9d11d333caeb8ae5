-- ===== src/EpollReactor/Synchronised.antt =====
-- After processEvent the reactor wants of a controller what its m_type and its sequences say
-- (galay-kernel/kernel/epoll_reactor.cc).
use galay_kernel.Prelude.{
  ℕ, ◌≡◌, Bool, true, false, not, ◌&&◌, Option, none, some, if◌then◌else◌, if_elim, arith, ◌∙◌, sym,
  ap,
}
use galay_kernel.Sequence.{reads, writes, EventType, sequence}
use galay_kernel.EpollReactor.{
  Controller, Request, Answer, Reactor, Events, apply_events, build_events,
}
use galay_kernel.EpollReactor.Operations.{sync_events, sync_sequence_interest_mask, store_if_failed}
use galay_kernel.EpollReactor.Registered.{settle, wanted, wish, Follows}
use galay_kernel.EpollReactor.Wanted.{WellFormed}
use galay_kernel.EpollReactor.Requests.{apply_events-Applied}
use galay_kernel.EpollReactor.Dispatch.{
  Outcomes, Turn, process_event, dispatch_reader, dispatch_writer, dispatch_sequences, on_readable,
  on_writable, is_invalid, is_dispatched, waits_on,
}
use galay_kernel.EpollReactor.Kept.{
  Kept, Kept-none, Kept-both, Kept-mask, Kept-store, Kept-on_readable, Kept-on_writable,
  Kept-dispatch_owner,
}

module _ {K : Type 0} (interest : K → ℕ → Option Events) (epoll_ctl : Request → ℕ → K → Answer × K)
    (law : (request : Request) (fd : ℕ) (k : K)
      → Follows interest (wish request) fd (interest k) (epoll_ctl request fd k))
    (patience : ℕ) where
  Kept-dispatch_reader :
      (o : Outcomes) (i : ℕ) (owner : Option ℕ) (t : Turn K)
      → WellFormed interest t.reactor
      → Kept interest t.reactor (dispatch_reader epoll_ctl patience o i owner t).1.reactor
  Kept-dispatch_reader o i none t h = Kept-none interest t.reactor h
  Kept-dispatch_reader o i (some owner) t h =
      if_elim (λ (u : Option ℕ × Turn K). Kept interest t.reactor u.1.reactor)
        (waits_on t owner reads)
        (λ yes. Kept-dispatch_owner interest epoll_ctl law patience o i owner t h)
        (λ no. Kept-none interest t.reactor h)

  Kept-dispatch_writer :
      (o : Outcomes) (i : ℕ) (owner dispatched : Option ℕ) (t : Turn K)
      → WellFormed interest t.reactor
      → Kept interest t.reactor
          (dispatch_writer epoll_ctl patience o i owner (dispatched, t)).reactor
  Kept-dispatch_writer o i none dispatched t h = Kept-none interest t.reactor h
  Kept-dispatch_writer o i (some owner) dispatched t h =
      if_elim (λ (u : Turn K). Kept interest t.reactor u.reactor)
        (not (is_dispatched dispatched owner) && waits_on t owner writes)
        (λ yes. Kept-dispatch_owner interest epoll_ctl law patience o i owner t h)
        (λ no. Kept-none interest t.reactor h)

  Kept-dispatch_sequences :
      (o : Outcomes) (i : ℕ) (readable writable : Bool) (c : Controller) (t : Turn K)
      → WellFormed interest t.reactor
      → Kept interest t.reactor
          (dispatch_sequences epoll_ctl patience o i readable writable c t).reactor
  Kept-dispatch_sequences o i readable writable c t h =
      let first =
        if readable
        then dispatch_reader epoll_ctl patience o i (c.sequence_owner reads) t
        else (none, t) in
      let read : Kept interest t.reactor first.1.reactor =
        if_elim (λ (u : Option ℕ × Turn K). Kept interest t.reactor u.1.reactor) readable
          (λ yes. Kept-dispatch_reader o i (c.sequence_owner reads) t h)
          (λ no. Kept-none interest t.reactor h) in
      if_elim (λ (u : Turn K). Kept interest t.reactor u.reactor) writable
        (λ yes.
          let written =
            Kept-dispatch_writer o i (c.sequence_owner writes) first.0 first.1 read.well_formed in
          Kept-both interest t.reactor first.1.reactor
            (dispatch_writer epoll_ctl patience o i (c.sequence_owner writes)
              (first.0, first.1)).reactor
            read written)
        (λ no. read)

  -- What syncEvents leaves of an open controller.
  record Settled (i : ℕ) (r : Reactor K) : Type 0 where
    well_formed : WellFormed interest r
    wants : wanted r i ≡ settle (build_events (r.controllers i))

  Settled-store :
      (errno i : ℕ) (out : Bool × Reactor K)
      → Settled i out.1
      → Settled i (store_if_failed epoll_ctl patience errno out)
  Settled-store errno i (true, r) s = s
  Settled-store errno i (false, r) s = record {
    well_formed = (Kept-store interest errno r r (Kept-none interest r s.well_formed)).well_formed;
    wants = s.wants;
  }

  sync_events-Settled :
      (active : ℕ → EventType) (errno i fd : ℕ) (r : Reactor K)
      → WellFormed interest r
      → (r.controllers i).handle ≡ some fd
      → Settled i (sync_events epoll_ctl patience active errno i r)
  unfolding sync_events
  sync_events-Settled active errno i fd r h opened =
      let r' =
        if (r.controllers i).type sequence then sync_sequence_interest_mask active i r else r in
      let m : Kept interest r r' =
        if_elim (λ (x : Reactor K). Kept interest r x) ((r.controllers i).type sequence)
          (λ yes. Kept-mask interest active i r h) (λ no. Kept-none interest r h) in
      let events = build_events (r'.controllers i) in
      let a = apply_events-Applied interest epoll_ctl law patience i events r' m.well_formed in
      Settled-store errno i (apply_events epoll_ctl patience i events r') (record {
        well_formed = a.well_formed;
        wants = a.this fd (m.handles i ∙ opened) ∙ ap settle (sym (a.masks i));
      })

  -- When processEvent has handled an event of an open controller with some m_type, in a reactor that
  -- was well-formed, the reactor is well-formed and what it wants of the controller is what
  -- buildEvents says of it, whatever epoll_ctl answered meanwhile, as long as it follows its manual
  -- page: it changes the interest of one descriptor as asked, or refuses and changes nothing, with ENOENT only for
  -- a descriptor in which it has no interest.
  pub process_event-Settles :
      (o : Outcomes) (i fd : ℕ) (readable writable : Bool) (t : Turn K)
      → WellFormed interest t.reactor
      → (t.reactor.controllers i).handle ≡ some fd
      → is_invalid (t.reactor.controllers i).type ≡ false
      → let r = (process_event epoll_ctl patience o i readable writable t).reactor in
        WellFormed interest r × (wanted r i ≡ settle (build_events (r.controllers i)))
  unfolding process_event
  process_event-Settles o i fd readable writable t h opened valid =
      let c = t.reactor.controllers i in
      let t1 = if readable then on_readable epoll_ctl patience o i c t else t in
      let t2 = if writable then on_writable epoll_ctl patience o c t1 else t1 in
      let t3 =
        if c.type sequence
        then dispatch_sequences epoll_ctl patience o i readable writable c t2
        else t2 in
      let k1 : Kept interest t.reactor t1.reactor =
        if_elim (λ (u : Turn K). Kept interest t.reactor u.reactor) readable
          (λ yes. Kept-on_readable interest epoll_ctl law patience o i c t h)
          (λ no. Kept-none interest t.reactor h) in
      let k2 : Kept interest t1.reactor t2.reactor =
        if_elim (λ (u : Turn K). Kept interest t1.reactor u.reactor) writable
          (λ yes. Kept-on_writable interest epoll_ctl law patience o c t1 k1.well_formed)
          (λ no. Kept-none interest t1.reactor k1.well_formed) in
      let k3 : Kept interest t2.reactor t3.reactor =
        if_elim (λ (u : Turn K). Kept interest t2.reactor u.reactor) (c.type sequence)
          (λ yes. Kept-dispatch_sequences o i readable writable c t2 k2.well_formed)
          (λ no. Kept-none interest t2.reactor k2.well_formed) in
      let still = k3.handles i ∙ k2.handles i ∙ k1.handles i ∙ opened in
      if_elim
        (λ (u : Turn K).
          WellFormed interest u.reactor
          × (wanted u.reactor i ≡ settle (build_events (u.reactor.controllers i))))
        (is_invalid c.type) (λ yes. ground arith)
        (λ no.
          let s = sync_events-Settled t3.active o.errno i fd t3.reactor k3.well_formed still in
          (s.well_formed, s.wants))
