-- ===== src/EpollReactor/Kept.antt =====
-- The steps of processEvent keep the reactor well-formed and its descriptors open
-- (galay-kernel/kernel/epoll_reactor.cc).
use galay_kernel.Prelude.{
  ℕ, ◌≡◌, Bool, true, false, ◌||◌, Option, none, some, ◌==◌, if_elim, arith, refl, ◌∙◌, sym, subst,
}
use galay_kernel.Sequence.{
  reads, writes, EventType, accept, connect, recv, send, readv, writev, send_file, file_read,
  file_write, file_watch, recv_from, send_to,
}
use galay_kernel.EpollReactor.{
  Controller, Request, Answer, Reactor, Events, only_edges, apply_events, build_events, enoent,
  store_backend_error,
}
use galay_kernel.EpollReactor.Operations.{add_sequence, sync_sequence_interest_mask, as_code}
use galay_kernel.EpollReactor.Registered.{wish, Follows}
use galay_kernel.EpollReactor.Wanted.{WellFormed}
use galay_kernel.EpollReactor.Requests.{apply_events-Applied}
use galay_kernel.EpollReactor.Dispatch.{
  Outcomes, Turn, dispatch_owner, on_readable, on_writable, complete_awaitable_and_wake,
  wake_if_any, end_file_read, after_add, set_active, store_unless_absent,
}

module _ {K : Type 0} (interest : K → ℕ → Option Events) where
  -- The steps of an event keep the reactor well-formed and close nothing.
  pub record Kept (r r' : Reactor K) : Type 0 where
    pub well_formed : WellFormed interest r'
    pub handles : (j : ℕ) → (r'.controllers j).handle ≡ (r.controllers j).handle

  pub Kept-none : (r : Reactor K) → WellFormed interest r → Kept r r
  Kept-none r h = record { well_formed = h; handles = λ j. refl }

  pub Kept-both : (r r1 r2 : Reactor K) → Kept r r1 → Kept r1 r2 → Kept r r2
  Kept-both r r1 r2 a b = record {
    well_formed = b.well_formed;
    handles = λ j. b.handles j ∙ a.handles j;
  }

  pub Kept-store :
      (errno : ℕ) (r r' : Reactor K) → Kept r r' → Kept r (store_backend_error errno r')
  Kept-store errno r r' a =
      let s = a.well_formed.synced in
      record {
        well_formed = record {
          synced = record { distinct = s.distinct; agrees = s.agrees; never_bare = s.never_bare };
          unique = a.well_formed.unique;
        };
        handles = a.handles;
      }

  pub Kept-mask :
      (active : ℕ → EventType) (i : ℕ) (r : Reactor K)
      → WellFormed interest r
      → Kept r (sync_sequence_interest_mask active i r)
  Kept-mask active i r h =
      let s = h.synced in
      let r' = sync_sequence_interest_mask active i r in
      let handles : (j : ℕ) → (r'.controllers j).handle ≡ (r.controllers j).handle =
        λ j. ground arith in
      let registered : (j : ℕ)
          → (r'.controllers j).registered_events ≡ (r.controllers j).registered_events =
        λ j. ground arith in
      record {
        well_formed = record {
          synced = record {
            distinct =
                λ a b fd ha hb. s.distinct a b fd (sym (handles a) ∙ ha) (sym (handles b) ∙ hb);
            agrees = λ a fd ha. s.agrees a fd (sym (handles a) ∙ ha) ∙ sym (registered a);
            never_bare = λ a events ha. s.never_bare a events (sym (registered a) ∙ ha);
          };
          unique = h.unique;
        };
        handles = handles;
      }

  module _ (epoll_ctl : Request → ℕ → K → Answer × K)
      (law : (request : Request) (fd : ℕ) (k : K)
        → Follows interest (wish request) fd (interest k) (epoll_ctl request fd k))
      (patience : ℕ) where
    pub Kept-apply :
        (i : ℕ) (events : Events) (r : Reactor K)
        → WellFormed interest r
        → Kept r (apply_events epoll_ctl patience i events r).1
    Kept-apply i events r h =
        let a = apply_events-Applied interest epoll_ctl law patience i events r h in
        record { well_formed = a.well_formed; handles = a.handles }

    Kept-unless_absent :
        (errno : ℕ) (r : Reactor K) (out : Bool × Reactor K)
        → Kept r out.1
        → Kept r (store_unless_absent epoll_ctl patience errno out)
    Kept-unless_absent errno r (true, r') a = a
    Kept-unless_absent errno r (false, r') a =
        if_elim (λ (x : Reactor K). Kept r x) (errno == enoent) (λ yes. a)
          (λ no. Kept-store errno r r' a)

    kept_complete :
        (o : Outcomes) (a : Option ℕ) (t : Turn K)
        → (complete_awaitable_and_wake o a t).reactor ≡ t.reactor
    kept_complete o none t = refl
    kept_complete o (some a) t =
        if_elim (λ (u : Turn K). u.reactor ≡ t.reactor) (o.completes a) (λ yes. refl) (λ no. refl)

    Kept-same : (r r' : Reactor K) → WellFormed interest r → r' ≡ r → Kept r r'
    Kept-same r r' h e = subst (λ x. Kept r x) (sym e) (Kept-none r h)

    pub Kept-on_readable :
        (o : Outcomes) (i : ℕ) (c : Controller) (t : Turn K)
        → WellFormed interest t.reactor
        → Kept t.reactor (on_readable epoll_ctl patience o i c t).reactor
    Kept-on_readable o i c t h =
        if_elim (λ (u : Turn K). Kept t.reactor u.reactor)
          (c.type accept || c.type recv || c.type readv || c.type recv_from)
          (λ yes.
            Kept-same t.reactor (complete_awaitable_and_wake o (c.awaitable reads) t).reactor h
              (kept_complete o (c.awaitable reads) t))
          (λ no.
            if_elim (λ (u : Turn K). Kept t.reactor u.reactor) (c.type file_read)
              (λ yes. kept_end (c.awaitable reads))
              (λ no'.
                if_elim (λ (u : Turn K). Kept t.reactor u.reactor) (c.type file_watch)
                  (λ yes. kept_watch (c.awaitable reads)) (λ no''. Kept-none t.reactor h)))
      where
        kept_end :
            (a : Option ℕ) → Kept t.reactor (end_file_read epoll_ctl patience o i a t).reactor
        kept_end none = Kept-none t.reactor h
        kept_end (some a) =
            Kept-unless_absent o.errno t.reactor
              (apply_events epoll_ctl patience i only_edges t.reactor)
              (Kept-apply i only_edges t.reactor h)

        kept_watch : (a : Option ℕ) → Kept t.reactor (wake_if_any a t).reactor
        kept_watch none = Kept-none t.reactor h
        kept_watch (some a) = Kept-none t.reactor h

    pub Kept-on_writable :
        (o : Outcomes) (c : Controller) (t : Turn K)
        → WellFormed interest t.reactor
        → Kept t.reactor (on_writable epoll_ctl patience o c t).reactor
    Kept-on_writable o c t h =
        if_elim (λ (u : Turn K). Kept t.reactor u.reactor)
          (c.type connect
            || c.type send
            || c.type writev
            || c.type send_to
            || c.type file_write
            || c.type send_file)
          (λ yes.
            Kept-same t.reactor (complete_awaitable_and_wake o (c.awaitable writes) t).reactor h
              (kept_complete o (c.awaitable writes) t))
          (λ no. Kept-none t.reactor h)

    Kept-after_add :
        (errno owner : ℕ) (t : Turn K) (ok : Bool) (r r' : Reactor K)
        → Kept r r'
        → Kept r
            (after_add epoll_ctl patience errno owner t
              (as_code epoll_ctl patience (ok, r'))).reactor
    Kept-after_add errno owner t true r r' a = a
    Kept-after_add errno owner t false r r' a = Kept-store errno r r' a

    pub Kept-dispatch_owner :
        (o : Outcomes) (i owner : ℕ) (t : Turn K)
        → WellFormed interest t.reactor
        → Kept t.reactor (dispatch_owner epoll_ctl patience o i owner t).reactor
    unfolding dispatch_owner add_sequence
    Kept-dispatch_owner o i owner t h =
        let (completed, next) = o.on_active_event owner in
        let t' = set_active owner next t in
        let masked = sync_sequence_interest_mask t'.active i t.reactor in
        let m = Kept-mask t'.active i t.reactor h in
        let events = build_events (masked.controllers i) in
        let out = apply_events epoll_ctl patience i events masked in
        if_elim (λ (u : Turn K). Kept t.reactor u.reactor) completed (λ yes. m)
          (λ no.
            Kept-after_add o.errno owner t' out.0 t.reactor out.1
              (Kept-both t.reactor masked out.1 m (Kept-apply i events masked m.well_formed)))
