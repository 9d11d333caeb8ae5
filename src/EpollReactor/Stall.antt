-- ===== src/EpollReactor/Stall.antt =====
-- When poll calls epoll_wait (galay-kernel/kernel/epoll_reactor.cc).
use galay_kernel.Prelude.{
  ℕ, zero, suc, ◌+◌, ◌≡◌, Bool, true, false, none, some, List, ◌∷◌, ◌==◌, if◌then◌else◌, arith,
  refl, sym, subst,
}
use galay_kernel.EpollReactor.{
  Request, add, Answer, accepted, refused, Reactor, only_edges, PendingChange, call, submit,
  flush_changes, flush_pending_changes, same_events, eintr, continue_flush, after_add, again_on,
}
use galay_kernel.EpollReactor.Dispatch.{Turn, Waited, poll, poll_after}

module _ {K : Type 0} (epoll_ctl : Request → ℕ → K → Answer × K) (patience : ℕ) where
  -- One call after the other, with the number of them in which epoll_wait is called.
  abbrev pub polls : (K → Waited × K) → ℕ → Turn K → ℕ × Turn K
  polls epoll_wait zero t = (0, t)
  polls epoll_wait (suc n) t =
      let (waited, t') = poll epoll_ctl patience epoll_wait t in
      let (count, last) = polls epoll_wait n t' in ((if waited then 1 else 0) + count, last)

  call-Refused :
      (p : ℕ) (request : Request) (fd errno : ℕ) (k : K)
      → ((k' : K) → (epoll_ctl request fd k').0 ≡ refused errno)
      → (errno == eintr) ≡ false
      → (call epoll_ctl p request fd k).0 ≡ refused errno
  unfolding call
  call-Refused zero request fd errno k always final = always k
  call-Refused (suc p) request fd errno k always final = stays (epoll_ctl request fd k) (always k)
    where
      stays :
          (out : Answer × K)
          → out.0 ≡ refused errno
          → (again_on eintr (λ k'. call epoll_ctl p request fd k') out).0 ≡ refused errno
      stays (accepted, k') e = ground arith
      stays (refused e', k') e = ground arith

  -- A change that is first in the list and that epoll_ctl always refuses.
  pub record Stuck (change : PendingChange) (rest : List PendingChange) (fd : ℕ) (r : Reactor K)
      : Type 0 where
    pub first : r.pending_changes ≡ change ∷ rest
    pub opened : (r.controllers change.controller).handle ≡ some fd
    pub unregistered : (r.controllers change.controller).registered_events ≡ none

  Stuck-after_add :
      (change : PendingChange) (rest : List PendingChange) (fd errno : ℕ) (r : Reactor K)
      (out : Answer × K)
      → Stuck change rest fd r
      → out.0 ≡ refused errno
      → let v =
          continue_flush epoll_ctl
            (flush_changes epoll_ctl patience rest)
            change
            rest
            (after_add epoll_ctl change.controller change.events r out) in
        (v.0 ≡ false) × Stuck change rest fd v.1
  Stuck-after_add change rest fd errno r (accepted, k) s e = ground arith
  Stuck-after_add change rest fd errno r (refused e', k) s e =
      (refl, record { first = refl; opened = s.opened; unregistered = s.unregistered })

  Stuck-flush :
      (change : PendingChange) (rest : List PendingChange) (fd errno : ℕ) (r : Reactor K)
      → ((k : K) → (epoll_ctl (add change.events) fd k).0 ≡ refused errno)
      → (errno == eintr) ≡ false
      → same_events change.events only_edges ≡ false
      → Stuck change rest fd r
      → let v = flush_pending_changes epoll_ctl patience r in
        (v.0 ≡ false) × Stuck change rest fd v.1
  unfolding flush_pending_changes flush_changes submit
  Stuck-flush change rest fd errno r always final full s =
      let i = change.controller in
      let out = call epoll_ctl patience (add change.events) fd r.kernel in
      let done =
        Stuck-after_add change rest fd errno r out s
          (call-Refused patience (add change.events) fd errno r.kernel always final) in
      let same : submit epoll_ctl patience change r
          ≡ after_add epoll_ctl change.controller change.events r out =
        ground (arith, s.opened, s.unregistered, full) in
      let flushed : (changes : List PendingChange) → Type 0 = λ changes.
        ((flush_changes epoll_ctl patience changes r).0 ≡ false)
        × Stuck change rest fd (flush_changes epoll_ctl patience changes r).1 in
      subst flushed (sym s.first) (
        subst
          (λ v.
            ((continue_flush epoll_ctl (flush_changes epoll_ctl patience rest) change rest v).0
              ≡ false)
            × Stuck change rest fd
                (continue_flush epoll_ctl (flush_changes epoll_ctl patience rest) change rest v).1)
          (sym same) done)

  stalled_poll :
      (epoll_wait : K → Waited × K) (change : PendingChange) (rest : List PendingChange) (fd : ℕ)
      (t : Turn K) (out : Bool × Reactor K)
      → out.0 ≡ false
      → Stuck change rest fd out.1
      → let v = poll_after epoll_ctl patience epoll_wait t out in
        (v.0 ≡ false) × Stuck change rest fd v.1.reactor
  stalled_poll epoll_wait change rest fd t (true, r) e s = ground arith
  stalled_poll epoll_wait change rest fd t (false, r) e s = (refl, s)

  -- If epoll_ctl always refuses to add the first pending change, with an error that is not EINTR,
  -- then no later call of poll calls epoll_wait, and the list of pending changes stays as it is:
  -- neither the changes behind the first one nor events of other descriptors are handled.
  pub polls-Stall :
      (epoll_wait : K → Waited × K) (change : PendingChange) (rest : List PendingChange)
      (fd errno n : ℕ) (t : Turn K)
      → ((k : K) → (epoll_ctl (add change.events) fd k).0 ≡ refused errno)
      → (errno == eintr) ≡ false
      → same_events change.events only_edges ≡ false
      → Stuck change rest fd t.reactor
      → ((polls epoll_wait n t).0 ≡ 0)
        × ((polls epoll_wait n t).1.reactor.pending_changes ≡ change ∷ rest)
  unfolding poll
  polls-Stall epoll_wait change rest fd errno zero t always final full s = (refl, s.first)
  polls-Stall epoll_wait change rest fd errno (suc n) t always final full s =
      let out = flush_pending_changes epoll_ctl patience t.reactor in
      let (failed, s') = Stuck-flush change rest fd errno t.reactor always final full s in
      let (dry, s'') = stalled_poll epoll_wait change rest fd t out failed s' in
      let (none_later, same) =
        polls-Stall epoll_wait change rest fd errno n
          (poll_after epoll_ctl patience epoll_wait t out).1 always final full s'' in
      (ground (arith, dry, none_later), same)
