-- ===== src/EpollReactor/Bounds.antt =====
-- The length of the list of pending changes (galay-kernel/kernel/epoll_reactor.cc).
use galay_kernel.Prelude.{
  ℕ, suc, ◌≤◌, ◌<◌, ◌≡◌, Bool, true, Option, none, some, List, [], ◌∷◌, ◌++◌, ◌==◌, if_elim, arith,
  refl, length, leb, ap,
}
use galay_kernel.EpollReactor.{
  Request, Answer, Reactor, Events, PendingChange, Verdict, erases, fails, submit, flush_changes,
  flush_pending_changes, apply_events, apply_events_to, apply_over, flush_if_full, continue_flush,
  batch_threshold, discard_pending_change, replace_pending_change, find_pending_change,
  is_registered, same_events,
}

length-discard :
    (i : ℕ) (changes : List PendingChange)
    → length (discard_pending_change i changes) ≤ length changes
length-discard i [] = omega arith
length-discard i (c ∷ changes) =
    if_elim (λ (l : List PendingChange). length l ≤ suc (length changes)) (c.controller == i)
      (λ yes. omega arith) (λ no. omega (arith, length-discard i changes))

module _ {K : Type 0} (epoll_ctl : Request → ℕ → K → Answer × K) (patience : ℕ) where
  emptied_later :
      (change : PendingChange) (rest : List PendingChange) (v : Verdict × Reactor K)
      → ((r : Reactor K)
          → (flush_changes epoll_ctl patience rest r).0 ≡ true
          → (flush_changes epoll_ctl patience rest r).1.pending_changes ≡ [])
      → (continue_flush epoll_ctl (flush_changes epoll_ctl patience rest) change rest v).0 ≡ true
      → (continue_flush epoll_ctl
          (flush_changes epoll_ctl patience rest)
          change
          rest
          v).1.pending_changes
        ≡ []
  emptied_later change rest (erases, r') later e = later (record r' { pending_changes = rest }) e
  emptied_later change rest (fails, r') later e = ground arith

  emptied :
      (changes : List PendingChange) (r : Reactor K)
      → (flush_changes epoll_ctl patience changes r).0 ≡ true
      → (flush_changes epoll_ctl patience changes r).1.pending_changes ≡ []
  unfolding flush_changes
  emptied [] r e = refl
  emptied (change ∷ rest) r e =
      emptied_later change rest (submit epoll_ctl patience change r) (λ r'. emptied rest r') e

  -- The list is shorter than BATCH_THRESHOLD unless the result is -1.
  abbrev Short : Bool × Reactor K → Type 0
  Short out = out.0 ≡ true → length out.1.pending_changes < batch_threshold

  flush_if_full-Short : (r : Reactor K) → Short (flush_if_full epoll_ctl patience r)
  unfolding flush_pending_changes
  flush_if_full-Short r =
      if_elim (λ (out : Bool × Reactor K). Short out)
        (leb batch_threshold (length r.pending_changes))
        (λ full success.
          let nothing = emptied r.pending_changes r success in ground (arith, ap length nothing))
        (λ room success. ground arith)

  apply_over-Short :
      (i : ℕ) (events : Events) (r : Reactor K) (known : Option Events)
      → length r.pending_changes < batch_threshold
      → Short (apply_over epoll_ctl patience i events r known)
  apply_over-Short i events r none short =
      if_elim (λ (out : Bool × Reactor K). Short out)
        (is_registered events (r.controllers i).registered_events) (λ yes success. short)
        (λ no. flush_if_full-Short (record r {
          pending_changes = r.pending_changes ++ record { controller = i; events = events } ∷ [];
        }))
  apply_over-Short i events r (some pending) short =
      if_elim (λ (out : Bool × Reactor K). Short out)
        (is_registered events (r.controllers i).registered_events)
        (λ yes success. let less = length-discard i r.pending_changes in omega arith)
        (λ no.
          if_elim (λ (out : Bool × Reactor K). Short out) (same_events pending events)
            (λ yes success. short)
            (λ changed.
              flush_if_full-Short
                (record r { pending_changes = replace_pending_change i events r.pending_changes })))

  -- A call of applyEvents that returns 0 leaves fewer than BATCH_THRESHOLD pending changes, if there
  -- were fewer before it.
  pub apply_events-Short :
      (i : ℕ) (events : Events) (r : Reactor K)
      → length r.pending_changes < batch_threshold
      → (apply_events epoll_ctl patience i events r).0 ≡ true
      → length (apply_events epoll_ctl patience i events r).1.pending_changes < batch_threshold
  unfolding apply_events
  apply_events-Short i events r short = by_handle (r.controllers i).handle
    where
      by_handle : (handle : Option ℕ) → Short (apply_events_to epoll_ctl patience i events r handle)
      by_handle none = λ success. ground arith
      by_handle (some fd) =
          apply_over-Short i events r (find_pending_change i r.pending_changes) short
