-- ===== src/EpollReactor/Wanted.antt =====
-- What the reactor was last asked for, through applyEvents and flushPendingChanges
-- (galay-kernel/kernel/epoll_reactor.cc).
use galay_kernel.Prelude.{
  ℕ, ◌≤◌, ◌≡◌, refl, ◌∙◌, inl, inr, Bool, true, Option, some, List, [], ◌∷◌, ◌==◌, count, arith,
  Bool-cases, same,
}
use galay_kernel.EpollReactor.{
  Events, PendingChange, Request, Answer, Reactor, Verdict, find_pending_change, submit,
  flush_changes, flush_pending_changes, continue_flush, build_events,
}
use galay_kernel.EpollReactor.Registered.{wanted_of, wanted, keys, find-keys, wish, Follows, Synced}
use galay_kernel.EpollReactor.Flush.{Submitted, settled, stuck, submit-Submitted}

module _ {K : Type 0} (interest : K → ℕ → Option Events) where
  -- No controller has two pending changes.
  pub record WellFormed (r : Reactor K) : Type 0 where
    pub synced : Synced interest r
    pub unique : (i : ℕ) → count i (keys r.pending_changes) ≤ 1

  -- A flush that starts with `changes` from `r`.
  pub record Flushed (changes : List PendingChange) (r : Reactor K) (out : Bool × Reactor K)
      : Type 0 where
    pub synced : Synced interest out.1
    pub handles : (i : ℕ) → (out.1.controllers i).handle ≡ (r.controllers i).handle
    pub masks : (i : ℕ) → build_events (out.1.controllers i) ≡ build_events (r.controllers i)
    pub wants :
        (i fd : ℕ)
        → (r.controllers i).handle ≡ some fd
        → wanted out.1 i
          ≡ wanted_of (find_pending_change i changes) (r.controllers i).registered_events
    pub fewer : (i : ℕ) → count i (keys out.1.pending_changes) ≤ count i (keys changes)
    pub empty : out.0 ≡ true → out.1.pending_changes ≡ []

  module _ (epoll_ctl : Request → ℕ → K → Answer × K)
      (law : (request : Request) (fd : ℕ) (k : K)
        → Follows interest (wish request) fd (interest k) (epoll_ctl request fd k)) where
    continue-Flushed :
        (patience : ℕ) (change : PendingChange) (rest : List PendingChange) (r : Reactor K)
        (v : Verdict × Reactor K)
        → ((i : ℕ) → count i (keys (change ∷ rest)) ≤ 1)
        → ((r' : Reactor K)
            → Synced interest r'
            → Flushed rest r' (flush_changes epoll_ctl patience rest r'))
        → Submitted interest change r v
        → Flushed
            (change ∷ rest)
            r
            (continue_flush epoll_ctl (flush_changes epoll_ctl patience rest) change rest v)
    continue-Flushed patience change rest r _ once flushes
          (settled r' h handles masks others this) =
        let f =
          flushes (record r' { pending_changes = rest })
            (record { distinct = h.distinct; agrees = h.agrees; never_bare = h.never_bare }) in
        record {
          synced = f.synced;
          handles = λ i. f.handles i ∙ handles i;
          masks = λ i. f.masks i ∙ masks i;
          wants = λ i fd opened.
              f.wants i fd (handles i ∙ opened) ∙ elim (Bool-cases (change.controller == i)) [
                | inl this_one ↦
                    let none_left : count i (keys rest) ≡ 0 =
                      (let limit = once i in ground arith) in
                    ground (arith, find-keys i rest none_left, this fd)
                | inr other_one ↦ ground (arith, others i)
              ];
          fewer = λ i. let less = f.fewer i in ground (arith, less);
          empty = f.empty;
        }
    continue-Flushed patience change rest r _ once flushes (stuck r' h same) = record {
      synced = record { distinct = h.distinct; agrees = h.agrees; never_bare = h.never_bare };
      handles = λ i. rw (same i);
      masks = λ i. rw (same i);
      wants = λ i fd opened. rw (same i);
      fewer = λ i. ground arith;
      empty = λ no. ground arith;
    }

    flush_changes-Flushed :
        (patience : ℕ) (changes : List PendingChange) (r : Reactor K)
        → ((i : ℕ) → count i (keys changes) ≤ 1)
        → Synced interest r
        → Flushed changes r (flush_changes epoll_ctl patience changes r)
    unfolding flush_changes
    flush_changes-Flushed patience [] r once h = record {
      synced = record { distinct = h.distinct; agrees = h.agrees; never_bare = h.never_bare };
      handles = λ i. refl;
      masks = λ i. refl;
      wants = λ i fd opened. refl;
      fewer = λ i. ground arith;
      empty = λ done. refl;
    }
    flush_changes-Flushed patience (change ∷ rest) r once h =
        continue-Flushed patience change rest r (submit epoll_ctl patience change r) once
          (λ r' h'.
            flush_changes-Flushed patience rest r' (λ i. let limit = once i in ground arith) h')
          (submit-Submitted interest epoll_ctl law patience change r h)

    -- A flush keeps a reactor well-formed and what it was asked for.
    pub flush_pending_changes-Flushed :
        (patience : ℕ) (r : Reactor K)
        → WellFormed r
        → Flushed r.pending_changes r (flush_pending_changes epoll_ctl patience r)
    unfolding flush_pending_changes
    flush_pending_changes-Flushed patience r h =
        flush_changes-Flushed patience r.pending_changes r h.unique h.synced

    -- When flushPendingChanges returns 0, the epoll instance holds for the descriptor of every open
    -- controller what the reactor was last asked for it, and no change is pending.
    pub flush-Registers :
        (patience : ℕ) (r : Reactor K) (i fd : ℕ)
        → WellFormed r
        → (r.controllers i).handle ≡ some fd
        → (flush_pending_changes epoll_ctl patience r).0 ≡ true
        → (interest (flush_pending_changes epoll_ctl patience r).1.kernel fd ≡ wanted r i)
          × ((flush_pending_changes epoll_ctl patience r).1.pending_changes ≡ [])
    flush-Registers patience r i fd h opened success =
        let f = flush_pending_changes-Flushed patience r h in
        let held = f.synced.agrees i fd (f.handles i ∙ opened) in
        let asked = f.wants i fd opened in let nothing = f.empty success in ground arith
