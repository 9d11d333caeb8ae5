-- ===== src/EpollReactor/Runs.antt =====
-- Runs of requests, flushes and closes of the reactor, and a table of the last requests
-- (galay-kernel/kernel/epoll_reactor.cc).
use galay_kernel.Prelude.{
  ℕ, ◌≡◌, ◌≢◌, refl, sym, ◌∙◌, ap, subst, inl, inr, true, false, Option, none, some, List, [], ◌∷◌,
  ◌==◌, update, arith, Bool-cases, Option-cases,
}
use galay_kernel.EpollReactor.{
  Events, Request, Answer, Reactor, flush_pending_changes, apply_events,
}
use galay_kernel.EpollReactor.Operations.{add_close, add_close_of}
use galay_kernel.EpollReactor.Registered.{settle, wanted, wish, Follows}
use galay_kernel.EpollReactor.Wanted.{WellFormed, flush_pending_changes-Flushed, flush-Registers}
use galay_kernel.EpollReactor.Changes.{count-discard, find-discard_other}
use galay_kernel.EpollReactor.Requests.{apply_events-Applied}

-- Calls of applyEvents, flushPendingChanges and addClose.
pub data Call : Type 0 where
  requests : (i : ℕ) (events : Events) → Call
  flushes : Call
  closes : (i : ℕ) → Call

-- The table that a reactor without a list of changes would keep.
abbrev pub intend : Call → (ℕ → Option Events) → ℕ → Option Events
intend (requests i events) table = update table i (settle events)
intend flushes table = table
intend (closes i) table = update table i none

abbrev pub intend_all : List Call → (ℕ → Option Events) → ℕ → Option Events
intend_all [] table = table
intend_all (c ∷ calls) table = intend_all calls (intend c table)

module _ {K : Type 0} (epoll_ctl : Request → ℕ → K → Answer × K) (close : ℕ → K → K)
    (patience : ℕ) where
  abbrev pub perform : Call → Reactor K → Reactor K
  perform (requests i events) r = (apply_events epoll_ctl patience i events r).1
  perform flushes r = (flush_pending_changes epoll_ctl patience r).1
  perform (closes i) r = add_close close i r

  abbrev pub run : List Call → Reactor K → Reactor K
  run [] r = r
  run (c ∷ calls) r = run calls (perform c r)

-- close(2) takes the descriptor off the epoll instance, and no other.
pub record CloseLaw {K : Type 0} (interest : K → ℕ → Option Events) (close : ℕ → K → K)
    : Type 0 where
  pub gone : (fd : ℕ) (k : K) → interest (close fd k) fd ≡ none
  pub rest : (fd other : ℕ) (k : K) → other ≢ fd → interest (close fd k) other ≡ interest k other

-- What a call keeps: a controller that is open afterwards was open, with the same descriptor.
pub record Performed {K : Type 0} (interest : K → ℕ → Option Events) (c : Call) (r r' : Reactor K)
    : Type 0 where
  pub well_formed : WellFormed interest r'
  pub handles :
      (j fd : ℕ) → (r'.controllers j).handle ≡ some fd → (r.controllers j).handle ≡ some fd
  pub wants :
      (j fd : ℕ) (table : ℕ → Option Events)
      → (r'.controllers j).handle ≡ some fd
      → wanted r j ≡ table j
      → wanted r' j ≡ intend c table j

module _ {K : Type 0} (interest : K → ℕ → Option Events) where
  closed-Performed :
      (close : ℕ → K → K) (law : CloseLaw interest close) (i fd : ℕ) (r : Reactor K)
      → WellFormed interest r
      → (r.controllers i).handle ≡ some fd
      → Performed interest (closes i) r (add_close_of close i r (some fd))
  closed-Performed close law i fd r h opened =
      let s = h.synced in
      let r' = add_close_of close i r (some fd) in
      let still_open : (j f : ℕ) → (r'.controllers j).handle ≡ some f → (i == j) ≡ false =
        λ j f hj. elim (Bool-cases (i == j)) [ inl e ↦ ground arith | inr e ↦ e ] in
      let before : (j f : ℕ)
          → (r'.controllers j).handle ≡ some f
          → (r.controllers j).handle ≡ some f =
        λ j f hj. ground (arith, still_open j f hj) in
      record {
        well_formed = record {
          synced = record {
            distinct = λ a b f ha hb. s.distinct a b f (before a f ha) (before b f hb);
            agrees = λ a f ha.
                let apart : f ≢ fd = λ e.
                  let which = s.distinct i a fd opened (before a f ha ∙ ap some e) in
                  let other = still_open a f ha in ground arith in
                law.rest fd f r.kernel apart
                ∙ s.agrees a f (before a f ha)
                ∙ ground (arith, still_open a f ha);
            never_bare = λ a events ha. elim (Bool-cases (i == a)) [
              | inl e ↦ ground arith
              | inr e ↦ s.never_bare a events (ground arith)
            ];
          };
          unique = λ j.
              let less = count-discard i j r.pending_changes in
              let once = h.unique j in ground arith;
        };
        handles = before;
        wants = λ j f table hj asked.
            let other = still_open j f hj in
            let found = find-discard_other i j r.pending_changes (λ e. ground arith) in
            ground arith;
      }

  module _ (epoll_ctl : Request → ℕ → K → Answer × K)
      (law : (request : Request) (fd : ℕ) (k : K)
        → Follows interest (wish request) fd (interest k) (epoll_ctl request fd k))
      (close : ℕ → K → K) (close_law : CloseLaw interest close) (patience : ℕ) where
    perform-Performed :
        (c : Call) (r : Reactor K)
        → WellFormed interest r
        → Performed interest c r (perform epoll_ctl close patience c r)
    unfolding add_close
    perform-Performed (requests i events) r h =
        let a = apply_events-Applied interest epoll_ctl law patience i events r h in
        record {
          well_formed = a.well_formed;
          handles = λ j fd hj. sym (a.handles j) ∙ hj;
          wants = λ j fd table hj asked.
              let before = sym (a.handles j) ∙ hj in
              elim (Bool-cases (i == j)) [
                | inl e ↦
                    let same : j ≡ i = ground arith in
                    let this =
                      a.this fd (subst (λ x. (r.controllers x).handle ≡ some fd) same before) in
                    let here : wanted (perform epoll_ctl close patience (requests i events) r) j
                        ≡ settle events =
                      subst
                        (λ x.
                          wanted (perform epoll_ctl close patience (requests i events) r) x
                          ≡ settle events)
                        (sym same) this in
                    here ∙ rw e
                | inr e ↦
                    let other = a.others j fd (λ same. ground arith) before in other ∙ asked ∙ rw e
              ];
        }
    perform-Performed flushes r h =
        let f = flush_pending_changes-Flushed interest epoll_ctl law patience r h in
        record {
          well_formed = record {
            synced = f.synced;
            unique = λ j. let less = f.fewer j in let once = h.unique j in ground arith;
          };
          handles = λ j fd hj. sym (f.handles j) ∙ hj;
          wants = λ j fd table hj asked. f.wants j fd (sym (f.handles j) ∙ hj) ∙ asked;
        }
    perform-Performed (closes i) r h = elim (Option-cases (r.controllers i).handle) [
      | inl closed ↦
          subst (λ o. Performed interest (closes i) r (add_close_of close i r o)) (sym closed)
            (record {
              well_formed = h;
              handles = λ j fd hj. hj;
              wants = λ j fd table hj asked. elim (Bool-cases (i == j)) [
                | inl e ↦ ground arith
                | inr e ↦ ground arith
              ];
            })
      | inr (fd, opened) ↦
          subst (λ o. Performed interest (closes i) r (add_close_of close i r o)) (sym opened)
            (closed-Performed close close_law i fd r h opened)
    ]

    -- Calls of applyEvents, flushPendingChanges and addClose keep a reactor well-formed: no
    -- controller has two pending changes, and m_registered_events of an open one says what the
    -- epoll instance holds.
    pub run-WellFormed :
        (calls : List Call) (r : Reactor K)
        → WellFormed interest r
        → WellFormed interest (run epoll_ctl close patience calls r)
    run-WellFormed [] r h = h
    run-WellFormed (c ∷ calls) r h =
        run-WellFormed calls (perform epoll_ctl close patience c r)
          (perform-Performed c r h).well_formed

    run-handles :
        (calls : List Call) (r : Reactor K) (j fd : ℕ)
        → WellFormed interest r
        → ((run epoll_ctl close patience calls r).controllers j).handle ≡ some fd
        → (r.controllers j).handle ≡ some fd
    run-handles [] r j fd h opened = opened
    run-handles (c ∷ calls) r j fd h opened =
        let p = perform-Performed c r h in
        p.handles j fd
          (run-handles calls (perform epoll_ctl close patience c r) j fd p.well_formed opened)

    run-wanted :
        (calls : List Call) (r : Reactor K) (table : ℕ → Option Events) (j fd : ℕ)
        → WellFormed interest r
        → ((run epoll_ctl close patience calls r).controllers j).handle ≡ some fd
        → wanted r j ≡ table j
        → wanted (run epoll_ctl close patience calls r) j ≡ intend_all calls table j
    run-wanted [] r table j fd h opened asked = asked
    run-wanted (c ∷ calls) r table j fd h opened asked =
        let p = perform-Performed c r h in
        let r' = perform epoll_ctl close patience c r in
        run-wanted calls r' (intend c table) j fd p.well_formed opened
          (p.wants j fd table (run-handles calls r' j fd p.well_formed opened) asked)

    -- After any calls of applyEvents, flushPendingChanges and addClose, whatever they return, a
    -- flush that returns 0 leaves the epoll instance with exactly what a table of the last requests
    -- says of every open controller's descriptor, and with no pending change. epoll_ctl and close
    -- do what their manual pages say; the reactor is well-formed at first.
    pub run-Refines :
        (calls : List Call) (r : Reactor K) (i fd : ℕ)
        → WellFormed interest r
        → ((run epoll_ctl close patience calls r).controllers i).handle ≡ some fd
        → (flush_pending_changes epoll_ctl patience (run epoll_ctl close patience calls r)).0 ≡ true
        → let out =
            (flush_pending_changes epoll_ctl patience (run epoll_ctl close patience calls r)).1 in
          (interest out.kernel fd ≡ intend_all calls (wanted r) i) × (out.pending_changes ≡ [])
    run-Refines calls r i fd h opened success =
        let r' = run epoll_ctl close patience calls r in
        let (held, nothing) =
          flush-Registers interest epoll_ctl law patience r' i fd (run-WellFormed calls r h) opened
            success in
        (held ∙ run-wanted calls r (wanted r) i fd h opened refl, nothing)
