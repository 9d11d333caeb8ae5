-- ===== src/EpollReactor/Requests.antt =====
-- applyEvents (galay-kernel/kernel/epoll_reactor.cc) over runs of requests, flushes and closes.
use galay_kernel.Prelude.{
  ℕ, ◌≤◌, ◌≡◌, ◌≢◌, refl, sym, ◌∙◌, ap, subst, inl, inr, Bool, Option, none, some, List, [], ◌∷◌,
  ◌++◌, leb, if_elim, length, count, arith, Option-cases,
}
use galay_kernel.EpollReactor.{
  Events, PendingChange, Request, Answer, Reactor, same_events, is_registered, find_pending_change,
  apply_events, apply_events_to, apply_over, flush_if_full, discard_pending_change,
  replace_pending_change, batch_threshold, build_events,
}
use galay_kernel.EpollReactor.Registered.{
  settle, wanted_of, wanted, keys, wish, Follows, same_events→eq,
}
use galay_kernel.EpollReactor.Flush.{is_registered-settle}
use galay_kernel.EpollReactor.Wanted.{WellFormed, flush_pending_changes-Flushed}
use galay_kernel.EpollReactor.Changes.{
  find-discard_other, find-discard_this, count-discard, find-replace_other, find-replace_this,
  keys-replace, count_added-once, find-append_other, find-append_this,
}

module _ {K : Type 0} (interest : K → ℕ → Option Events) where
  -- What applyEvents leaves for a controller `i`.
  pub record Applied (i : ℕ) (events : Events) (r : Reactor K) (r' : Reactor K) : Type 0 where
    pub well_formed : WellFormed interest r'
    pub handles : (j : ℕ) → (r'.controllers j).handle ≡ (r.controllers j).handle
    pub masks : (j : ℕ) → build_events (r'.controllers j) ≡ build_events (r.controllers j)
    pub this : (fd : ℕ) → (r.controllers i).handle ≡ some fd → wanted r' i ≡ settle events
    pub others : (j fd : ℕ) → j ≢ i → (r.controllers j).handle ≡ some fd → wanted r' j ≡ wanted r j

  -- A change of the list of pending changes alone.
  relisted-Applied :
      (i : ℕ) (events : Events) (r : Reactor K) (changes : List PendingChange)
      → WellFormed interest r
      → ((j : ℕ) → count j (keys changes) ≤ 1)
      → wanted_of (find_pending_change i changes) (r.controllers i).registered_events
        ≡ settle events
      → ((j : ℕ) → j ≢ i → find_pending_change j changes ≡ find_pending_change j r.pending_changes)
      → Applied i events r (record r { pending_changes = changes })
  relisted-Applied i events r changes h once this others =
      let s = h.synced in
      record {
        well_formed = record {
          synced = record { distinct = s.distinct; agrees = s.agrees; never_bare = s.never_bare };
          unique = once;
        };
        handles = λ j. refl;
        masks = λ j. refl;
        this = λ fd opened. this;
        others = λ j fd apart opened.
            ap (λ o. wanted_of o (r.controllers j).registered_events) (others j apart);
      }

  module _ (epoll_ctl : Request → ℕ → K → Answer × K)
      (law : (request : Request) (fd : ℕ) (k : K)
        → Follows interest (wish request) fd (interest k) (epoll_ctl request fd k)) where
    flush_if_full-Applied :
        (patience i : ℕ) (events : Events) (r r' : Reactor K)
        → Applied i events r r'
        → Applied i events r (flush_if_full epoll_ctl patience r').1
    flush_if_full-Applied patience i events r r' a =
        if_elim (λ (out : Bool × Reactor K). Applied i events r out.1)
          (leb batch_threshold (length r'.pending_changes))
          (λ full.
            let f =
              flush_pending_changes-Flushed interest epoll_ctl law patience r' a.well_formed in
            record {
              well_formed = record {
                synced = f.synced;
                unique =
                    λ j. let less = f.fewer j in let once = a.well_formed.unique j in ground arith;
              };
              handles = λ j. f.handles j ∙ a.handles j;
              masks = λ j. f.masks j ∙ a.masks j;
              this = λ fd opened. f.wants i fd (a.handles i ∙ opened) ∙ a.this fd opened;
              others = λ j fd apart opened.
                  f.wants j fd (a.handles j ∙ opened) ∙ a.others j fd apart opened;
            })
          (λ room. a)

    apply_over-Applied :
        (patience i : ℕ) (events : Events) (r : Reactor K) (known : Option Events)
        → WellFormed interest r
        → find_pending_change i r.pending_changes ≡ known
        → Applied i events r (apply_over epoll_ctl patience i events r known).1
    apply_over-Applied patience i events r none h found =
        let registered = (r.controllers i).registered_events in
        let once = h.unique in
        if_elim (λ (out : Bool × Reactor K). Applied i events r out.1)
          (is_registered events registered)
          (λ same.
            relisted-Applied i events r r.pending_changes h once
              (ap (λ o. wanted_of o registered) found
                ∙ is_registered-settle events registered (h.synced.never_bare i) same)
              (λ j apart. refl))
          (λ new.
            let changes = r.pending_changes ++ record { controller = i; events = events } ∷ [] in
            flush_if_full-Applied patience i events r (record r { pending_changes = changes })
              (relisted-Applied i events r changes h
                (λ j. count_added-once i j events r.pending_changes (once j) found)
                (ap (λ o. wanted_of o registered)
                  (find-append_this i events r.pending_changes found))
                (λ j apart. find-append_other i j events r.pending_changes apart)))
    apply_over-Applied patience i events r (some pending) h found =
        let registered = (r.controllers i).registered_events in
        let once = h.unique in
        let changes = r.pending_changes in
        if_elim (λ (out : Bool × Reactor K). Applied i events r out.1)
          (is_registered events registered)
          (λ same.
            relisted-Applied i events r (discard_pending_change i changes) h
              (λ j. let less = count-discard i j changes in let limit = once j in ground arith)
              (ap (λ o. wanted_of o registered) (find-discard_this i changes (once i))
                ∙ is_registered-settle events registered (h.synced.never_bare i) same)
              (λ j apart. find-discard_other i j changes apart))
          (λ new.
            if_elim (λ (out : Bool × Reactor K). Applied i events r out.1)
              (same_events pending events)
              (λ asked.
                relisted-Applied i events r changes h once
                  (ap (λ o. wanted_of o registered) found
                    ∙ ap settle (same_events→eq pending events asked))
                  (λ j apart. refl))
              (λ changed.
                flush_if_full-Applied patience i events r
                  (record r { pending_changes = replace_pending_change i events changes })
                  (relisted-Applied i events r (replace_pending_change i events changes) h
                    (λ j. subst (λ l. count j l ≤ 1) (sym (keys-replace i events changes)) (once j))
                    (ap (λ o. wanted_of o registered)
                      (find-replace_this i events pending changes found))
                    (λ j apart. find-replace_other i j events changes apart))))

    pub apply_events-Applied :
        (patience i : ℕ) (events : Events) (r : Reactor K)
        → WellFormed interest r
        → Applied i events r (apply_events epoll_ctl patience i events r).1
    unfolding apply_events
    apply_events-Applied patience i events r h = elim (Option-cases (r.controllers i).handle) [
      | inl closed ↦
          subst (λ o. Applied i events r (apply_events_to epoll_ctl patience i events r o).1)
            (sym closed)
            (record {
              well_formed = h;
              handles = λ j. refl;
              masks = λ j. refl;
              this = λ fd opened. ground (arith, closed);
              others = λ j fd apart opened. refl;
            })
      | inr (fd, opened) ↦
          subst (λ o. Applied i events r (apply_events_to epoll_ctl patience i events r o).1)
            (sym opened)
            (apply_over-Applied patience i events r (find_pending_change i r.pending_changes) h
              refl)
    ]
