-- ===== src/EpollReactor/Flush.antt =====
-- flushPendingChanges makes the epoll instance hold what was last asked for
-- (galay-kernel/kernel/epoll_reactor.cc).
use galay_kernel.Prelude.{
  ℕ, ◌≡◌, ◌≢◌, refl, sym, ◌∙◌, ap, subst, inl, inr, true, false, not, Option, none, some, is_some,
  ◌==◌, if◌then◌else◌, if_elim, arith, Bool-cases, Option-cases,
}
use galay_kernel.EpollReactor.{
  Events, only_edges, PendingChange, Request, delete, Answer, Reactor, Verdict, erases, fails,
  same_events, is_registered, call, enoent, add_or_modify, submit, submit_to, after_add,
  store_backend_error, after_delete, set_registered, build_events,
}
use galay_kernel.EpollReactor.Registered.{
  settle, wish, Follows, obeyed, declined, Synced, Follows-call, Follows-add_or_modify,
  same_events→eq,
}

pub is_registered-settle :
    (events : Events) (registered : Option Events)
    → ((e : Events) → registered ≡ some e → same_events e only_edges ≡ false)
    → is_registered events registered ≡ true
    → registered ≡ settle events
is_registered-settle events none full same = ground arith
is_registered-settle events (some e) full same =
    let same' = same_events→eq events e same in rw (same', full e refl)

not_registered-settle :
    (events : Events) (registered : Option Events)
    → same_events events only_edges ≡ true
    → not (is_some registered) ≡ true
    → registered ≡ settle events
not_registered-settle events none bare nothing = rw bare
not_registered-settle events (some e) bare nothing = ground arith

module _ {K : Type 0} (interest : K → ℕ → Option Events) where
  handle-set_registered :
      (r : Reactor K) (i j : ℕ) (k : K) (e : Option Events)
      → ((set_registered i e (record r { kernel = k })).controllers j).handle
        ≡ (r.controllers j).handle
  handle-set_registered r i j k e = ground arith

  registered-set_registered :
      (r : Reactor K) (i j : ℕ) (k : K) (e : Option Events)
      → ((set_registered i e (record r { kernel = k })).controllers j).registered_events
        ≡ (if i == j then e else (r.controllers j).registered_events)
  registered-set_registered r i j k e = ground arith

  set_registered-Synced :
      (r : Reactor K) (i fd : ℕ) (k : K) (e : Option Events)
      → Synced interest r
      → (r.controllers i).handle ≡ some fd
      → interest k fd ≡ e
      → ((other : ℕ) → other ≢ fd → interest k other ≡ interest r.kernel other)
      → ((events : Events) → e ≡ some events → same_events events only_edges ≡ false)
      → Synced interest (set_registered i e (record r { kernel = k }))
  set_registered-Synced r i fd k e h opened now rest bare = record {
    distinct = λ a b f ha hb. h.distinct a b f (ground arith) (ground arith);
    agrees = λ a f ha.
        let ha' = sym (handle-set_registered r i a k e) ∙ ha in
        elim (Bool-cases (i == a)) [
          | inl same ↦ ground (arith, now)
          | inr other ↦
              let apart : f ≢ fd =
                λ eq. let which = h.distinct i a fd opened (ha' ∙ ap some eq) in ground arith in
              ground (arith, rest f apart, h.agrees a f ha')
        ];
    never_bare = λ a events ha. elim (Bool-cases (i == a)) [
      | inl same ↦ bare events (ground arith)
      | inr other ↦ h.never_bare a events (ground arith)
    ];
  }

  -- What an iteration does with its change: the epoll instance holds what the change asks for, or
  -- nothing is changed.
  pub data Submitted (change : PendingChange) (r : Reactor K) : Verdict × Reactor K → Type 0 where
    settled :
        (r' : Reactor K)
        → Synced interest r'
        → ((j : ℕ) → (r'.controllers j).handle ≡ (r.controllers j).handle)
        → ((j : ℕ) → build_events (r'.controllers j) ≡ build_events (r.controllers j))
        → ((j : ℕ)
            → j ≢ change.controller
            → (r'.controllers j).registered_events ≡ (r.controllers j).registered_events)
        → ((fd : ℕ)
            → (r.controllers change.controller).handle ≡ some fd
            → (r'.controllers change.controller).registered_events ≡ settle change.events)
        → Submitted change r (erases, r')
    stuck :
        (r' : Reactor K)
        → Synced interest r'
        → ((j : ℕ) → r'.controllers j ≡ r.controllers j)
        → Submitted change r (fails, r')

  stuck-Submitted :
      (change : PendingChange) (r : Reactor K) (errno : ℕ) (k : K)
      → Synced interest r
      → ((fd : ℕ) → interest k fd ≡ interest r.kernel fd)
      → Submitted change r (fails, store_backend_error errno (record r { kernel = k }))
  stuck-Submitted change r errno k h rest =
      stuck (store_backend_error errno (record r { kernel = k }))
        (record {
          distinct = h.distinct;
          agrees = λ i fd hi. rest fd ∙ h.agrees i fd hi;
          never_bare = h.never_bare;
        })
        (λ j. refl)

  settled-Submitted :
      (change : PendingChange) (r : Reactor K) (fd : ℕ) (k : K) (e : Option Events)
      → Synced interest r
      → (r.controllers change.controller).handle ≡ some fd
      → interest k fd ≡ e
      → ((other : ℕ) → other ≢ fd → interest k other ≡ interest r.kernel other)
      → settle change.events ≡ e
      → Submitted change r (erases, set_registered change.controller e (record r { kernel = k }))
  settled-Submitted change r fd k e h opened now rest asked =
      let i = change.controller in
      let r' = set_registered i e (record r { kernel = k }) in
      let bare : (events : Events) → e ≡ some events → same_events events only_edges ≡ false =
        λ events he. ground arith in
      settled r' (set_registered-Synced r i fd k e h opened now rest bare)
        (λ j. handle-set_registered r i j k e) (λ j. ground arith)
        (λ j other. ground (arith, registered-set_registered r i j k e))
        (λ f hf. ground (arith, registered-set_registered r i i k e))

  same-Submitted :
      (change : PendingChange) (r : Reactor K)
      → Synced interest r
      → ((fd : ℕ)
          → (r.controllers change.controller).handle ≡ some fd
          → (r.controllers change.controller).registered_events ≡ settle change.events)
      → Submitted change r (erases, r)
  same-Submitted change r h already = settled r h (λ j. refl) (λ j. refl) (λ j other. refl) already

  module _ (epoll_ctl : Request → ℕ → K → Answer × K)
      (law : (request : Request) (fd : ℕ) (k : K)
        → Follows interest (wish request) fd (interest k) (epoll_ctl request fd k)) where
    add-Submitted :
        (change : PendingChange) (r : Reactor K) (fd : ℕ) (answer : Answer × K)
        → Synced interest r
        → (r.controllers change.controller).handle ≡ some fd
        → same_events change.events only_edges ≡ false
        → Follows interest (some change.events) fd (interest r.kernel) answer
        → Submitted change r (after_add epoll_ctl change.controller change.events r answer)
    add-Submitted change r fd _ h opened full (obeyed k now rest) =
        settled-Submitted change r fd k (some change.events) h opened now rest (rw full)
    add-Submitted change r fd _ h opened full (declined errno k rest absent) =
        stuck-Submitted change r errno k h rest

    delete-Submitted :
        (change : PendingChange) (r : Reactor K) (fd : ℕ) (answer : Answer × K)
        → Synced interest r
        → (r.controllers change.controller).handle ≡ some fd
        → same_events change.events only_edges ≡ true
        → Follows interest none fd (interest r.kernel) answer
        → Submitted change r (after_delete epoll_ctl change.controller r answer)
    delete-Submitted change r fd _ h opened bare (obeyed k now rest) =
        settled-Submitted change r fd k none h opened now rest (rw bare)
    delete-Submitted change r fd _ h opened bare (declined errno k rest absent) =
        if_elim (λ (v : Verdict × Reactor K). Submitted change r v) (errno == enoent)
          (λ yes.
            settled-Submitted change r fd k none h opened (rest fd ∙ absent (ground arith))
              (λ other apart. rest other) (rw bare))
          (λ no. stuck-Submitted change r errno k h rest)

    submit_opened :
        (patience : ℕ) (change : PendingChange) (r : Reactor K) (fd : ℕ)
        → Synced interest r
        → (r.controllers change.controller).handle ≡ some fd
        → Submitted change r (submit_to epoll_ctl patience change r (some fd))
    submit_opened patience change r fd h opened =
        let i = change.controller in
        let events = change.events in
        let registered = (r.controllers i).registered_events in
        if_elim (λ (v : Verdict × Reactor K). Submitted change r v)
          (is_registered events registered)
          (λ same.
            same-Submitted change r h
              (λ f hf. is_registered-settle events registered (h.never_bare i) same))
          (λ new.
            if_elim (λ (v : Verdict × Reactor K). Submitted change r v)
              (same_events events only_edges)
              (λ bare.
                if_elim (λ (v : Verdict × Reactor K). Submitted change r v)
                  (not (is_some registered))
                  (λ nothing.
                    same-Submitted change r h
                      (λ f hf. not_registered-settle events registered bare nothing))
                  (λ something.
                    delete-Submitted change r fd (call epoll_ctl patience delete fd r.kernel) h
                      opened bare
                      (Follows-call interest epoll_ctl law patience delete fd r.kernel)))
              (λ full.
                add-Submitted change r fd
                  (add_or_modify epoll_ctl patience registered events fd r.kernel) h opened full
                  (Follows-add_or_modify interest epoll_ctl law patience registered events fd
                    r.kernel)))

    pub submit-Submitted :
        (patience : ℕ) (change : PendingChange) (r : Reactor K)
        → Synced interest r
        → Submitted change r (submit epoll_ctl patience change r)
    unfolding submit
    submit-Submitted patience change r h =
        elim (Option-cases (r.controllers change.controller).handle) [
          | inl closed ↦
              subst (λ o. Submitted change r (submit_to epoll_ctl patience change r o)) (sym closed)
                (same-Submitted change r h (λ fd opened. ground (arith, closed)))
          | inr (fd, opened) ↦
              subst (λ o. Submitted change r (submit_to epoll_ctl patience change r o)) (sym opened)
                (submit_opened patience change r fd h opened)
        ]
