-- ===== src/EpollReactor/Once.antt =====
-- processEvent asks a sequence that owns both slots of a controller once
-- (galay-kernel/kernel/epoll_reactor.cc).
use galay_kernel.Prelude.{
  ℕ, ◌+◌, ◌≤◌, ◌≡◌, Bool, true, false, not, ◌&&◌, ◌||◌, Option, none, some, ◌∷◌, ◌==◌,
  if◌then◌else◌, if_elim, count, arith, Bool-cases, refl, inl, inr, ◌∙◌, subst,
}
use galay_kernel.Sequence.{
  reads, writes, accept, connect, recv, send, readv, writev, send_file, file_read, file_write,
  file_watch, recv_from, send_to, sequence,
}
use galay_kernel.EpollReactor.{Controller, Request, Answer, Reactor}
use galay_kernel.EpollReactor.Operations.{Code, immediate, waiting, failure, add_sequence}
use galay_kernel.EpollReactor.Dispatch.{
  Outcomes, Turn, process_event, dispatch_owner, dispatch_reader, dispatch_writer,
  dispatch_sequences, on_readable, on_writable, complete_awaitable_and_wake, wake_if_any,
  end_file_read, after_add, set_active, is_invalid, is_dispatched, waits_on,
}

module _ {K : Type 0} (epoll_ctl : Request → ℕ → K → Answer × K) (patience : ℕ) where
  asked_complete :
      (o : Outcomes) (a : Option ℕ) (t : Turn K)
      → (complete_awaitable_and_wake o a t).asked ≡ t.asked
  asked_complete o none t = refl
  asked_complete o (some a) t =
      if_elim (λ (u : Turn K). u.asked ≡ t.asked) (o.completes a) (λ yes. refl) (λ no. refl)

  asked-on_readable :
      (o : Outcomes) (i : ℕ) (c : Controller) (t : Turn K)
      → (on_readable epoll_ctl patience o i c t).asked ≡ t.asked
  asked-on_readable o i c t =
      if_elim (λ (u : Turn K). u.asked ≡ t.asked)
        (c.type accept || c.type recv || c.type readv || c.type recv_from)
        (λ yes. asked_complete o (c.awaitable reads) t)
        (λ no.
          if_elim (λ (u : Turn K). u.asked ≡ t.asked) (c.type file_read)
            (λ yes. asked-end (c.awaitable reads))
            (λ no'.
              if_elim (λ (u : Turn K). u.asked ≡ t.asked) (c.type file_watch)
                (λ yes. asked-watch (c.awaitable reads)) (λ no''. refl)))
    where
      asked-end : (a : Option ℕ) → (end_file_read epoll_ctl patience o i a t).asked ≡ t.asked
      asked-end none = refl
      asked-end (some a) = refl

      asked-watch : (a : Option ℕ) → (wake_if_any a t).asked ≡ t.asked
      asked-watch none = refl
      asked-watch (some a) = refl

  asked-on_writable :
      (o : Outcomes) (c : Controller) (t : Turn K)
      → (on_writable epoll_ctl patience o c t).asked ≡ t.asked
  asked-on_writable o c t =
      if_elim (λ (u : Turn K). u.asked ≡ t.asked)
        (c.type connect
          || c.type send
          || c.type writev
          || c.type send_to
          || c.type file_write
          || c.type send_file)
        (λ yes. asked_complete o (c.awaitable writes) t) (λ no. refl)

  asked-after_add :
      (errno owner : ℕ) (t : Turn K) (out : Code × Reactor K)
      → (after_add epoll_ctl patience errno owner t out).asked ≡ t.asked
  asked-after_add errno owner t (immediate, r) = refl
  asked-after_add errno owner t (waiting, r) = refl
  asked-after_add errno owner t (failure, r) = refl

  asked-dispatch_owner :
      (o : Outcomes) (i owner : ℕ) (t : Turn K)
      → (dispatch_owner epoll_ctl patience o i owner t).asked ≡ owner ∷ t.asked
  unfolding dispatch_owner
  asked-dispatch_owner o i owner t =
      let (completed, next) = o.on_active_event owner in
      let t' = set_active owner next t in
      if_elim (λ (u : Turn K). u.asked ≡ owner ∷ t.asked) completed (λ yes. refl)
        (λ no.
          asked-after_add o.errno owner t' (add_sequence epoll_ctl patience t'.active i t'.reactor))

  -- The writer is asked only if it was not asked as the reader.
  asked-dispatch_writer :
      (o : Outcomes) (i seq : ℕ) (writer dispatched : Option ℕ) (t t0 : Turn K)
      → count seq t.asked ≤ count seq t0.asked + (if is_dispatched dispatched seq then 1 else 0)
      → count seq (dispatch_writer epoll_ctl patience o i writer (dispatched, t)).asked
        ≤ count seq t0.asked + 1
  asked-dispatch_writer o i seq none dispatched t t0 before = ground arith
  asked-dispatch_writer o i seq (some owner) dispatched t t0 before =
      if_elim (λ (u : Turn K). count seq u.asked ≤ count seq t0.asked + 1)
        (not (is_dispatched dispatched owner) && waits_on t owner writes)
        (λ yes. elim (Bool-cases (owner == seq)) [
          | inl e ↦ ground (arith, asked-dispatch_owner o i owner t)
          | inr e ↦ ground (arith, asked-dispatch_owner o i owner t)
        ])
        (λ no. ground arith)

  asked-dispatch_sequences :
      (o : Outcomes) (i seq : ℕ) (readable writable : Bool) (c : Controller) (t : Turn K)
      → count seq (dispatch_sequences epoll_ctl patience o i readable writable c t).asked
        ≤ count seq t.asked + 1
  asked-dispatch_sequences o i seq readable writable c t =
      let first =
        if readable
        then dispatch_reader epoll_ctl patience o i (c.sequence_owner reads) t
        else (none, t) in
      let read : count seq first.1.asked
          ≤ count seq t.asked + (if is_dispatched first.0 seq then 1 else 0) =
        if_elim
          (λ (u : Option ℕ × Turn K).
            count seq u.1.asked ≤ count seq t.asked + (if is_dispatched u.0 seq then 1 else 0))
          readable (λ yes. asked-dispatch_reader (c.sequence_owner reads)) (λ no. ground arith) in
      if_elim (λ (u : Turn K). count seq u.asked ≤ count seq t.asked + 1) writable
        (λ yes. asked-dispatch_writer o i seq (c.sequence_owner writes) first.0 first.1 t read)
        (λ no.
          at_most (count seq first.1.asked) (count seq t.asked) (is_dispatched first.0 seq) read)
    where
      asked-dispatch_reader :
          (owner : Option ℕ)
          → let u = dispatch_reader epoll_ctl patience o i owner t in
            count seq u.1.asked ≤ count seq t.asked + (if is_dispatched u.0 seq then 1 else 0)
      asked-dispatch_reader none = ground arith
      asked-dispatch_reader (some owner) =
          if_elim
            (λ (u : Option ℕ × Turn K).
              count seq u.1.asked ≤ count seq t.asked + (if is_dispatched u.0 seq then 1 else 0))
            (waits_on t owner reads) (λ yes. ground (arith, asked-dispatch_owner o i owner t))
            (λ no. ground arith)

      at_most : (a b : ℕ) (d : Bool) → a ≤ b + (if d then 1 else 0) → a ≤ b + 1
      at_most a b true h = h
      at_most a b false h = ground arith

  -- processEvent calls onActiveEvent of a sequence at most once, also when the sequence owns both
  -- slots and the event is readable and writable.
  pub process_event-Once :
      (o : Outcomes) (i seq : ℕ) (readable writable : Bool) (t : Turn K)
      → count seq (process_event epoll_ctl patience o i readable writable t).asked
        ≤ count seq t.asked + 1
  unfolding process_event
  process_event-Once o i seq readable writable t =
      let c = t.reactor.controllers i in
      let t1 = if readable then on_readable epoll_ctl patience o i c t else t in
      let t2 = if writable then on_writable epoll_ctl patience o c t1 else t1 in
      let read : t1.asked ≡ t.asked =
        if_elim (λ (u : Turn K). u.asked ≡ t.asked) readable (λ yes. asked-on_readable o i c t)
          (λ no. refl) in
      let written : t2.asked ≡ t.asked =
        if_elim (λ (u : Turn K). u.asked ≡ t.asked) writable
          (λ yes. asked-on_writable o c t1 ∙ read) (λ no. read) in
      if_elim (λ (u : Turn K). count seq u.asked ≤ count seq t.asked + 1) (is_invalid c.type)
        (λ yes. ground arith)
        (λ no.
          if_elim (λ (u : Turn K). count seq u.asked ≤ count seq t.asked + 1) (c.type sequence)
            (λ yes.
              subst
                (λ l.
                  count seq (dispatch_sequences epoll_ctl patience o i readable writable c t2).asked
                  ≤ count seq l + 1)
                written (asked-dispatch_sequences o i seq readable writable c t2))
            (λ no'. ground (arith, written)))
