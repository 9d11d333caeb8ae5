-- ===== src/Channel/Fifo.antt =====
-- What the consumer of an unsafe_channel.h receives, and when it is woken.
use mathlib.Core.List.{append-nil, append_assoc}
use galay_kernel.Prelude.{
  ℕ, ◌+◌, ◌<◌, ◌≡◌, refl, sym, ap, subst, Bool, true, false, Option, List, [], ◌∷◌, ◌++◌, arith,
  length, length-append, if◌then◌else◌, if_elim, option_list, word64, ◌⊎◌, inl, inr, leb, ltb, ◌==◌,
}
use galay_kernel.Channel
use galay_kernel.Channel.{
  Channel, Kind, one, batch, batched, Wakeup, Result, value, timed_out, WakeMode, deferred,
  inline_resume, send, send_batch, try_recv, try_recv_batch, await_ready, await_suspend,
  await_resume,
}
use galay_kernel.Channel.Session.{
  Session, Consumer, running, waiting, awake, Event, sends, sends_batch, tries, tries_batch, awaits,
  resumes, times_out, given_batch, finish, begin, acts, run, start, sent, all_sent,
}
use galay_kernel.Channel.Consumers.{Idle, Fits, Good, notified-Good}
use galay_kernel.Channel.Receipts.{
  take_front-Taken, take_batch-Taken, Taken-Good, nothing-Taken, finish-Good,
}

module _ {ℓ} {A : Type ℓ} where
  begin-Good :
      {items : List A} (kind : Kind) (handle task : ℕ) (s : Session A)
      → s.received ++ s.channel.queue ≡ items
      → s.channel.size ≡ length s.channel.queue
      → Idle s.channel
      → length items < word64
      → Good items (begin kind handle task s)
  unfolding await_ready await_suspend Channel.register
  begin-Good {items} one handle task s order size idle fresh =
      if_elim (Good items) (ltb 0 s.channel.size)
        (λ _. finish-Good one false s order size (inl idle.limit) fresh)
        (λ few.
          if_elim
            (λ (r : Bool × Channel A). Good items (
              if r.0
              then record s { channel = r.1; consumer = waiting one }
              else finish one false (record s { channel = r.1 })))
            (ltb 0 s.channel.size) (λ more. absurd (cc))
            (λ _. record {
              order = order;
              size = size;
              fits = (record { on = refl; limit = idle.limit; handle = refl }, ground (arith, few));
            }))
  begin-Good {items} (batch max_count) handle task s order size idle fresh =
      if_elim (Good items) (ltb 0 s.channel.size)
        (λ _. finish-Good (batch max_count) false s order size (inl idle.limit) fresh)
        (λ few.
          if_elim
            (λ (r : Bool × Channel A). Good items (
              if r.0
              then record s { channel = r.1; consumer = waiting (batch max_count) }
              else finish (batch max_count) false (record s { channel = r.1 })))
            (ltb 0 s.channel.size) (λ more. absurd (cc))
            (λ _. record {
              order = order;
              size = size;
              fits = (record { on = refl; limit = idle.limit; handle = refl }, ground (arith, few));
            }))
  begin-Good {items} (batched limit) handle task s order size idle fresh =
      if_elim (Good items) (leb limit s.channel.size)
        (λ _. finish-Good (batched limit) false s order size (inl idle.limit) fresh)
        (λ few.
          if_elim
            (λ (r : Bool × Channel A). Good items (
              if r.0
              then record s { channel = r.1; consumer = waiting (batched limit) }
              else finish (batched limit) false (record s { channel = r.1 })))
            (leb limit s.channel.size) (λ more. absurd (cc))
            (λ _. record {
              order = order;
              size = size;
              fits = (record { on = refl; limit = refl; handle = refl }, ground (arith, few));
            }))

  tries-Good :
      {items : List A} (s : Session A)
      → s.received ++ s.channel.queue ≡ items
      → s.channel.size ≡ length s.channel.queue
      → Idle s.channel
      → length items < word64
      → Good items (acts tries running s)
  unfolding try_recv
  tries-Good {items} s order size idle fresh =
      let bound : s.channel.size < word64 =
        omega (arith, size, ap length order, length-append s.received s.channel.queue) in
      if_elim
        (λ (r : Option A × Channel A).
          Good items (record {
            channel = r.1;
            consumer = running;
            received = s.received ++ option_list r.0;
          }))
        (s.channel.size == 0)
        (λ _. Taken-Good s {ch = s.channel} [] s.channel order (nothing-Taken s.channel size) idle)
        (λ some_left.
          Taken-Good s {ch = s.channel} _ _ order
            (take_front-Taken s.channel s.channel.queue refl size bound (ground arith)) idle)

  tries_batch-Good :
      {items : List A} (max_count : ℕ) (s : Session A)
      → s.received ++ s.channel.queue ≡ items
      → s.channel.size ≡ length s.channel.queue
      → Idle s.channel
      → length items < word64
      → Good items (acts (tries_batch max_count) running s)
  unfolding try_recv_batch
  tries_batch-Good {items} max_count s order size idle fresh =
      let bound : s.channel.size < word64 =
        omega (arith, size, ap length order, length-append s.received s.channel.queue) in
      if_elim
        (λ (r : Option (List A) × Channel A).
          Good items (record {
            channel = r.1;
            consumer = running;
            received = s.received ++ given_batch r.0;
          }))
        (s.channel.size == 0)
        (λ _. Taken-Good s {ch = s.channel} [] s.channel order (nothing-Taken s.channel size) idle)
        (λ some_left.
          Taken-Good s {ch = s.channel} _ _ order (take_batch-Taken max_count s.channel size bound)
            idle)

  nothing_sent : {items : List A} {s : Session A} → Good items s → Good (items ++ []) s
  nothing_sent {items} {s} g = subst (λ xs. Good xs s) (sym (append-nil items)) g

  -- The channel that a consumer waits for, or has been woken by, ends its wait well.
  ended-Good :
      {items : List A} (kind : Kind) (failed : Bool) (s : Session A)
      → Good items s
      → (s.consumer ≡ waiting kind) ⊎ (s.consumer ≡ awake kind)
      → length items < word64
      → Good items (finish kind failed s)
  ended-Good kind failed s g (inl q) fresh =
      let w = subst (λ c. Fits c s.channel) q g.fits in
      finish-Good kind failed s g.order g.size (inr w.0.limit) fresh
  ended-Good kind failed s g (inr q) fresh =
      let w = subst (λ c. Fits c s.channel) q g.fits in
      finish-Good kind failed s g.order g.size (inl w.0.limit) fresh

  -- Each event keeps the session good.
  acts-Good :
      {items : List A} (e : Event A) (consumer : Consumer) (s : Session A)
      → consumer ≡ s.consumer
      → Good items s
      → length items + length (sent e) < word64
      → Good (items ++ sent e) (acts e consumer s)
  unfolding send send_batch
  acts-Good {items} (sends x immediately) consumer s q g fresh =
      subst (λ c. Good (items ++ x ∷ []) (acts (sends x immediately) c s)) (sym q)
        (notified-Good (x ∷ []) immediately s g fresh (omega arith))
  acts-Good {items} (sends_batch [] immediately) consumer s q g fresh =
      subst (λ c. Good (items ++ []) (record s { consumer = c })) (sym q) (nothing_sent g)
  acts-Good {items} (sends_batch (x ∷ xs) immediately) consumer s q g fresh =
      subst (λ c. Good (items ++ x ∷ xs) (acts (sends_batch (x ∷ xs) immediately) c s)) (sym q)
        (notified-Good (x ∷ xs) immediately s g fresh (omega arith))
  acts-Good {items} tries running s q g fresh =
      nothing_sent
        (tries-Good s g.order g.size (subst (λ c. Fits c s.channel) (sym q) g.fits) (omega arith))
  acts-Good {items} (tries_batch max_count) running s q g fresh = nothing_sent (
      tries_batch-Good max_count s g.order g.size (subst (λ c. Fits c s.channel) (sym q) g.fits)
        (omega arith))
  acts-Good {items} (awaits kind handle task) running s q g fresh = nothing_sent (
      begin-Good kind handle task s g.order g.size (subst (λ c. Fits c s.channel) (sym q) g.fits)
        (omega arith))
  acts-Good resumes (awake kind) s q g fresh =
      nothing_sent (ended-Good kind false s g (inr (sym q)) (omega arith))
  acts-Good times_out (waiting kind) s q g fresh =
      nothing_sent (ended-Good kind true s g (inl (sym q)) (omega arith))
  acts-Good times_out (awake kind) s q g fresh =
      nothing_sent (ended-Good kind true s g (inr (sym q)) (omega arith))
  acts-Good tries (waiting kind) s q g fresh = nothing_sent g
  acts-Good tries (awake kind) s q g fresh = nothing_sent g
  acts-Good (tries_batch max_count) (waiting kind) s q g fresh = nothing_sent g
  acts-Good (tries_batch max_count) (awake kind) s q g fresh = nothing_sent g
  acts-Good (awaits kind handle task) (waiting k) s q g fresh = nothing_sent g
  acts-Good (awaits kind handle task) (awake k) s q g fresh = nothing_sent g
  acts-Good resumes running s q g fresh = nothing_sent g
  acts-Good resumes (waiting kind) s q g fresh = nothing_sent g
  acts-Good times_out running s q g fresh = nothing_sent g

  run-Good_from :
      (es : List (Event A)) {items : List A} (s : Session A)
      → Good items s
      → length items + length (all_sent es) < word64
      → Good (items ++ all_sent es) (run es s)
  run-Good_from [] s g fresh = nothing_sent g
  run-Good_from (e ∷ es) {items} s g fresh =
      subst (λ xs. Good xs (run es (acts e s.consumer s)))
        (append_assoc items (sent e) (all_sent es))
        (run-Good_from es (acts e s.consumer s)
          (acts-Good e s.consumer s refl g (omega (arith, length-append (sent e) (all_sent es))))
          (omega (arith, length-append (sent e) (all_sent es), length-append items (sent e))))

  -- Whatever senders, consumer and timer do, and in whatever order, as long as fewer than 2^64 values
  -- are sent: what the consumer received and what is queued are the values sent, in order, and the
  -- counter is the queue's length. A consumer that waits is known to the channel, and fewer values
  -- are queued than it waits for; to one that was woken and not yet resumed there is a value to give.
  pub run-Good :
      (mode : WakeMode) (es : List (Event A))
      → length (all_sent es) < word64
      → Good (all_sent es) (run es (start mode))
  unfolding Channel.init
  run-Good mode es fresh =
      run-Good_from es (start mode)
        (record { order = refl; size = refl; fits = record { off = refl; limit = refl } })
        (omega (arith, fresh))
