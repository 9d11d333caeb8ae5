-- ===== src/Channel/Receipts.antt =====
-- What a receive takes off the queue of an unsafe_channel.h and what it gives.
use mathlib.Core.List.{append_assoc}
use galay_kernel.Prelude.{
  ℕ, ◌<◌, ◌≡◌, refl, ap, ◌∙◌, subst, Bool, Option, none, some, List, [], ◌∷◌, ◌++◌, arith, length,
  length-append, min, take-append-drop, length-drop, if_elim, option_list, word64, ◌⊎◌, ◌==◌,
}
use galay_kernel.Channel
use galay_kernel.Channel.{
  Channel, Kind, one, batch, batched, Wakeup, Result, value, timed_out, WakeMode, deferred,
  inline_resume, send, send_batch, try_recv, try_recv_batch, await_ready, await_suspend,
  await_resume,
}
use galay_kernel.Channel.Session.{Session, running, given, finish}
use galay_kernel.Channel.Consumers.{threshold, Idle, Good}
use galay_kernel.Channel.Consumers.{Idle, Good}

module _ {ℓ} {A : Type ℓ} where
  -- What a call that takes values off the queue leaves.
  pub record Taken (ch : Channel A) (out : List A) (ch' : Channel A) : Type ℓ where
    pub order : out ++ ch'.queue ≡ ch.queue
    pub size : ch'.size ≡ length ch'.queue
    pub off : ch'.has_waiter ≡ ch.has_waiter
    pub limit : ch'.wake_threshold ≡ ch.wake_threshold

  pub take_front-Taken :
      (ch : Channel A) (queue : List A)
      → queue ≡ ch.queue
      → ch.size ≡ length queue
      → ch.size < word64
      → 0 < ch.size
      → let (out, ch') = Channel.take_front queue ch in Taken ch (option_list out) ch'
  unfolding Channel.take_front
  take_front-Taken ch [] e size fresh more = absurd (omega arith)
  take_front-Taken ch (x ∷ xs) e size fresh more = record {
    order = e;
    size = omega arith;
    off = refl;
    limit = refl;
  }

  pub take_batch-Taken :
      (max_count : ℕ) (ch : Channel A)
      → ch.size ≡ length ch.queue
      → ch.size < word64
      → let (out, ch') = Channel.take_batch max_count ch in Taken ch out ch'
  unfolding Channel.take_batch
  take_batch-Taken max_count ch size fresh = record {
    order = take-append-drop (min max_count ch.size) ch.queue;
    size = omega (arith, length-drop (min max_count ch.size) ch.queue);
    off = refl;
    limit = refl;
  }

  -- The consumer runs on with what was taken.
  pub Taken-Good :
      {items : List A} (s : Session A) {ch : Channel A} (out : List A) (ch' : Channel A)
      → s.received ++ ch.queue ≡ items
      → Taken ch out ch'
      → Idle ch
      → Good items (record { channel = ch'; consumer = running; received = s.received ++ out })
  Taken-Good s {ch} out ch' order t idle = record {
    order = append_assoc s.received out ch'.queue ∙ ap (λ q. s.received ++ q) t.order ∙ order;
    size = t.size;
    fits = record { off = t.off ∙ idle.off; limit = t.limit ∙ idle.limit };
  }

  pub nothing-Taken : (ch : Channel A) → ch.size ≡ length ch.queue → Taken ch [] ch
  nothing-Taken ch size = record { order = refl; size = size; off = refl; limit = refl }

  given-option_result : (o : Option A) → option_list o ≡ given (Channel.option_result o)
  unfolding Channel.option_result
  given-option_result none = refl
  given-option_result (some x) = refl

  pub finish-Good :
      {items : List A} (kind : Kind) (failed : Bool) (s : Session A)
      → s.received ++ s.channel.queue ≡ items
      → s.channel.size ≡ length s.channel.queue
      → (s.channel.wake_threshold ≡ 1) ⊎ (s.channel.wake_threshold ≡ threshold kind)
      → length items < word64
      → Good items (finish kind failed s)
  unfolding await_resume Channel.unregister
  finish-Good {items} one failed s order size limit fresh =
      let ch = Channel.unregister s.channel.wake_threshold s.channel in
      let bound : s.channel.size < word64 =
        omega (arith, size, ap length order, length-append s.received s.channel.queue) in
      if_elim
        (λ (r : Result (List A) × Channel A).
          Good items
            (record { channel = r.1; consumer = running; received = s.received ++ given r.0 }))
        (s.channel.size == 0)
        (λ none_left.
          Taken-Good s {ch = ch} [] ch order (nothing-Taken ch size)
            (record { off = refl; limit = omega arith }))
        (λ some_left.
          subst
            (λ xs. Good items (record {
              channel = (Channel.take_front s.channel.queue ch).1;
              consumer = running;
              received = s.received ++ xs;
            }))
            (given-option_result (Channel.take_front s.channel.queue ch).0)
            (Taken-Good s {ch = ch} _ _ order
              (take_front-Taken ch s.channel.queue refl size bound (ground arith))
              (record { off = refl; limit = omega arith })))
  finish-Good {items} (batch max_count) failed s order size limit fresh =
      let ch = Channel.unregister s.channel.wake_threshold s.channel in
      let bound : s.channel.size < word64 =
        omega (arith, size, ap length order, length-append s.received s.channel.queue) in
      if_elim
        (λ (r : Result (List A) × Channel A).
          Good items
            (record { channel = r.1; consumer = running; received = s.received ++ given r.0 }))
        (s.channel.size == 0)
        (λ none_left.
          Taken-Good s {ch = ch} [] ch order (nothing-Taken ch size)
            (record { off = refl; limit = omega arith }))
        (λ some_left.
          Taken-Good s {ch = ch} _ _ order (take_batch-Taken max_count ch size bound)
            (record { off = refl; limit = omega arith }))
  finish-Good {items} (batched limit) failed s order size lim fresh =
      let ch = Channel.unregister 1 s.channel in
      let bound : s.channel.size < word64 =
        omega (arith, size, ap length order, length-append s.received s.channel.queue) in
      let idle : Idle ch = record { off = refl; limit = refl } in
      if_elim
        (λ (r : Result (List A) × Channel A).
          Good items
            (record { channel = r.1; consumer = running; received = s.received ++ given r.0 }))
        failed (λ late. Taken-Good s {ch = ch} [] ch order (nothing-Taken ch size) idle)
        (λ early.
          if_elim
            (λ (r : Result (List A) × Channel A).
              Good items
                (record { channel = r.1; consumer = running; received = s.received ++ given r.0 }))
            (s.channel.size == 0)
            (λ none_left. Taken-Good s {ch = ch} [] ch order (nothing-Taken ch size) idle)
            (λ some_left.
              Taken-Good s {ch = ch} _ _ order (take_batch-Taken s.channel.size ch size bound)
                idle))
