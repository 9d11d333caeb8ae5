-- ===== src/Channel/Consumers.antt =====
-- What an unsafe_channel.h knows of its consumer, and what a notification does to both.
use mathlib.Core.List.{append_assoc}
use galay_kernel.Prelude.{
  ℕ, ◌+◌, ◌<◌, ◌≡◌, refl, sym, ap, ◌∙◌, subst, Bool, true, false, Option, none, some, List, ◌++◌,
  arith, is_some, length, length-append, if_elim, word64, add64, ◌&&◌, ◌||◌, leb,
}
use galay_kernel.Channel
use galay_kernel.Channel.{
  Channel, Kind, one, batch, batched, Wakeup, Result, value, timed_out, WakeMode, deferred,
  inline_resume, send, send_batch, try_recv, try_recv_batch, await_ready, await_suspend,
  await_resume,
}
use galay_kernel.Channel.Session.{Session, Consumer, running, waiting, awake, wake}

-- How many values a waiting consumer waits for.
abbrev pub threshold : Kind → ℕ
threshold one = 1
threshold (batch max_count) = 1
threshold (batched limit) = limit

wakeup_of_some :
    (mode : WakeMode) (handle task : Option ℕ)
    → is_some handle ≡ true
    → is_some (Channel.wakeup_of mode handle task) ≡ true
unfolding Channel.wakeup_of
wakeup_of_some mode none task e = absurd (cc)
wakeup_of_some deferred (some handle) none e = refl
wakeup_of_some deferred (some handle) (some task) e = refl
wakeup_of_some inline_resume (some handle) task e = refl

pub wake-waiting :
    (w : Option Wakeup) (kind : Kind) → is_some w ≡ true → awake kind ≡ wake w (waiting kind)
wake-waiting none kind e = absurd (cc)
wake-waiting (some w) kind e = refl

module _ {ℓ} {A : Type ℓ} where
  pub record Waits (kind : Kind) (ch : Channel A) : Type ℓ where
    pub on : ch.has_waiter ≡ true
    pub limit : ch.wake_threshold ≡ threshold kind
    pub handle : is_some ch.waiter_handle ≡ true

  pub record Idle (ch : Channel A) : Type ℓ where
    pub off : ch.has_waiter ≡ false
    pub limit : ch.wake_threshold ≡ 1

  -- The channel knows the waiting consumer, which waits for more than there is, and it knows none
  -- otherwise. To one that was woken there is something to give.
  abbrev pub Fits : Consumer → Channel A → Type ℓ
  Fits running ch = Idle ch
  Fits (waiting kind) ch = Waits kind ch × (ch.size < threshold kind)
  Fits (awake kind) ch = Idle ch × (0 < ch.size)

  -- The same with a waiting consumer's number not yet compared.
  abbrev pub Joins : Consumer → Channel A → Type ℓ
  Joins running ch = Idle ch
  Joins (waiting kind) ch = Waits kind ch
  Joins (awake kind) ch = Idle ch

  -- What a channel is after the test that ends a send.
  pub record Notified (consumer : Consumer) (ch : Channel A) (result : Option Wakeup × Channel A)
      : Type ℓ where
    pub fits : Fits (wake result.0 consumer) result.1
    pub same_queue : result.1.queue ≡ ch.queue
    pub same_size : result.1.size ≡ ch.size

  pub notify-Notified :
      (immediately : Bool) (consumer : Consumer) (ch : Channel A)
      → Joins consumer ch
      → 0 < ch.size
      → Notified consumer ch (Channel.notify immediately ch)
  unfolding Channel.notify Channel.wake_up_waiter
  notify-Notified immediately running ch h more =
      if_elim (Notified running ch)
        (ch.has_waiter && (immediately || leb ch.wake_threshold ch.size))
        (λ on. absurd (ground (arith, h.off)))
        (λ off. record { fits = h; same_queue = refl; same_size = refl })
  notify-Notified immediately (awake kind) ch h more =
      if_elim (Notified (awake kind) ch)
        (ch.has_waiter && (immediately || leb ch.wake_threshold ch.size))
        (λ on. absurd (ground (arith, h.off)))
        (λ off. record { fits = (h, more); same_queue = refl; same_size = refl })
  notify-Notified immediately (waiting kind) ch h more =
      if_elim (Notified (waiting kind) ch)
        (ch.has_waiter && (immediately || leb ch.wake_threshold ch.size))
        (λ on.
          if_elim (Notified (waiting kind) ch) ch.has_waiter
            (λ _. record {
              fits =
                  subst
                    (λ c. Fits c (record ch {
                      has_waiter = false;
                      wake_threshold = 1;
                      waiter_handle = none;
                      waiter_task = none;
                    }))
                    (wake-waiting _ kind
                      (wakeup_of_some ch.wake_mode ch.waiter_handle ch.waiter_task h.handle))
                    (record { off = refl; limit = refl }, more);
              same_queue = refl;
              same_size = refl;
            })
            (λ gone. absurd (ground (arith, h.on))))
        (λ off. record {
          fits = (h, ground (arith, h.on, h.limit));
          same_queue = refl;
          same_size = refl;
        })

  -- `items` were sent in all.
  pub record Good (items : List A) (s : Session A) : Type ℓ where
    pub order : s.received ++ s.channel.queue ≡ items
    pub size : s.channel.size ≡ length s.channel.queue
    pub fits : Fits s.consumer s.channel

  pub joins :
      (consumer : Consumer) (ch : Channel A) (queue : List A) (size : ℕ)
      → Fits consumer ch
      → Joins consumer (record ch { queue = queue; size = size })
  joins running ch queue size h = record { off = h.off; limit = h.limit }
  joins (waiting kind) ch queue size h = record {
    on = h.0.on;
    limit = h.0.limit;
    handle = h.0.handle;
  }
  joins (awake kind) ch queue size h = record { off = h.0.off; limit = h.0.limit }

  -- More values behind the others, and the consumer told.
  pub notified-Good :
      {items : List A} (values : List A) (immediately : Bool) (s : Session A)
      → Good items s
      → length items + length values < word64
      → 0 < length values
      → let ch' = record s.channel {
        queue = s.channel.queue ++ values;
        size = add64 s.channel.size (length values);
      } in
        let (w, ch) = Channel.notify immediately ch' in
        Good (items ++ values) (record s { channel = ch; consumer = wake w s.consumer })
  notified-Good {items} values immediately s g fresh more =
      let bound : s.channel.size + length values < word64 =
        omega (arith, g.size, ap length g.order, length-append s.received s.channel.queue) in
      let n =
        notify-Notified immediately s.consumer
          (record s.channel {
            queue = s.channel.queue ++ values;
            size = add64 s.channel.size (length values);
          })
          (joins s.consumer s.channel (s.channel.queue ++ values)
            (add64 s.channel.size (length values)) g.fits)
          (omega arith) in
      record {
        order =
            ap (λ q. s.received ++ q) n.same_queue
            ∙ sym (append_assoc s.received s.channel.queue values)
            ∙ ap (λ q. q ++ values) g.order;
        size = omega (
          arith,
          n.same_size,
          ap length n.same_queue,
          g.size,
          length-append s.channel.queue values,
        );
        fits = n.fits;
      }
