-- ===== src/Mpsc/Session.antt =====
-- Calls of senders and of the receiver of an mpsc_channel.h, one after the other.
use mathlib.Core.List.{append_assoc}
use galay_kernel.Prelude.{
  ℕ, ◌+◌, ◌<◌, ◌≤◌, sym, ap, subst, Bool, Option, List, [], ◌∷◌, ◌++◌, arith, length, option_list,
  if◌then◌else◌, word32,
}
use galay_kernel.Concurrent.{ConcurrentQueue}
use galay_kernel.Mpsc
use galay_kernel.Mpsc.{Channel, send, send_batch, try_recv, try_recv_batch}
use galay_kernel.Mpsc.Order.{Order}
use galay_kernel.Mpsc.Buffer.{batch}
use galay_kernel.Mpsc.Delivery.{contents, IsValid, Took, try_recv-Took}
use galay_kernel.Mpsc.Batches.{try_recv_batch-Took}
use galay_kernel.Mpsc.Sends.{Gave, send-Gave, send_batch-Gave}

pub data Op : Type 0 where
  sends : (x : ℕ) → Op
  sends_batch : (values : List ℕ) → Op
  recvs : Op
  recvs_batch : (max_count : ℕ) → Op

-- How many values a call offers.
abbrev pub offered : Op → ℕ
offered (sends x) = 1
offered (sends_batch values) = length values
offered recvs = 0
offered (recvs_batch max_count) = 0

abbrev pub all_offered : List Op → ℕ
all_offered [] = 0
all_offered (op ∷ ops) = offered op + all_offered ops

module _ (c : ConcurrentQueue) where
  -- The channel, what the successful calls have sent, and what was received.
  pub record Session : Type 0 where
    pub channel : Channel c
    pub sent : List ℕ
    pub got : List ℕ

  abbrev pub step : Op → Session → Session
  step (sends x) s =
      let (taken, _, ch) = send c x s.channel in
      record s { channel = ch; sent = s.sent ++ (if taken then x ∷ [] else []) }
  step (sends_batch values) s =
      let (taken, _, ch) = send_batch c values s.channel in
      record s { channel = ch; sent = s.sent ++ (if taken then values else []) }
  step recvs s =
      let (out, ch) = try_recv c s.channel in
      record s { channel = ch; got = s.got ++ option_list out }
  step (recvs_batch max_count) s =
      let (out, ch) = try_recv_batch c max_count s.channel in
      record s { channel = ch; got = s.got ++ batch out }

  abbrev pub run : List Op → Session → Session
  run [] s = s
  run (op ∷ ops) s = run ops (step op s)

  module _ (o : Order c) where
    pub record Accounted (s : Session) : Type 0 where
      pub valid : IsValid c s.channel
      pub like : o.Like (s.got ++ contents c s.channel) s.sent

    Took-Accounted :
        (s : Session) (out : List ℕ) (ch : Channel c)
        → Accounted s
        → Took c o s.channel out ch
        → Accounted (record s { channel = ch; got = s.got ++ out })
    Took-Accounted s out ch h t = record {
      valid = t.valid;
      like =
          subst (λ xs. o.Like xs s.sent) (sym (append_assoc s.got out (contents c ch)))
            (o.like_trans (o.like_front s.got t.like) h.like);
    }

    Gave-Accounted :
        (s : Session) (values : List ℕ) (result : Bool × Option ℕ × Channel c)
        → Accounted s
        → Gave c o s.channel values result
        → Accounted
            (record s { channel = result.2; sent = s.sent ++ (if result.0 then values else []) })
    Gave-Accounted s values result h g =
        let new = if result.0 then values else [] in
        record {
          valid = g.valid;
          like = o.like_trans (o.like_front s.got g.like) (
              subst (λ xs. o.Like xs (s.sent ++ new))
                (append_assoc s.got (contents c s.channel) new) (o.like_back new h.like));
        }

    -- One call keeps the account, and `m_size` grows by no more than what it offers.
    step-Accounted :
        (op : Op) (s : Session)
        → Accounted s
        → s.channel.size + offered op < word32
        → Accounted (step op s) × ((step op s).channel.size ≤ s.channel.size + offered op)
    step-Accounted (sends x) s h fresh =
        let g = send-Gave c o x s.channel h.valid fresh in
        (Gave-Accounted s (x ∷ []) (send c x s.channel) h g, ground (arith, g.counted))
    step-Accounted (sends_batch values) s h fresh =
        let g = send_batch-Gave c o values s.channel h.valid fresh in
        (Gave-Accounted s values (send_batch c values s.channel) h g, ground (arith, g.counted))
    step-Accounted recvs s h fresh =
        let t = try_recv-Took c o s.channel h.valid in
        (
          Took-Accounted s (option_list (try_recv c s.channel).0) (try_recv c s.channel).1 h t,
          omega (arith, t.counted),
        )
    step-Accounted (recvs_batch max_count) s h fresh =
        let t = try_recv_batch-Took c o max_count s.channel h.valid in
        (
          Took-Accounted s (batch (try_recv_batch c max_count s.channel).0)
              (try_recv_batch c max_count s.channel).1 h t,
          omega (arith, t.counted),
        )

    run-Accounted_from :
        (ops : List Op) (s : Session)
        → Accounted s
        → s.channel.size + all_offered ops < word32
        → Accounted (run ops s)
    run-Accounted_from [] s h fresh = h
    run-Accounted_from (op ∷ ops) s h fresh =
        let p = step-Accounted op s h (omega arith) in
        run-Accounted_from ops (step op s) p.0 (omega (arith, p.1))

    abbrev pub start : ℕ → ℕ → Session
    start batch_size prefetch_limit = record {
      channel = Mpsc.init c batch_size prefetch_limit;
      sent = [];
      got = [];
    }

    -- Whatever calls are made, with any prefetch limit and batch sizes: the values received and those
    -- that are left are the values of the successful sends, in the order that the queue keeps, whether
    -- they passed through the prefetch buffer or not; and `m_size` is the number of those left, as
    -- long as fewer than 2^32 values are offered.
    pub run-Accounted :
        (batch_size prefetch_limit : ℕ) (ops : List Op)
        → all_offered ops < word32
        → Accounted (run ops (start batch_size prefetch_limit))
    unfolding Mpsc.init
    run-Accounted batch_size prefetch_limit ops fresh =
        run-Accounted_from ops (start batch_size prefetch_limit)
          (record {
            valid = record {
              size = omega (arith, ap length c.items-empty);
              fits = omega arith;
              index = omega arith;
              buffer = omega arith;
            };
            like = subst (λ xs. o.Like xs []) (sym c.items-empty) o.like_refl;
          })
          (omega (arith, fresh))
