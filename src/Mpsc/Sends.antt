-- ===== src/Mpsc/Sends.antt =====
-- What a send to an mpsc_channel.h adds.
use mathlib.Core.List.{append_assoc, append-nil}
use galay_kernel.Prelude.{
  ℕ, ◌+◌, ◌%◌, ◌<◌, ◌≡◌, refl, sym, ap, Bool, true, false, not, ◌||◌, ◌==◌, Option, none, List, [],
  ◌∷◌, ◌++◌, arith, length, length-append, drop, if◌then◌else◌, if_elim, word32, add32, sub32,
}
use galay_kernel.Concurrent.{ConcurrentQueue}
use galay_kernel.WaitRegistration
use galay_kernel.WaitRegistration.{WaitRegistration}
use galay_kernel.Mpsc
use galay_kernel.Mpsc.{Channel}
use galay_kernel.Mpsc.Order.{Order}
use galay_kernel.Mpsc.Delivery.{contents, IsValid, equal-like}

module _ (c : ConcurrentQueue) (o : Order c) where
  -- The values `sent` were put behind what the channel held, or none was taken over.
  pub record Gave (ch : Channel c) (values : List ℕ) (result : Bool × Option ℕ × Channel c)
      : Type 0 where
    pub valid : IsValid c result.2
    pub like : o.Like (contents c result.2) (contents c ch ++ (if result.0 then values else []))
    pub counted : result.2.size ≡ ch.size + (if result.0 then length values else 0)

  wake-same :
      (prev : ℕ) (ch : Channel c)
      → let ch' = (Mpsc.wake_if_needed c prev ch).1 in
        (ch'.size ≡ ch.size)
        × (contents c ch' ≡ contents c ch)
        × (ch'.prefetch_index ≡ ch.prefetch_index)
        × (ch'.prefetch_count ≡ ch.prefetch_count)
        × (ch'.prefetch ≡ ch.prefetch)
  unfolding Mpsc.wake_if_needed Mpsc.wake_published_waiter
  wake-same prev ch =
      if_elim
        (λ (r : Option ℕ × Channel c).
          (r.1.size ≡ ch.size)
          × (contents c r.1 ≡ contents c ch)
          × (r.1.prefetch_index ≡ ch.prefetch_index)
          × (r.1.prefetch_count ≡ ch.prefetch_count)
          × (r.1.prefetch ≡ ch.prefetch))
        (prev == 0 || WaitRegistration.has_waiter ch.registration)
        (λ _. (refl, refl, refl, refl, refl)) (λ _. (refl, refl, refl, refl, refl))

  -- The part of send and sendBatch from the call of the queue on.
  offered-Gave :
      (ch : Channel c) (values : List ℕ) (count : ℕ) (taken : Bool) (q : c.Queue)
      → IsValid c ch
      → count ≡ length values
      → ch.size + count < word32
      → length (c.items q) ≡ (if taken then count else 0) + length (c.items ch.queue)
      → o.Like (c.items q) (c.items ch.queue ++ (if taken then values else []))
      → Gave ch values (
          if not taken
          then (false, none, record ch { size = sub32 (add32 ch.size count) count; queue = q })
          else (let (woken, ch') =
                Mpsc.wake_if_needed c ch.size
                  (record ch { size = add32 ch.size count; queue = q }) in
              (true, woken, ch')))
  offered-Gave ch values count false q v e fresh len like =
      let front = drop ch.prefetch_index ch.prefetch in
      record {
        valid = record {
          size = omega (
            arith,
            v.size,
            len,
            length-append front (c.items q),
            length-append front (c.items ch.queue),
          );
          fits = omega (arith, v.fits);
          index = v.index;
          buffer = v.buffer;
        };
        like =
            o.like_trans (o.like_front front like)
              (equal-like c o (sym (append_assoc front (c.items ch.queue) [])));
        counted = omega (arith, v.fits);
      }
  offered-Gave ch values count true q v e fresh len like =
      let front = drop ch.prefetch_index ch.prefetch in
      let (s, k, i, n, b) =
        wake-same ch.size (record ch { size = add32 ch.size count; queue = q }) in
      record {
        valid = record {
          size = omega (
            arith,
            s,
            ap length k,
            v.size,
            len,
            length-append front (c.items q),
            length-append front (c.items ch.queue),
          );
          fits = omega (arith, s, v.fits);
          index = omega (arith, i, n, v.index);
          buffer = omega (arith, n, ap length b, v.buffer);
        };
        like = o.like_trans (equal-like c o k) (
            o.like_trans (o.like_front front like)
              (equal-like c o (sym (append_assoc front (c.items ch.queue) values))));
        counted = omega (arith, s, e);
      }

  pub send-Gave :
      (x : ℕ) (ch : Channel c)
      → IsValid c ch
      → ch.size + 1 < word32
      → Gave ch (x ∷ []) (Mpsc.send c x ch)
  unfolding Mpsc.counted_enqueue Mpsc.send
  send-Gave x ch v fresh =
      offered-Gave ch (x ∷ []) 1 (c.enqueue ch.queue x).0 (c.enqueue ch.queue x).1 v refl fresh
        (c.length-enqueue x ch.queue) (o.like_enqueue x ch.queue)

  pub send_batch-Gave :
      (values : List ℕ) (ch : Channel c)
      → IsValid c ch
      → ch.size + length values < word32
      → Gave ch values (Mpsc.send_batch c values ch)
  unfolding Mpsc.send_batch
  send_batch-Gave [] ch v fresh = record {
    valid = v;
    like = equal-like c o (sym (append-nil (contents c ch)));
    counted = omega arith;
  }
  send_batch-Gave (x ∷ xs) ch v fresh =
      let count : length (x ∷ xs) % word32 ≡ length (x ∷ xs) = omega arith in
      offered-Gave ch (x ∷ xs) (length (x ∷ xs) % word32) (c.enqueue_bulk ch.queue (x ∷ xs)).0
        (c.enqueue_bulk ch.queue (x ∷ xs)).1 v count (omega arith)
        (ground (arith, c.length-enqueue_bulk ch.queue (x ∷ xs), count))
        (o.like_enqueue_bulk (x ∷ xs) ch.queue)
