-- ===== src/Mpsc/Batches.antt =====
-- What a batch receive of an mpsc_channel.h takes.
use mathlib.Core.List.{append-nil}
use galay_kernel.Prelude.{
  ℕ, zero, suc, ◌-◌, ◌≤◌, ◌<◌, ◌≡◌, refl, sym, ap, ◌∙◌, subst, ◌==◌, ltb, Option, List, [], ◌++◌,
  arith, length, length-append, drop, option_list, if_elim, is_some,
}
use galay_kernel.Concurrent.{ConcurrentQueue}
use galay_kernel.Mpsc
use galay_kernel.Mpsc.{Channel}
use galay_kernel.Mpsc.Order.{Order}
use galay_kernel.Mpsc.Buffer.{some_length, none_of, batch, batch-values}
use galay_kernel.Mpsc.Delivery.{
  IsValid, Took, same-Took, Took-Took, front-Took, equal-like, pop-Took, pop_none,
}

module _ (c : ConcurrentQueue) (o : Order c) where
  -- The prefetched values go first into a batch, and all of them if there is room for more.
  popped-Took :
      (count : ℕ) (ch : Channel c)
      → IsValid c ch
      → let (values, ch') = Mpsc.pop_prefetched c count ch in
        Took c o ch values ch'
        × (length values ≤ count)
        × ((length values < count) → drop ch'.prefetch_index ch'.prefetch ≡ [])
  unfolding Mpsc.pop_prefetched
  popped-Took zero ch v = (same-Took c o v, omega arith, λ h. absurd (omega arith))
  popped-Took (suc count) ch v =
      let cached = (Mpsc.try_pop_prefetched_value c ch).0 in
      let ch1 = (Mpsc.try_pop_prefetched_value c ch).1 in
      let p = pop-Took c o ch v in
      let (q, few, rest) = popped-Took count ch1 p.valid in
      if_elim
        (λ (r : List ℕ × Channel c).
          Took c o ch r.0 r.1
          × (length r.0 ≤ suc count)
          × ((length r.0 < suc count) → drop r.1.prefetch_index r.1.prefetch ≡ []))
        (is_some cached)
        (λ got. (
          Took-Took c o _ _ p q,
          omega (
            arith,
            few,
            some_length cached got,
            length-append (option_list cached) (Mpsc.pop_prefetched c count ch1).0,
          ),
          λ h. rest (
              omega (
                arith,
                h,
                some_length cached got,
                length-append (option_list cached) (Mpsc.pop_prefetched c count ch1).0,
              )),
        ))
        (λ missed. (
          subst (λ w. Took c o ch (option_list w) ch1) (none_of cached missed) p,
          omega arith,
          λ h. pop_none c o ch v (none_of cached missed),
        ))

  fill-Took :
      (max_count : ℕ) (values : List ℕ) (ch : Channel c)
      → IsValid c ch
      → ((length values < max_count) → drop ch.prefetch_index ch.prefetch ≡ [])
      → let (out, ch') = Mpsc.fill_batch c max_count values ch in
        (more : List ℕ) × (out ≡ values ++ more) × Took c o ch more ch'
  unfolding Mpsc.fill_batch
  fill-Took max_count values ch v spent =
      if_elim
        (λ (r : List ℕ × Channel c).
          (more : List ℕ) × (r.0 ≡ values ++ more) × Took c o ch more r.1)
        (ltb (length values) max_count)
        (λ short.
          let n = max_count - length values in
          let more = (c.try_dequeue_bulk ch.queue n).0 in
          let left = c.items (c.try_dequeue_bulk ch.queue n).1 in
          let bare : (xs : List ℕ) → xs ≡ drop ch.prefetch_index ch.prefetch ++ xs =
            λ xs. ap (λ ys. ys ++ xs) (sym (spent (ground arith))) in
          let l = (c.length-dequeue n ch.queue).1 in
          (
            more,
            refl,
            front-Took c o ch more v
                (o.like_trans (o.like_front more (equal-like c o (sym (bare left)))) (
                  o.like_trans (o.like_dequeue_bulk n ch.queue)
                    (equal-like c o (bare (c.items ch.queue)))))
                (omega (arith, ap length (bare left), ap length (bare (c.items ch.queue)), l))
                (ground (arith, ap length (bare (c.items ch.queue)), l, v.size, v.fits)) v.index
                v.buffer,
          ))
        (λ full. ([], sym (append-nil values), same-Took c o v))

  pub try_recv_batch-Took :
      (max_count : ℕ) (ch : Channel c)
      → IsValid c ch
      → let (out, ch') = Mpsc.try_recv_batch c max_count ch in Took c o ch (batch out) ch'
  unfolding Mpsc.try_recv_batch
  try_recv_batch-Took max_count ch v =
      if_elim (λ (r : Option (List ℕ) × Channel c). Took c o ch (batch r.0) r.1) (ch.size == 0)
        (λ _. same-Took c o v)
        (λ _.
          let cached = (Mpsc.pop_prefetched c max_count ch).0 in
          let ch1 = (Mpsc.pop_prefetched c max_count ch).1 in
          let (p, few, rest) = popped-Took max_count ch v in
          let (more, e, q) = fill-Took max_count cached ch1 p.valid rest in
          subst (λ xs. Took c o ch xs (Mpsc.fill_batch c max_count cached ch1).1)
            (sym e ∙ batch-values (Mpsc.fill_batch c max_count cached ch1).0)
            (Took-Took c o cached more p q))
