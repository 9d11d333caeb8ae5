-- ===== src/Mpsc/Delivery.antt =====
-- What the receiver of an mpsc_channel.h gets, and what `m_size` says.
use mathlib.Core.List.{append_assoc}
use galay_kernel.Prelude.{
  ℕ, ◌+◌, ◌-◌, ◌≤◌, ◌<◌, ◌≡◌, refl, sym, ap, ◌∙◌, subst, Bool, not, ◌||◌, ◌==◌, Option, none, some,
  List, [], ◌∷◌, ◌++◌, arith, length, length-append, drop, get_elem?, option_list, if_elim, word32,
  sub32,
}
use galay_kernel.Concurrent.{ConcurrentQueue}
use galay_kernel.Mpsc
use galay_kernel.Mpsc.{Channel}
use galay_kernel.Mpsc.Order.{Order}
use galay_kernel.Mpsc.Buffer.{drop-get, get-length, nil_of_length, drop_all}

module _ (c : ConcurrentQueue) where
  -- The values that have been sent and not received, the prefetched ones first.
  abbrev pub contents : Channel c → List ℕ
  contents ch = drop ch.prefetch_index ch.prefetch ++ c.items ch.queue

  pub record IsValid (ch : Channel c) : Type 0 where
    pub size : ch.size ≡ length (contents ch)
    pub fits : ch.size < word32
    pub index : ch.prefetch_index ≤ ch.prefetch_count
    pub buffer : ch.prefetch_count ≡ length ch.prefetch

  module _ (o : Order c) where
    -- `out` was taken from what `ch` holds.
    pub record Took (ch : Channel c) (out : List ℕ) (ch' : Channel c) : Type 0 where
      pub valid : IsValid ch'
      pub like : o.Like (out ++ contents ch') (contents ch)
      pub counted : ch'.size + length out ≡ ch.size

    pub same-Took : {ch : Channel c} → IsValid ch → Took ch [] ch
    same-Took v = record { valid = v; like = o.like_refl; counted = omega arith }

    pub Took-Took :
        {ch1 ch2 ch3 : Channel c} (xs ys : List ℕ)
        → Took ch1 xs ch2
        → Took ch2 ys ch3
        → Took ch1 (xs ++ ys) ch3
    Took-Took {ch1} {ch2} {ch3} xs ys p q = record {
      valid = q.valid;
      like =
          subst (λ zs. o.Like zs (contents ch1)) (sym (append_assoc xs ys (contents ch3)))
            (o.like_trans (o.like_front xs q.like) p.like);
      counted = omega (arith, p.counted, q.counted, length-append xs ys);
    }

    -- Taken from the front of what the channel holds, and counted off.
    pub front-Took :
        (ch : Channel c) {ch' : Channel c} (out : List ℕ)
        → IsValid ch
        → o.Like (out ++ contents ch') (contents ch)
        → length out + length (contents ch') ≡ length (contents ch)
        → ch'.size + length out ≡ ch.size
        → ch'.prefetch_index ≤ ch'.prefetch_count
        → ch'.prefetch_count ≡ length ch'.prefetch
        → Took ch out ch'
    front-Took ch out v like len size index buffer = record {
      valid = record {
        size = omega (arith, v.size);
        fits = omega (arith, v.fits);
        index = index;
        buffer = buffer;
      };
      like = like;
      counted = size;
    }

    pub equal-like : {xs ys : List ℕ} → xs ≡ ys → o.Like xs ys
    equal-like {xs} e = subst (o.Like xs) e o.like_refl

    pub pop-Took :
        (ch : Channel c)
        → IsValid ch
        → let (out, ch') = Mpsc.try_pop_prefetched_value c ch in Took ch (option_list out) ch'
    unfolding Mpsc.try_pop_prefetched_value Mpsc.prefetched_count Mpsc.reset_prefetch
    pop-Took ch v =
        if_elim (λ (r : Option ℕ × Channel c). Took ch (option_list r.0) r.1)
          (ch.prefetch_count - ch.prefetch_index == 0) (λ _. same-Took v)
          (λ some_left.
            let here : ch.prefetch_index < length ch.prefetch = ground (arith, v.buffer) in
            let out = option_list (get_elem? ch.prefetch ch.prefetch_index) in
            let one : length out ≡ 1 = get-length ch.prefetch ch.prefetch_index here in
            let next : out ++ drop (ch.prefetch_index + 1) ch.prefetch
                ≡ drop ch.prefetch_index ch.prefetch =
              drop-get ch.prefetch ch.prefetch_index here in
            let all : out ++ (drop (ch.prefetch_index + 1) ch.prefetch ++ c.items ch.queue)
                ≡ contents ch =
              sym (append_assoc out (drop (ch.prefetch_index + 1) ch.prefetch) (c.items ch.queue))
              ∙ ap (λ xs. xs ++ c.items ch.queue) next in
            let len : length out
                  + length (drop (ch.prefetch_index + 1) ch.prefetch ++ c.items ch.queue)
                ≡ length (contents ch) =
              sym (length-append out _) ∙ ap length all in
            if_elim (λ (x : Channel c). Took ch out (record x { size = sub32 x.size 1 }))
              (ch.prefetch_index + 1 == ch.prefetch_count)
              (λ spent.
                let gone : drop (ch.prefetch_index + 1) ch.prefetch ≡ [] =
                  drop_all ch.prefetch (ch.prefetch_index + 1) (ground (arith, v.buffer)) in
                front-Took ch out v
                  (equal-like (ap (λ xs. out ++ (xs ++ c.items ch.queue)) (sym gone) ∙ all))
                  (ap (λ xs. length out + length (xs ++ c.items ch.queue)) (sym gone) ∙ len)
                  (omega (arith, one, len, v.size, v.fits)) (omega arith) (omega arith))
              (λ more.
                front-Took ch out v (equal-like all) len (omega (arith, one, len, v.size, v.fits))
                  (ground arith) v.buffer))

    -- The same values, some of them moved from the queue to the buffer.
    record Moved (ch ch' : Channel c) : Type 0 where
      like : o.Like (contents ch') (contents ch)
      len : length (contents ch') ≡ length (contents ch)
      size : ch'.size ≡ ch.size
      index : ch'.prefetch_index ≤ ch'.prefetch_count
      buffer : ch'.prefetch_count ≡ length ch'.prefetch

    prefetch-Moved :
        (ch : Channel c)
        → ch.prefetch_index ≤ ch.prefetch_count
        → ch.prefetch_count ≡ length ch.prefetch
        → Moved ch (Mpsc.try_prefetch_single_recv_values c ch).1
    unfolding Mpsc.try_prefetch_single_recv_values Mpsc.prefetched_count
    prefetch-Moved ch index buffer =
        if_elim (λ (r : Bool × Channel c). Moved ch r.1)
          (not (ch.prefetch_count - ch.prefetch_index == 0) || (ch.prefetch_limit == 0))
          (λ _. record {
            like = o.like_refl;
            len = refl;
            size = refl;
            index = index;
            buffer = buffer;
          })
          (λ fetch.
            let values = (c.try_dequeue_bulk ch.queue ch.prefetch_limit).0 in
            let left = c.items (c.try_dequeue_bulk ch.queue ch.prefetch_limit).1 in
            let spent : drop ch.prefetch_index ch.prefetch ≡ [] =
              drop_all ch.prefetch ch.prefetch_index (ground (arith, buffer)) in
            let all : o.Like (values ++ left) (contents ch) =
              o.like_trans (o.like_dequeue_bulk ch.prefetch_limit ch.queue)
                (equal-like (ap (λ xs. xs ++ c.items ch.queue) (sym spent))) in
            let len : length values + length left ≡ length (contents ch) =
              (c.length-dequeue ch.prefetch_limit ch.queue).1
              ∙ ap (λ xs. length (xs ++ c.items ch.queue)) (sym spent) in
            if_elim (λ (r : Bool × Channel c). Moved ch r.1) (length values == 0)
              (λ few.
                let no_values : values ≡ [] = nil_of_length values (ground arith) in
                let same : left ≡ drop ch.prefetch_index ch.prefetch ++ left =
                  ap (λ xs. xs ++ left) (sym spent) in
                record {
                  like =
                      o.like_trans (equal-like (sym same ∙ ap (λ xs. xs ++ left) (sym no_values)))
                        all;
                  len = omega (arith, ap length same, len, ap length no_values);
                  size = refl;
                  index = index;
                  buffer = buffer;
                })
              (λ _. record {
                like = all;
                len = length-append values left ∙ len;
                size = refl;
                index = omega arith;
                buffer = refl;
              }))

    received-Took :
        (ch : Channel c)
        → IsValid ch
        → drop ch.prefetch_index ch.prefetch ≡ []
        → let (out, q) = c.try_dequeue ch.queue in
          let (got, ch') = Mpsc.received c out (record ch { queue = q }) in
          Took ch (option_list got) ch'
    unfolding Mpsc.received
    received-Took ch v spent = go (c.try_dequeue ch.queue).0 refl
      where
        left : List ℕ
        left = c.items (c.try_dequeue ch.queue).1

        bare : (xs : List ℕ) → xs ≡ drop ch.prefetch_index ch.prefetch ++ xs
        bare xs = ap (λ ys. ys ++ xs) (sym spent)

        go :
            (out : Option ℕ)
            → out ≡ (c.try_dequeue ch.queue).0
            → let (got, ch') =
                Mpsc.received c out (record ch { queue = (c.try_dequeue ch.queue).1 }) in
              Took ch (option_list got) ch'
        go none e =
            let l =
              ap (λ w. length (option_list w) + length left) e ∙ c.length-try_dequeue ch.queue in
            let k =
              subst (λ w. o.Like (option_list w ++ left) (c.items ch.queue)) (sym e)
                (o.like_dequeue ch.queue) in
            let front = drop ch.prefetch_index ch.prefetch in
            front-Took ch [] v (o.like_front front k)
              (omega (arith, l, length-append front left, length-append front (c.items ch.queue)))
              (omega arith) v.index v.buffer
        go (some x) e =
            let l =
              ap (λ w. length (option_list w) + length left) e ∙ c.length-try_dequeue ch.queue in
            let k =
              subst (λ w. o.Like (option_list w ++ left) (c.items ch.queue)) (sym e)
                (o.like_dequeue ch.queue) in
            let m =
              prefetch-Moved (record ch { queue = (c.try_dequeue ch.queue).1 }) v.index v.buffer in
            let all =
              o.like_trans
                (o.like_front (x ∷ []) (o.like_trans m.like (equal-like (sym (bare left)))))
                (o.like_trans k (equal-like (bare (c.items ch.queue)))) in
            let len = m.len ∙ ap length (sym (bare left)) in
            front-Took ch (x ∷ []) v all
              (omega (arith, l, len, ap length (bare (c.items ch.queue))))
              (omega (arith, m.size, v.size, v.fits, l, ap length (bare (c.items ch.queue))))
              m.index m.buffer

    from_queue-Took :
        (cached : Option ℕ) (ch : Channel c)
        → IsValid ch
        → (cached ≡ none → drop ch.prefetch_index ch.prefetch ≡ [])
        → let (got, ch') = Mpsc.from_queue c cached ch in
          (more : List ℕ) × (option_list got ≡ option_list cached ++ more) × Took ch more ch'
    unfolding Mpsc.from_queue
    from_queue-Took (some x) ch v spent = ([], refl, same-Took v)
    from_queue-Took none ch v spent =
        if_elim
          (λ (r : Option ℕ × Channel c).
            (more : List ℕ) × (option_list r.0 ≡ more) × Took ch more r.1)
          (ch.size == 0) (λ _. ([], refl, same-Took v))
          (λ _. (_, refl, received-Took ch v (spent refl)))

    pub pop_none :
        (ch : Channel c)
        → IsValid ch
        → let (out, ch') = Mpsc.try_pop_prefetched_value c ch in
          out ≡ none → drop ch'.prefetch_index ch'.prefetch ≡ []
    unfolding Mpsc.try_pop_prefetched_value Mpsc.prefetched_count
    pop_none ch v =
        if_elim
          (λ (r : Option ℕ × Channel c). r.0 ≡ none → drop r.1.prefetch_index r.1.prefetch ≡ [])
          (ch.prefetch_count - ch.prefetch_index == 0)
          (λ none_left e. drop_all ch.prefetch ch.prefetch_index (ground (arith, v.buffer)))
          (λ some_left e. absurd (
            omega (
              arith,
              get-length ch.prefetch ch.prefetch_index (ground (arith, v.buffer)),
              ap (λ w. length (option_list w)) e,
            )))

    pub try_recv-Took :
        (ch : Channel c)
        → IsValid ch
        → let (out, ch') = Mpsc.try_recv c ch in Took ch (option_list out) ch'
    unfolding Mpsc.try_recv
    try_recv-Took ch v =
        let p = pop-Took ch v in
        let (more, e, q) =
          from_queue-Took (Mpsc.try_pop_prefetched_value c ch).0
            (Mpsc.try_pop_prefetched_value c ch).1 p.valid (pop_none ch v) in
        subst (λ xs. Took ch xs (Mpsc.try_recv c ch).1) (sym e) (Took-Took _ more p q)
