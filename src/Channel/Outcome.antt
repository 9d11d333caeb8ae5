-- ===== src/Channel/Outcome.antt =====
-- What a wait on an unsafe_channel.h ends with.
use galay_kernel.Prelude.{
  ℕ, zero, suc, ◌≡◌, refl, ap, ◌∙◌, Bool, true, false, List, [], ◌∷◌, ◌++◌, arith, length, take,
  min, if_elim, ◌==◌,
}
use galay_kernel.Channel
use galay_kernel.Channel.{
  Channel, Kind, one, batch, batched, Result, value, timed_out, await_resume,
}
use galay_kernel.Channel.Session.{Session, finish, given}
use galay_kernel.Channel.Consumers.{Good}

-- The values that a wait hands over from the queue, if the timer fired first or not.
abbrev pub outcome {ℓ} : {A : Type ℓ} → Kind → Bool → List A → List A
outcome one failed queue = take 1 queue
outcome (batch max_count) failed queue = take max_count queue
outcome (batched limit) true queue = []
outcome (batched limit) false queue = queue

module _ {ℓ} {A : Type ℓ} where
  take-min : (n : ℕ) (xs : List A) → take (min n (length xs)) xs ≡ take n xs
  take-min zero xs = ap (λ k. take k xs) (let e : min 0 (length xs) ≡ 0 = omega arith in e)
  take-min (suc n) [] = ap (λ k. take k []) (let e : min (suc n) 0 ≡ 0 = omega arith in e)
  take-min (suc n) (x ∷ xs) =
      let e : min (suc n) (suc (length xs)) ≡ suc (min n (length xs)) = omega arith in
      ap (λ k. take k (x ∷ xs)) e ∙ ap (λ ys. x ∷ ys) (take-min n xs)

  take-length : (xs : List A) → take (length xs) xs ≡ xs
  take-length [] = refl
  take-length (x ∷ xs) = ap (λ ys. x ∷ ys) (take-length xs)

  nothing_queued :
      (queue : List A) (kind : Kind) (failed : Bool)
      → length queue ≡ 0
      → [] ≡ outcome kind failed queue
  nothing_queued [] one failed e = refl
  nothing_queued [] (batch zero) failed e = refl
  nothing_queued [] (batch (suc n)) failed e = refl
  nothing_queued [] (batched limit) true e = refl
  nothing_queued [] (batched limit) false e = refl
  nothing_queued (x ∷ xs) kind failed e = absurd (omega arith)

  front_taken :
      (ch : Channel A) (queue : List A)
      → given (Channel.option_result (Channel.take_front queue ch).0) ≡ take 1 queue
  unfolding Channel.option_result Channel.take_front
  front_taken ch [] = refl
  front_taken ch (x ∷ xs) = refl

  resume_gives :
      (kind : Kind) (failed : Bool) (ch : Channel A)
      → ch.size ≡ length ch.queue
      → given (await_resume kind failed ch).0 ≡ outcome kind failed ch.queue
  unfolding await_resume Channel.unregister Channel.take_batch
  resume_gives one failed ch size =
      if_elim (λ (r : Result (List A) × Channel A). given r.0 ≡ take 1 ch.queue) (ch.size == 0)
        (λ e. nothing_queued ch.queue one failed (ground arith))
        (λ _. front_taken (Channel.unregister ch.wake_threshold ch) ch.queue)
  resume_gives (batch max_count) failed ch size =
      if_elim (λ (r : Result (List A) × Channel A). given r.0 ≡ take max_count ch.queue)
        (ch.size == 0) (λ e. nothing_queued ch.queue (batch max_count) failed (ground arith))
        (λ _. ap (λ k. take (min max_count k) ch.queue) size ∙ take-min max_count ch.queue)
  resume_gives (batched limit) true ch size = refl
  resume_gives (batched limit) false ch size =
      if_elim (λ (r : Result (List A) × Channel A). given r.0 ≡ ch.queue) (ch.size == 0)
        (λ e. nothing_queued ch.queue (batched limit) false (ground arith))
        (λ _.
          ap (λ k. take (min ch.size k) ch.queue) size
          ∙ take-min ch.size ch.queue
          ∙ ap (λ k. take k ch.queue) size
          ∙ take-length ch.queue)

  -- A wait that ends hands over the front of the queue: one value for recv, up to the maximum for
  -- recvBatch, all for recvBatched, whether a sender or the timer ended it, but for recvBatched
  -- whose timer fired: that one gets nothing, also if values are queued.
  pub finish_gives :
      {items : List A} (kind : Kind) (failed : Bool) (s : Session A)
      → Good items s
      → (finish kind failed s).received ≡ s.received ++ outcome kind failed s.channel.queue
  finish_gives kind failed s g =
      ap (λ xs. s.received ++ xs) (resume_gives kind failed s.channel g.size)
