-- ===== src/UringRecv/Delivers.antt =====
-- What a recv with io_uring (galay-kernel/kernel/uring_reactor.cc) is given, in terms of the stream
-- that the queue of chunks stands for.
use galay_kernel.Prelude.{
  ℕ, zero, suc, ◌-◌, ◌≤◌, ◌<◌, ◌≡◌, refl, sym, ◌∙◌, ap, subst, Bool, true, false, ◌||◌, ◌==◌,
  Option, none, some, List, [], ◌∷◌, if◌then◌else◌, length, take, arith, word32,
}
use galay_kernel.Error.{Result, value, unexpected}
use galay_kernel.IoController.ReadyRecv.{Chunk, Queue, Consumed, by_kind}
use galay_kernel.IoController.Stream.{
  Item, byte, mark, bytes_then, items, leading, IsChunk, AllChunks,
}
use galay_kernel.IoController.Recv.{Receives, ends, bytes}
use galay_kernel.UringRecv
use galay_kernel.UringRecv.{
  Cqe, Res, error, Recv, Controller, process_recv_completion, is_transient, is_exhausted, offer,
  enqueue, chunk_of, consume_into, delivered, completed_with, handle_recv, handle_complete, disarm,
  recv_failed,
}

-- What was taken off the front of a stream, and how it is reported: as many bytes as there is room
-- for up to the next mark, and one at least if there is room for it, or the mark at the front.
pub data Handed (capacity : ℕ) (before after : List Item) : Result ℕ → List ℕ → Type 0 where
  some_bytes :
      (written : List ℕ)
      → before ≡ bytes_then written after
      → written ≡ (leading capacity before).0
      → (0 < capacity → 0 < length written)
      → Handed capacity before after (value (length written)) written
  an_end : (r : Result ℕ) → before ≡ mark r ∷ after → Handed capacity before after r []

leading-rest : (n : ℕ) (xs : List Item) → xs ≡ bytes_then (leading n xs).0 (leading n xs).1
leading-rest zero xs = refl
leading-rest (suc n) [] = refl
leading-rest (suc n) (mark r ∷ xs) = refl
leading-rest (suc n) (byte b ∷ xs) = ap (λ ys. byte b ∷ ys) (leading-rest n xs)

-- A recv gets something off the front, unless the stream is empty.
pub record Took (capacity : ℕ) (q : Queue) (k : Consumed) : Type 0 where
  pub valid : AllChunks k.queue.ready_recvs
  pub handed : Handed capacity (items q.ready_recvs) (items k.queue.ready_recvs) k.result k.written

pub Receives-Took :
    (capacity : ℕ) (q : Queue) (k : Consumed) → Receives capacity q (some k) → Took capacity q k
Receives-Took capacity q k (ends c v nothing_written e pool) = record {
  valid = v;
  handed =
      subst (Handed capacity (items q.ready_recvs) (items c.queue.ready_recvs) c.result)
        (sym nothing_written) (an_end c.result e);
}
Receives-Took capacity q k (bytes c h positive) = record {
  valid = h.valid;
  handed =
      subst (λ r. Handed capacity (items q.ready_recvs) (items c.queue.ready_recvs) r c.written)
        (sym h.counted)
        (some_bytes c.written
          (leading-rest (capacity - 0) (items q.ready_recvs)
            ∙ ap (λ ws. bytes_then ws (leading (capacity - 0) (items q.ready_recvs)).1)
                (sym h.written)
            ∙ ap (bytes_then c.written) (sym h.left))
          (h.written ∙ ap (λ n. (leading n (items q.ready_recvs)).0) (omega arith)) positive);
}

unfilled : Result ℕ
unfilled = unexpected (recv_failed 22)

bytes_of_buffer : ℕ → Option (List ℕ) → List Item
unfolding unfilled
bytes_of_buffer n none = mark unfilled ∷ []
bytes_of_buffer n (some memory) = bytes_then (take n memory) []

bytes_of_bid : ℕ → Option ℕ → (ℕ → Option (List ℕ)) → List Item
unfolding bytes_of_buffer unfilled
bytes_of_bid n none pool = mark unfilled ∷ []
bytes_of_bid n (some bid) pool = bytes_of_buffer n (pool bid)

-- What a completion adds to the stream: the bytes in the buffer, an end, or an error that lasts.
unfoldable pub arrived : (ℕ → Option (List ℕ)) → Option ℕ → Res → List Item
unfolding bytes_of_bid
arrived pool bid (Res.bytes n) = if n == 0 then mark (value 0) ∷ [] else bytes_of_bid n bid pool
arrived pool bid (error errno) =
    if is_transient errno || errno == 105 then [] else mark (unexpected (recv_failed errno)) ∷ []

-- The kernel fills no more than a buffer holds, and its error numbers fit in 32 bits.
unfoldable pub IsFilled : (ℕ → Option (List ℕ)) → Option ℕ → Res → Type 0
IsFilled pool none (Res.bytes n) = zero ≡ zero
IsFilled pool (some bid) (Res.bytes n) =
    (memory : List ℕ) → pool bid ≡ some memory → n ≤ length memory
IsFilled pool bid (error errno) = errno < word32

-- A chunk to enqueue, or none, that stands for `new`.
unfoldable pub Adds : List Item → Option Chunk → Type 0
Adds new none = new ≡ []
Adds new (some c) = IsChunk c × (items (c ∷ []) ≡ new)

mark-Adds :
    (is_eof : Bool) (r : Result ℕ) → Adds (mark r ∷ []) (some (UringRecv.mark_chunk is_eof r))
unfolding Adds UringRecv.mark_chunk by_kind
mark-Adds true r = (record { filled = λ e. absurd (cc); inside = λ e. absurd (cc) }, refl)
mark-Adds false r = (record { filled = λ e. absurd (cc); inside = λ e. absurd (cc) }, refl)

filled-Adds :
    (n bid : ℕ) (memory : Option (List ℕ))
    → 0 < n
    → ((m : List ℕ) → memory ≡ some m → n ≤ length m)
    → Adds (bytes_of_buffer n memory) (some (UringRecv.filled_chunk n bid memory))
unfolding Adds bytes_of_buffer unfilled UringRecv.filled_chunk by_kind
filled-Adds n bid none some_left room = mark-Adds false (unexpected (recv_failed 22))
filled-Adds n bid (some memory) some_left room =
    (record { filled = λ e. some_left; inside = λ e. omega (arith, room memory refl) }, refl)

buffer-Adds :
    (n : ℕ) (bid : Option ℕ) (pool : ℕ → Option (List ℕ))
    → 0 < n
    → IsFilled pool bid (Res.bytes n)
    → Adds (bytes_of_bid n bid pool) (some (UringRecv.buffer_chunk n bid pool))
unfolding bytes_of_bid unfilled IsFilled UringRecv.buffer_chunk
buffer-Adds n none pool some_left room = mark-Adds false (unexpected (recv_failed 22))
buffer-Adds n (some bid) pool some_left room = filled-Adds n bid (pool bid) some_left room

-- The same test on both sides of a relation.
both_ways :
    {A B : Type 0} (P : A → B → Type 0) (b : Bool) {a1 a2 : A} {b1 b2 : B}
    → (b ≡ true → P a1 b1)
    → (b ≡ false → P a2 b2)
    → P (if b then a1 else a2) (if b then b1 else b2)
both_ways P true h k = h refl
both_ways P false h k = k refl

pub chunk_of-Adds :
    (pool : ℕ → Option (List ℕ)) (cqe : Cqe) (res : Res)
    → IsFilled pool cqe.bid res
    → Adds (arrived pool cqe.bid res) (chunk_of pool cqe res)
unfolding arrived chunk_of Adds
chunk_of-Adds pool cqe (Res.bytes n) room =
    both_ways (λ x y. Adds x y) (n == 0) (λ _. mark-Adds true (value 0))
      (λ some_left. buffer-Adds n cqe.bid pool (ground (arith)) room)
chunk_of-Adds pool cqe (error errno) room =
    both_ways (λ x y. Adds x y) (is_transient errno || errno == 105) (λ _. refl)
      (λ lasts. mark-Adds false (unexpected (recv_failed errno)))
