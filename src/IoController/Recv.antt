-- ===== src/IoController/Recv.antt =====
-- tryConsumeReadyRecv of galay-kernel/kernel/io_controller.hpp as a read from a stream.
use mathlib.Core.List.{append_assoc, append-nil}
use galay_kernel.Prelude.{
  ℕ, zero, suc, ◌-◌, ◌<◌, ◌≡◌, refl, sym, ◌∙◌, ap, subst, List, [], ◌∷◌, ◌++◌, ◌⊎◌, inl, inr,
  length, arith, Option, none, some,
}
use galay_kernel.IoController.ReadyRecv.{
  Chunk, Kind, buffer, eof, erred, Queue, Consumed, release, consume, consume_mark, by_kind,
  try_consume_ready_recv, unless_empty,
}
use galay_kernel.IoController.Stream.{
  Item, mark, bytes_then, bytes_of, items, leading, held, AllChunks,
}
use galay_kernel.IoController.Reads.{Reads, bytes-Reads, mark-Reads, bytes_of-length, bytes-by_kind}

-- A chunk that is an end or an error.
pub record IsMark (c : Chunk) : Type 0 where
  pub item : (m b : List Item) → m ≡ by_kind c.kind m b
  pub round : (m b : Consumed) → m ≡ by_kind c.kind m b

kind-cases : (c : Chunk) → (c.kind ≡ buffer) ⊎ IsMark c
unfolding by_kind
kind-cases c = go c.kind refl
  where
    go : (k : Kind) → k ≡ c.kind → (c.kind ≡ buffer) ⊎ IsMark c
    go buffer e = inl (sym e)
    go eof e = inr (record {
      item = λ m b. ap (λ k. by_kind k m b) e;
      round = λ m b. ap (λ k. by_kind k m b) e;
    })
    go erred e = inr (record {
      item = λ m b. ap (λ k. by_kind k m b) e;
      round = λ m b. ap (λ k. by_kind k m b) e;
    })

leading-nil : (n : ℕ) → leading n [] ≡ ([], [])
leading-nil zero = refl
leading-nil (suc n) = refl

begun-Reads :
    (capacity : ℕ) (written : List ℕ) (chunks : List Chunk) (recycled : List ℕ)
    → AllChunks chunks
    → 0 < length written
    → Reads capacity written chunks recycled (consume capacity written chunks recycled)
unfolding consume AllChunks
begun-Reads capacity written [] recycled vs begun =
    let at_end = leading-nil (capacity - length written) in
    record {
      valid = refl;
      written =
          sym (append-nil written) ∙ ap (λ (x : List ℕ × List Item). written ++ x.0) (sym at_end);
      left = ap (λ (x : List ℕ × List Item). x.1) (sym at_end);
      counted = refl;
      recycled = refl;
    }
begun-Reads capacity written (c ∷ cs) recycled (v, vs) begun = elim (kind-cases c) [
  | inl e ↦
      bytes-Reads capacity written c cs recycled v vs e
        (λ more started. begun-Reads capacity more cs (recycled ++ release c) vs started)
  | inr m ↦
      subst (Reads capacity written (c ∷ cs) recycled) (m.round _ _)
        (mark-Reads capacity written c cs recycled (v, vs) (sym (m.item _ _)) begun)
]

-- What a recv with room for `capacity` bytes gets from the queue.
pub data Receives (capacity : ℕ) (q : Queue) : Option Consumed → Type 0 where
  nothing : q.ready_recvs ≡ [] → Receives capacity q none
  -- The end or the error at the front, which leaves the stream.
  ends :
      (c : Consumed)
      → AllChunks c.queue.ready_recvs
      → c.written ≡ []
      → items q.ready_recvs ≡ mark c.result ∷ items c.queue.ready_recvs
      → c.queue.recycled ++ held c.queue.ready_recvs ≡ q.recycled ++ held q.ready_recvs
      → Receives capacity q (some c)
  -- The bytes up to the next mark, as many as there is room for.
  bytes :
      (c : Consumed)
      → Reads capacity [] q.ready_recvs q.recycled c
      → (0 < capacity → 0 < length c.written)
      → Receives capacity q (some c)

leading-bytes :
    (n : ℕ) (bs : List ℕ) (xs : List Item)
    → 0 < n
    → 0 < length bs
    → 0 < length (leading n (bytes_then bs xs)).0
leading-bytes zero bs xs room some_left = absurd (omega arith)
leading-bytes (suc n) [] xs room some_left = absurd (omega arith)
leading-bytes (suc n) (b ∷ bs) xs room some_left = omega arith

consume-Receives :
    (capacity : ℕ) (chunks : List Chunk) (recycled : List ℕ)
    → AllChunks chunks
    → Receives capacity
        (record { ready_recvs = chunks; recycled = recycled })
        (unless_empty chunks (consume capacity [] chunks recycled))
unfolding unless_empty consume AllChunks consume_mark
consume-Receives capacity [] recycled vs = nothing refl
consume-Receives capacity (c ∷ cs) recycled (v, vs) = elim (kind-cases c) [
  | inl e ↦
      let h =
        bytes-Reads capacity [] c cs recycled v vs e
          (λ more started. begun-Reads capacity more cs (recycled ++ release c) vs started) in
      bytes _ h (λ room.
        subst (λ (xs : List ℕ). 0 < length xs) (sym h.written)
          (subst (λ xs. 0 < length (leading (capacity - 0) xs).0) (bytes-by_kind c.kind _ _ e)
            (leading-bytes (capacity - 0) (bytes_of c) (items cs) (omega arith)
              (omega (arith, bytes_of-length c v e, v.filled e)))))
  | inr m ↦
      subst (λ x. Receives capacity (record { ready_recvs = c ∷ cs; recycled = recycled }) (some x))
        (m.round _ _)
        (ends (consume_mark [] c cs recycled) vs refl (sym (m.item _ _))
          (append_assoc recycled (release c) (held cs)))
]

-- The chunks that io_uring has filled are one stream. A call of recv finds nothing if the queue is
-- empty; it takes an end or an error off the stream if that stands at the front; else it gets the
-- bytes that follow, in order, none skipped or given twice, up to the next end or error and no more
-- than it has room for, and at least one if it has room at all, so that a count of 0 means an end.
-- Every buffer is either still held by a chunk or has gone back to the pool, once.
pub try_consume_ready_recv-Receives :
    (capacity : ℕ) (q : Queue)
    → AllChunks q.ready_recvs
    → Receives capacity q (try_consume_ready_recv capacity q)
unfolding try_consume_ready_recv
try_consume_ready_recv-Receives capacity q vs =
    consume-Receives capacity q.ready_recvs q.recycled vs
