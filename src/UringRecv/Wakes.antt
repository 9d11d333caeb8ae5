-- ===== src/UringRecv/Wakes.antt =====
-- processRecvCompletion of galay-kernel/kernel/uring_reactor.cc while a recv waits: the stream before
-- and after, and whether the recv is woken.
use mathlib.Core.List.{append-nil}
use galay_kernel.Prelude.{
  ℕ, ◌≡◌, refl, sym, ◌∙◌, ap, subst, ◌⊎◌, inl, inr, ◌<◌, Bool, true, false, ◌||◌, ◌==◌, Option,
  none, some, List, [], ◌∷◌, ◌++◌, if_elim, arith, word32,
}
use galay_kernel.Error
use galay_kernel.Error.{Result, value, unexpected}
use galay_kernel.Error.Pack.{contains-make}
use galay_kernel.IoController.ReadyRecv.{
  Chunk, Kind, buffer, eof, erred, Queue, try_consume_ready_recv, Consumed, enqueue_ready_recv,
  by_kind,
}
use galay_kernel.IoController.Stream.{
  Item, byte, mark, bytes_then, bytes_of, items, IsChunk, AllChunks,
}
use galay_kernel.IoController.Recv.{Receives, nothing, try_consume_ready_recv-Receives}
use galay_kernel.UringRecv.{
  Cqe, Res, error, Recv, Controller, process_recv_completion, is_transient, is_exhausted, offer,
  enqueue, chunk_of, consume_into, delivered, completed_with, handle_recv, handle_complete, disarm,
  recv_failed,
}
use galay_kernel.UringRecv.Delivers.{Handed, Receives-Took, arrived, IsFilled, Adds, chunk_of-Adds}

bytes_then-append :
    (bs : List ℕ) (xs ys : List Item) → bytes_then bs (xs ++ ys) ≡ bytes_then bs xs ++ ys
bytes_then-append [] xs ys = refl
bytes_then-append (b ∷ bs) xs ys = ap (λ zs. byte b ∷ zs) (bytes_then-append bs xs ys)

items-append : (cs ds : List Chunk) → items (cs ++ ds) ≡ items cs ++ items ds
unfolding by_kind
items-append [] ds = refl
items-append (c ∷ cs) ds = go c.kind (items-append cs ds)
  where
    go :
        (k : Kind)
        → items (cs ++ ds) ≡ items cs ++ items ds
        → by_kind k (mark c.result ∷ items (cs ++ ds)) (bytes_then (bytes_of c) (items (cs ++ ds)))
          ≡ by_kind k (mark c.result ∷ items cs) (bytes_then (bytes_of c) (items cs)) ++ items ds
    go buffer e =
        ap (bytes_then (bytes_of c)) e ∙ bytes_then-append (bytes_of c) (items cs) (items ds)
    go eof e = ap (λ xs. mark c.result ∷ xs) e
    go erred e = ap (λ xs. mark c.result ∷ xs) e

append-AllChunks :
    (cs : List Chunk) (c : Chunk) → AllChunks cs → IsChunk c → AllChunks (cs ++ c ∷ [])
unfolding AllChunks
append-AllChunks [] c vs v = (v, refl)
append-AllChunks (d ∷ ds) c (w, ws) v = (w, append-AllChunks ds c ws v)

-- The queue holds valid chunks that stand for `stream`.
pub Holds : List Item → Queue → Type 0
Holds stream q = AllChunks q.ready_recvs × (items q.ready_recvs ≡ stream)

enqueue-Holds :
    (new : List Item) (x : Option Chunk) (c : Controller)
    → AllChunks c.queue.ready_recvs
    → Adds new x
    → Holds (items c.queue.ready_recvs ++ new) (enqueue x c).queue
unfolding Holds enqueue Adds enqueue_ready_recv
enqueue-Holds new none c vs e =
    (vs, sym (append-nil _) ∙ ap (λ xs. items c.queue.ready_recvs ++ xs) (sym e))
enqueue-Holds new (some chunk) c vs (v, e) = (
  append-AllChunks c.queue.ready_recvs chunk vs v,
  items-append c.queue.ready_recvs (chunk ∷ []) ∙ ap (λ xs. items c.queue.ready_recvs ++ xs) e,
)

-- What a completion comes to for a recv that waits, where `stream` ends with what has come, `new`.
pub data Offered (capacity : ℕ) (new stream : List Item) (assigned : Bool)
    : Bool × Recv × Controller → Type 0 where
  keeps_waiting :
      (a : Recv) (c' : Controller)
      → Holds stream c'.queue
      → (assigned ≡ true) ⊎ (new ≡ [])
      → Offered capacity new stream assigned (false, a, c')
  is_woken :
      (a : Recv) (c' : Controller) (r : Result ℕ)
      → assigned ≡ false
      → AllChunks c'.queue.ready_recvs
      → a.result ≡ some r
      → Handed capacity stream (items c'.queue.ready_recvs) r a.written
      → c'.recv_result_assigned ≡ true
      → Offered capacity new stream assigned (true, a, c')

nothing_new : (old new : List Item) → old ++ new ≡ [] → new ≡ []
nothing_new [] new e = e
nothing_new (x ∷ old) new e = absurd (cc)

consume-Offered :
    (old new : List Item) (a : Recv) (c : Controller)
    → Holds (old ++ new) c.queue
    → c.recv_result_assigned ≡ false
    → Offered a.length new (old ++ new) c.recv_result_assigned (consume_into a c)
unfolding consume_into delivered Holds
consume-Offered old new a c holds free =
    go (try_consume_ready_recv a.length c.queue)
      (try_consume_ready_recv-Receives a.length c.queue holds.0)
  where
    go :
        (k : Option Consumed)
        → Receives a.length c.queue k
        → Offered a.length new (old ++ new) c.recv_result_assigned (delivered a c k)
    go none (nothing e) =
        keeps_waiting a c holds (inr (nothing_new old new (sym holds.1 ∙ ap items e)))
    go (some k) h =
        let t = Receives-Took a.length c.queue k h in
        is_woken _ _ k.result free t.valid refl
          (subst (λ xs. Handed a.length xs (items k.queue.ready_recvs) k.result k.written) holds.1
            t.handed)
          refl

-- An error that lasts ends the operation.
lasting_done :
    (errno : ℕ)
    → is_transient errno ≡ false
    → errno < word32
    → handle_complete (handle_recv (error errno)) ≡ some (unexpected (recv_failed errno))
unfolding handle_complete handle_recv recv_failed
lasting_done errno lasts fits =
    if_elim (λ (r : Result ℕ). handle_complete r ≡ some (unexpected (Error.make 3 errno)))
      (is_transient errno) (λ passes. absurd (cc))
      (λ _.
        if_elim (λ (r : Option (Result ℕ)). r ≡ some (unexpected (Error.make 3 errno)))
          (Error.contains (Error.make 3 errno).code 1)
          (λ same.
            let one_is_three : 1 ≡ 3 =
              ((contains-make 3 errno (omega arith) (omega arith)).0 1).0 same in
            absurd (omega arith))
          (λ _. refl))

-- A completion that is not done leaves nothing in the stream.
not_done_adds_nothing :
    (pool : ℕ → Option (List ℕ)) (bid : Option ℕ) (res : Res)
    → IsFilled pool bid res
    → is_exhausted res ≡ false
    → handle_complete (handle_recv res) ≡ none
    → arrived pool bid res ≡ []
unfolding arrived IsFilled is_exhausted handle_complete handle_recv
not_done_adds_nothing pool bid (Res.bytes n) room lasting e = absurd (cc)
not_done_adds_nothing pool bid (error errno) room lasting e =
    if_elim (λ (xs : List Item). xs ≡ []) (is_transient errno || errno == 105) (λ _. refl)
      (λ lasts. absurd (
        let done = lasting_done errno (ground (arith)) room in
        let clash : none ≡ some (unexpected (recv_failed errno)) = sym e ∙ done in cc))

offer-Offered :
    (pool : ℕ → Option (List ℕ)) (cqe : Cqe) (old : List Item) (a : Recv) (c : Controller)
    → IsFilled pool cqe.bid cqe.res
    → Holds (old ++ arrived pool cqe.bid cqe.res) c.queue
    → Offered a.length
        (arrived pool cqe.bid cqe.res)
        (old ++ arrived pool cqe.bid cqe.res)
        c.recv_result_assigned
        (offer cqe a c)
unfolding offer completed_with
offer-Offered pool cqe old a c room holds =
    let new = arrived pool cqe.bid cqe.res in
    if_elim (Offered a.length new (old ++ new) c.recv_result_assigned) c.recv_result_assigned
      (λ assigned. keeps_waiting a c holds (inl assigned))
      (λ free.
        if_elim (Offered a.length new (old ++ new) c.recv_result_assigned) (is_exhausted cqe.res)
          (λ _. consume-Offered old new a c holds free)
          (λ lasting. done_or_not free lasting (handle_complete (handle_recv cqe.res)) refl))
  where
    done_or_not :
        c.recv_result_assigned ≡ false
        → is_exhausted cqe.res ≡ false
        → (r : Option (Result ℕ)) → r ≡ handle_complete (handle_recv cqe.res)
        → Offered a.length
            (arrived pool cqe.bid cqe.res)
            (old ++ arrived pool cqe.bid cqe.res)
            c.recv_result_assigned
            (completed_with r a c)
    done_or_not free lasting none e =
        keeps_waiting a c holds
          (inr (not_done_adds_nothing pool cqe.bid cqe.res room lasting (sym e)))
    done_or_not free lasting (some r) e =
        consume-Offered old (arrived pool cqe.bid cqe.res) (record a { result = some r }) c holds
          free

disarmed-Offered :
    (capacity : ℕ) (new stream : List Item) (assigned more : Bool) (r : Bool × Recv × Controller)
    → Offered capacity new stream assigned r
    → Offered capacity new stream assigned (r.0, r.1, disarm more r.2)
unfolding disarm Holds
disarmed-Offered capacity new stream assigned true r h = h
disarmed-Offered capacity new stream assigned false (false, a, c') (keeps_waiting a' c'' h why) =
    keeps_waiting a (record c' { recv_multishot_armed = false }) h why
disarmed-Offered capacity new stream assigned false (true, a, c')
      (is_woken a' c'' r free v got handed set) =
    is_woken a (record c' { recv_multishot_armed = false }) r free v got handed set

-- When a completion of the multishot request comes in while a recv waits, what it brings is added to
-- the stream behind what the queue held: the bytes that the kernel put into the buffer, an end, or an
-- error that lasts. The recv is woken with the front of that stream, taken off it: an end or an error
-- that stands there, or else as many bytes as there is room for up to the next one, and at least one
-- if there is room for it. It is not woken if a result was already assigned to it, and it may stay
-- asleep if the completion brought nothing; then the stream is as it was.
-- The chunks that the queue held are well formed, and the kernel is taken to fill no more than a buffer
-- holds and to report errors below 2^32.
pub process_recv_completion-Offered :
    (pool : ℕ → Option (List ℕ)) (cqe : Cqe) (a : Recv) (c : Controller)
    → AllChunks c.queue.ready_recvs
    → IsFilled pool cqe.bid cqe.res
    → let new = arrived pool cqe.bid cqe.res in
      Offered a.length new
        (items c.queue.ready_recvs ++ new)
        c.recv_result_assigned
        (process_recv_completion pool cqe a c)
unfolding process_recv_completion enqueue
process_recv_completion-Offered pool cqe a c vs room =
    go (chunk_of pool cqe cqe.res) (chunk_of-Adds pool cqe cqe.res room)
  where
    go :
        (x : Option Chunk)
        → Adds (arrived pool cqe.bid cqe.res) x
        → Offered a.length
            (arrived pool cqe.bid cqe.res)
            (items c.queue.ready_recvs ++ arrived pool cqe.bid cqe.res)
            c.recv_result_assigned
            (let (woken, a', c') = offer cqe a (enqueue x c) in (woken, a', disarm cqe.more c'))
    go none h =
        disarmed-Offered a.length _ _ c.recv_result_assigned cqe.more (offer cqe a c) (
          offer-Offered pool cqe (items c.queue.ready_recvs) a c room (enqueue-Holds _ none c vs h))
    go (some x) h =
        disarmed-Offered a.length _ _ c.recv_result_assigned cqe.more
          (offer cqe a (enqueue (some x) c))
          (offer-Offered pool cqe (items c.queue.ready_recvs) a (enqueue (some x) c) room
            (enqueue-Holds _ (some x) c vs h))
