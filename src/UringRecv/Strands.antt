-- ===== src/UringRecv/Strands.antt =====
-- A recv with io_uring (galay-kernel/kernel/uring_reactor.cc) that is left waiting.
use galay_kernel.Prelude.{
  ℕ, ◌≡◌, refl, Bool, true, false, ◌||◌, ◌==◌, Option, none, List, [], ◌∷◌, if◌then◌else◌, if_elim,
  subst, sym, arith,
}
use galay_kernel.Error
use galay_kernel.Error.{Result, value, unexpected}
use galay_kernel.Error.Pack.{contains-make}
use galay_kernel.IoController.ReadyRecv.{Chunk, try_consume_ready_recv, unless_empty, Consumed}
use galay_kernel.UringRecv.{
  Cqe, Res, bytes, error, Recv, Controller, process_recv_completion, is_transient, is_exhausted,
  offer, enqueue, chunk_of, consume_into, delivered, completed_with, handle_recv, handle_complete,
  disarm, not_ready,
}

-- The outcome that leaves the recv as it was.
Kept : Recv → Controller → Bool × Recv × Controller → Type 0
Kept a c r = (r.0 ≡ false) × (r.1 ≡ a) × (r.2 ≡ c)

unless_empty-nil : (chunks : List Chunk) (k : Consumed) → chunks ≡ [] → none ≡ unless_empty chunks k
unfolding unless_empty
unless_empty-nil [] k e = refl
unless_empty-nil (c ∷ cs) k e = absurd (cc)

consume_nothing :
    (a : Recv) (c : Controller) → c.queue.ready_recvs ≡ [] → Kept a c (consume_into a c)
unfolding consume_into delivered Kept try_consume_ready_recv
consume_nothing a c e =
    subst (λ k. Kept a c (delivered a c k)) (unless_empty-nil c.queue.ready_recvs _ e)
      (refl, refl, refl)

handle_not_ready : handle_complete (unexpected not_ready) ≡ none
unfolding handle_complete not_ready
handle_not_ready =
    if_elim (λ (r : Option (Result ℕ)). r ≡ none) (Error.contains not_ready.code 1) (λ _. refl)
      (λ other.
        let it_does : Error.contains not_ready.code 1 ≡ true =
          ((contains-make 1 0 (omega arith) (omega arith)).0 1).1 refl in
        absurd (cc))

-- Nothing has arrived.
unfoldable pub IsIdle : Res → Type 0
IsIdle (bytes n) = true ≡ false
IsIdle (error errno) = (is_transient errno || errno == 105) ≡ true

idle_adds_nothing :
    (pool : ℕ → Option (List ℕ)) (cqe : Cqe) (res : Res) → IsIdle res → none ≡ chunk_of pool cqe res
unfolding chunk_of IsIdle
idle_adds_nothing pool cqe (bytes n) h = absurd (cc)
idle_adds_nothing pool cqe (error errno) h =
    if_elim (λ (x : Option Chunk). none ≡ x) (is_transient errno || errno == 105) (λ _. refl)
      (λ other. absurd (cc))

offer_nothing :
    (cqe : Cqe) (a : Recv) (c : Controller)
    → IsIdle cqe.res
    → c.queue.ready_recvs ≡ []
    → Kept a c (offer cqe a c)
unfolding offer Kept is_exhausted handle_recv completed_with IsIdle
offer_nothing cqe a c lost nothing = go cqe.res lost
  where
    go :
        (res : Res)
        → IsIdle res
        → Kept a c (
            if c.recv_result_assigned
            then (false, a, c)
            else if is_exhausted res
            then consume_into a c
            else completed_with (handle_complete (handle_recv res)) a c)
    go (bytes n) h = absurd (cc)
    go (error errno) h =
        if_elim (Kept a c) c.recv_result_assigned (λ _. (refl, refl, refl))
          (λ _.
            if_elim (Kept a c) (errno == 105) (λ _. consume_nothing a c nothing)
              (λ other.
                if_elim (λ (r : Result ℕ). Kept a c (completed_with (handle_complete r) a c))
                  (is_transient errno)
                  (λ _.
                    subst (λ r. Kept a c (completed_with r a c)) (sym handle_not_ready)
                      (refl, refl, refl))
                  (λ persists. absurd (ground (arith)))))

-- A recv waits, the queue is empty, and the last completion of the multishot request brings no data:
-- a passing error, or no buffer left in the pool that all sockets share. Then its coroutine is not
-- woken and keeps waiting, and no request is armed by which a later completion could wake it.
pub last_completion_strands :
    (pool : ℕ → Option (List ℕ)) (cqe : Cqe) (a : Recv) (c : Controller)
    → IsIdle cqe.res
    → cqe.more ≡ false
    → c.queue.ready_recvs ≡ []
    → let (woken, a', c') = process_recv_completion pool cqe a c in
      (woken ≡ false) × (a' ≡ a) × (c'.recv_multishot_armed ≡ false)
unfolding process_recv_completion disarm enqueue Kept
last_completion_strands pool cqe a c idle last nothing =
    let kept = offer_nothing cqe a c idle nothing in
    subst
      (λ (x : Option Chunk).
        let (woken, a', c') = offer cqe a (enqueue x c) in
        (woken ≡ false) × (a' ≡ a) × ((disarm cqe.more c').recv_multishot_armed ≡ false))
      (idle_adds_nothing pool cqe cqe.res idle)
      (
        kept.0,
        kept.1,
        subst (λ more. (disarm more (offer cqe a c).2).recv_multishot_armed ≡ false) (sym last)
            refl,
      )
