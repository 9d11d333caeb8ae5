-- ===== src/UringRecv/Tests.antt =====
-- recv with io_uring at concrete inputs.
use galay_kernel.Prelude.{
  ℕ, ◌≡◌, refl, true, false, Option, none, some, List, [], ◌∷◌, ◌++◌, arith, subst, ◌≤◌, length,
}
use galay_kernel.IoController.Stream.{AllChunks}
use galay_kernel.UringRecv.{Cqe, Res, bytes, error, Recv, Controller, process_recv_completion}
use galay_kernel.UringRecv.Strands.{IsIdle, last_completion_strands}
use galay_kernel.UringRecv.Delivers.{arrived, IsFilled}
use galay_kernel.UringRecv.Wakes.{Offered, process_recv_completion-Offered}

abbrev waiting : Recv
waiting = record { length = 2; result = none; written = [] }

abbrev armed : Controller
armed = record {
  queue = record { ready_recvs = []; recycled = [] };
  recv_multishot_armed = true;
  recv_result_assigned = false;
}

-- Each buffer holds three bytes.
abbrev pool : ℕ → Option (List ℕ)
pool bid = some (1 ∷ 2 ∷ 3 ∷ [])

abbrev three_bytes : Cqe
three_bytes = record { res = bytes 3; bid = some 0; more = true }

abbrev interrupted : Cqe
interrupted = record { res = error 4; bid = none; more = false }

abbrev or_none : Option (List ℕ) → List ℕ
or_none none = []
or_none (some xs) = xs

armed-AllChunks : AllChunks armed.queue.ready_recvs
unfolding AllChunks
armed-AllChunks = refl

three_bytes-IsFilled : IsFilled pool three_bytes.bid three_bytes.res
unfolding IsFilled
three_bytes-IsFilled memory e =
    subst (λ (o : Option (List ℕ)). 3 ≤ length (or_none o)) e (omega arith)

interrupted-IsIdle : IsIdle interrupted.res
unfolding IsIdle galay_kernel.UringRecv.is_transient
interrupted-IsIdle = refl

process_recv_completion-Offered_example :
    Offered 2
      (arrived pool three_bytes.bid three_bytes.res)
      ([] ++ arrived pool three_bytes.bid three_bytes.res)
      false
      (process_recv_completion pool three_bytes waiting armed)
process_recv_completion-Offered_example =
    process_recv_completion-Offered pool three_bytes waiting armed armed-AllChunks
      three_bytes-IsFilled

last_completion_strands_example :
    let (woken, a, c) = process_recv_completion pool interrupted waiting armed in
    (woken ≡ false) × (a ≡ waiting) × (c.recv_multishot_armed ≡ false)
last_completion_strands_example =
    last_completion_strands pool interrupted waiting armed interrupted-IsIdle refl refl
