-- ===== src/Channel/Tests.antt =====
-- Runs of a channel of unsafe_channel.h at concrete inputs.
use galay_kernel.Prelude.{ℕ, ◌≡◌, refl, false, List, [], ◌∷◌, arith}
use galay_kernel.Channel
use galay_kernel.Channel.{
  Channel, one, batched, deferred, inline_resume, send, await_ready, await_suspend, await_resume,
}
use galay_kernel.Channel.Session.{Event, sends, sends_batch, awaits, resumes, run, start}
use galay_kernel.Channel.Consumers.{Good}
use galay_kernel.Channel.Fifo.{run-Good}

-- Two values sent to a consumer that waits for three.
abbrev early : List (Event ℕ)
early = awaits (batched 3) 1 2 ∷ sends 7 false ∷ sends 8 false ∷ []

abbrev on_time : List (Event ℕ)
on_time = awaits (batched 3) 1 2 ∷ sends 7 false ∷ sends_batch (8 ∷ 9 ∷ []) false ∷ resumes ∷ []

run-on_time : (run on_time (start deferred)).received ≡ 7 ∷ 8 ∷ 9 ∷ []
unfolding Channel.init send Channel.send_batch Channel.notify Channel.wake_up_waiter
    Channel.wakeup_of await_ready await_suspend await_resume Channel.register Channel.unregister
    Channel.take_batch
run-on_time = refl

run-Good_example : Good (7 ∷ 8 ∷ []) (run early (start inline_resume))
run-Good_example = run-Good inline_resume early (omega arith)
