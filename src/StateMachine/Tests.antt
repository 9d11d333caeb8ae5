-- ===== src/StateMachine/Tests.antt =====
-- A state machine that sends three bytes and then receives up to five, through an awaitable.
use galay_kernel.Prelude.{ℕ, ◌≡◌, refl, Option, none, some, List, [], ◌∷◌}
use galay_kernel.Error
use galay_kernel.StateMachine
use galay_kernel.StateMachine.{Resumed, returned, failed, Progress, need_wait, completed, init}
use galay_kernel.StateMachine.Actions.{Action, Machine}
use galay_kernel.Error.{Result, value, unexpected, Done}
use galay_kernel.StateMachine.Events.{Io, uring_prepare, prepare_rounds}
use galay_kernel.StateMachine.Runs.{
  readiness, submits, event_comes, timer_fires, run, start, Fate, run-Fate, init-IsValid,
}
use galay_kernel.StateMachine.Backends.{Follows, prepare_rounds-Follows}

data Stage : Type 0 where
  asks : Stage
  answered : Stage
  received : (bytes : ℕ) → Stage
  lost : (e : Error.IoError) → Stage

abbrev next_action : Stage → Action ℕ
next_action asks = StateMachine.Actions.write (some 100) 3
next_action answered = StateMachine.Actions.read (some 200) 5
next_action (received bytes) = StateMachine.Actions.complete bytes
next_action (lost e) = StateMachine.Actions.fail e

abbrev sent : Result ℕ → Stage
sent (value n) = answered
sent (unexpected e) = lost e

abbrev got : Result ℕ → Stage
got (value n) = received n
got (unexpected e) = lost e

abbrev client : Machine ℕ
client = record {
  State = Stage;
  advance = λ s. (next_action s, s);
  on_read = λ r s. got r;
  on_write = λ r s. sent r;
  on_connect = none;
}

-- The system does what a list says, and is not ready when that is spent.
abbrev pop : List (Option (Result ℕ)) → Option (Result ℕ) × List (Option (Result ℕ))
pop [] = (none, [])
pop (r ∷ rs) = (r, rs)

abbrev scripted : Io (List (Option (Result ℕ)))
scripted = record {
  recv = λ b w. pop w;
  readv = λ b w. pop w;
  send = λ b w. pop w;
  writev = λ b w. pop w;
  connect = λ h w. (none, w);
}

abbrev script : List (Option (Result ℕ))
script = some (value 3) ∷ none ∷ some (value 4) ∷ []

run-readiness :
    StateMachine.await_resume client 0
      (run scripted client readiness
        (submits ∷ event_comes ∷ [])
        (start scripted client asks script)).awaitable
    ≡ returned 4
unfolding StateMachine.await_resume StateMachine.take_result StateMachine.init StateMachine.pump
    StateMachine.pump_rounds StateMachine.turn StateMachine.act StateMachine.wait
    StateMachine.finishes StateMachine.proceed StateMachine.clear_active_task
    StateMachine.Actions.write StateMachine.Actions.read StateMachine.Actions.complete
    StateMachine.Actions.continue_ StateMachine.Events.prepare StateMachine.Events.prepare_rounds
    StateMachine.Events.after_pump StateMachine.Events.after_asking StateMachine.Events.ask
    StateMachine.Events.read_done StateMachine.Events.write_done StateMachine.Events.event
run-readiness = refl

run-Fate_example : Fate scripted client (
    run scripted client readiness
      (submits ∷ event_comes ∷ timer_fires ∷ [])
      (start scripted client asks script))
run-Fate_example = run-Fate scripted client readiness asks script (event_comes ∷ timer_fires ∷ [])

prepare_rounds-Follows_example :
    Follows scripted client 64
      (uring_prepare scripted client (init client asks) script)
      (prepare_rounds scripted client 64 (init client asks) script)
prepare_rounds-Follows_example =
    prepare_rounds-Follows scripted client 64 (init client asks) script
      (init-IsValid scripted client asks)
