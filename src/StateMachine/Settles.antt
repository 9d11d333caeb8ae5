-- ===== src/StateMachine/Settles.antt =====
-- What a StateMachineAwaitable comes to: a wait for one active task, or an outcome.
use galay_kernel.Prelude.{
  ℕ, zero, suc, ◌<◌, ◌≡◌, refl, Bool, true, false, not, ◌&&◌, ◌||◌, ◌==◌, Option, none, some,
  is_some, if_elim, arith,
}
use galay_kernel.Error.{IoError}
use galay_kernel.StateMachine
use galay_kernel.StateMachine.{
  Awaitable, Buffer, Progress, need_wait, completed, Kind, idle, reading, reading_v, writing,
  writing_v, connecting, Turn, returns, goes_on, await_ready, clear_active_task, act, turn,
  pump_rounds, proceed, pump, tell_timeout, mark_timeout, deliver_connect, connect_to,
}
use galay_kernel.StateMachine.Actions.{
  Signal, continues, wait_read, wait_readv, wait_write, wait_writev, wait_connect, completes, fails,
  Action, Machine,
}
use galay_kernel.Error.{Result, Done}

-- Bytes to transfer and a place for them.
pub IsUsable : Buffer → Type 0
IsUsable b = (is_some b.address ≡ true) × (0 < b.length)

error_answers : (b : Bool) → (b || true) ≡ true
error_answers true = refl
error_answers false = refl

module _ {R : Type 0} {m : Machine R} where
  -- The active task is there exactly if a kind is set, and its context has what it needs.
  unfoldable pub Active : Kind → Awaitable m → Type 0
  unfolding IsUsable
  Active idle a = a.has_active_task ≡ false
  Active reading a = (a.has_active_task ≡ true) × IsUsable a.recv_context
  Active reading_v a = (a.has_active_task ≡ true) × IsUsable a.readv_context
  Active writing a = (a.has_active_task ≡ true) × IsUsable a.send_context
  Active writing_v a = (a.has_active_task ≡ true) × IsUsable a.writev_context
  Active connecting a = a.has_active_task ≡ true

  pub record IsValid (a : Awaitable m) : Type 0 where
    pub task : Active a.active_kind a
    pub got : a.result_set ≡ true → is_some a.result ≡ true

  -- What the caller may rely on after `progress` was returned.
  unfoldable pub Answered : Progress → Awaitable m → Type 0
  Answered completed a = (a.result_set || is_some a.error) ≡ true
  Answered need_wait a = a.has_active_task ≡ true

  pub record Sound (progress : Progress) (a : Awaitable m) : Type 0 where
    pub valid : IsValid a
    pub answered : Answered progress a

  TurnSound : Turn m → Type 0
  TurnSound (returns progress a) = Sound progress a
  TurnSound (goes_on a) = IsValid a

  -- Only the machine has moved.
  pub moved-IsValid :
      (s : m.State) (a : Awaitable m) → IsValid a → IsValid (record a { machine = s })
  unfolding Active
  moved-IsValid s a v = record { task = task a.active_kind v.task; got = v.got }
    where
      task : (k : Kind) → Active k a → Active k (record a { machine = s })
      task idle h = h
      task reading h = h
      task reading_v h = h
      task writing h = h
      task writing_v h = h
      task connecting h = h

  erred-IsValid :
      (e : IoError) (a : Awaitable m) → IsValid a → IsValid (record a { error = some e })
  unfolding Active
  erred-IsValid e a v = record { task = task a.active_kind v.task; got = v.got }
    where
      task : (k : Kind) → Active k a → Active k (record a { error = some e })
      task idle h = h
      task reading h = h
      task reading_v h = h
      task writing h = h
      task writing_v h = h
      task connecting h = h

  pub cleared-IsValid : (a : Awaitable m) → IsValid a → IsValid (clear_active_task m a)
  unfolding clear_active_task Active
  cleared-IsValid a v = record { task = refl; got = v.got }

  pub failed-Sound :
      (e : IoError) (a : Awaitable m)
      → IsValid a
      → Sound completed (clear_active_task m (record a { error = some e }))
  unfolding clear_active_task Active Answered
  failed-Sound e a v = record {
    valid = record { task = refl; got = v.got };
    answered = error_answers a.result_set;
  }

  -- One of the four cases with a buffer.
  wait-TurnSound :
      (buffer : Buffer) (skip : Awaitable m → Awaitable m)
      (start : Buffer → Awaitable m → Awaitable m)
      → (a : Awaitable m) → IsValid a
      → IsValid (skip a)
      → (IsUsable buffer → Sound need_wait (start buffer a))
      → TurnSound (StateMachine.wait m buffer skip start a)
  unfolding StateMachine.wait StateMachine.fails_with TurnSound IsUsable
  wait-TurnSound buffer skip start a v skipped started =
      if_elim TurnSound (not (is_some buffer.address) && not (buffer.length == 0))
        (λ _. failed-Sound StateMachine.param_invalid a v)
        (λ usable.
          if_elim TurnSound (buffer.length == 0) (λ _. skipped)
            (λ some_left. started (ground (arith), ground (arith))))

  act-TurnSound :
      (signal : Signal) (action : Action R) (a : Awaitable m)
      → IsValid a
      → TurnSound (act m signal action a)
  unfolding act TurnSound Active Answered StateMachine.finishes StateMachine.given_up
      StateMachine.fails_with clear_active_task
  act-TurnSound continues action a v = v
  act-TurnSound wait_read action a v =
      wait-TurnSound (record { address = action.read_buffer; length = action.read_length })
        (StateMachine.skip_read m) (StateMachine.start_recv m) a v (moved-IsValid _ a v)
        (λ u. record { valid = record { task = (refl, u); got = v.got }; answered = refl })
  act-TurnSound wait_readv action a v =
      wait-TurnSound (record { address = action.iovecs; length = action.iov_count })
        (StateMachine.skip_read m) (StateMachine.start_readv m) a v (moved-IsValid _ a v)
        (λ u. record { valid = record { task = (refl, u); got = v.got }; answered = refl })
  act-TurnSound wait_write action a v =
      wait-TurnSound (record { address = action.write_buffer; length = action.write_length })
        (StateMachine.skip_write m) (StateMachine.start_send m) a v (moved-IsValid _ a v)
        (λ u. record { valid = record { task = (refl, u); got = v.got }; answered = refl })
  act-TurnSound wait_writev action a v =
      wait-TurnSound (record { address = action.iovecs; length = action.iov_count })
        (StateMachine.skip_write m) (StateMachine.start_writev m) a v (moved-IsValid _ a v)
        (λ u. record { valid = record { task = (refl, u); got = v.got }; answered = refl })
  act-TurnSound wait_connect action a v = record {
    valid = record { task = refl; got = v.got };
    answered = refl;
  }
  act-TurnSound completes action a v = finished action.result
    where
      finished : (r : Option R) → TurnSound (StateMachine.finishes m r a)
      finished none = failed-Sound StateMachine.param_invalid a v
      finished (some r) = record {
        valid = record { task = refl; got = λ _. refl };
        answered = refl;
      }
  act-TurnSound fails action a v = given action.error
    where
      given : (e : Option IoError) → TurnSound (StateMachine.given_up m e a)
      given none = failed-Sound StateMachine.param_invalid a v
      given (some e) = failed-Sound e a v

  turn-TurnSound : (a : Awaitable m) → IsValid a → TurnSound (turn m a)
  unfolding turn TurnSound Answered
  turn-TurnSound a v =
      if_elim TurnSound (a.result_set || is_some a.error)
        (λ settled. record { valid = v; answered = settled })
        (λ _.
          if_elim TurnSound a.has_active_task (λ active. record { valid = v; answered = active })
            (λ _.
              act-TurnSound (m.advance a.machine).0.signal (m.advance a.machine).0 _
                (moved-IsValid (m.advance a.machine).1 a v)))

  proceed-Sound :
      (next : Awaitable m → Progress × Awaitable m)
      → ((b : Awaitable m) → IsValid b → Sound (next b).0 (next b).1)
      → (t : Turn m) → TurnSound t
      → let (progress, b) = proceed next t in Sound progress b
  unfolding proceed TurnSound
  proceed-Sound next next-Sound (returns progress b) h = h
  proceed-Sound next next-Sound (goes_on b) h = next-Sound b h

  pub pump_rounds-Sound :
      (count : ℕ) (a : Awaitable m)
      → IsValid a
      → let (progress, b) = pump_rounds m count a in Sound progress b
  unfolding pump_rounds
  pump_rounds-Sound zero a v = failed-Sound StateMachine.param_invalid a v
  pump_rounds-Sound (suc count) a v =
      proceed-Sound (pump_rounds m count) (λ b h. pump_rounds-Sound count b h) (turn m a)
        (turn-TurnSound a v)

  pub pump-Sound : (a : Awaitable m) → IsValid a → let (progress, b) = pump m a in Sound progress b
  unfolding pump
  pump-Sound a v = pump_rounds-Sound StateMachine.inline_transition_cap a v

  pub delivered-IsValid :
      (r : Result Done) (a : Awaitable m) → IsValid a → IsValid (deliver_connect m r a)
  unfolding deliver_connect
  delivered-IsValid r a v = go m.on_connect
    where
      go : (f : Option (Result Done → m.State → m.State)) → IsValid (connect_to m f r a)
      go none = erred-IsValid _ a v
      go (some on_connect) = moved-IsValid _ a v

  told-IsValid : (kind : Kind) (a : Awaitable m) → IsValid a → IsValid (tell_timeout m kind a)
  unfolding tell_timeout
  told-IsValid idle a v = v
  told-IsValid reading a v = moved-IsValid _ a v
  told-IsValid reading_v a v = moved-IsValid _ a v
  told-IsValid writing a v = moved-IsValid _ a v
  told-IsValid writing_v a v = moved-IsValid _ a v
  told-IsValid connecting a v = delivered-IsValid _ a v

  pub timeout-Sound : (a : Awaitable m) → IsValid a → Sound completed (mark_timeout m a)
  unfolding mark_timeout Answered
  timeout-Sound a v =
      let b = (pump m (tell_timeout m a.active_kind (clear_active_task m a))).1 in
      let s : IsValid b =
        (pump-Sound _ (told-IsValid a.active_kind _ (cleared-IsValid a v))).valid in
      if_elim (λ (c : Awaitable m). Sound completed c) (not b.result_set && not (is_some b.error))
        (λ _. record { valid = erred-IsValid _ b s; answered = error_answers b.result_set })
        (λ settled. record { valid = s; answered = ground (arith) })
