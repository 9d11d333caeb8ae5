-- ===== src/StateMachine/Events.antt =====
-- How an I/O event moves a StateMachineAwaitable (galay-kernel/kernel/awaitable.h): `prepareForSubmit`
-- and `onActiveEvent`, for io_uring and for the reactors that report readiness. The contexts'
-- `handleComplete` is a parameter: it is asked with what the context holds, in the state `World` of
-- the system, and gives `m_result` when the operation is done.
use galay_kernel.Prelude.{ℕ, zero, suc, not, Option, none, some, if◌then◌else◌}
use galay_kernel.StateMachine.{
  Awaitable, Buffer, Progress, need_wait, completed, Kind, idle, reading, reading_v, writing,
  writing_v, connecting, param_invalid, inline_transition_cap, clear_active_task, pump,
  deliver_connect,
}
use galay_kernel.StateMachine.Actions.{Machine}
use galay_kernel.Error.{Result, Done}

pub record Io (World : Type 0) : Type 0 where
  pub recv : Buffer → World → Option (Result ℕ) × World
  pub readv : Buffer → World → Option (Result ℕ) × World
  pub send : Buffer → World → Option (Result ℕ) × World
  pub writev : Buffer → World → Option (Result ℕ) × World
  pub connect : ℕ → World → Option (Result Done) × World

-- What asking the active context comes to.
pub data Asked {R : Type 0} (m : Machine R) : Type 0 where
  not_done : Asked m
  handed_over : (a : Awaitable m) → Asked m
  no_kind : Asked m

module _ {R World : Type 0} (io : Io World) (m : Machine R) where
  unfoldable pub read_done : Awaitable m → Option (Result ℕ) → Asked m
  unfolding clear_active_task
  read_done a none = not_done
  read_done a (some r) =
      let b = clear_active_task m a in handed_over (record b { machine = m.on_read r b.machine })

  unfoldable pub write_done : Awaitable m → Option (Result ℕ) → Asked m
  unfolding clear_active_task
  write_done a none = not_done
  write_done a (some r) =
      let b = clear_active_task m a in handed_over (record b { machine = m.on_write r b.machine })

  unfoldable pub connect_done : Awaitable m → Option (Result Done) → Asked m
  unfolding clear_active_task deliver_connect
  connect_done a none = not_done
  connect_done a (some r) = handed_over (deliver_connect m r (clear_active_task m a))

  -- The five cases that all four functions repeat.
  unfoldable pub ask : Kind → Awaitable m → World → Asked m × World
  unfolding read_done write_done connect_done
  ask idle a w = (no_kind, w)
  ask reading a w = let (r, w') = io.recv a.recv_context w in (read_done a r, w')
  ask reading_v a w = let (r, w') = io.readv a.readv_context w in (read_done a r, w')
  ask writing a w = let (r, w') = io.send a.send_context w in (write_done a r, w')
  ask writing_v a w = let (r, w') = io.writev a.writev_context w in (write_done a r, w')
  ask connecting a w = let (r, w') = io.connect a.connect_context w in (connect_done a r, w')

  unfoldable pub after_asking :
      (Awaitable m → World → Progress × Awaitable m × World)
      → Awaitable m
      → Asked m × World
      → Progress × Awaitable m × World
  after_asking next a (not_done, w) = (need_wait, a, w)
  after_asking next a (handed_over b, w) = next b w
  after_asking next a (no_kind, w) = (completed, record a { error = some param_invalid }, w)

  -- With io_uring, where prepareForSubmit is `pump`.
  unfoldable pub uring_prepare : Awaitable m → World → Progress × Awaitable m × World
  unfolding pump
  uring_prepare a w = let (progress, b) = pump m a in (progress, b, w)

  unfoldable pub uring_event : Awaitable m → World → Progress × Awaitable m × World
  unfolding uring_prepare after_asking ask
  uring_event a w =
      if not a.has_active_task
      then uring_prepare a w
      else after_asking uring_prepare a (ask a.active_kind a w)

  -- The rest of a round of prepareForSubmit after `pump`.
  unfoldable pub after_pump :
      (Awaitable m → World → Progress × Awaitable m × World)
      → World
      → Progress × Awaitable m
      → Progress × Awaitable m × World
  unfolding after_asking ask
  after_pump next w (completed, a) = (completed, a, w)
  after_pump next w (need_wait, a) =
      if not a.has_active_task
      then (completed, a, w)
      else after_asking next a (ask a.active_kind a w)

  -- prepareForSubmit of the other reactors, with `count` rounds left.
  unfoldable pub prepare_rounds : ℕ → Awaitable m → World → Progress × Awaitable m × World
  unfolding after_pump pump clear_active_task
  prepare_rounds zero a w =
      (completed, clear_active_task m (record a { error = some param_invalid }), w)
  prepare_rounds (suc count) a w = after_pump (prepare_rounds count) w (pump m a)

  unfoldable pub prepare : Awaitable m → World → Progress × Awaitable m × World
  unfolding prepare_rounds
  prepare a w = prepare_rounds inline_transition_cap a w

  unfoldable pub event : Awaitable m → World → Progress × Awaitable m × World
  unfolding prepare after_asking ask
  event a w =
      if not a.has_active_task then prepare a w else after_asking prepare a (ask a.active_kind a w)
