-- ===== src/StateMachine.antt =====
-- StateMachineAwaitable of galay-kernel/kernel/awaitable.h, which runs a state machine of the user:
-- between its inputs it waits for one read, write or connect at a time. The machine is a parameter,
-- and so is what the I/O contexts find when they are asked whether they are done (`Io`): they call
-- the system. The claim on the controller's slots is not part of this module.
pub mod Actions
pub mod Events
pub mod Settles
pub mod Runs
pub mod Backends
mod Tests
use galay_kernel.Prelude.{
  ℕ, zero, suc, Bool, true, false, not, ◌&&◌, ◌||◌, ◌==◌, Option, none, some, is_some,
  if◌then◌else◌,
}
use galay_kernel.Error
use galay_kernel.Error.{IoError}
use galay_kernel.StateMachine.Actions.{
  Signal, continues, wait_read, wait_readv, wait_write, wait_writev, wait_connect, completes, fails,
  Action, Machine,
}
use galay_kernel.Error.{Result, value, unexpected, Done, done}

abbrev pub timeout_error : IoError
timeout_error = Error.make 15 0

-- kNotReady
abbrev not_ready : ℕ
not_ready = 1

abbrev pub param_invalid : IoError
param_invalid = Error.make 2 0

pub data Progress : Type 0 where
  need_wait : Progress
  completed : Progress

pub data Kind : Type 0 where
  idle : Kind
  reading : Kind
  reading_v : Kind
  writing : Kind
  writing_v : Kind
  connecting : Kind

-- The arguments of a context: a buffer and its length, or iovecs and their number.
pub record Buffer : Type 0 where
  pub address : Option ℕ
  pub length : ℕ

-- `m_active_task` is known by `active_kind`, which is set with it: RECV with the recv context for
-- `reading`, and so on.
pub record Awaitable {R : Type 0} (m : Machine R) : Type 0 where
  pub machine : m.State
  pub recv_context : Buffer
  pub readv_context : Buffer
  pub send_context : Buffer
  pub writev_context : Buffer
  pub connect_context : ℕ
  pub has_active_task : Bool
  pub active_kind : Kind
  pub result : Option R
  pub result_set : Bool
  pub error : Option IoError

-- What a turn of the loop of `pump` comes to.
pub data Turn {R : Type 0} (m : Machine R) : Type 0 where
  returns : (progress : Progress) (a : Awaitable m) → Turn m
  goes_on : (a : Awaitable m) → Turn m

abbrev pub inline_transition_cap : ℕ
inline_transition_cap = 64

pub data Resumed {ℓ} (R : Type ℓ) : Type ℓ where
  returned : (result : R) → Resumed R
  failed : (e : IoError) → Resumed R
  broken : Resumed R

pub proceed :
    {R : Type 0} {m : Machine R}
    → (Awaitable m → Progress × Awaitable m)
    → Turn m
    → Progress × Awaitable m
proceed next (returns progress a) = (progress, a)
proceed next (goes_on a) = next a

module _ {R : Type 0} (m : Machine R) where
  pub init : m.State → Awaitable m
  init machine = record {
    machine = machine;
    recv_context = record { address = none; length = 0 };
    readv_context = record { address = none; length = 0 };
    send_context = record { address = none; length = 0 };
    writev_context = record { address = none; length = 0 };
    connect_context = 0;
    has_active_task = false;
    active_kind = idle;
    result = none;
    result_set = false;
    error = none;
  }

  pub await_ready : Awaitable m → Bool
  await_ready a = a.result_set || is_some a.error

  pub clear_active_task : Awaitable m → Awaitable m
  clear_active_task a = record a { has_active_task = false; active_kind = idle }

  fails_with : IoError → Awaitable m → Turn m
  unfolding clear_active_task
  fails_with e a = returns completed (clear_active_task (record a { error = some e }))

  -- A transfer of 0 bytes.
  abbrev pub skip_read : Awaitable m → Awaitable m
  skip_read a = record a { machine = m.on_read (value 0) a.machine }

  abbrev pub skip_write : Awaitable m → Awaitable m
  skip_write a = record a { machine = m.on_write (value 0) a.machine }

  abbrev pub start_recv : Buffer → Awaitable m → Awaitable m
  start_recv buffer a = record a {
    recv_context = buffer;
    has_active_task = true;
    active_kind = reading;
  }

  abbrev pub start_readv : Buffer → Awaitable m → Awaitable m
  start_readv buffer a = record a {
    readv_context = buffer;
    has_active_task = true;
    active_kind = reading_v;
  }

  abbrev pub start_send : Buffer → Awaitable m → Awaitable m
  start_send buffer a = record a {
    send_context = buffer;
    has_active_task = true;
    active_kind = writing;
  }

  abbrev pub start_writev : Buffer → Awaitable m → Awaitable m
  start_writev buffer a = record a {
    writev_context = buffer;
    has_active_task = true;
    active_kind = writing_v;
  }

  -- The case of kWaitRead and the three like it: `skip` gives the machine a transfer of 0 bytes, and
  -- `start` sets the context and the active task.
  wait :
      Buffer
      → (Awaitable m → Awaitable m)
      → (Buffer → Awaitable m → Awaitable m)
      → Awaitable m
      → Turn m
  unfolding fails_with
  wait buffer skip start a =
      if not (is_some buffer.address) && not (buffer.length == 0)
      then fails_with param_invalid a
      else if buffer.length == 0
      then goes_on (skip a)
      else returns need_wait (start buffer a)

  finishes : Option R → Awaitable m → Turn m
  unfolding fails_with clear_active_task
  finishes none a = fails_with param_invalid a
  finishes (some result) a =
      returns completed (clear_active_task (record a { result = some result; result_set = true }))

  given_up : Option IoError → Awaitable m → Turn m
  unfolding fails_with
  given_up none a = fails_with param_invalid a
  given_up (some e) a = fails_with e a

  pub act : Signal → Action R → Awaitable m → Turn m
  unfolding wait finishes given_up
  act continues action a = goes_on a
  act wait_read action a =
      wait (record { address = action.read_buffer; length = action.read_length }) skip_read
        start_recv a
  act wait_readv action a =
      wait (record { address = action.iovecs; length = action.iov_count }) skip_read start_readv a
  act wait_write action a =
      wait (record { address = action.write_buffer; length = action.write_length }) skip_write
        start_send a
  act wait_writev action a =
      wait (record { address = action.iovecs; length = action.iov_count }) skip_write start_writev a
  act wait_connect action a = returns need_wait (record a {
    connect_context = action.connect_host;
    has_active_task = true;
    active_kind = connecting;
  })
  act completes action a = finishes action.result a
  act fails action a = given_up action.error a

  pub turn : Awaitable m → Turn m
  unfolding act
  turn a =
      if a.result_set || is_some a.error
      then returns completed a
      else if a.has_active_task
      then returns need_wait a
      else (let (action, machine) = m.advance a.machine in
          act action.signal action (record a { machine = machine }))

  -- The loop of `pump` with `count` rounds left.
  pub pump_rounds : ℕ → Awaitable m → Progress × Awaitable m
  unfolding turn proceed clear_active_task
  pump_rounds zero a = (completed, clear_active_task (record a { error = some param_invalid }))
  pump_rounds (suc count) a = proceed (pump_rounds count) (turn a)

  pub pump : Awaitable m → Progress × Awaitable m
  unfolding pump_rounds
  pump a = pump_rounds inline_transition_cap a

  connect_error : Result Done → IoError
  connect_error (value a) = param_invalid
  connect_error (unexpected e) = e

  connect_to : Option (Result Done → m.State → m.State) → Result Done → Awaitable m → Awaitable m
  unfolding connect_error
  connect_to none r a = record a { error = some (connect_error r) }
  connect_to (some on_connect) r a = record a { machine = on_connect r a.machine }

  pub deliver_connect : Result Done → Awaitable m → Awaitable m
  unfolding connect_to
  deliver_connect r a = connect_to m.on_connect r a

  -- The switch of `markTimeout`.
  tell_timeout : Kind → Awaitable m → Awaitable m
  unfolding deliver_connect
  tell_timeout reading a = record a { machine = m.on_read (unexpected timeout_error) a.machine }
  tell_timeout reading_v a = record a { machine = m.on_read (unexpected timeout_error) a.machine }
  tell_timeout writing a = record a { machine = m.on_write (unexpected timeout_error) a.machine }
  tell_timeout writing_v a = record a { machine = m.on_write (unexpected timeout_error) a.machine }
  tell_timeout connecting a = deliver_connect (unexpected timeout_error) a
  tell_timeout idle a = a

  pub mark_timeout : Awaitable m → Awaitable m
  unfolding pump tell_timeout clear_active_task
  mark_timeout a =
      let (_, a') = pump (tell_timeout a.active_kind (clear_active_task a)) in
      if not a'.result_set && not (is_some a'.error)
      then record a' { error = some timeout_error }
      else a'

  -- `*m_result`: what a coroutine gets, where an empty m_result has no meaning.
  take_result : Option R → Resumed R
  take_result none = broken
  take_result (some result) = returned result

  take_error : ℕ → Option IoError → Resumed R
  take_error errno none = failed (Error.make not_ready errno)
  take_error errno (some e) = failed e

  -- For a result type that holds an IOError.
  pub await_resume : ℕ → Awaitable m → Resumed R
  unfolding take_result take_error
  await_resume errno a = if a.result_set then take_result a.result else take_error errno a.error
