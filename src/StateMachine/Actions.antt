-- ===== src/StateMachine/Actions.antt =====
-- MachineSignal, MachineAction and AwaitableStateMachine of galay-kernel/kernel/awaitable.h: what a
-- state machine of the user asks for. A pointer is an address, or none if it is null; a host is a
-- number.
use galay_kernel.Prelude.{ℕ, Option, none, some}
use galay_kernel.Error.{IoError, Result, Done}

pub data Signal : Type 0 where
  continues : Signal
  wait_read : Signal
  wait_readv : Signal
  wait_write : Signal
  wait_writev : Signal
  wait_connect : Signal
  completes : Signal
  fails : Signal

pub record Action {ℓ} (R : Type ℓ) : Type ℓ where
  pub signal : Signal
  pub read_buffer : Option ℕ
  pub read_length : ℕ
  pub iovecs : Option ℕ
  pub iov_count : ℕ
  pub write_buffer : Option ℕ
  pub write_length : ℕ
  pub connect_host : ℕ
  pub result : Option R
  pub error : Option IoError

-- The type parameter MachineT. `on_connect` is there if the type has that member.
pub record Machine (R : Type 0) : Type 1 where
  pub State : Type 0
  pub advance : State → Action R × State
  pub on_read : Result ℕ → State → State
  pub on_write : Result ℕ → State → State
  pub on_connect : Option (Result Done → State → State)

module _ {ℓ} {R : Type ℓ} where
  unfoldable pub continue_ : Action R
  continue_ = record {
    signal = continues;
    read_buffer = none;
    read_length = 0;
    iovecs = none;
    iov_count = 0;
    write_buffer = none;
    write_length = 0;
    connect_host = 0;
    result = none;
    error = none;
  }

  unfoldable pub read : Option ℕ → ℕ → Action R
  unfolding continue_
  read buffer length = record continue_ {
    signal = wait_read;
    read_buffer = buffer;
    read_length = length;
  }

  unfoldable pub write : Option ℕ → ℕ → Action R
  unfolding continue_
  write buffer length = record continue_ {
    signal = wait_write;
    write_buffer = buffer;
    write_length = length;
  }

  unfoldable pub readv : Option ℕ → ℕ → Action R
  unfolding continue_
  readv iovecs count = record continue_ { signal = wait_readv; iovecs = iovecs; iov_count = count }

  unfoldable pub writev : Option ℕ → ℕ → Action R
  unfolding continue_
  writev iovecs count = record continue_ {
    signal = wait_writev;
    iovecs = iovecs;
    iov_count = count;
  }

  unfoldable pub connect : ℕ → Action R
  unfolding continue_
  connect host = record continue_ { signal = wait_connect; connect_host = host }

  unfoldable pub complete : R → Action R
  unfolding continue_
  complete result = record continue_ { signal = completes; result = some result }

  unfoldable pub fail : IoError → Action R
  unfolding continue_
  fail error = record continue_ { signal = fails; error = some error }
