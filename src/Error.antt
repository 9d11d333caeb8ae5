-- ===== src/Error.antt =====
-- galay-kernel/common/error.h and error.cc: an error category and a system error in one word of 64
-- bits. An IOErrorCode is its number. `x << 32` is a product, and `|` with a number below 2^32 adds
-- to it. The texts of `message` are left out, not which of them is looked up.
pub mod Pack
mod Tests
use galay_kernel.Prelude.{ℕ, ◌+◌, ◌*◌, ◌/◌, ◌%◌, Bool, ◌==◌, word64, word32}

abbrev pub disconnect_error : ℕ
disconnect_error = 0

-- kNotRunningOnIOScheduler, the last enumerator.
abbrev pub not_running_on_io_scheduler : ℕ
not_running_on_io_scheduler = 16

-- The number of texts in `error_string`.
abbrev pub text_count : ℕ
text_count = 17

pub record IoError : Type 0 where
  pub code : ℕ  -- uint64_t

pub make_error_code : ℕ → ℕ → ℕ
make_error_code io_error_code system_code = (system_code * word32) % word64 + io_error_code

pub make : ℕ → ℕ → IoError
unfolding make_error_code
make io_error_code system_code = record { code = make_error_code io_error_code system_code }

pub contains : ℕ → ℕ → Bool
contains error code = code == error % word32

-- The index of the text that `message` takes, and the system error that it appends.
pub message_parts : IoError → ℕ × ℕ
message_parts e = (e.code % word32, e.code / word32)

pub reset : IoError → IoError
reset e = record { code = 0 }

-- std::expected<A, IOError>
pub data Result {ℓ} (A : Type ℓ) : Type ℓ where
  value : (a : A) → Result A
  unexpected : (e : IoError) → Result A

-- std::expected<void, IOError>
pub data Done : Type 0 where
  done : Done
