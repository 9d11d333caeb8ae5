-- ===== src/Handlers.antt =====
-- galay-kernel/kernel/io_handlers.hpp and awaitable.inl for epoll: one system call for each operation,
-- and what its outcome means for the awaitable. The outcome of a system call is a parameter: the
-- number it returns, or `errno`. Peer addresses are left out, and so is the file watch, whose
-- handleComplete is always done: it does not look at the error.
pub mod Outcome
mod Tests
use galay_kernel.Prelude.{ℕ, zero, Bool, true, false, ◌||◌, ◌==◌, Option, none, some, if◌then◌else◌}
use galay_kernel.Error
use galay_kernel.Error.{IoError, Result, value, unexpected, Done, done}
use galay_kernel.UringRecv.{Res, bytes, error, is_transient, not_ready}

-- A failed call: `code` is the error of the operation.
unfoldable pub failure {ℓ} : {A : Type ℓ} → ℕ → ℕ → Result A
unfolding is_transient not_ready
failure code errno =
    if is_transient errno then unexpected not_ready else unexpected (Error.make code errno)

-- kAcceptFailed and the descriptor
unfoldable pub handle_accept : Res → Result ℕ
unfolding failure
handle_accept (bytes fd) = value fd
handle_accept (error errno) = failure 5 errno

unfoldable pub handle_recv : Res → Result ℕ
unfolding failure
handle_recv (bytes n) = value n
handle_recv (error errno) = failure 3 errno

unfoldable pub handle_send : Res → Result ℕ
unfolding failure
handle_send (bytes n) = value n
handle_send (error errno) = failure 4 errno

-- No bytes are kDisconnectError here.
unfoldable pub handle_readv : Res → Result ℕ
unfolding failure
handle_readv (bytes n) = if n == 0 then unexpected (Error.make 0 0) else value n
handle_readv (error errno) = failure 3 errno

unfoldable pub handle_writev : Res → Result ℕ
unfolding failure
handle_writev (bytes n) = value n
handle_writev (error errno) = failure 4 errno

unfoldable pub handle_recv_from : Res → Result ℕ
unfolding failure
handle_recv_from (bytes n) = value n
handle_recv_from (error errno) = failure 3 errno

unfoldable pub handle_send_to : Res → Result ℕ
unfolding failure
handle_send_to (bytes n) = value n
handle_send_to (error errno) = failure 4 errno

unfoldable pub handle_file_read : Res → Result ℕ
unfolding failure
handle_file_read (bytes n) = value n
handle_file_read (error errno) = failure 10 errno

unfoldable pub handle_file_write : Res → Result ℕ
unfolding failure
handle_file_write (bytes n) = value n
handle_file_write (error errno) = failure 11 errno

unfoldable pub handle_send_file : Res → Result ℕ
unfolding failure
handle_send_file (bytes n) = value n
handle_send_file (error errno) = failure 4 errno

-- EINPROGRESS and EISCONN; connect returns no number but 0.
unfoldable pub handle_connect : Res → Result Done
unfolding not_ready
handle_connect (bytes n) = value done
handle_connect (error errno) =
    if errno == 115
    then unexpected not_ready
    else if errno == 106
    then value done
    else unexpected (Error.make 6 errno)

-- handleComplete: `m_result`, if the operation is done.
unfoldable pub complete {ℓ} : {A : Type ℓ} → Result A → Option (Result A)
complete (value a) = some (value a)
complete (unexpected e) = if Error.contains e.code 1 then none else some (unexpected e)

-- connect has no number to give: its success counts as 0 here.
pub numbered : Result Done → Result ℕ
numbered (value d) = value 0
numbered (unexpected e) = unexpected e

pub data Operation : Type 0 where
  connecting : Operation
  accepting : Operation
  receiving : Operation
  sending : Operation
  receiving_v : Operation
  sending_v : Operation
  receiving_from : Operation
  sending_to : Operation
  reading_file : Operation
  writing_file : Operation
  sending_file : Operation

-- handleComplete of the contexts, after the system call.
unfoldable pub handle_complete : Operation → Res → Option (Result ℕ)
unfolding complete numbered handle_connect handle_accept handle_recv handle_send handle_readv
    handle_writev handle_recv_from handle_send_to handle_file_read handle_file_write
    handle_send_file
handle_complete connecting r = complete (numbered (handle_connect r))
handle_complete accepting r = complete (handle_accept r)
handle_complete receiving r = complete (handle_recv r)
handle_complete sending r = complete (handle_send r)
handle_complete receiving_v r = complete (handle_readv r)
handle_complete sending_v r = complete (handle_writev r)
handle_complete receiving_from r = complete (handle_recv_from r)
handle_complete sending_to r = complete (handle_send_to r)
handle_complete reading_file r = complete (handle_file_read r)
handle_complete writing_file r = complete (handle_file_write r)
handle_complete sending_file r = complete (handle_send_file r)
