-- ===== src/Handlers/Outcome.antt =====
-- Which outcomes of a system call end an operation (galay-kernel/kernel/io_handlers.hpp).
use galay_kernel.Prelude.{
  ℕ, ◌≡◌, ◌≤◌, ◌<◌, refl, sym, ◌∙◌, ap, Bool, true, false, ◌==◌, Option, none, some, word32, arith,
  if_elim, subst,
}
use galay_kernel.Error
use galay_kernel.Error.{IoError, Result, value, unexpected, Done, done}
use galay_kernel.Error.Pack.{contains-make}
use galay_kernel.UringRecv.{error, is_transient, not_ready}
use galay_kernel.Handlers.{
  Operation, connecting, numbered, handle_connect, accepting, receiving, sending, receiving_v,
  sending_v, receiving_from, sending_to, reading_file, writing_file, sending_file, failure,
  complete, handle_complete,
}

-- The category under which an operation reports its failures.
abbrev pub error_of : Operation → ℕ
error_of connecting = 6
error_of accepting = 5
error_of receiving = 3
error_of sending = 4
error_of receiving_v = 3
error_of sending_v = 4
error_of receiving_from = 3
error_of sending_to = 4
error_of reading_file = 10
error_of writing_file = 11
error_of sending_file = 4

-- The errors after which an operation waits for its next event: EINPROGRESS for a connect, and EAGAIN,
-- EWOULDBLOCK and EINTR for the others.
abbrev pub waits_on : Operation → ℕ → Bool
waits_on connecting errno = errno == 115
waits_on accepting errno = is_transient errno
waits_on receiving errno = is_transient errno
waits_on sending errno = is_transient errno
waits_on receiving_v errno = is_transient errno
waits_on sending_v errno = is_transient errno
waits_on receiving_from errno = is_transient errno
waits_on sending_to errno = is_transient errno
waits_on reading_file errno = is_transient errno
waits_on writing_file errno = is_transient errno
waits_on sending_file errno = is_transient errno

-- EISCONN says that a connect has been made already.
abbrev pub succeeds_on : Operation → ℕ → Bool
succeeds_on connecting errno = errno == 106
succeeds_on accepting errno = false
succeeds_on receiving errno = false
succeeds_on sending errno = false
succeeds_on receiving_v errno = false
succeeds_on sending_v errno = false
succeeds_on receiving_from errno = false
succeeds_on sending_to errno = false
succeeds_on reading_file errno = false
succeeds_on writing_file errno = false
succeeds_on sending_file errno = false

-- The awaitable waits for the next event, or it has the error of its operation with the
-- `errno`, or its connection.
pub data Failed (op : Operation) (errno : ℕ) : Option (Result ℕ) → Type 0 where
  waits_again : waits_on op errno ≡ true → Failed op errno none
  is_connected : succeeds_on op errno ≡ true → Failed op errno (some (value 0))
  fails :
      (e : IoError)
      → waits_on op errno ≡ false
      → succeeds_on op errno ≡ false
      → Error.message_parts e ≡ (error_of op, errno)
      → Failed op errno (some (unexpected e))

not_ready-complete : {A : Type 0} → complete {A = A} (unexpected not_ready) ≡ none
unfolding complete not_ready
not_ready-complete {A} =
    if_elim (λ (r : Option (Result A)). r ≡ none) (Error.contains not_ready.code 1) (λ _. refl)
      (λ other.
        let it_does : Error.contains not_ready.code 1 ≡ true =
          ((contains-make 1 0 (omega arith) (omega arith)).0 1).1 refl in
        absurd (cc))

lasting-Failed :
    (op : Operation) (code errno : ℕ)
    → code ≡ error_of op
    → waits_on op errno ≡ false
    → succeeds_on op errno ≡ false
    → 1 < code
    → code ≤ 16
    → errno < word32
    → Failed op errno (complete (unexpected (Error.make code errno)))
unfolding complete
lasting-Failed op code errno e lasts failing other known fits =
    let packed = contains-make code errno (omega arith) (omega arith) in
    if_elim (λ (r : Option (Result ℕ)). Failed op errno r)
      (Error.contains (Error.make code errno).code 1)
      (λ same. let is_one : 1 ≡ code = (packed.0 1).0 same in absurd (omega arith))
      (λ _. fails (Error.make code errno) lasts failing (packed.1 ∙ ap (λ c. (c, errno)) e))

failure-Failed :
    (op : Operation) (code errno : ℕ)
    → code ≡ error_of op
    → waits_on op errno ≡ is_transient errno
    → succeeds_on op errno ≡ false
    → 1 < code
    → code ≤ 16
    → errno < word32
    → Failed op errno (complete (failure code errno))
unfolding failure
failure-Failed op code errno e waiting failing other known fits =
    if_elim (λ (r : Result ℕ). Failed op errno (complete r)) (is_transient errno)
      (λ passes. subst (Failed op errno) (sym not_ready-complete) (waits_again (waiting ∙ passes)))
      (λ lasts. lasting-Failed op code errno e (waiting ∙ lasts) failing other known fits)

connect-Failed :
    (errno : ℕ)
    → errno < word32
    → Failed connecting errno (complete (numbered (handle_connect (error errno))))
unfolding handle_connect numbered complete
connect-Failed errno fits =
    if_elim (λ (r : Result Done). Failed connecting errno (complete (numbered r))) (errno == 115)
      (λ passes. subst (Failed connecting errno) (sym not_ready-complete) (waits_again passes))
      (λ lasts.
        if_elim (λ (r : Result Done). Failed connecting errno (complete (numbered r)))
          (errno == 106) (λ made. is_connected made)
          (λ failing.
            lasting-Failed connecting 6 errno refl lasts failing (omega arith) (omega arith) fits))

-- With epoll, when the system call of a connect, an accept, one of the sends, recvs, readv and writev,
-- a read or write of a file or a sendfile fails: a connect goes on waiting for EINPROGRESS and has
-- succeeded for EISCONN, every other operation goes on waiting for EAGAIN, EWOULDBLOCK and EINTR, and
-- no operation waits for anything else; any other error ends it, and the awaitable has the category of
-- its operation and the very errno, below 2^32, both of which can be read back.
pub handle_complete-Failed :
    (op : Operation) (errno : ℕ)
    → errno < word32
    → Failed op errno (handle_complete op (error errno))
unfolding handle_complete
handle_complete-Failed connecting errno h = connect-Failed errno h
handle_complete-Failed accepting errno h =
    failure-Failed accepting 5 errno refl refl refl (omega arith) (omega arith) h
handle_complete-Failed receiving errno h =
    failure-Failed receiving 3 errno refl refl refl (omega arith) (omega arith) h
handle_complete-Failed sending errno h =
    failure-Failed sending 4 errno refl refl refl (omega arith) (omega arith) h
handle_complete-Failed receiving_v errno h =
    failure-Failed receiving_v 3 errno refl refl refl (omega arith) (omega arith) h
handle_complete-Failed sending_v errno h =
    failure-Failed sending_v 4 errno refl refl refl (omega arith) (omega arith) h
handle_complete-Failed receiving_from errno h =
    failure-Failed receiving_from 3 errno refl refl refl (omega arith) (omega arith) h
handle_complete-Failed sending_to errno h =
    failure-Failed sending_to 4 errno refl refl refl (omega arith) (omega arith) h
handle_complete-Failed reading_file errno h =
    failure-Failed reading_file 10 errno refl refl refl (omega arith) (omega arith) h
handle_complete-Failed writing_file errno h =
    failure-Failed writing_file 11 errno refl refl refl (omega arith) (omega arith) h
handle_complete-Failed sending_file errno h =
    failure-Failed sending_file 4 errno refl refl refl (omega arith) (omega arith) h
