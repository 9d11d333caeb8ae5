-- ===== src/UringRecv.antt =====
-- recv with io_uring: addRecv, submitMultishotRecv and processRecvCompletion of
-- galay-kernel/kernel/uring_reactor.cc, over the queue of received chunks. One multishot request fills
-- buffers of a shared pool, whether or not a recv waits. The memory of the pool is a parameter of a
-- completion, and so is whether a request can be submitted. Error numbers are Linux's. The epoch of
-- the request tokens is not part of this module.
pub mod Strands
pub mod Delivers
pub mod Wakes
mod Tests
use galay_kernel.Prelude.{
  ℕ, Bool, true, false, not, ◌&&◌, ◌||◌, ◌==◌, Option, none, some, is_some, List, [], ◌∷◌,
  if◌then◌else◌,
}
use galay_kernel.Error
use galay_kernel.Error.{Result, value, unexpected}
use galay_kernel.IoController.ReadyRecv.{
  Chunk, buffer, eof, erred, Queue, Consumed, enqueue_ready_recv, try_consume_ready_recv,
}

-- EAGAIN, which is EWOULDBLOCK, or EINTR
unfoldable pub is_transient : ℕ → Bool
is_transient errno = errno == 11 || errno == 4

-- `res` of a completion: the number of bytes, or an error number with its sign turned.
pub data Res : Type 0 where
  bytes : (n : ℕ) → Res
  error : (errno : ℕ) → Res

pub record Cqe : Type 0 where
  pub res : Res
  -- The buffer that was filled, if IORING_CQE_F_BUFFER is set.
  pub bid : Option ℕ
  -- IORING_CQE_F_MORE
  pub more : Bool

-- A recv that is suspended: the room of its buffer and, once set, `m_result` with the bytes in front
-- of the buffer.
pub record Recv : Type 0 where
  pub length : ℕ
  pub result : Option (Result ℕ)
  pub written : List ℕ

pub record Controller : Type 0 where
  pub queue : Queue
  pub recv_multishot_armed : Bool
  pub recv_result_assigned : Bool

pub recv_failed : ℕ → Error.IoError
recv_failed errno = Error.make 3 errno

-- kNotReady
unfoldable pub not_ready : Error.IoError
not_ready = Error.make 1 0

mark_chunk : Bool → Result ℕ → Chunk
mark_chunk is_eof r = record {
  pooled = false;
  data_bytes = [];
  bid = 0;
  offset = 0;
  length = 0;
  kind = if is_eof then eof else erred;
  result = r;
}

-- The chunk of `n` bytes in the buffer `bid`, whose memory is `memory`.
filled_chunk : ℕ → ℕ → Option (List ℕ) → Chunk
unfolding mark_chunk recv_failed
filled_chunk n bid none = mark_chunk false (unexpected (recv_failed 22))
filled_chunk n bid (some memory) = record {
  pooled = true;
  data_bytes = memory;
  bid = bid;
  offset = 0;
  length = n;
  kind = buffer;
  result = value 0;
}

buffer_chunk : ℕ → Option ℕ → (ℕ → Option (List ℕ)) → Chunk
unfolding filled_chunk mark_chunk recv_failed
buffer_chunk n none pool = mark_chunk false (unexpected (recv_failed 22))
buffer_chunk n (some bid) pool = filled_chunk n bid (pool bid)

-- What a completion adds to the queue.
pub chunk_of : (ℕ → Option (List ℕ)) → Cqe → Res → Option Chunk
unfolding buffer_chunk mark_chunk recv_failed is_transient
chunk_of pool cqe (bytes n) =
    if n == 0 then some (mark_chunk true (value 0)) else some (buffer_chunk n cqe.bid pool)
chunk_of pool cqe (error errno) =
    if is_transient errno || errno == 105
    then none
    else some (mark_chunk false (unexpected (recv_failed errno)))

-- io::handleRecv of a completion.
pub handle_recv : Res → Result ℕ
unfolding is_transient recv_failed not_ready
handle_recv (bytes n) = value n
handle_recv (error errno) =
    if is_transient errno then unexpected not_ready else unexpected (recv_failed errno)

-- RecvIOContext::handleComplete: `m_result` if the operation is done.
handle_complete : Result ℕ → Option (Result ℕ)
handle_complete (value n) = some (value n)
handle_complete (unexpected e) = if Error.contains e.code 1 then none else some (unexpected e)

-- ENOBUFS
pub is_exhausted : Res → Bool
is_exhausted (bytes n) = false
is_exhausted (error errno) = errno == 105

delivered : Recv → Controller → Option Consumed → Bool × Recv × Controller
delivered a c none = (false, a, c)
delivered a c (some k) = (
  true,
  record a { result = some k.result; written = k.written },
  record c { queue = k.queue; recv_result_assigned = true },
)

pub consume_into : Recv → Controller → Bool × Recv × Controller
unfolding delivered
consume_into a c = delivered a c (try_consume_ready_recv a.length c.queue)

completed_with : Option (Result ℕ) → Recv → Controller → Bool × Recv × Controller
unfolding consume_into
completed_with none a c = (false, a, c)
completed_with (some r) a c = consume_into (record a { result = some r }) c

-- What a completion does for a suspended recv; the flag says that its coroutine is woken.
pub offer : Cqe → Recv → Controller → Bool × Recv × Controller
unfolding completed_with is_exhausted handle_recv handle_complete
offer cqe a c =
    if c.recv_result_assigned
    then (false, a, c)
    else if is_exhausted cqe.res
    then consume_into a c
    else completed_with (handle_complete (handle_recv cqe.res)) a c

pub enqueue : Option Chunk → Controller → Controller
enqueue none c = c
enqueue (some chunk) c = record c { queue = enqueue_ready_recv chunk c.queue }

disarm : Bool → Controller → Controller
disarm more c = if more then c else record c { recv_multishot_armed = false }

-- processRecvCompletion while a recv is suspended, and while none is.
pub process_recv_completion :
    (ℕ → Option (List ℕ)) → Cqe → Recv → Controller → Bool × Recv × Controller
unfolding enqueue chunk_of offer disarm
process_recv_completion pool cqe a c =
    let (woken, a', c') = offer cqe a (enqueue (chunk_of pool cqe cqe.res) c) in
    (woken, a', disarm cqe.more c')

pub process_unawaited : (ℕ → Option (List ℕ)) → Cqe → Controller → Controller
unfolding enqueue chunk_of disarm
process_unawaited pool cqe c = disarm cqe.more (enqueue (chunk_of pool cqe cqe.res) c)

pub data Added : Type 0 where
  immediate_ready : Added
  waits : Added
  refused : (errno : ℕ) → Added

-- submitMultishotRecv, of which `submitted` says what error it ended with.
submit_multishot_recv : Option ℕ → Controller → Added × Controller
submit_multishot_recv none c = (waits, record c { recv_multishot_armed = true })
submit_multishot_recv (some errno) c = (refused errno, c)

add_after : Option ℕ → Bool × Recv × Controller → Added × Recv × Controller
unfolding submit_multishot_recv
add_after submitted (true, a, c) = (immediate_ready, a, c)
add_after submitted (false, a, c) =
    let (added, c') = submit_multishot_recv submitted c in
    if c.recv_multishot_armed then (waits, a, c) else (added, a, c')

pub take_ready : Recv → Controller → Option Consumed → Bool × Recv × Controller
take_ready a c none = (false, a, c)
take_ready a c (some k) =
    (true, record a { result = some k.result; written = k.written }, record c { queue = k.queue })

pub add_recv : Option ℕ → Recv → Controller → Added × Recv × Controller
unfolding add_after take_ready
add_recv submitted a c =
    add_after submitted (take_ready a c (try_consume_ready_recv a.length c.queue))

-- The start of RecvAwaitable::await_resume.
pub resume : Controller → Controller
resume c = record c { recv_result_assigned = false }
