-- ===== src/IoController/ReadyRecv.antt =====
-- ReadyRecvChunk and the queue of received chunks of galay-kernel/kernel/io_controller.hpp, which
-- io_uring fills ahead of the calls of recv. The buffer of a chunk is the list of its bytes. A chunk
-- that is released leaves the queue in the same breath; what remains of it is that its buffer went
-- back to the pool, which is kept as a list of buffer numbers.
use galay_kernel.Prelude.{
  ℕ, ◌+◌, ◌-◌, min, Bool, List, [], ◌∷◌, ◌++◌, ltb, leb, ◌==◌, if◌then◌else◌, length, take, drop,
  Option, none, some,
}
use galay_kernel.Error.{Result, value}

pub data Kind : Type 0 where
  buffer : Kind
  eof : Kind
  erred : Kind

pub record Chunk : Type 0 where
  -- `recycle` and `owner` are set.
  pub pooled : Bool
  pub data_bytes : List ℕ
  pub bid : ℕ
  pub offset : ℕ
  pub length : ℕ
  pub kind : Kind
  pub result : Result ℕ

pub record Queue : Type 0 where
  pub ready_recvs : List Chunk
  pub recycled : List ℕ

-- What `release` puts back.
unfoldable pub release : Chunk → List ℕ
release c = if c.pooled then c.bid ∷ [] else []

unfoldable pub enqueue_ready_recv : Chunk → Queue → Queue
enqueue_ready_recv c q = record q { ready_recvs = q.ready_recvs ++ c ∷ [] }

-- The result, the caller's buffer up to what was written, and the queue.
pub record Consumed : Type 0 where
  pub result : Result ℕ
  pub written : List ℕ
  pub queue : Queue

-- The case of an end or an error at the front, with the rest of the queue.
unfoldable pub consume_mark : List ℕ → Chunk → List Chunk → List ℕ → Consumed
unfolding release
consume_mark written c cs recycled =
    if length written == 0
    then record {
      result = c.result;
      written = written;
      queue = record { ready_recvs = cs; recycled = recycled ++ release c };
    }
    else record {
      result = value (length written);
      written = written;
      queue = record { ready_recvs = c ∷ cs; recycled = recycled };
    }

-- The number of bytes taken from a chunk.
unfoldable pub taken : ℕ → List ℕ → Chunk → ℕ
taken capacity written c =
    min c.length (if ltb (length written) capacity then capacity - length written else 0)

unfoldable pub by_kind : {A : Type 0} → Kind → A → A → A
by_kind buffer mark bytes = bytes
by_kind eof mark bytes = mark
by_kind erred mark bytes = mark

-- The loop of tryConsumeReadyRecv; `total_bytes` is the length of `written`. The last test of a round
-- reads the length of the chunk after it was released, which is 0.
unfoldable pub consume : ℕ → List ℕ → List Chunk → List ℕ → Consumed
unfolding consume_mark taken release by_kind
consume capacity written [] recycled = record {
  result = value (length written);
  written = written;
  queue = record { ready_recvs = []; recycled = recycled };
}
consume capacity written (c ∷ cs) recycled =
    let bytes = taken capacity written c in
    let more = written ++ take bytes (drop c.offset c.data_bytes) in
    let rest = consume capacity more cs (recycled ++ release c) in
    by_kind c.kind (consume_mark written c cs recycled) (
      if c.length - bytes == 0
      then (if leb capacity (length written + bytes)
          then record {
            result = value (length written + bytes);
            written = more;
            queue = record { ready_recvs = cs; recycled = recycled ++ release c };
          }
          else rest)
      else record {
        result = value (length written + bytes);
        written = more;
        queue = record {
          ready_recvs = record c { offset = c.offset + bytes; length = c.length - bytes } ∷ cs;
          recycled = recycled;
        };
      })

unfoldable pub unless_empty : List Chunk → Consumed → Option Consumed
unless_empty [] consumed = none
unless_empty (c ∷ cs) consumed = some consumed

-- Nothing is consumed from an empty queue.
unfoldable pub try_consume_ready_recv : ℕ → Queue → Option Consumed
unfolding consume unless_empty
try_consume_ready_recv capacity q =
    unless_empty q.ready_recvs (consume capacity [] q.ready_recvs q.recycled)

unfoldable pub clear_ready_recvs : List Chunk → List ℕ → Queue
unfolding release
clear_ready_recvs [] recycled = record { ready_recvs = []; recycled = recycled }
clear_ready_recvs (c ∷ cs) recycled = clear_ready_recvs cs (recycled ++ release c)
