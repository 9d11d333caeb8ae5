-- ===== src/IoController/Tests.antt =====
-- The queue of received chunks at concrete inputs.
use galay_kernel.Prelude.{◌≡◌, refl, true, false, [], ◌∷◌, arith, some}
use galay_kernel.Error.{value}
use galay_kernel.IoController.ReadyRecv
use galay_kernel.IoController.ReadyRecv.{Chunk, Queue, buffer, eof, try_consume_ready_recv}
use galay_kernel.IoController.Stream.{AllChunks}
use galay_kernel.IoController.Recv.{Receives, try_consume_ready_recv-Receives}

abbrev hello : Queue
hello = record {
  ready_recvs =
      record {
        pooled = true;
        data_bytes = 9 ∷ 1 ∷ 2 ∷ [];
        bid = 7;
        offset = 1;
        length = 2;
        kind = buffer;
        result = value 0;
      }
      ∷ record {
        pooled = true;
        data_bytes = 3 ∷ 4 ∷ 5 ∷ [];
        bid = 8;
        offset = 0;
        length = 3;
        kind = buffer;
        result = value 0;
      }
      ∷ record {
        pooled = false;
        data_bytes = [];
        bid = 0;
        offset = 0;
        length = 0;
        kind = eof;
        result = value 0;
      }
      ∷ [];
  recycled = [];
}

hello-AllChunks : AllChunks hello.ready_recvs
unfolding AllChunks
hello-AllChunks = (
  record { filled = λ _. omega arith; inside = λ _. omega arith },
  (
    record { filled = λ _. omega arith; inside = λ _. omega arith },
    (record { filled = λ e. absurd (cc); inside = λ e. absurd (cc) }, refl),
  ),
)

try_consume_ready_recv-hello :
    try_consume_ready_recv 4 hello
    ≡ some (record {
      result = value 4;
      written = 1 ∷ 2 ∷ 3 ∷ 4 ∷ [];
      queue = record {
        ready_recvs =
            record {
              pooled = true;
              data_bytes = 3 ∷ 4 ∷ 5 ∷ [];
              bid = 8;
              offset = 2;
              length = 1;
              kind = buffer;
              result = value 0;
            }
            ∷ record {
              pooled = false;
              data_bytes = [];
              bid = 0;
              offset = 0;
              length = 0;
              kind = eof;
              result = value 0;
            }
            ∷ [];
        recycled = 7 ∷ [];
      };
    })
unfolding try_consume_ready_recv ReadyRecv.consume ReadyRecv.taken ReadyRecv.by_kind
    ReadyRecv.release ReadyRecv.unless_empty
try_consume_ready_recv-hello = refl

try_consume_ready_recv-Receives_example : Receives 4 hello (try_consume_ready_recv 4 hello)
try_consume_ready_recv-Receives_example = try_consume_ready_recv-Receives 4 hello hello-AllChunks
