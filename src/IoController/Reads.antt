-- ===== src/IoController/Reads.antt =====
-- What tryConsumeReadyRecv of galay-kernel/kernel/io_controller.hpp gives to a recv.
use mathlib.Core.List.{append_assoc, append-nil}
use galay_kernel.Prelude.{
  ℕ, ◌+◌, ◌-◌, ◌≤◌, ◌<◌, ◌≡◌, refl, sym, ◌∙◌, ap, subst, List, [], ◌∷◌, ◌++◌, leb, ◌==◌,
  if◌then◌else◌, if_elim, length, length-append, length-take, length-drop, take, drop, arith,
}
use galay_kernel.Error.{value}
use galay_kernel.IoController.ReadyRecv.{
  Chunk, Kind, buffer, Consumed, release, taken, consume, consume_mark, by_kind,
}
use galay_kernel.IoController.Stream.{
  Item, mark, bytes_then, bytes_of, items, leading, held, IsChunk, AllChunks, leading-mark,
  leading-all, leading-some, take-take, drop-take, drop-drop,
}

-- `c` is what a recv with room for `capacity` bytes gets from `chunks` after `written`.
pub record Reads (capacity : ℕ) (before : List ℕ) (chunks : List Chunk) (pool : List ℕ)
    (c : Consumed) : Type 0 where
  pub valid : AllChunks c.queue.ready_recvs
  pub written : c.written ≡ before ++ (leading (capacity - length before) (items chunks)).0
  pub left : items c.queue.ready_recvs ≡ (leading (capacity - length before) (items chunks)).1
  pub counted : c.result ≡ value (length c.written)
  pub recycled : c.queue.recycled ++ held c.queue.ready_recvs ≡ pool ++ held chunks

pub bytes_of-length : (c : Chunk) → IsChunk c → c.kind ≡ buffer → length (bytes_of c) ≡ c.length
bytes_of-length c v e = omega (
  arith,
  length-take c.length (drop c.offset c.data_bytes),
  length-drop c.offset c.data_bytes,
  v.inside e,
)

-- The whole chunk is taken.
whole-Reads :
    (capacity : ℕ) (written : List ℕ) (c : Chunk) (cs : List Chunk) (recycled : List ℕ)
    (r : Consumed)
    → IsChunk c
    → c.kind ≡ buffer
    → length written + c.length ≤ capacity
    → Reads capacity (written ++ bytes_of c) cs (recycled ++ release c) r
    → Reads capacity written (c ∷ cs) recycled r
unfolding by_kind
whole-Reads capacity written c cs recycled r v e fits h =
    let len : length (bytes_of c) ≡ c.length = bytes_of-length c v e in
    let k = capacity - length (written ++ bytes_of c) in
    let room : capacity - length written ≡ length (bytes_of c) + k =
      omega (arith, length-append written (bytes_of c)) in
    let lead : leading (capacity - length written) (items (c ∷ cs))
        ≡ (bytes_of c ++ (leading k (items cs)).0, (leading k (items cs)).1) =
      ap
        (λ kind.
          leading (capacity - length written)
            (by_kind kind (mark c.result ∷ items cs) (bytes_then (bytes_of c) (items cs))))
        e
      ∙ ap (λ n. leading n (bytes_then (bytes_of c) (items cs))) room
      ∙ leading-all (bytes_of c) k (items cs) in
    record {
      valid = h.valid;
      written =
          h.written
          ∙ append_assoc written (bytes_of c) (leading k (items cs)).0
          ∙ ap (λ (x : List ℕ × List Item). written ++ x.0) (sym lead);
      left = h.left ∙ ap (λ (x : List ℕ × List Item). x.1) (sym lead);
      counted = h.counted;
      recycled = h.recycled ∙ append_assoc recycled (release c) (held cs);
    }

-- The room ends within the chunk.
part-Reads :
    (capacity bytes : ℕ) (written : List ℕ) (c : Chunk) (cs : List Chunk) (recycled : List ℕ)
    → IsChunk c
    → AllChunks cs
    → c.kind ≡ buffer
    → bytes ≡ capacity - length written
    → bytes < c.length
    → Reads capacity written (c ∷ cs) recycled (record {
      result = value (length written + bytes);
      written = written ++ take bytes (drop c.offset c.data_bytes);
      queue = record {
        ready_recvs = record c { offset = c.offset + bytes; length = c.length - bytes } ∷ cs;
        recycled = recycled;
      };
    })
unfolding AllChunks by_kind release
part-Reads capacity bytes written c cs recycled v vs e room short =
    let n = capacity - length written in
    let here = drop c.offset c.data_bytes in
    let len : length (bytes_of c) ≡ c.length = bytes_of-length c v e in
    let lead : leading n (items (c ∷ cs))
        ≡ (take bytes (bytes_of c), bytes_then (drop bytes (bytes_of c)) (items cs)) =
      ap
        (λ kind.
          leading n (by_kind kind (mark c.result ∷ items cs) (bytes_then (bytes_of c) (items cs))))
        e
      ∙ ap (λ k. leading k (bytes_then (bytes_of c) (items cs))) (sym room)
      ∙ leading-some bytes (bytes_of c) (items cs) (omega arith) in
    let later : drop bytes (bytes_of c)
        ≡ take (c.length - bytes) (drop (c.offset + bytes) c.data_bytes) =
      drop-take bytes c.length here
      ∙ ap (take (c.length - bytes)) (drop-drop bytes c.offset c.data_bytes) in
    let now : take bytes (bytes_of c) ≡ take bytes here =
      take-take bytes c.length here (omega arith) in
    record {
      valid = (record { filled = λ _. omega arith; inside = λ _. omega (arith, v.inside e) }, vs);
      written =
          ap (λ xs. written ++ xs) (sym now ∙ ap (λ (x : List ℕ × List Item). x.0) (sym lead));
      left =
          ap
            (λ kind. by_kind kind (mark c.result ∷ items cs) (
              bytes_then (take (c.length - bytes) (drop (c.offset + bytes) c.data_bytes))
                (items cs)))
            e
          ∙ ap (λ xs. bytes_then xs (items cs)) (sym later)
          ∙ ap (λ (x : List ℕ × List Item). x.1) (sym lead);
      counted = ap value (
          omega (
            arith,
            length-append written (take bytes here),
            ap length now,
            length-take bytes (bytes_of c),
          ));
      recycled = refl;
    }

pub mark-Reads :
    (capacity : ℕ) (written : List ℕ) (c : Chunk) (cs : List Chunk) (recycled : List ℕ)
    → AllChunks (c ∷ cs)
    → items (c ∷ cs) ≡ mark c.result ∷ items cs
    → 0 < length written
    → Reads capacity written (c ∷ cs) recycled (consume_mark written c cs recycled)
unfolding consume_mark
mark-Reads capacity written c cs recycled v e begun =
    let lead = leading-mark (capacity - length written) c.result (items cs) in
    let here : leading (capacity - length written) (items (c ∷ cs)) ≡ ([], items (c ∷ cs)) =
      ap (leading (capacity - length written)) e
      ∙ lead
      ∙ ap (λ (xs : List Item). ([], xs)) (sym e) in
    if_elim (Reads capacity written (c ∷ cs) recycled) (length written == 0)
      (λ none_yet. absurd (ground (arith)))
      (λ _. record {
        valid = v;
        written =
            sym (append-nil written) ∙ ap (λ (x : List ℕ × List Item). written ++ x.0) (sym here);
        left = ap (λ (x : List ℕ × List Item). x.1) (sym here);
        counted = refl;
        recycled = refl;
      })

pub bytes-by_kind : {A : Type 0} (k : Kind) (m b : A) → k ≡ buffer → b ≡ by_kind k m b
unfolding by_kind
bytes-by_kind k m b e = ap (λ j. by_kind j m b) (sym e)

-- There is no room left.
full-Reads :
    (capacity : ℕ) (written : List ℕ) (cs : List Chunk) (recycled : List ℕ)
    → AllChunks cs
    → capacity ≤ length written
    → Reads capacity written cs recycled (record {
      result = value (length written);
      written = written;
      queue = record { ready_recvs = cs; recycled = recycled };
    })
full-Reads capacity written cs recycled vs full =
    let none_left : 0 ≡ capacity - length written = omega arith in
    record {
      valid = vs;
      written = sym (append-nil written) ∙ ap (λ n. written ++ (leading n (items cs)).0) none_left;
      left = ap (λ n. (leading n (items cs)).1) none_left;
      counted = refl;
      recycled = refl;
    }

-- What the rounds after a chunk that is spent give.
after_chunk : ℕ → ℕ → List ℕ → List Chunk → List ℕ → Consumed
unfolding consume
after_chunk capacity total_bytes more cs recycled =
    if leb capacity total_bytes
    then record {
      result = value total_bytes;
      written = more;
      queue = record { ready_recvs = cs; recycled = recycled };
    }
    else consume capacity more cs recycled

after_chunk-Reads :
    (capacity total_bytes : ℕ) (more : List ℕ) (cs : List Chunk) (recycled : List ℕ)
    → AllChunks cs
    → total_bytes ≡ length more
    → Reads capacity more cs recycled (consume capacity more cs recycled)
    → Reads capacity more cs recycled (after_chunk capacity total_bytes more cs recycled)
unfolding after_chunk
after_chunk-Reads capacity total_bytes more cs recycled vs total rest =
    if_elim (Reads capacity more cs recycled) (leb capacity total_bytes)
      (λ full.
        subst
          (λ n. Reads capacity more cs recycled (record {
            result = value n;
            written = more;
            queue = record { ready_recvs = cs; recycled = recycled };
          }))
          (sym total) (full-Reads capacity more cs recycled vs (ground (arith))))
      (λ _. rest)

-- A round on a chunk of bytes, if the rounds after it do as they should.
pub bytes-Reads :
    (capacity : ℕ) (written : List ℕ) (c : Chunk) (cs : List Chunk) (recycled : List ℕ)
    → IsChunk c
    → AllChunks cs
    → c.kind ≡ buffer
    → ((more : List ℕ)
        → 0 < length more
        → Reads capacity more cs
            (recycled ++ release c)
            (consume capacity more cs (recycled ++ release c)))
    → Reads capacity written (c ∷ cs) recycled (consume capacity written (c ∷ cs) recycled)
unfolding consume taken after_chunk
bytes-Reads capacity written c cs recycled v vs e rest =
    let filled : 0 < c.length = v.filled e in
    let bytes = taken capacity written c in
    let here = drop c.offset c.data_bytes in
    let len : length (bytes_of c) ≡ c.length = bytes_of-length c v e in
    let longer = length-append written (bytes_of c) in
    subst (Reads capacity written (c ∷ cs) recycled) (bytes-by_kind c.kind _ _ e) (
      if_elim (Reads capacity written (c ∷ cs) recycled) (c.length - bytes == 0)
        (λ spent.
          let all : c.length ≡ bytes = ground (arith) in
          subst
            (λ b. Reads capacity written (c ∷ cs) recycled (
              after_chunk capacity (length written + b) (written ++ take b here) cs
                (recycled ++ release c)))
            all
            (whole-Reads capacity written c cs recycled _ v e (ground (arith)) (
              after_chunk-Reads capacity (length written + c.length) (written ++ bytes_of c) cs
                (recycled ++ release c) vs (omega arith)
                (rest (written ++ bytes_of c) (omega arith)))))
        (λ some_left.
          part-Reads capacity bytes written c cs recycled v vs e (ground (arith)) (ground (arith))))
