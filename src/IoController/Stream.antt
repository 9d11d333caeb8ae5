-- ===== src/IoController/Stream.antt =====
-- The queue of received chunks of galay-kernel/kernel/io_controller.hpp as a stream of bytes in which
-- an end or an error stands at its place.
use galay_kernel.Prelude.{
  ℕ, zero, suc, ◌+◌, ◌-◌, ◌≤◌, ◌<◌, ◌≡◌, refl, sym, ◌∙◌, ap, List, [], ◌∷◌, ◌++◌, length, take,
  drop, arith,
}
use galay_kernel.Error.{Result}
use galay_kernel.IoController.ReadyRecv.{Chunk, buffer, release, by_kind}

pub data Item : Type 0 where
  byte : (b : ℕ) → Item
  mark : (r : Result ℕ) → Item

abbrev pub bytes_then : List ℕ → List Item → List Item
bytes_then [] xs = xs
bytes_then (b ∷ bs) xs = byte b ∷ bytes_then bs xs

abbrev pub bytes_of : Chunk → List ℕ
bytes_of c = take c.length (drop c.offset c.data_bytes)

abbrev pub items : List Chunk → List Item
items [] = []
items (c ∷ cs) = by_kind c.kind (mark c.result ∷ items cs) (bytes_then (bytes_of c) (items cs))

-- The bytes in front of the first mark, at most `n`, and what follows them.
abbrev pub leading : ℕ → List Item → List ℕ × List Item
leading zero xs = ([], xs)
leading (suc n) [] = ([], [])
leading (suc n) (mark r ∷ xs) = ([], mark r ∷ xs)
leading (suc n) (byte b ∷ xs) = let (bs, rest) = leading n xs in (b ∷ bs, rest)

-- The buffers that the chunks of a queue still hold.
abbrev pub held : List Chunk → List ℕ
held [] = []
held (c ∷ cs) = release c ++ held cs

pub record IsChunk (c : Chunk) : Type 0 where
  pub filled : c.kind ≡ buffer → 0 < c.length
  pub inside : c.kind ≡ buffer → c.offset + c.length ≤ length c.data_bytes

unfoldable pub AllChunks : List Chunk → Type 0
AllChunks [] = zero ≡ zero
AllChunks (c ∷ cs) = IsChunk c × AllChunks cs

pub leading-mark :
    (n : ℕ) (r : Result ℕ) (xs : List Item) → leading n (mark r ∷ xs) ≡ ([], mark r ∷ xs)
leading-mark zero r xs = refl
leading-mark (suc n) r xs = refl

pub leading-all :
    (bs : List ℕ) (k : ℕ) (xs : List Item)
    → leading (length bs + k) (bytes_then bs xs)
      ≡ (let (out, rest) = leading k xs in (bs ++ out, rest))
leading-all [] k xs = ap (λ j. leading j xs) (let e : 0 + k ≡ k = omega arith in e)
leading-all (b ∷ bs) k xs =
    ap (λ j. leading j (byte b ∷ bytes_then bs xs))
      (let e : suc (length bs) + k ≡ suc (length bs + k) = omega arith in e)
    ∙ ap (λ (r : List ℕ × List Item). (b ∷ r.0, r.1)) (leading-all bs k xs)

pub leading-some :
    (n : ℕ) (bs : List ℕ) (xs : List Item)
    → n ≤ length bs
    → leading n (bytes_then bs xs) ≡ (take n bs, bytes_then (drop n bs) xs)
leading-some zero bs xs h = refl
leading-some (suc n) [] xs h = absurd (omega arith)
leading-some (suc n) (b ∷ bs) xs h =
    ap (λ (r : List ℕ × List Item). (b ∷ r.0, r.1)) (leading-some n bs xs (omega arith))

pub take-take : (n k : ℕ) (xs : List ℕ) → n ≤ k → take n (take k xs) ≡ take n xs
take-take zero k xs h = refl
take-take (suc n) zero xs h = absurd (omega arith)
take-take (suc n) (suc k) [] h = refl
take-take (suc n) (suc k) (x ∷ xs) h = ap (λ ys. x ∷ ys) (take-take n k xs (omega arith))

take-nil : (j : ℕ) → take {A = ℕ} j [] ≡ []
take-nil zero = refl
take-nil (suc j) = refl

drop-nil : (j : ℕ) → drop {A = ℕ} j [] ≡ []
drop-nil zero = refl
drop-nil (suc j) = refl

pub drop-take : (n k : ℕ) (xs : List ℕ) → drop n (take k xs) ≡ take (k - n) (drop n xs)
drop-take zero k xs = ap (λ j. take j xs) (let e : k ≡ k - 0 = omega arith in e)
drop-take (suc n) zero xs =
    ap (λ j. take j (drop (suc n) xs)) (let e : 0 ≡ 0 - suc n = omega arith in e)
drop-take (suc n) (suc k) [] = sym (take-nil (suc k - suc n))
drop-take (suc n) (suc k) (x ∷ xs) =
    drop-take n k xs
    ∙ ap (λ j. take j (drop n xs)) (let e : k - n ≡ suc k - suc n = omega arith in e)

pub drop-drop : (n k : ℕ) (xs : List ℕ) → drop n (drop k xs) ≡ drop (k + n) xs
drop-drop n zero xs = ap (λ j. drop j xs) (let e : n ≡ 0 + n = omega arith in e)
drop-drop n (suc k) [] =
    drop-nil n ∙ ap (λ j. drop j []) (let e : suc (k + n) ≡ suc k + n = omega arith in e)
drop-drop n (suc k) (x ∷ xs) =
    drop-drop n k xs
    ∙ ap (λ j. drop j (x ∷ xs)) (let e : suc (k + n) ≡ suc k + n = omega arith in e)
