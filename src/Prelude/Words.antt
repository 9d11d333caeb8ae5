-- ===== src/Prelude/Words.antt =====
-- Unsigned machine words: the wrap of `uint64_t` and `uint32_t` is written out.
use Prim.Native.Nat.{ℕ, ◌+◌, ◌-◌, ◌%◌, ◌^◌}

abbrev pub word64 : ℕ
word64 = 2 ^ 64

abbrev pub word32 : ℕ
word32 = 2 ^ 32

abbrev pub add64 : ℕ → ℕ → ℕ
add64 a b = (a + b) % word64

-- For `a` and `b` below the modulus.
abbrev pub sub64 : ℕ → ℕ → ℕ
sub64 a b = (a + word64 - b) % word64

abbrev pub add32 : ℕ → ℕ → ℕ
add32 a b = (a + b) % word32

abbrev pub sub32 : ℕ → ℕ → ℕ
sub32 a b = (a + word32 - b) % word32
