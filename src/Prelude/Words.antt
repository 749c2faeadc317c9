-- ===== src/Prelude/Words.antt =====
-- Machine words: casts, shifts, the bit fields of `macro.h`, and the signed reading of a word.
use Prim.Native.Nat.{ℕ, ◌+◌, ◌-◌, ◌%◌, ◌^◌}
use mathlib.Core.Bool.{Bool, true, false}
use ysyxworkbench.Prelude.Tests.{ltb}

abbrev pub u8 : ℕ → ℕ
u8 n = n % 2 ^ 8

abbrev pub u16 : ℕ → ℕ
u16 n = n % 2 ^ 16

abbrev pub u32 : ℕ → ℕ
u32 n = n % 2 ^ 32

abbrev pub u64 : ℕ → ℕ
u64 n = n % 2 ^ 64

-- `uint32_t` subtraction, and negation
abbrev pub sub32 : ℕ → ℕ → ℕ
sub32 a b = (a + 2 ^ 32 - b) % 2 ^ 32

-- An `int32_t` is kept as its bit pattern; `a < b` on patterns read as signed numbers is the
-- unsigned order after the sign bit is flipped.
abbrev pub flip_sign : ℕ → ℕ
flip_sign a = (a + 2 ^ 31) % 2 ^ 32

abbrev pub slt32 : ℕ → ℕ → Bool
slt32 a b = ltb (flip_sign a) (flip_sign b)

-- `true` as the number that C makes of it
abbrev pub to_int : Bool → ℕ
to_int true = 1
to_int false = 0
