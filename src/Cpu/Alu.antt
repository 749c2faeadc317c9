-- ===== src/Cpu/Alu.antt =====
-- The arithmetic of nemu/src/isa/riscv32/inst.c on words: shifts, products and divisions with the
-- casts to `int32_t`, `int64_t` and `uint64_t` that the source writes.
use ysyxworkbench.Prelude.{
  ℕ, true, false, ◌+◌, ◌-◌, ◌*◌, ◌/◌, ◌%◌, ◌^◌, Bool, ◌&&◌, ◌||◌, Result, ok, fault, undefined, leb,
  ◌==◌, if◌then◌else◌, u32, u64, bit_and,
}

-- A word as an `int32_t`: the sign, and the absolute value.
abbrev pub is_neg : ℕ → Bool
is_neg a = leb (2 ^ 31) a

abbrev pub magnitude : ℕ → ℕ
magnitude a = if is_neg a then 2 ^ 32 - a else a

-- `(int64_t)(int32_t)a`, as its bit pattern
unfoldable pub sext64 : ℕ → ℕ
sext64 a = if is_neg a then a + 2 ^ 64 - 2 ^ 32 else a

-- `(int32_t)a >> n`, an arithmetic shift, and the one of `int64_t`
unfoldable pub sra32 : ℕ → ℕ → ℕ
sra32 a n = if is_neg a then a / 2 ^ n + 2 ^ 32 - 2 ^ (32 - n) else a / 2 ^ n

unfoldable pub sra64 : ℕ → ℕ → ℕ
sra64 a n = if leb (2 ^ 63) a then a / 2 ^ n + 2 ^ 64 - 2 ^ (64 - n) else a / 2 ^ n

-- `x & 0x1f`
abbrev pub shamt : ℕ → ℕ
shamt x = bit_and x 0x1f

unfoldable pub mul32 : ℕ → ℕ → ℕ
mul32 a b = u32 (a * b)

unfoldable pub mulh32 : ℕ → ℕ → ℕ
unfolding sext64 sra64
mulh32 a b = u32 (sra64 (u64 (sext64 a * sext64 b)) 32)

unfoldable pub mulhu32 : ℕ → ℕ → ℕ
mulhu32 a b = u32 (u64 (a * b) / 2 ^ 32)

unfoldable pub mulhsu32 : ℕ → ℕ → ℕ
unfolding sext64
mulhsu32 a b = u32 (u64 (sext64 a * b) / 2 ^ 32)

-- The quotient or remainder with the sign `neg`.
abbrev pub with_sign : Bool → ℕ → ℕ
with_sign neg v = if neg then u32 (2 ^ 32 - v) else v

-- `(int32_t)a / (int32_t)b` and `%` truncate. They are undefined at `b == 0` and at
-- INT32_MIN / -1.
abbrev pub no_quotient : ℕ → ℕ → Bool
no_quotient a b = b == 0 || (a == 2 ^ 31 && b == 2 ^ 32 - 1)

abbrev pub signs_differ : ℕ → ℕ → Bool
signs_differ a b = if is_neg a then (if is_neg b then false else true) else is_neg b

unfoldable pub div32 : ℕ → ℕ → Result ℕ
div32 a b =
    if no_quotient a b
    then fault undefined
    else ok (with_sign (signs_differ a b) (magnitude a / magnitude b))

unfoldable pub rem32 : ℕ → ℕ → Result ℕ
rem32 a b =
    if no_quotient a b
    then fault undefined
    else ok (with_sign (is_neg a) (magnitude a % magnitude b))

unfoldable pub divu32 : ℕ → ℕ → Result ℕ
divu32 a b = if b == 0 then fault undefined else ok (a / b)

unfoldable pub remu32 : ℕ → ℕ → Result ℕ
remu32 a b = if b == 0 then fault undefined else ok (a % b)
