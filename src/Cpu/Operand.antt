-- ===== src/Cpu/Operand.antt =====
-- The fields and immediates of an instruction: BITS and SEXT of nemu/include/macro.h, and
-- `decode_operand` of nemu/src/isa/riscv32/inst.c.
use ysyxworkbench.Prelude.{
  ℕ, ◌+◌, ◌-◌, ◌*◌, ◌/◌, ◌%◌, ◌^◌, Result, ok, ◌>>=◌, ltb, if◌then◌else◌, bit_and, bit_or, u32, u64,
}
use ysyxworkbench.Cpu.State.{Cpu, get_reg}

abbrev pub bitmask : ℕ → ℕ
bitmask n = 2 ^ n - 1

-- BITS(x, hi, lo)
unfoldable pub bits : ℕ → ℕ → ℕ → ℕ
bits x hi lo = bit_and (x / 2 ^ lo) (bitmask (hi - lo + 1))

-- SEXT(x, len): a field of `len` bits, read as a signed number and made a uint64_t.
unfoldable pub sext : ℕ → ℕ → ℕ
sext x len =
    let field = x % 2 ^ len in if ltb field (2 ^ (len - 1)) then field else field + 2 ^ 64 - 2 ^ len

-- `<<` on a uint64_t
abbrev pub shl64 : ℕ → ℕ → ℕ
shl64 x n = u64 (x * 2 ^ n)

-- `imm` is a word_t: each assignment keeps 32 bits.
unfoldable pub imm_i : ℕ → ℕ
unfolding bits sext
imm_i i = u32 (sext (bits i 31 20) 12)

unfoldable pub imm_u : ℕ → ℕ
unfolding bits sext
imm_u i = u32 (shl64 (sext (bits i 31 12) 20) 12)

unfoldable pub imm_s : ℕ → ℕ
unfolding bits sext
imm_s i = u32 (bit_or (shl64 (sext (bits i 31 25) 7) 5) (bits i 11 7))

unfoldable pub imm_j : ℕ → ℕ
unfolding bits sext
imm_j i = u32 (
    shl64
      (sext
        (bit_or
          (bit_or (bit_or (shl64 (bits i 31 31) 19) (shl64 (bits i 19 12) 11))
            (shl64 (bits i 20 20) 10))
          (bits i 30 21))
        20)
      1)

unfoldable pub imm_b : ℕ → ℕ
unfolding bits sext
imm_b i = u32 (
    shl64
      (sext
        (bit_or
          (bit_or (bit_or (shl64 (bits i 31 31) 11) (shl64 (bits i 7 7) 10))
            (shl64 (bits i 30 25) 4))
          (bits i 11 8))
        12)
      1)

-- TYPE_I, TYPE_U, TYPE_S, TYPE_J, TYPE_R, TYPE_B, TYPE_N
pub data InstType : Type 0 where
  type_i type_u type_s type_j type_r type_b type_n : InstType

pub record Operands : Type 0 where
  pub rd : ℕ
  pub src1 : ℕ
  pub src2 : ℕ
  pub imm : ℕ

-- `src1`, `src2` and `imm` start as 0 in INSTPAT_MATCH.
unfoldable pub decode_operand : ℕ → InstType → ℕ → Cpu → Result Operands
unfolding bits get_reg
decode_operand nr_gpr type i cpu =
    let rs1 = bits i 19 15 in
    let rs2 = bits i 24 20 in
    let rd' = bits i 11 7 in
    elim type [
      | type_i ↦ (do
        a ← get_reg nr_gpr cpu rs1
        ok (record { rd = rd'; src1 = a; src2 = 0; imm = imm_i i }))
      | type_u ↦ ok (record { rd = rd'; src1 = 0; src2 = 0; imm = imm_u i })
      | type_s ↦ (do
        a ← get_reg nr_gpr cpu rs1
        b ← get_reg nr_gpr cpu rs2
        ok (record { rd = rd'; src1 = a; src2 = b; imm = imm_s i }))
      | type_j ↦ ok (record { rd = rd'; src1 = 0; src2 = 0; imm = imm_j i })
      | type_r ↦ (do
        a ← get_reg nr_gpr cpu rs1
        b ← get_reg nr_gpr cpu rs2
        ok (record { rd = rd'; src1 = a; src2 = b; imm = 0 }))
      | type_b ↦ (do
        a ← get_reg nr_gpr cpu rs1
        b ← get_reg nr_gpr cpu rs2
        ok (record { rd = rd'; src1 = a; src2 = b; imm = imm_b i }))
      | type_n ↦ ok (record { rd = rd'; src1 = 0; src2 = 0; imm = 0 })
    ]
