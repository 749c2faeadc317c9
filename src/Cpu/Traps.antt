-- ===== src/Cpu/Traps.antt =====
-- Entry to and return from a trap: `isa_raise_intr` of nemu/src/isa/riscv32/system/intr.c, and ecall
-- and mret of nemu/src/isa/riscv32/inst.c.
use ysyxworkbench.Prelude.{ℕ, ◌<◌, ◌≡◌, refl, true, Result, ok, ◌>>=◌, ltb, arith}
use ysyxworkbench.Cpu.Exec.{Platform, Machine, Decode, decode_exec, execute_op}
use ysyxworkbench.Cpu.State.{set_reg, isa_raise_intr}
use ysyxworkbench.Cpu.Op.{decode}
use ysyxworkbench.Cpu.Operand.{decode_operand}

-- The instruction of `s`, then a handler, then the instruction of `s'`: the two next addresses.
abbrev pub through_handler :
    {S : Type 0} (p : Platform S) (nr : ℕ) (s s' : Decode) (handler : Machine S → Machine S)
    → Machine S
    → Result (ℕ × ℕ)
through_handler p nr s s' handler m = do
  entry ← decode_exec nr p s m
  exit ← decode_exec nr p s' (handler entry.1)
  ok (entry.0, exit.0)

-- For a machine with a register, an ecall goes to the address in mtvec. After a handler that keeps
-- mepc, and may change all else, mret goes back to the address of the ecall itself.
pub ecall-mret :
    {S : Type 0} (p : Platform S) (nr : ℕ) (s s' : Decode) (m : Machine S)
    (handler : Machine S → Machine S)
    → 0 < nr
    → s.inst ≡ 0x73
    → s'.inst ≡ 0x30200073
    → ((m' : Machine S) → (handler m').cpu.mepc ≡ m'.cpu.mepc)
    → through_handler p nr s s' handler m ≡ ok (m.cpu.mtvec, s.pc)
unfolding decode_exec decode decode_operand set_reg execute_op isa_raise_intr
ecall-mret p nr s s' m handler some_reg is_ecall is_mret keeps =
    let zero_writable : ltb 0 nr ≡ true = ground arith in
    rw (is_ecall, is_mret, zero_writable, keeps) refl
