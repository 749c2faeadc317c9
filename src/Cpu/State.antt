-- ===== src/Cpu/State.antt =====
-- The processor's registers: nemu/src/isa/riscv32/include/isa-def.h, local-include/reg.h and
-- init.c; traps: nemu/src/isa/riscv32/system/intr.c.
use ysyxworkbench.Prelude.{ℕ, Result, ok, fault, assertion, ◌==◌, ltb, if◌then◌else◌}

-- `CPU_state`; `gpr` is an array of `nr_gpr` words, 16 with CONFIG_RVE and 32 without.
pub record Cpu : Type 0 where
  pub gpr : ℕ → ℕ
  pub pc : ℕ
  pub mepc : ℕ
  pub mcause : ℕ
  pub mstatus : ℕ
  pub mtvec : ℕ

abbrev pub reset_vector : ℕ
reset_vector = 0x80000000

abbrev pub set_gpr : (ℕ → ℕ) → ℕ → ℕ → ℕ → ℕ
set_gpr gpr i v j = if i == j then v else gpr j

module _ (nr_gpr : ℕ) where
  -- `gpr(idx)` with `check_reg_idx`: CONFIG_RT_CHECK is on by default.
  unfoldable pub get_reg : Cpu → ℕ → Result ℕ
  get_reg cpu i = if ltb i nr_gpr then ok (cpu.gpr i) else fault assertion

  unfoldable pub set_reg : Cpu → ℕ → ℕ → Result Cpu
  set_reg cpu i v =
      if ltb i nr_gpr then ok (record cpu { gpr = set_gpr cpu.gpr i v }) else fault assertion

-- `restart` of init.c
unfoldable pub restart : Cpu → Cpu
restart cpu = record cpu { pc = reset_vector; gpr = set_gpr cpu.gpr 0 0; mstatus = 0x1800 }

-- The new state, and the address of the trap vector.
unfoldable pub isa_raise_intr : ℕ → ℕ → Cpu → ℕ × Cpu
isa_raise_intr number epc cpu = (cpu.mtvec, record cpu { mepc = epc; mcause = number })

abbrev pub isa_query_intr : ℕ
isa_query_intr = 0xffff_ffff
