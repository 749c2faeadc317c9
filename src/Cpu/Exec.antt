-- ===== src/Cpu/Exec.antt =====
-- `decode_exec` and `isa_exec_once` of nemu/src/isa/riscv32/inst.c, with `invalid_inst` and
-- `set_nemu_state` of nemu/src/engine/interpreter/hostcall.c.
use ysyxworkbench.Prelude.{
  ℕ, ◌+◌, ◌*◌, ◌/◌, ◌^◌, Bool, true, false, not, Option, Result, ok, fault, assertion, ◌>>=◌, ltb,
  leb, ◌==◌, if◌then◌else◌, u32, sub32, slt32, to_int, bit_and, bit_or, bit_xor,
}
use ysyxworkbench.State.{NemuState, RunState, end, abort}
use ysyxworkbench.Ftrace.Defs.{Ftrace, check_ftrace}
use ysyxworkbench.Memory.{Bus, Store, vaddr_ifetch, vaddr_read, vaddr_write}
use ysyxworkbench.Cpu.State.{Cpu, get_reg, set_reg, isa_raise_intr}
use ysyxworkbench.Cpu.Operand.{Operands, decode_operand, bits, sext}
use ysyxworkbench.Cpu.Alu.{
  sra32, shamt, mul32, mulh32, mulhu32, mulhsu32, div32, rem32, divu32, remu32,
}
use ysyxworkbench.Cpu.Op.{Op, decode}

-- What the processor uses of the devices and of the differential test.
pub record Platform (S : Type 0) : Type 0 where
  pub mmio : Option (Bus S)
  pub skip_ref : S → S

-- The variables `cpu`, the memory with the devices, `nemu_state`, and those of ftrace.c.
pub record Machine (S : Type 0) : Type 0 where
  pub cpu : Cpu
  pub store : Store S
  pub nemu : NemuState
  pub ftrace : Ftrace

-- `Decode`, but for `dnpc`, which the functions below return.
pub record Decode : Type 0 where
  pub pc : ℕ
  pub snpc : ℕ
  pub inst : ℕ

-- The switch of csrrw and csrrs: the old value of the register, which becomes `update` of it.
unfoldable pub csr_access : ℕ → (ℕ → ℕ) → Cpu → Result (ℕ × Cpu)
csr_access idx update cpu =
    if idx == 0x300
    then ok (cpu.mstatus, record cpu { mstatus = update cpu.mstatus })
    else if idx == 0x305
    then ok (cpu.mtvec, record cpu { mtvec = update cpu.mtvec })
    else if idx == 0x341
    then ok (cpu.mepc, record cpu { mepc = update cpu.mepc })
    else if idx == 0x342
    then ok (cpu.mcause, record cpu { mcause = update cpu.mcause })
    else if idx == 0xf11
    then ok (0x79737978, cpu)
    else if idx == 0xf12
    then ok (100022721, cpu)
    else fault assertion

module _ {S : Type 0} (nr_gpr : ℕ) (platform : Platform S) where
  unfoldable pub set_nemu_state : RunState → ℕ → ℕ → Machine S → Machine S
  set_nemu_state state pc halt_ret m = record m {
    store = record (m.store) { io = platform.skip_ref m.store.io };
    nemu = record { state = state; halt_pc = pc; halt_ret = halt_ret };
  }

  -- It reads two words at `thispc` for its message.
  unfoldable pub invalid_inst : ℕ → Machine S → Result (Machine S)
  unfolding set_nemu_state
  invalid_inst thispc m = do
    (_, st) ← vaddr_ifetch platform.mmio thispc 4 m.store
    (_, st') ← vaddr_ifetch platform.mmio (u32 (thispc + 4)) 4 st
    ok (set_nemu_state abort thispc 0xffff_ffff (record m { store = st' }))

  -- `R(rd) = v`, then on to the next instruction.
  unfoldable pub write_rd : Decode → Operands → ℕ → Machine S → Result (ℕ × Machine S)
  write_rd s o v m = do cpu' ← set_reg nr_gpr m.cpu o.rd v; ok (s.snpc, record m { cpu = cpu' })

  unfoldable pub write_result : Decode → Operands → Result ℕ → Machine S → Result (ℕ × Machine S)
  unfolding write_rd
  write_result s o r m = do v ← r; write_rd s o v m

  unfoldable pub load : Decode → Operands → ℕ → (ℕ → ℕ) → Machine S → Result (ℕ × Machine S)
  unfolding write_rd
  load s o len extend m = do
    (v, st) ← vaddr_read platform.mmio (u32 (o.src1 + o.imm)) len m.store
    write_rd s o (extend v) (record m { store = st })

  unfoldable pub save : Decode → Operands → ℕ → Machine S → Result (ℕ × Machine S)
  save s o len m = do
    st ← vaddr_write platform.mmio (u32 (o.src1 + o.imm)) len o.src2 m.store
    ok (s.snpc, record m { store = st })

  unfoldable pub branch : Decode → Operands → Bool → Machine S → Result (ℕ × Machine S)
  branch s o taken m = ok (if taken then u32 (s.pc + o.imm) else s.snpc, m)

  unfoldable pub csr : Decode → Operands → (ℕ → ℕ) → Machine S → Result (ℕ × Machine S)
  unfolding write_rd csr_access bits
  csr s o update m = do
    (t, cpu') ← csr_access (bits s.inst 31 20) update m.cpu
    write_rd s o t (record m { cpu = cpu' })

  unfoldable pub jump : Decode → Operands → ℕ → ℕ → Bool → Machine S → Result (ℕ × Machine S)
  jump s o dnpc rs1 is_jalr m = do
    cpu' ← set_reg nr_gpr m.cpu o.rd (u32 (s.pc + 4))
    ok (dnpc, record m { cpu = cpu'; ftrace = check_ftrace s.pc dnpc o.rd rs1 is_jalr m.ftrace })

  -- The bodies of the INSTPATs: the new `dnpc` and the new state.
  unfoldable pub execute_op : Op → Decode → Operands → Machine S → Result (ℕ × Machine S)
  unfolding set_nemu_state invalid_inst write_rd write_result load save branch csr jump sext bits
  execute_op Op.ebreak s o m = do
    a0 ← get_reg nr_gpr m.cpu 10
    ok (s.snpc, set_nemu_state end s.pc a0 m)
  execute_op Op.ecall s o m =
      let (vector, cpu') = isa_raise_intr 11 s.pc m.cpu in ok (vector, record m { cpu = cpu' })
  execute_op Op.mret s o m = ok (m.cpu.mepc, m)
  execute_op Op.csrrw s o m = csr s o (λ old. o.src1) m
  execute_op Op.csrrs s o m = csr s o (λ old. bit_or old o.src1) m
  execute_op Op.addi s o m = write_rd s o (u32 (o.src1 + o.imm)) m
  execute_op Op.slti s o m = write_rd s o (to_int (slt32 o.src1 o.imm)) m
  execute_op Op.sltiu s o m = write_rd s o (to_int (ltb o.src1 o.imm)) m
  execute_op Op.xori s o m = write_rd s o (bit_xor o.src1 o.imm) m
  execute_op Op.ori s o m = write_rd s o (bit_or o.src1 o.imm) m
  execute_op Op.andi s o m = write_rd s o (bit_and o.src1 o.imm) m
  execute_op Op.slli s o m = write_rd s o (u32 (o.src1 * 2 ^ shamt o.imm)) m
  execute_op Op.srli s o m = write_rd s o (o.src1 / 2 ^ shamt o.imm) m
  execute_op Op.srai s o m = write_rd s o (sra32 o.src1 (shamt o.imm)) m
  execute_op Op.mul s o m = write_rd s o (mul32 o.src1 o.src2) m
  execute_op Op.mulh s o m = write_rd s o (mulh32 o.src1 o.src2) m
  execute_op Op.mulhu s o m = write_rd s o (mulhu32 o.src1 o.src2) m
  execute_op Op.mulhsu s o m = write_rd s o (mulhsu32 o.src1 o.src2) m
  execute_op Op.div s o m = write_result s o (div32 o.src1 o.src2) m
  execute_op Op.divu s o m = write_result s o (divu32 o.src1 o.src2) m
  execute_op Op.rem s o m = write_result s o (rem32 o.src1 o.src2) m
  execute_op Op.remu s o m = write_result s o (remu32 o.src1 o.src2) m
  execute_op Op.add s o m = write_rd s o (u32 (o.src1 + o.src2)) m
  execute_op Op.sub s o m = write_rd s o (sub32 o.src1 o.src2) m
  execute_op Op.sll s o m = write_rd s o (u32 (o.src1 * 2 ^ shamt o.src2)) m
  execute_op Op.slt s o m = write_rd s o (to_int (slt32 o.src1 o.src2)) m
  execute_op Op.sltu s o m = write_rd s o (to_int (ltb o.src1 o.src2)) m
  execute_op Op.xor s o m = write_rd s o (bit_xor o.src1 o.src2) m
  execute_op Op.srl s o m = write_rd s o (o.src1 / 2 ^ shamt o.src2) m
  execute_op Op.sra s o m = write_rd s o (sra32 o.src1 (shamt o.src2)) m
  execute_op Op.or s o m = write_rd s o (bit_or o.src1 o.src2) m
  execute_op Op.and s o m = write_rd s o (bit_and o.src1 o.src2) m
  execute_op Op.lb s o m = load s o 1 (λ v. u32 (sext v 8)) m
  execute_op Op.lh s o m = load s o 2 (λ v. u32 (sext v 16)) m
  execute_op Op.lw s o m = load s o 4 (λ v. v) m
  execute_op Op.lbu s o m = load s o 1 (λ v. v) m
  execute_op Op.lhu s o m = load s o 2 (λ v. v) m
  execute_op Op.sb s o m = save s o 1 m
  execute_op Op.sh s o m = save s o 2 m
  execute_op Op.sw s o m = save s o 4 m
  execute_op Op.beq s o m = branch s o (o.src1 == o.src2) m
  execute_op Op.bne s o m = branch s o (not (o.src1 == o.src2)) m
  execute_op Op.blt s o m = branch s o (slt32 o.src1 o.src2) m
  execute_op Op.bge s o m = branch s o (not (slt32 o.src1 o.src2)) m
  execute_op Op.bltu s o m = branch s o (ltb o.src1 o.src2) m
  execute_op Op.bgeu s o m = branch s o (leb o.src2 o.src1) m
  execute_op Op.lui s o m = write_rd s o o.imm m
  execute_op Op.auipc s o m = write_rd s o (u32 (s.pc + o.imm)) m
  execute_op Op.jal s o m = jump s o (u32 (s.pc + o.imm)) 0 false m
  execute_op Op.jalr s o m =
      jump s o (bit_and (u32 (o.src1 + o.imm)) 0xffff_fffe) (bits s.inst 19 15) true m
  execute_op Op.inv s o m = do m' ← invalid_inst s.pc m; ok (s.snpc, m')

  -- `R(0) = 0` ends every instruction.
  unfoldable pub decode_exec : Decode → Machine S → Result (ℕ × Machine S)
  decode_exec s m = do
    rule ← decode s.inst
    operands ← decode_operand nr_gpr rule.type s.inst m.cpu
    (dnpc, m') ← execute_op rule.op s operands m
    cpu' ← set_reg nr_gpr m'.cpu 0 0
    ok (dnpc, record m' { cpu = cpu' })

  -- `isa_exec_once` and `exec_once` of nemu/src/cpu/cpu-exec.c, without the text that it traces:
  -- the instruction at `pc` is run, and `cpu.pc` becomes its `dnpc`.
  unfoldable pub exec_once : ℕ → Machine S → Result (Machine S)
  exec_once pc m = do
    (inst, st) ← vaddr_ifetch platform.mmio pc 4 m.store
    let s : Decode = record { pc = pc; snpc = u32 (pc + 4); inst = inst }
    (dnpc, m') ← decode_exec s (record m { store = st })
    ok (record m' { cpu = record (m'.cpu) { pc = dnpc } })
