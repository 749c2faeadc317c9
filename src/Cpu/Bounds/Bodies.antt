-- ===== src/Cpu/Bounds/Bodies.antt =====
-- The bodies of the instructions' patterns keep the widths.
use ysyxworkbench.Prelude.{
  true, false, ℕ, ◌+◌, ◌^◌, ◌<◌, Post, Post-bind, arith, u32, ltb, slt32, ◌==◌, leb, not,
}
use ysyxworkbench.Prelude.Bits.{or-lt, xor-lt, and-le}
use ysyxworkbench.Cpu.State.{Cpu, get_reg, isa_raise_intr}
use ysyxworkbench.Cpu.Operand.{
  InstType, type_i, type_u, type_s, type_j, type_r, type_b, type_n, Operands, bits, imm_i, imm_u,
  imm_s, imm_j, imm_b, decode_operand,
}
use ysyxworkbench.Cpu.Op.{Op}
use ysyxworkbench.State.{end}
use ysyxworkbench.Cpu.Alu.{shamt}
use ysyxworkbench.Cpu.Exec.{Platform, Machine, Decode, execute_op}
use ysyxworkbench.Cpu.Bounds.{PlatformLaws, Fits, MachineFits, StepFits}
use ysyxworkbench.Cpu.Bounds.Values.{
  shamt-lt, sra32-lt, to_int-lt, mul32-lt, mulh32-lt, mulhu32-lt, mulhsu32-lt, div32-fits,
  divu32-fits, rem32-fits, remu32-fits, shr-le,
}
use ysyxworkbench.Cpu.Bounds.Steps.{
  csrs-Fits, set_nemu_state-fits, write_rd-fits, write_result-fits, load-fits, save-fits,
  branch-fits, csr-fits, jump-fits, invalid_inst-fits,
}

pub record OperandsFit (o : Operands) : Type 0 where
  src1_fits : o.src1 < 2 ^ 32
  src2_fits : o.src2 < 2 ^ 32
  imm_fits : o.imm < 2 ^ 32

get_reg-word : (nr i : ℕ) (cpu : Cpu) → Fits cpu → Post (λ v. v < 2 ^ 32) (get_reg nr cpu i)
unfolding get_reg
get_reg-word nr i cpu f = ground (arith, f.gpr_fits i)

pub decode_operand-OperandsFit :
    (nr : ℕ) (type : InstType) (inst : ℕ) (cpu : Cpu)
    → Fits cpu
    → Post OperandsFit (decode_operand nr type inst cpu)
unfolding decode_operand imm_i imm_u imm_s imm_j imm_b
decode_operand-OperandsFit nr type_i inst cpu f =
    Post-bind (λ v. v < 2 ^ 32) OperandsFit _ _ (get_reg-word nr (bits inst 19 15) cpu f)
      λ a h. omega arith
decode_operand-OperandsFit nr type_u inst cpu f = omega arith
decode_operand-OperandsFit nr type_s inst cpu f =
    Post-bind (λ v. v < 2 ^ 32) OperandsFit _ _ (get_reg-word nr (bits inst 19 15) cpu f)
      λ a h.
        Post-bind (λ v. v < 2 ^ 32) OperandsFit _ _ (get_reg-word nr (bits inst 24 20) cpu f)
          λ b k. omega arith
decode_operand-OperandsFit nr type_j inst cpu f = omega arith
decode_operand-OperandsFit nr type_r inst cpu f =
    Post-bind (λ v. v < 2 ^ 32) OperandsFit _ _ (get_reg-word nr (bits inst 19 15) cpu f)
      λ a h.
        Post-bind (λ v. v < 2 ^ 32) OperandsFit _ _ (get_reg-word nr (bits inst 24 20) cpu f)
          λ b k. omega arith
decode_operand-OperandsFit nr type_b inst cpu f =
    Post-bind (λ v. v < 2 ^ 32) OperandsFit _ _ (get_reg-word nr (bits inst 19 15) cpu f)
      λ a h.
        Post-bind (λ v. v < 2 ^ 32) OperandsFit _ _ (get_reg-word nr (bits inst 24 20) cpu f)
          λ b k. omega arith
decode_operand-OperandsFit nr type_n inst cpu f = omega arith

module _ {S : Type 0} (p : Platform S) (laws : PlatformLaws p) (nr : ℕ) (s : Decode)
    (here : s.pc < 2 ^ 32) (following : s.snpc < 2 ^ 32) (o : Operands) (fits : OperandsFit o) where
  open fits use {src1_fits as a, src2_fits as b, imm_fits as c}

  pub execute_op-fits :
      (op : Op) (m : Machine S) → MachineFits p laws m → StepFits p laws (execute_op nr p op s o m)
  unfolding execute_op isa_raise_intr
  execute_op-fits Op.ebreak m f =
      Post-bind (λ v. v < 2 ^ 32) _ _ _ (get_reg-word nr 10 m.cpu f.cpu_fits)
        λ v small. (following, set_nemu_state-fits p laws nr m end s.pc v f)
  execute_op-fits Op.ecall m f =
      let fits' =
        csrs-Fits m.cpu f.cpu_fits s.pc 11 m.cpu.mstatus m.cpu.mtvec here (omega arith)
          f.cpu_fits.mstatus_fits f.cpu_fits.mtvec_fits in
      (f.cpu_fits.mtvec_fits, record { cpu_fits = fits'; store_fits = f.store_fits })
  execute_op-fits Op.mret m f = (f.cpu_fits.mepc_fits, f)
  execute_op-fits Op.csrrw m f = csr-fits p laws nr s here following o m _ f (λ v h. a)
  execute_op-fits Op.csrrs m f =
      csr-fits p laws nr s here following o m _ f (λ v h. or-lt 32 v o.src1 h a)
  execute_op-fits Op.addi m f = write_rd-fits p laws nr s here following o m _ f (omega arith)
  execute_op-fits Op.slti m f =
      write_rd-fits p laws nr s here following o m _ f (to_int-lt (slt32 o.src1 o.imm))
  execute_op-fits Op.sltiu m f =
      write_rd-fits p laws nr s here following o m _ f (to_int-lt (ltb o.src1 o.imm))
  execute_op-fits Op.xori m f =
      write_rd-fits p laws nr s here following o m _ f (xor-lt 32 o.src1 o.imm a c)
  execute_op-fits Op.ori m f =
      write_rd-fits p laws nr s here following o m _ f (or-lt 32 o.src1 o.imm a c)
  execute_op-fits Op.andi m f =
      write_rd-fits p laws nr s here following o m _ f (omega (arith, and-le o.src1 o.imm))
  execute_op-fits Op.slli m f = write_rd-fits p laws nr s here following o m _ f (omega arith)
  execute_op-fits Op.srli m f =
      write_rd-fits p laws nr s here following o m _ f (omega (arith, shr-le o.src1 (shamt o.imm)))
  execute_op-fits Op.srai m f =
      write_rd-fits p laws nr s here following o m _ f
        (sra32-lt o.src1 (shamt o.imm) a (shamt-lt o.imm))
  execute_op-fits Op.mul m f =
      write_rd-fits p laws nr s here following o m _ f (mul32-lt o.src1 o.src2)
  execute_op-fits Op.mulh m f =
      write_rd-fits p laws nr s here following o m _ f (mulh32-lt o.src1 o.src2)
  execute_op-fits Op.mulhu m f =
      write_rd-fits p laws nr s here following o m _ f (mulhu32-lt o.src1 o.src2)
  execute_op-fits Op.mulhsu m f =
      write_rd-fits p laws nr s here following o m _ f (mulhsu32-lt o.src1 o.src2)
  execute_op-fits Op.div m f =
      write_result-fits p laws nr s here following o m _ f (div32-fits o.src1 o.src2 a)
  execute_op-fits Op.divu m f =
      write_result-fits p laws nr s here following o m _ f (divu32-fits o.src1 o.src2 a)
  execute_op-fits Op.rem m f =
      write_result-fits p laws nr s here following o m _ f (rem32-fits o.src1 o.src2 a)
  execute_op-fits Op.remu m f =
      write_result-fits p laws nr s here following o m _ f (remu32-fits o.src1 o.src2 a)
  execute_op-fits Op.add m f = write_rd-fits p laws nr s here following o m _ f (omega arith)
  execute_op-fits Op.sub m f = write_rd-fits p laws nr s here following o m _ f (omega arith)
  execute_op-fits Op.sll m f = write_rd-fits p laws nr s here following o m _ f (omega arith)
  execute_op-fits Op.slt m f =
      write_rd-fits p laws nr s here following o m _ f (to_int-lt (slt32 o.src1 o.src2))
  execute_op-fits Op.sltu m f =
      write_rd-fits p laws nr s here following o m _ f (to_int-lt (ltb o.src1 o.src2))
  execute_op-fits Op.xor m f =
      write_rd-fits p laws nr s here following o m _ f (xor-lt 32 o.src1 o.src2 a b)
  execute_op-fits Op.srl m f =
      write_rd-fits p laws nr s here following o m _ f (omega (arith, shr-le o.src1 (shamt o.src2)))
  execute_op-fits Op.sra m f =
      write_rd-fits p laws nr s here following o m _ f
        (sra32-lt o.src1 (shamt o.src2) a (shamt-lt o.src2))
  execute_op-fits Op.or m f =
      write_rd-fits p laws nr s here following o m _ f (or-lt 32 o.src1 o.src2 a b)
  execute_op-fits Op.and m f =
      write_rd-fits p laws nr s here following o m _ f (omega (arith, and-le o.src1 o.src2))
  execute_op-fits Op.lb m f = load-fits p laws nr s here following o m 1 _ f (λ v h. omega arith)
  execute_op-fits Op.lh m f = load-fits p laws nr s here following o m 2 _ f (λ v h. omega arith)
  execute_op-fits Op.lw m f = load-fits p laws nr s here following o m 4 _ f (λ v h. h)
  execute_op-fits Op.lbu m f = load-fits p laws nr s here following o m 1 _ f (λ v h. h)
  execute_op-fits Op.lhu m f = load-fits p laws nr s here following o m 2 _ f (λ v h. h)
  execute_op-fits Op.sb m f = save-fits p laws nr s here following o m 1 f
  execute_op-fits Op.sh m f = save-fits p laws nr s here following o m 2 f
  execute_op-fits Op.sw m f = save-fits p laws nr s here following o m 4 f
  execute_op-fits Op.beq m f = branch-fits p laws nr s here following o m (o.src1 == o.src2) f
  execute_op-fits Op.bne m f = branch-fits p laws nr s here following o m (not (o.src1 == o.src2)) f
  execute_op-fits Op.blt m f = branch-fits p laws nr s here following o m (slt32 o.src1 o.src2) f
  execute_op-fits Op.bge m f =
      branch-fits p laws nr s here following o m (not (slt32 o.src1 o.src2)) f
  execute_op-fits Op.bltu m f = branch-fits p laws nr s here following o m (ltb o.src1 o.src2) f
  execute_op-fits Op.bgeu m f = branch-fits p laws nr s here following o m (leb o.src2 o.src1) f
  execute_op-fits Op.lui m f = write_rd-fits p laws nr s here following o m _ f (c)
  execute_op-fits Op.auipc m f = write_rd-fits p laws nr s here following o m _ f (omega arith)
  execute_op-fits Op.jal m f = jump-fits p laws nr s here following o m _ 0 false f (omega arith)
  execute_op-fits Op.jalr m f =
      jump-fits p laws nr s here following o m _ (bits s.inst 19 15) true f
        (omega (arith, and-le (u32 (o.src1 + o.imm)) 0xffff_fffe))
  execute_op-fits Op.inv m f =
      Post-bind (MachineFits p laws) _ _ _ (invalid_inst-fits p laws nr s here following o m f)
        λ m' f'. (following, f')

-- Register 0 reads as zero, and everything keeps its width.
