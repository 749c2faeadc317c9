-- ===== src/Tests/Cpu.antt =====
-- One instruction, `addi a0, a0, 1`, and the arithmetic at words with the sign bit set.
use ysyxworkbench.Prelude.{
  ℕ, zero, suc, ◌+◌, ◌*◌, ◌^◌, ◌<◌, ◌≡◌, ◌⊎◌, refl, inl, inr, none, Result, ok, fault, arith, [],
  u32,
}
use ysyxworkbench.State.{running}
use ysyxworkbench.Memory.{
  Region, pmem, mrom, sram, flash, paddr_read, pmem_read, guest_to_host, in_pmem, host_read,
  vaddr_ifetch,
}
use ysyxworkbench.Cpu.State.{get_reg, set_reg}
use ysyxworkbench.Cpu.Pattern.{instpat}
use ysyxworkbench.Prelude.{codes}
use ysyxworkbench.Cpu.Operand.{imm_i, decode_operand}
use ysyxworkbench.Cpu.Op.{decode}
use ysyxworkbench.Cpu.Exec.{Platform, Machine, write_rd, execute_op, decode_exec, exec_once}
use ysyxworkbench.Cpu.Bounds.{PlatformLaws, MachineFits}
use ysyxworkbench.Cpu.Bounds.Exec.{IsSafe, exec_once-IsSafe}
use ysyxworkbench.Cpu.Match.{agrees, instpat-agrees}
use ysyxworkbench.Cpu.Alu.{is_neg, magnitude, signs_differ, mul32, mulh32, div32, rem32}
use ysyxworkbench.Cpu.Arith.{pattern64, mulh32-mul32}
use ysyxworkbench.Cpu.Division.{div32-rem32}

abbrev no_devices : Platform (Unit {0})
no_devices = record { mmio = none; skip_ref = λ s. s }

abbrev no_device_laws : PlatformLaws no_devices
no_device_laws = record {
  Good = λ s. Unit {0};
  read_good = λ bus addr len v s s' on good e. cc;
  write_good = λ bus addr len word s s' on good e. tt;
  skip_good = λ s good. tt;
}

-- The bytes of `addi a0, a0, 1` at the start of pmem.
abbrev program : ℕ → ℕ
program zero = 0x13
program (suc zero) = 0x05
program (suc (suc zero)) = 0x15
program _ = 0

abbrev memory : Region → ℕ → ℕ
memory pmem i = program i
memory _ i = 0

abbrev machine : Machine (Unit {0})
machine = record {
  cpu = record { gpr = λ i. 0; pc = 0x80000000; mepc = 0; mcause = 0; mstatus = 0x1800; mtvec = 0 };
  store = record { mem = memory; io = tt };
  nemu = record { state = running; halt_pc = 0; halt_ret = 0 };
  ftrace = record { symbols = []; call_depth = 0; lines = [] };
}

program-byte : (i : ℕ) → program i < 256
program-byte zero = omega arith
program-byte (suc zero) = omega arith
program-byte (suc (suc zero)) = omega arith
program-byte (suc (suc (suc i))) = omega arith

memory-byte : (r : Region) (i : ℕ) → memory r i < 256
memory-byte pmem i = program-byte i
memory-byte mrom i = omega arith
memory-byte sram i = omega arith
memory-byte flash i = omega arith

machine-MachineFits : MachineFits no_devices no_device_laws machine
machine-MachineFits = record {
  cpu_fits = record {
    gpr_fits = λ i. omega arith;
    pc_fits = omega arith;
    mepc_fits = omega arith;
    mcause_fits = omega arith;
    mstatus_fits = omega arith;
    mtvec_fits = omega arith;
  };
  store_fits = record { bytes = memory-byte; good = tt };
}

abbrev after : Result (Machine (Unit {0})) → Machine (Unit {0})
after (ok m) = m
after (fault f) = machine

abbrev stepped : Machine (Unit {0})
stepped = after (exec_once 32 no_devices 0x80000000 machine)

step_runs : exec_once 32 no_devices 0x80000000 machine ≡ ok stepped
unfolding exec_once decode_exec decode decode_operand get_reg set_reg execute_op write_rd
    vaddr_ifetch paddr_read pmem_read guest_to_host in_pmem host_read imm_i
step_runs = refl

exec_once-IsSafe_example : IsSafe no_devices no_device_laws stepped
exec_once-IsSafe_example =
    exec_once-IsSafe no_devices no_device_laws 32 machine stepped machine-MachineFits step_runs

instpat-agrees_example :
    instpat (codes "?? 01 1") 0xffff_fff3 ≡ ok (agrees (codes "?? 01 1") 0xffff_fff3)
instpat-agrees_example =
    instpat-agrees (codes "?? 01 1") 0xffff_fff3
      (
        inr (inl refl),
        (
          inr (inl refl),
          (
            inl refl,
            (inr (inr (inl refl)), (inr (inr (inr refl)), (inl refl, (inr (inr (inr refl)), tt)))),
          ),
        ),
      )
      (omega arith)

mulh32-mul32_example :
    mulh32 0xffff_ffff 7 * 2 ^ 32 + mul32 0xffff_ffff 7
    ≡ pattern64 (signs_differ 0xffff_ffff 7) (magnitude 0xffff_ffff * magnitude 7)
mulh32-mul32_example = mulh32-mul32 0xffff_ffff 7 (omega arith) (omega arith)

div32-rem32_example :
    (q : ℕ) × (r : ℕ) × (div32 0xffff_fff9 2 ≡ ok q)
    × (rem32 0xffff_fff9 2 ≡ ok r)
    × (u32 (q * 2 + r) ≡ 0xffff_fff9)
    × (magnitude q * magnitude 2 + magnitude r ≡ magnitude 0xffff_fff9)
    × (magnitude r < magnitude 2)
    × ((q ≡ 0) ⊎ (is_neg q ≡ signs_differ 0xffff_fff9 2))
    × ((r ≡ 0) ⊎ (is_neg r ≡ is_neg 0xffff_fff9))
div32-rem32_example = div32-rem32 0xffff_fff9 2 (omega arith) (omega arith) refl
