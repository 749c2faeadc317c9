-- ===== src/Difftest/Step.antt =====
-- One step of the differential test. The reference machine is a shared object that is loaded:
-- `Ref` has its functions, on its state `R`.
use ysyxworkbench.Prelude.{
  ℕ, zero, suc, ◌+◌, ◌-◌, Bool, true, false, Result, ok, fault, assertion, ltb, ◌==◌, if◌then◌else◌,
}
use ysyxworkbench.State.{NemuState, abort}
use ysyxworkbench.Cpu.State.{Cpu}
use ysyxworkbench.Difftest.Skip.{Skip}

-- `ref_difftest_exec(1)`, and the two directions of `ref_difftest_regcpy`.
pub record Ref (R : Type 0) : Type 0 where
  pub exec_one : R → R
  pub get_regs : R → Cpu
  pub put_regs : Cpu → R → R

-- The state that the test reads and writes.
pub record Test (R : Type 0) : Type 0 where
  pub skip : Skip
  pub ref : R
  pub nemu : NemuState

-- The loop of `isa_difftest_checkregs` over the registers from `i` on, with `left` of them to go.
unfoldable pub same_regs : Cpu → Cpu → ℕ → ℕ → Bool
same_regs cpu ref_r i zero = true
same_regs cpu ref_r i (suc left) =
    let rest = same_regs cpu ref_r (suc i) left in if cpu.gpr i == ref_r.gpr i then rest else false

unfoldable pub isa_difftest_checkregs : ℕ → Cpu → Cpu → Bool
unfolding same_regs
isa_difftest_checkregs nr_gpr cpu ref_r =
    if cpu.pc == ref_r.pc then same_regs cpu ref_r 0 nr_gpr else false

unfoldable pub checkregs : ℕ → Cpu → Cpu → ℕ → NemuState → NemuState
unfolding isa_difftest_checkregs
checkregs nr_gpr cpu ref_r pc nemu =
    if isa_difftest_checkregs nr_gpr cpu ref_r
    then nemu
    else record nemu { state = abort; halt_pc = pc }

module _ {R : Type 0} (nr_gpr : ℕ) (r : Ref R) where
  unfoldable pub difftest_skip_dut : ℕ → ℕ → Test R → Test R
  difftest_skip_dut nr_ref nr_dut t = record t {
    skip = record (t.skip) { skip_dut_nr_inst = t.skip.skip_dut_nr_inst + nr_dut };
    ref = run nr_ref t.ref;
  }
    where
      run : ℕ → R → R
      run zero ref = ref
      run (suc n) ref = run n (r.exec_one ref)

  unfoldable pub difftest_step : Cpu → ℕ → ℕ → Test R → Result (Test R)
  unfolding checkregs
  difftest_step cpu pc npc t =
      let ref_r = r.get_regs t.ref in
      let after = r.exec_one t.ref in
      if ltb 0 t.skip.skip_dut_nr_inst
      then (if ref_r.pc == npc
          then ok (record t {
            skip = record (t.skip) { skip_dut_nr_inst = 0 };
            nemu = checkregs nr_gpr cpu ref_r npc t.nemu;
          })
          else if t.skip.skip_dut_nr_inst - 1 == 0
          then fault assertion
          else ok (record t {
            skip = record (t.skip) { skip_dut_nr_inst = t.skip.skip_dut_nr_inst - 1 };
          }))
      else if t.skip.is_skip_ref
      then ok
          (record t { skip = record (t.skip) { is_skip_ref = false }; ref = r.put_regs cpu t.ref })
      else ok (record t { ref = after; nemu = checkregs nr_gpr cpu (r.get_regs after) pc t.nemu })
