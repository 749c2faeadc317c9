-- ===== src/Npc/Exec.antt =====
-- The execution loop of npc/csrc/main.cpp: `single_cycle`, `reset`, `checkregs`, `cpu_exec` and the
-- commands of `sdb_mainloop`. The Verilated hardware and the reference are parameters.
pub mod Counts
pub mod Checked
pub mod Progress
pub mod Reset
use ysyxworkbench.Prelude.{
  ℕ, zero, suc, ◌+◌, ◌-◌, Bool, true, false, not, ◌&&◌, ◌||◌, Result, ok, assert, ◌>>=◌, ◌>>◌, ◌==◌,
  if◌then◌else◌, u64,
}
use ysyxworkbench.Npc.Memory.{Arrays}
use ysyxworkbench.Npc.Uart.{Uart, drive_uart_rx}
use ysyxworkbench.Npc.Perf.{Events, Perf}

-- What an evaluation of the hardware changes: its own state, with the flag that it has finished, and
-- what its DPI calls change.
pub record Circuit (D : Type 0) : Type 0 where
  pub top : D
  pub arrays : Arrays
  pub events : Events

-- The Verilated `dut`. `eval` has the pins: the clock, the reset and the serial input.
pub record Hardware (D : Type 0) : Type 0 where
  pub eval : ℕ → ℕ → ℕ → Circuit D → Circuit D
  pub finished : D → Bool
  pub is_commit : D → Bool
  pub check_skip : D → Bool
  pub read_gpr : D → ℕ → ℕ
  pub read_pc : D → ℕ

-- `diff_context_t`
pub record Context : Type 0 where
  pub gpr : ℕ → ℕ
  pub pc : ℕ
  pub csr : ℕ → ℕ

-- The functions of the shared object: `exec` runs one instruction, `read` and `write` copy the
-- registers, `memcpy` copies bytes of an array into the reference's memory.
pub record Reference (R : Type 0) : Type 0 where
  pub init : R → R
  pub memcpy : ℕ → (ℕ → ℕ) → ℕ → R → R
  pub exec : R → R
  pub read : R → Context
  pub write : Context → R → R

pub record Npc (D R : Type 0) : Type 0 where
  pub circuit : Circuit D
  pub reset_pin : ℕ
  pub uart : Uart
  pub cycles : ℕ
  pub insts : ℕ
  pub boot_time : ℕ
  pub ref : R

-- The loop over the registers in `checkregs`, from register `i` on: whether one differs.
unfoldable pub mismatch_from : ℕ → ℕ → (ℕ → ℕ) → (ℕ → ℕ) → Bool
mismatch_from zero i dut ref = false
mismatch_from (suc left) i dut ref = not (dut i == ref i) || mismatch_from left (suc i) dut ref

unfoldable pub checkregs : {D : Type 0} → Hardware D → Context → D → Result (Unit {0})
unfolding mismatch_from
checkregs hw ref top =
    let pc_mismatch = not (hw.read_pc top == ref.pc) in
    assert (not (pc_mismatch || mismatch_from 16 0 (hw.read_gpr top) ref.gpr))

-- The registers of the hardware, of which the loop copies sixteen.
unfoldable pub copy_gprs : ℕ → ℕ → (ℕ → ℕ) → (ℕ → ℕ) → ℕ → ℕ
copy_gprs zero i dut gpr = gpr
copy_gprs (suc left) i dut gpr = copy_gprs left (suc i) dut (λ j. if j == i then dut i else gpr j)

module _ {D R : Type 0} (hw : Hardware D) where
  unfoldable pub single_cycle : Npc D R → Npc D R
  single_cycle m =
      let (uart, pin) = drive_uart_rx m.uart in
      let low = hw.eval 0 m.reset_pin pin m.circuit in
      let high = hw.eval 1 m.reset_pin pin low in
      record m { circuit = high; uart = uart; cycles = u64 (m.cycles + 1) }

  unfoldable pub run_cycles : ℕ → Npc D R → Npc D R
  run_cycles zero m = m
  run_cycles (suc n) m = run_cycles n (single_cycle m)

  unfoldable pub reset : ℕ → Npc D R → Npc D R
  reset n m =
      let during = record m { reset_pin = 1; uart = record m.uart { stdin_enabled = false } } in
      let after = run_cycles n during in
      record after {
        reset_pin = 0;
        uart = record after.uart { stdin_enabled = after.uart.stdin_requested };
      }

  module _ (api : Reference R) where
    -- The part of `cpu_exec` between `#if ENABLE_DIFFTEST` and `#endif`.
    unfoldable pub difftest : Npc D R → Result (Npc D R)
    difftest m =
        let top = m.circuit.top in
        if hw.check_skip top || m.circuit.arrays.is_skip_ref
        then ok (record m {
          ref =
              api.write
                (record (api.read m.ref) {
                  gpr = copy_gprs 16 0 (hw.read_gpr top) (api.read m.ref).gpr;
                  pc = hw.read_pc top;
                })
                m.ref;
          circuit = record m.circuit { arrays = record m.circuit.arrays { is_skip_ref = false } };
        })
        else (do
          let ref = api.exec m.ref
          checkregs hw (api.read ref) top
          ok (record m { ref = ref }))

    -- What the loop of `cpu_exec` does after a cycle: the instructions left, and the state.
    unfoldable pub commit : Bool → ℕ → Npc D R → Result (ℕ × Npc D R)
    commit checked n m =
        if hw.is_commit m.circuit.top
        then (do
          let counted = record m { insts = u64 (m.insts + 1) }
          m' ← if checked then difftest counted else ok counted
          ok (n - 1, m'))
        else ok (n, m)

    -- At most `rounds` rounds of the loop. `checked` stands for ENABLE_DIFFTEST with a reference that
    -- has been loaded.
    unfoldable pub cpu_exec : Bool → ℕ → ℕ → Npc D R → Result (ℕ × Npc D R)
    cpu_exec checked zero n m = ok (n, m)
    cpu_exec checked (suc rounds) zero m = ok (zero, m)
    cpu_exec checked (suc rounds) (suc n) m =
        if hw.finished m.circuit.top
        then ok (suc n, m)
        else commit checked (suc n) (single_cycle m) >>= λ (n', m'). cpu_exec checked rounds n' m'
