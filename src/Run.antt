-- ===== src/Run.antt =====
-- The main loop: nemu/src/cpu/cpu-exec.c with CONFIG_WATCHPOINT, without the tracing of
-- CONFIG_ITRACE, the timers and the text that is printed. CONFIG_DIFFTEST is off.
pub mod Ring
pub mod Loop
use ysyxworkbench.Prelude.{
  ℕ, zero, suc, ◌+◌, ◌-◌, ◌%◌, ◌^◌, Bool, true, false, Result, ok, ◌>>=◌, List, Option,
  if◌then◌else◌, u64,
}
use ysyxworkbench.Memory.{Store}
use ysyxworkbench.State.{RunState, NemuState, running, stop, end, abort, quit, is_running}
use ysyxworkbench.Cpu.State.{Cpu}
use ysyxworkbench.Cpu.Exec.{Platform, Machine, exec_once}
use ysyxworkbench.Monitor.Watchpoint.{Pool, check_watchpoints}
use ysyxworkbench.Monitor.Expr.Eval.{expr}

-- The machine, the watchpoints and `g_nr_guest_inst`.
pub record Nemu (S : Type 0) : Type 0 where
  pub machine : Machine S
  pub pool : Pool
  pub nr_guest_inst : ℕ

abbrev pub run_state : {S : Type 0} → Nemu S → RunState
run_state n = n.machine.nemu.state

abbrev pub set_run_state : {S : Type 0} → RunState → Nemu S → Nemu S
set_run_state state n = record n {
  machine = record (n.machine) { nemu = record (n.machine.nemu) { state = state } };
}

abbrev pub has_ended : RunState → Bool
has_ended running = false
has_ended stop = false
has_ended end = true
has_ended abort = true
has_ended quit = true

-- `update` is `device_update` where CONFIG_DEVICE is on, and else changes nothing.
module _ {S : Type 0} (nr_gpr : ℕ) (platform : Platform S) (regexec : ℕ → List ℕ → Option ℕ)
    (update : Nemu S → Result (Nemu S)) where
  unfoldable pub trace_and_difftest : Nemu S → Result (Nemu S)
  trace_and_difftest n = do
    let value = expr platform.mmio n.machine.cpu regexec
    (triggered, pool', st) ← check_watchpoints value n.pool n.machine.store
    let n' : Nemu S = record n { machine = record (n.machine) { store = st }; pool = pool' }
    ok (if triggered then set_run_state stop n' else n')

  -- One round of the loop of `execute`, up to its break.
  unfoldable pub execute_one : Nemu S → Result (Nemu S)
  unfolding trace_and_difftest
  execute_one n = do
    m ← exec_once nr_gpr platform n.machine.cpu.pc n.machine
    let ran : Nemu S = record n { machine = m; nr_guest_inst = u64 (n.nr_guest_inst + 1) }
    trace_and_difftest ran

  unfoldable pub execute : ℕ → Nemu S → Result (Nemu S)
  unfolding execute_one
  execute zero n = ok n
  execute (suc k) n = do
    n' ← execute_one n
    elim (is_running (run_state n')) [ true ↦ update n' >>= execute k | false ↦ ok n' ]

  unfoldable pub cpu_exec : ℕ → Nemu S → Result (Nemu S)
  unfolding execute
  cpu_exec k n = elim (has_ended (run_state n)) [
    | true ↦ ok n
    | false ↦ (do
      n' ← execute k (set_run_state running n)
      ok (if is_running (run_state n') then set_run_state stop n' else n'))
  ]
