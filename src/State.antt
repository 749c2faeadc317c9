-- ===== src/State.antt =====
-- The run state of the emulator: nemu/src/utils/state.c, nemu/include/utils.h and `set_nemu_state`
-- of nemu/src/engine/interpreter/hostcall.c.
use ysyxworkbench.Prelude.{ℕ, Bool, true, false, ◌&&◌, ◌||◌, not, ◌==◌}

-- NEMU_RUNNING, NEMU_STOP, NEMU_END, NEMU_ABORT, NEMU_QUIT
pub data RunState : Type 0 where
  running stop end abort quit : RunState

pub record NemuState : Type 0 where
  pub state : RunState
  pub halt_pc : ℕ
  pub halt_ret : ℕ

abbrev pub is_running : RunState → Bool
is_running running = true
is_running _ = false

abbrev is_end : RunState → Bool
is_end end = true
is_end _ = false

abbrev is_quit : RunState → Bool
is_quit quit = true
is_quit _ = false

unfoldable pub is_exit_status_bad : NemuState → Bool
is_exit_status_bad s = not ((is_end s.state && s.halt_ret == 0) || is_quit s.state)
