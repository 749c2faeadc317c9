-- ===== src/Npc/Exec/Reset.antt =====
-- `reset` of npc/csrc/main.cpp: no byte of the standard input is sent while the hardware is in reset.
use ysyxworkbench.Prelude.{ℕ, zero, suc, ◌+◌, ◌^◌, ◌<◌, ◌≡◌, refl, ap, ◌∙◌, false, arith}
use ysyxworkbench.Npc.Uart.{Uart, drive_uart_rx}
use ysyxworkbench.Npc.Exec.{Hardware, Npc, single_cycle, run_cycles, reset}

drive_uart_rx_disabled : (u : Uart) → u.stdin_enabled ≡ false → drive_uart_rx u ≡ (u, 1)
unfolding drive_uart_rx
drive_uart_rx_disabled u off = rw off refl

module _ {D R : Type 0} (hw : Hardware D) where
  -- The serial state, the reset pin and the counter after cycles in reset
  run_cycles_disabled :
      (n : ℕ) (m : Npc D R)
      → m.uart.stdin_enabled ≡ false
      → m.cycles + n < 2 ^ 64
      → ((run_cycles hw n m).uart ≡ m.uart) × ((run_cycles hw n m).cycles ≡ m.cycles + n)
  unfolding run_cycles single_cycle
  run_cycles_disabled zero m off small = (refl, omega arith)
  run_cycles_disabled (suc n) m off small =
      let same : (single_cycle hw m).uart ≡ m.uart =
        ap (λ (u, pin). u) (drive_uart_rx_disabled m.uart off) in
      let (uart, cycles) =
        run_cycles_disabled n (single_cycle hw m) (ap (λ (u : Uart). u.stdin_enabled) same ∙ off)
          (omega arith) in
      (uart ∙ same, omega (arith, cycles))

  -- `reset` runs its cycles with the serial input at rest: no byte of the standard input is used up,
  -- the cycles are counted, and after it the reset pin is low and the input enabled if it was asked
  -- for. The counter of cycles may not reach 2^64.
  reset_quiet :
      (n : ℕ) (m : Npc D R)
      → m.cycles + n < 2 ^ 64
      → ((reset hw n m).uart ≡ record m.uart { stdin_enabled = m.uart.stdin_requested })
        × ((reset hw n m).reset_pin ≡ 0)
        × ((reset hw n m).cycles ≡ m.cycles + n)
  unfolding reset
  reset_quiet n m small =
      let (uart, cycles) =
        run_cycles_disabled n
          (record m { reset_pin = 1; uart = record m.uart { stdin_enabled = false } }) refl small in
      (ap (λ (u : Uart). record u { stdin_enabled = u.stdin_requested }) uart, refl, cycles)
