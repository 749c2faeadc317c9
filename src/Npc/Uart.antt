-- ===== src/Npc/Uart.antt =====
-- The serial input of npc/csrc/main.cpp: `drive_uart_rx`, without NVBoard.
pub mod Frame
use ysyxworkbench.Prelude.{
  ℕ, zero, suc, ◌+◌, ◌*◌, ◌/◌, ◌%◌, ◌^◌, Bool, true, false, not, Option, none, some, List, [], ◌∷◌,
  ◌==◌, if◌then◌else◌, u16, sub32, bit_or,
}

abbrev pub uart_bit_ticks : ℕ
uart_bit_ticks = 16

-- The static variables of the serial input. `reads` is what the next calls of
-- `read_uart_stdin_byte` give: a byte, or `none` where it returns -1; at the end it does so always.
pub record Uart : Type 0 where
  pub stdin_enabled : Bool
  pub stdin_requested : Bool
  pub rx_frame : ℕ
  pub rx_bits : ℕ
  pub rx_ticks : ℕ
  pub reads : List (Option ℕ)

unfoldable pub read_uart_stdin_byte : List (Option ℕ) → Option ℕ × List (Option ℕ)
read_uart_stdin_byte [] = (none, [])
read_uart_stdin_byte (r ∷ reads) = (r, reads)

-- `start + 8 data + stop`
abbrev pub frame_of : ℕ → ℕ
frame_of ch = u16 (bit_or (2 ^ 9) (ch % 2 ^ 8 * 2))

-- The part of `drive_uart_rx` that drives the bit at hand: the state, and the pin.
unfoldable pub drive_bit : Uart → Uart × ℕ
drive_bit u =
    let pin = u.rx_frame % 2 in
    let ticks = sub32 u.rx_ticks 1 in
    if ticks == 0
    then (
      record u {
        rx_frame = u16 (bit_or (u.rx_frame / 2) 0x200);
        rx_bits = sub32 u.rx_bits 1;
        rx_ticks = uart_bit_ticks;
      },
      pin,
    )
    else (record u { rx_ticks = ticks }, pin)

-- The pin is 1 where nothing is sent.
unfoldable pub drive_uart_rx : Uart → Uart × ℕ
drive_uart_rx u =
    let (ch, reads) = read_uart_stdin_byte u.reads in
    if not u.stdin_enabled
    then (u, 1)
    else if u.rx_bits == 0
    then elim ch [
      | some c ↦ drive_bit (record u {
        rx_frame = frame_of c;
        rx_bits = 10;
        rx_ticks = uart_bit_ticks;
        reads = reads;
      })
      | none ↦ (record u { reads = reads }, 1)
    ]
    else drive_bit u

-- The pins of `n` calls, one in each cycle.
unfoldable pub drive_pins : ℕ → Uart → Uart × List ℕ
drive_pins zero u = (u, [])
drive_pins (suc n) u =
    let (u', pin) = drive_uart_rx u in let (u'', pins) = drive_pins n u' in (u'', pin ∷ pins)
