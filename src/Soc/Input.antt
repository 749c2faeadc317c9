-- ===== src/Soc/Input.antt =====
-- The keyboard of abstract-machine/am/src/riscv/ysyxsoc/ioe.c: `__am_input_keybrd`.
pub mod Events
use ysyxworkbench.Prelude.{
  ℕ, zero, suc, Bool, true, false, not, Option, none, some, List, [], ◌∷◌, ◌==◌, if◌then◌else◌,
}
use ysyxworkbench.Soc.Keys.{
  Key, key_none, key_escape, key_up, key_down, key_left, key_right, key_from_char, key_from_ps2,
}

-- The static variables, and what the next reads of the devices give: bytes of the PS/2 port, which is
-- 0 when it has none, and bytes of the serial port, `none` while no data is ready.
pub record Input : Type 0 where
  pub esc_state : ℕ
  pub ps2_extended : Bool
  pub ps2_released : Bool
  pub ps2 : List ℕ
  pub uart : List (Option ℕ)

-- `keydown` and `keycode` of `AM_INPUT_KEYBRD_T`
pub record Report : Type 0 where
  pub keydown : Bool
  pub keycode : Key

abbrev pub no_key : Report
no_key = record { keydown = false; keycode = key_none }

unfoldable pub read_ps2 : List ℕ → ℕ × List ℕ
read_ps2 [] = (0, [])
read_ps2 (code ∷ codes) = (code, codes)

-- `(char)-1` is 0xff.
unfoldable pub uart_getch : List (Option ℕ) → ℕ × List (Option ℕ)
uart_getch [] = (0xff, [])
uart_getch (none ∷ uart) = (0xff, uart)
uart_getch (some ch ∷ uart) = (ch, uart)

-- The part of `__am_input_keybrd` for a code of the PS/2 port.
unfoldable pub take_ps2 : ℕ → Input → Report × Input
take_ps2 code s =
    if code == 0xe0
    then (no_key, record s { ps2_extended = true })
    else if code == 0xf0
    then (no_key, record s { ps2_released = true })
    else (
      record { keydown = not s.ps2_released; keycode = key_from_ps2 code s.ps2_extended },
      record s { ps2_extended = false; ps2_released = false },
    )

-- The end of `__am_input_keybrd`.
abbrev pub report : Key → Report
report key_none = no_key
report key = record { keydown = true; keycode = key }

-- The letters of the escape sequences
unfoldable pub arrow : ℕ → Key
arrow ch =
    if ch == 0x41
    then key_up
    else if ch == 0x42
    then key_down
    else if ch == 0x43
    then key_right
    else if ch == 0x44
    then key_left
    else key_none

-- The part of `__am_input_keybrd` for a character of the serial port.
unfoldable pub take_char : ℕ → Input → Report × Input
unfolding arrow
take_char ch s =
    if s.esc_state == 1
    then if ch == 0x5b
      then (no_key, record s { esc_state = 2 })
      else (report key_escape, record s { esc_state = 0 })
    else if s.esc_state == 2
    then (report (arrow ch), record s { esc_state = 0 })
    else if ch == 0x1b
    then (no_key, record s { esc_state = 1 })
    else (report (key_from_char ch), s)

unfoldable pub am_input_keybrd : Input → Report × Input
unfolding read_ps2 uart_getch take_ps2 take_char
am_input_keybrd s =
    let (code, ps2) = read_ps2 s.ps2 in
    let (ch, uart) = uart_getch s.uart in
    if not (code == 0)
    then take_ps2 code (record s { ps2 = ps2 })
    else if ch == 0xff
    then (no_key, record s { ps2 = ps2; uart = uart })
    else take_char ch (record s { ps2 = ps2; uart = uart })

-- The reports of `n` calls.
unfoldable pub read_keys : ℕ → Input → List Report × Input
unfolding am_input_keybrd
read_keys zero s = ([], s)
read_keys (suc n) s =
    let (r, s') = am_input_keybrd s in let (rs, s'') = read_keys n s' in (r ∷ rs, s'')
