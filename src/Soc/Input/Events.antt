-- ===== src/Soc/Input/Events.antt =====
-- The events that `__am_input_keybrd` of abstract-machine/am/src/riscv/ysyxsoc/ioe.c makes of the codes
-- of a PS/2 keyboard and of the escape sequences of a terminal.
use ysyxworkbench.Prelude.{
  ℕ, suc, ◌≡◌, refl, ap, Bool, true, false, not, Option, List, [], ◌∷◌, ◌==◌,
}
use ysyxworkbench.Soc.Keys.{key_from_ps2}
use ysyxworkbench.Soc.Input.{Input, Report, no_key, read_ps2, take_ps2, am_input_keybrd, read_keys}

-- A key goes down or up; the extended keys have a prefix.
pub data Event : Type 0 where
  press release press_extended release_extended : ℕ → Event

-- The codes that the keyboard sends, and those of later events
abbrev pub codes_of : List Event → List ℕ → List ℕ
codes_of [] later = later
codes_of (press c ∷ es) later = c ∷ codes_of es later
codes_of (release c ∷ es) later = 0xf0 ∷ c ∷ codes_of es later
codes_of (press_extended c ∷ es) later = 0xe0 ∷ c ∷ codes_of es later
codes_of (release_extended c ∷ es) later = 0xe0 ∷ 0xf0 ∷ c ∷ codes_of es later

-- The reports, one for each code, and how many there are
abbrev pub reports_of : List Event → List Report
reports_of [] = []
reports_of (press c ∷ es) =
    record { keydown = true; keycode = key_from_ps2 c false } ∷ reports_of es
reports_of (release c ∷ es) =
    no_key ∷ record { keydown = false; keycode = key_from_ps2 c false } ∷ reports_of es
reports_of (press_extended c ∷ es) =
    no_key ∷ record { keydown = true; keycode = key_from_ps2 c true } ∷ reports_of es
reports_of (release_extended c ∷ es) =
    no_key ∷ no_key ∷ record { keydown = false; keycode = key_from_ps2 c true } ∷ reports_of es

abbrev pub polls : List Event → ℕ
polls [] = 0
polls (press c ∷ es) = suc (polls es)
polls (release c ∷ es) = suc (suc (polls es))
polls (press_extended c ∷ es) = suc (suc (polls es))
polls (release_extended c ∷ es) = suc (suc (suc (polls es)))

-- A code that is no prefix
pub record IsCode (c : ℕ) : Type 0 where
  pub some_code : (c == 0) ≡ false
  pub not_extended : (c == 0xe0) ≡ false
  pub not_release : (c == 0xf0) ≡ false

unfoldable pub Codes : List Event → Type 0
Codes [] = Unit {0}
Codes (press c ∷ es) = IsCode c × Codes es
Codes (release c ∷ es) = IsCode c × Codes es
Codes (press_extended c ∷ es) = IsCode c × Codes es
Codes (release_extended c ∷ es) = IsCode c × Codes es

-- A keyboard that waits for a code
abbrev pub waiting : ℕ → List ℕ → List (Option ℕ) → Input
waiting esc ps2 uart = record {
  esc_state = esc;
  ps2_extended = false;
  ps2_released = false;
  ps2 = ps2;
  uart = uart;
}

code_read :
    (c : ℕ) (extended released : Bool) (esc : ℕ) (ps2 : List ℕ) (uart : List (Option ℕ))
    → IsCode c
    → am_input_keybrd (record {
      esc_state = esc;
      ps2_extended = extended;
      ps2_released = released;
      ps2 = c ∷ ps2;
      uart = uart;
    })
      ≡ (record { keydown = not released; keycode = key_from_ps2 c extended }, waiting esc ps2 uart)
unfolding am_input_keybrd read_ps2 take_ps2
code_read c extended released esc ps2 uart is =
    rw (is.some_code, is.not_extended, is.not_release) refl

-- For every sequence of key events whose codes are neither 0 nor a prefix, the calls that read the codes
-- report each key once, down or up, by the table of its kind, and nothing for the prefixes. The
-- variables are then as before, and later codes are left.
pub read_keys-reports_of :
    (es : List Event) (esc : ℕ) (later : List ℕ) (uart : List (Option ℕ))
    → Codes es
    → read_keys (polls es) (waiting esc (codes_of es later) uart)
      ≡ (reports_of es, waiting esc later uart)
unfolding read_keys Codes
read_keys-reports_of [] esc later uart codes = refl
read_keys-reports_of (press c ∷ es) esc later uart (is, codes) =
    rw (code_read c false false esc (codes_of es later) uart is) (
      ap
        (λ (p : List Report × Input).
          (record { keydown = true; keycode = key_from_ps2 c false } ∷ p.0, p.1))
        (read_keys-reports_of es esc later uart codes))
read_keys-reports_of (release c ∷ es) esc later uart (is, codes) =
    rw (code_read c false true esc (codes_of es later) uart is) (
      ap
        (λ (p : List Report × Input).
          (no_key ∷ record { keydown = false; keycode = key_from_ps2 c false } ∷ p.0, p.1))
        (read_keys-reports_of es esc later uart codes))
read_keys-reports_of (press_extended c ∷ es) esc later uart (is, codes) =
    rw (code_read c true false esc (codes_of es later) uart is) (
      ap
        (λ (p : List Report × Input).
          (no_key ∷ record { keydown = true; keycode = key_from_ps2 c true } ∷ p.0, p.1))
        (read_keys-reports_of es esc later uart codes))
read_keys-reports_of (release_extended c ∷ es) esc later uart (is, codes) =
    rw (code_read c true true esc (codes_of es later) uart is) (
      ap
        (λ (p : List Report × Input).
          (no_key ∷ no_key ∷ record { keydown = false; keycode = key_from_ps2 c true } ∷ p.0, p.1))
        (read_keys-reports_of es esc later uart codes))
