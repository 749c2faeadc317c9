-- ===== src/Tests/Soc.antt =====
-- A small memory that is loaded by stages, a picture at the screen's corner, and some key events.
use ysyxworkbench.Prelude.{
  ℕ, ◌+◌, ◌-◌, ◌*◌, ◌^◌, ok, fault, undefined, Post, ◌≡◌, ◌≤◌, ◌<◌, ◌&&◌, refl, true, false, some,
  List, [], ◌∷◌, if◌then◌else◌, ltb, u32, sub32, arith, inr,
}
use ysyxworkbench.Soc.Boot.{fsbl_copy_image, load_by_stages, copy_words, copy_rest, copy_word}
use ysyxworkbench.Soc.Boot.Copied.{Forward}
use ysyxworkbench.Soc.Boot.Loaded.{IsLinked, load_by_stages-loaded}
use ysyxworkbench.Soc.Screen.{Draw, sum_fits, am_gpu_fbdraw, draw_rows, draw_row}
use ysyxworkbench.Soc.Screen.Drawn.{am_gpu_fbdraw-drawn}
use ysyxworkbench.Soc.Keys.{select, key_from_ps2, key_a, key_up}
use ysyxworkbench.Soc.Input.{
  no_key, read_keys, am_input_keybrd, uart_getch, read_ps2, take_char, arrow,
}
use ysyxworkbench.Soc.Input.Events.{
  Event, press, release_extended, Codes, codes_of, reports_of, polls, waiting, read_keys-reports_of,
}

abbrev flash : ℕ → ℕ
flash a = a * 3

-- Two words and two bytes.
copied_byte : fsbl_copy_image 200 100 110 flash 209 ≡ 327
unfolding fsbl_copy_image copy_words copy_rest copy_word
copied_byte = refl

linked : IsLinked 200 100 108 300 120 130 310 320
unfolding Forward
linked = record {
  ssbl_ordered = omega arith;
  ram_ordered = omega arith;
  bss_ordered = omega arith;
  ssbl_fits = omega arith;
  ram_fits = omega arith;
  ssbl_forward = inr (omega arith);
  ram_forward = inr (omega arith);
  image_kept = inr (omega arith);
  bss_behind = omega arith;
}

load_by_stages-loaded_example :
    ((i : ℕ)
      → i < 130 - 120
      → load_by_stages 200 100 108 300 120 130 310 320 flash (300 + i) ≡ flash (120 + i))
    × ((a : ℕ) → 310 ≤ a → a < 320 → load_by_stages 200 100 108 300 120 130 310 320 flash a ≡ 0)
load_by_stages-loaded_example = load_by_stages-loaded 200 100 108 300 120 130 310 320 flash linked

abbrev picture : ℕ → ℕ
picture i = i + 1

-- Three columns, of which the first is left of the screen, and two rows, the second below the screen.
abbrev corner : Draw
corner = record { x = 0xffff_ffff; y = 479; pixels = some picture; w = 3; h = 2 }

am_gpu_fbdraw-drawn_example :
    Post
      (λ fb'. fb' (479 * 640 + 1) ≡ (
        if ltb (sub32 1 corner.x) corner.w && ltb (sub32 479 corner.y) corner.h
        then picture (u32 (sub32 479 corner.y * corner.w + sub32 1 corner.x))
        else flash (479 * 640 + 1)))
      (am_gpu_fbdraw corner flash)
    × (sum_fits corner.x (corner.w - 1) ≡ true
        → sum_fits corner.y (corner.h - 1) ≡ true
        → corner.h * corner.w ≤ 2 ^ 31
        → (fb' : ℕ → ℕ) × (am_gpu_fbdraw corner flash ≡ ok fb'))
am_gpu_fbdraw-drawn_example =
    am_gpu_fbdraw-drawn corner picture flash 1 479 refl (omega arith) (omega arith) (omega arith)
      (omega arith) (omega arith) (omega arith) (omega arith) (omega arith)

drawn_word : Post (λ fb'. fb' (479 * 640 + 1) ≡ 3) (am_gpu_fbdraw corner flash)
unfolding am_gpu_fbdraw draw_rows draw_row
drawn_word = refl

-- The second column of the picture has no place that is an `int`.
too_far : am_gpu_fbdraw (record corner { x = 2 ^ 31 - 1 }) flash ≡ fault undefined
unfolding am_gpu_fbdraw draw_rows draw_row
too_far = refl

abbrev events : List Event
events = press 0x1c ∷ release_extended 0x75 ∷ []

events-Codes : Codes events
unfolding Codes
events-Codes = (
  record { some_code = refl; not_extended = refl; not_release = refl },
  (record { some_code = refl; not_extended = refl; not_release = refl }, tt),
)

read_keys-reports_of_example :
    read_keys (polls events) (waiting 0 (codes_of events (0x29 ∷ [])) [])
    ≡ (reports_of events, waiting 0 (0x29 ∷ []) [])
read_keys-reports_of_example = read_keys-reports_of events 0 (0x29 ∷ []) [] events-Codes

reported :
    reports_of events
    ≡ record { keydown = true; keycode = key_a }
      ∷ no_key
      ∷ no_key
      ∷ record { keydown = false; keycode = key_up }
      ∷ []
unfolding key_from_ps2 select
reported = refl

-- An arrow key of a terminal.
escape_sequence :
    (read_keys 3 (waiting 0 [] (some 0x1b ∷ some 0x5b ∷ some 0x41 ∷ []))).0
    ≡ no_key ∷ no_key ∷ record { keydown = true; keycode = key_up } ∷ []
unfolding read_keys am_input_keybrd uart_getch read_ps2 take_char arrow
escape_sequence = refl
