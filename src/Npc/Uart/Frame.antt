-- ===== src/Npc/Uart/Frame.antt =====
-- The frame that a byte of the input becomes on the pin (npc/csrc/main.cpp).
use ysyxworkbench.Prelude.{
  ℕ, zero, suc, ◌+◌, ◌*◌, ◌/◌, ◌%◌, ◌≤◌, ◌<◌, ◌≡◌, refl, ap, ap₂, ◌∙◌, Bool, true, false,
  if◌then◌else◌, Option, some, List, [], ◌∷◌, ◌++◌, ◌==◌, replicate, u16, bit_or, arith, ==_iff,
}
use native.Mathlib.Decide.{ℕ_discrete}
use ysyxworkbench.Npc.Uart.{
  Uart, uart_bit_ticks, frame_of, drive_bit, drive_uart_rx, drive_pins, read_uart_stdin_byte,
}

-- A start bit, the eight bits of the byte from the lowest on, and a stop bit, 16 cycles each.
abbrev pub cycles : ℕ → List ℕ
cycles bit = replicate uart_bit_ticks bit

abbrev pub frame_pins : ℕ → List ℕ
frame_pins ch =
    cycles 0
    ++ (cycles (ch % 2)
        ++ (cycles (ch / 2 % 2)
            ++ (cycles (ch / 4 % 2)
                ++ (cycles (ch / 8 % 2)
                    ++ (cycles (ch / 16 % 2)
                        ++ (cycles (ch / 32 % 2)
                            ++ (cycles (ch / 64 % 2) ++ (cycles (ch / 128 % 2) ++ cycles 1))))))))

-- The test of each number from `start` on, `count` of them.
passes_from : (ℕ → Bool) → ℕ → ℕ → Bool
passes_from test start zero = true
passes_from test start (suc count) =
    if test start then passes_from test (suc start) count else false

both_pass : (a b : Bool) → (if a then b else false) ≡ true → (a ≡ true) × (b ≡ true)
both_pass true b e = (refl, e)
both_pass false b e = cc

passes_from-at :
    (test : ℕ → Bool) (start count at : ℕ)
    → passes_from test start count ≡ true
    → start ≤ at
    → at < start + count
    → test at ≡ true
unfolding passes_from
passes_from-at test start zero at passes above below = absurd (omega arith)
passes_from-at test start (suc count) at passes above below =
    let (here, later) = both_pass (test start) (passes_from test (suc start) count) passes in
    elim (ℕ_discrete at start) [
      | yes e ↦ ap test e ∙ here
      | no other ↦ passes_from-at test (suc start) count at later (omega arith) (omega arith)
    ]

shift_table : passes_from (λ x. u16 (bit_or (x / 2) 0x200) == x / 2 + 512) 0 1024 ≡ true
unfolding passes_from
shift_table = refl

frame_table : passes_from (λ c. frame_of c == 512 + 2 * c) 0 256 ≡ true
unfolding passes_from
frame_table = refl

-- The frame moves by a bit, and ones follow.
shift_frame : (x : ℕ) → x < 1024 → u16 (bit_or (x / 2) 0x200) ≡ x / 2 + 512
shift_frame x h = (==_iff _ _).0 (passes_from-at _ 0 1024 x shift_table (omega arith) h)

frame_of-eq : (c : ℕ) → c < 256 → frame_of c ≡ 512 + 2 * c
frame_of-eq c h = (==_iff _ _).0 (passes_from-at _ 0 256 c frame_table (omega arith) h)

-- The bit at hand for the `t + 1` cycles that are left of it.
abbrev sending : Uart → ℕ → ℕ → ℕ → Uart
sending u frame bits ticks = record u { rx_frame = frame; rx_bits = bits; rx_ticks = ticks }

drive_step :
    (u : Uart) (frame bits t : ℕ)
    → u.stdin_enabled ≡ true
    → bits < 10
    → t < 15
    → drive_uart_rx (sending u frame (suc bits) (suc (suc t)))
      ≡ (sending u frame (suc bits) (suc t), frame % 2)
unfolding drive_uart_rx drive_bit
drive_step u frame bits t on few small = ground arith

drive_last :
    (u : Uart) (frame bits : ℕ)
    → u.stdin_enabled ≡ true
    → bits < 10
    → frame < 1024
    → drive_uart_rx (sending u frame (suc bits) 1)
      ≡ (sending u (frame / 2 + 512) bits 16, frame % 2)
unfolding drive_uart_rx drive_bit
drive_last u frame bits on few small = ground (arith, shift_frame frame small)

drive_pins-suc :
    (n : ℕ) (u u' : Uart) (pin : ℕ)
    → drive_uart_rx u ≡ (u', pin)
    → drive_pins (suc n) u ≡ ((drive_pins n u').0, pin ∷ (drive_pins n u').1)
unfolding drive_pins
drive_pins-suc n u u' pin e =
    ap (λ (r : Uart × ℕ). ((drive_pins n r.0).0, r.1 ∷ (drive_pins n r.0).1)) e

-- The cycles that are left of a bit.
drive_pins_bit :
    (t n : ℕ) (u : Uart) (frame bits : ℕ)
    → u.stdin_enabled ≡ true
    → bits < 10
    → t < 16
    → frame < 1024
    → drive_pins (suc t + n) (sending u frame (suc bits) (suc t)) ≡ (
      (drive_pins n (sending u (frame / 2 + 512) bits 16)).0,
      replicate (suc t) (frame % 2) ++ (drive_pins n (sending u (frame / 2 + 512) bits 16)).1,
    )
drive_pins_bit zero n u frame bits on few small fits =
    ap (λ (k : ℕ). drive_pins k (sending u frame (suc bits) 1)) (omega arith)
    ∙ drive_pins-suc n _ _ _ (drive_last u frame bits on few fits)
drive_pins_bit (suc t) n u frame bits on few small fits =
    ap (λ (k : ℕ). drive_pins k (sending u frame (suc bits) (suc (suc t)))) (omega arith)
    ∙ drive_pins-suc (suc t + n) _ _ _ (drive_step u frame bits t on few (omega arith))
    ∙ ap (λ (r : Uart × List ℕ). (r.0, (frame % 2) ∷ r.1))
        (drive_pins_bit t n u frame bits on few (omega arith) fits)

-- The pins of the bits of a frame.
pins_of : ℕ → ℕ → List ℕ
pins_of zero frame = []
pins_of (suc b) frame = cycles (frame % 2) ++ pins_of b (frame / 2 + 512)

-- The frame after `b` bits.
shifted : ℕ → ℕ → ℕ
shifted zero frame = frame
shifted (suc b) frame = shifted b (frame / 2 + 512)

drive_pins_frame :
    (b : ℕ) (u : Uart) (frame : ℕ)
    → u.stdin_enabled ≡ true
    → b ≤ 10
    → frame < 1024
    → drive_pins (16 * b) (sending u frame b 16)
      ≡ (sending u (shifted b frame) 0 16, pins_of b frame)
unfolding pins_of shifted drive_pins
drive_pins_frame zero u frame on few fits = refl
drive_pins_frame (suc b) u frame on few fits =
    let size : 16 * suc b ≡ suc 15 + 16 * b = omega arith in
    ap (λ (k : ℕ). drive_pins k (sending u frame (suc b) 16)) size
    ∙ drive_pins_bit 15 (16 * b) u frame b on (omega arith) (omega arith) fits
    ∙ ap (λ (r : Uart × List ℕ). (r.0, cycles (frame % 2) ++ r.1))
        (drive_pins_frame b u (frame / 2 + 512) on (omega arith) (omega arith))

same_bit : (a b : ℕ) (p q : List ℕ) → a ≡ b → p ≡ q → cycles a ++ p ≡ cycles b ++ q
same_bit a b p q e f = ap₂ (λ (x : ℕ) (ys : List ℕ). cycles x ++ ys) e f

pins_of-frame_pins : (c : ℕ) → c < 256 → pins_of 10 (512 + 2 * c) ≡ frame_pins c
unfolding pins_of
pins_of-frame_pins c h = same_bit _ 0 _ _ (omega arith) (
    same_bit _ (c % 2) _ _ (omega arith) (
      same_bit _ (c / 2 % 2) _ _ (omega arith) (
        same_bit _ (c / 4 % 2) _ _ (omega arith) (
          same_bit _ (c / 8 % 2) _ _ (omega arith) (
            same_bit _ (c / 16 % 2) _ _ (omega arith) (
              same_bit _ (c / 32 % 2) _ _ (omega arith) (
                same_bit _ (c / 64 % 2) _ _ (omega arith) (
                  same_bit _ (c / 128 % 2) _ _ (omega arith)
                    (same_bit _ 1 [] [] (omega arith) refl)))))))))

shifted_out : (c : ℕ) → c < 256 → shifted 10 (512 + 2 * c) ≡ 0x3ff
unfolding shifted
shifted_out c h = omega arith

-- The call that reads a byte drives the first cycle of its frame.
drive_start :
    (u : Uart) (c : ℕ) (reads : List (Option ℕ))
    → u.stdin_enabled ≡ true
    → u.rx_bits ≡ 0
    → u.reads ≡ some c ∷ reads
    → drive_uart_rx u ≡ drive_uart_rx (sending (record u { reads = reads }) (frame_of c) 10 16)
unfolding drive_uart_rx read_uart_stdin_byte
drive_start u c reads on idle next = ground arith

-- With the input enabled and nothing being sent, a byte that is read goes out in the next 160 cycles:
-- the pin is 0 for 16 cycles, then the bits of the byte from the lowest on for 16 cycles each, then 1
-- for 16 cycles. Then nothing is being sent again, and one read has been made.
pub drive_pins-frame_pins :
    (u : Uart) (c : ℕ) (reads : List (Option ℕ))
    → u.stdin_enabled ≡ true
    → u.rx_bits ≡ 0
    → u.reads ≡ some c ∷ reads
    → c < 256
    → drive_pins 160 u
      ≡ (record u { rx_frame = 0x3ff; rx_bits = 0; rx_ticks = 16; reads = reads }, frame_pins c)
unfolding drive_pins
drive_pins-frame_pins u c reads on idle next byte =
    let u' : Uart = record u { reads = reads } in
    ap (λ (r : Uart × ℕ). ((drive_pins 159 r.0).0, r.1 ∷ (drive_pins 159 r.0).1))
      (drive_start u c reads on idle next)
    ∙ ap (λ (f : ℕ). drive_pins 160 (sending u' f 10 16)) (frame_of-eq c byte)
    ∙ drive_pins_frame 10 u' (512 + 2 * c) on (omega arith) (omega arith)
    ∙ ap₂ (λ (f : ℕ) (ps : List ℕ). (sending u' f 0 16, ps)) (shifted_out c byte)
        (pins_of-frame_pins c byte)
