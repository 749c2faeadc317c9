-- ===== src/Npc/Memory/Pattern.antt =====
-- The pattern that `init_flash` puts into the flash, and what a read of it returns.
use ysyxworkbench.Npc.Memory.Image.{inside, put_word_at, flash_read-word}
use ysyxworkbench.Prelude.{
  ℕ, zero, suc, ◌+◌, ◌-◌, ◌*◌, ◌%◌, ◌^◌, ◌≤◌, ◌<◌, ◌≡◌, refl, ◌∙◌, true, false, if◌then◌else◌, u32,
  bit_xor, arith, Bool-cases, inl, inr,
}
use ysyxworkbench.Prelude.Bits.{xor-lt}
use ysyxworkbench.Memory.{byte_of}
use ysyxworkbench.Npc.Memory.{Arrays, put_word, flash_read, flash_pattern, fill_pattern, init_flash}

flash_pattern-lt : (addr : ℕ) → flash_pattern addr < 2 ^ 32
unfolding flash_pattern
flash_pattern-lt addr =
    let w = addr - addr % 4 in
    xor-lt 32 (bit_xor 0x5a000000 (u32 (w * 0x01010101))) (u32 (w * 2 ^ 8))
      (xor-lt 32 0x5a000000 (u32 (w * 0x01010101)) (omega arith) (omega arith)) (omega arith)

fill_step :
    (left at : ℕ) (flash : ℕ → ℕ) (i : ℕ)
    → at % 4 ≡ 0
    → (if inside (at + 4) (4 * left) i
        then byte_of (flash_pattern (i - i % 4)) (i % 4)
        else put_word flash at (flash_pattern at) i)
      ≡ (if inside at (4 * suc left) i
          then byte_of (flash_pattern (i - i % 4)) (i % 4)
          else flash i)
fill_step left at flash i aligned = elim (Bool-cases (inside at 4 i)) [
  | inl first ↦
      let past : inside (at + 4) (4 * left) i ≡ false = ground arith in
      let is_in : inside at (4 * suc left) i ≡ true = ground arith in
      let e : i - i % 4 ≡ at = ground arith in
      let e' : i - at ≡ i % 4 = ground arith in
      rw (past, is_in, e) (put_word_at flash at (flash_pattern at) i ∙ rw (first, e') refl)
  | inr other ↦ elim (Bool-cases (inside (at + 4) (4 * left) i)) [
    | inl is_in ↦
        let is_in' : inside at (4 * suc left) i ≡ true = ground arith in rw (is_in, is_in') refl
    | inr out ↦
        let out' : inside at (4 * suc left) i ≡ false = ground arith in
        rw (out, out') (put_word_at flash at (flash_pattern at) i ∙ rw other refl)
  ]
]

fill_pattern_at :
    (left at : ℕ) (flash : ℕ → ℕ) (i : ℕ)
    → at % 4 ≡ 0
    → fill_pattern left at flash i
      ≡ (if inside at (4 * left) i then byte_of (flash_pattern (i - i % 4)) (i % 4) else flash i)
unfolding fill_pattern
fill_pattern_at zero at flash i aligned = ground arith
fill_pattern_at (suc left) at flash i aligned =
    fill_pattern_at left (at + 4) (put_word flash at (flash_pattern at)) i (omega arith)
    ∙ fill_step left at flash i aligned

pattern_byte :
    (addr j i : ℕ)
    → addr % 4 ≡ 0
    → addr < 0x1000
    → j < 4
    → i ≡ addr + j
    → fill_pattern 1024 0 (λ k. 0xff) i ≡ byte_of (flash_pattern addr) j
pattern_byte addr j i aligned small below e =
    let is_in : inside 0 (4 * 1024) i ≡ true = ground arith in
    let word_at : i - i % 4 ≡ addr = omega arith in
    let byte_at : i % 4 ≡ j = omega arith in
    fill_pattern_at 1024 0 (λ k. 0xff) i refl ∙ rw (is_in, word_at, byte_at) refl

-- After `init_flash` the aligned words of the first 4096 bytes are those of `flash_pattern`, and every
-- other byte of the flash is 255, as erased flash is.
flash_read-init_flash :
    (m : Arrays)
    → ((addr : ℕ)
        → addr % 4 ≡ 0
        → addr < 0x1000
        → flash_read addr (init_flash m) ≡ flash_pattern addr)
      × ((at : ℕ) → 0x1000 ≤ at → (init_flash m).flash at ≡ 0xff)
unfolding init_flash flash_read
flash_read-init_flash m = (
  λ addr aligned small.
      flash_read-word addr (init_flash m) (omega arith)
      ∙ omega (
        arith,
        flash_pattern-lt addr,
        pattern_byte addr 0 addr aligned small (omega arith) (omega arith),
        pattern_byte addr 1 (addr + 1) aligned small (omega arith) refl,
        pattern_byte addr 2 (addr + 2) aligned small (omega arith) refl,
        pattern_byte addr 3 (addr + 3) aligned small (omega arith) refl,
      ),
  λ at high. fill_pattern_at 1024 0 (λ i. 0xff) at refl ∙ ground arith,
)
