-- ===== src/Cpu/Arith.antt =====
-- What the arithmetic of Alu.antt computes, against sign and magnitude.
use native.Mathlib.Nat.{mul-le-mul, mul_comm}
use ysyxworkbench.Prelude.{
  ℕ, ◌+◌, ◌-◌, ◌*◌, ◌/◌, ◌%◌, ◌^◌, ◌<◌, ◌≤◌, ◌≡◌, sym, ap, ◌∙◌, inl, inr, Bool-cases, Bool, true,
  arith, if◌then◌else◌, u32, u64,
}
use ysyxworkbench.Cpu.Alu.{is_neg, magnitude, signs_differ, sext64, sra64, mul32, mulh32, mulhsu32}

-- The 64 bits of the two's complement of `m`, or of `m` itself.
abbrev pub pattern64 : Bool → ℕ → ℕ
pattern64 neg m = if neg then u64 (2 ^ 64 - m) else m

high_low : (p : ℕ) → p < 2 ^ 64 → u32 (sra64 p 32) * 2 ^ 32 + p % 2 ^ 32 ≡ p
unfolding sra64
high_low p h = ground arith

-- Products of negated words.
neg_neg : (x y s t : ℕ) → x + s ≡ 2 ^ 64 → y + t ≡ 2 ^ 64 → s * t < 2 ^ 64 → u64 (x * y) ≡ s * t
neg_neg x y s t hx hy h = omega (arith, ap (λ (v : ℕ). v * y) hx, ap (λ (v : ℕ). s * v) hy)

neg_pos : (x y s : ℕ) → x + s ≡ 2 ^ 64 → s * y < 2 ^ 64 → u64 (x * y) ≡ u64 (2 ^ 64 - s * y)
neg_pos x y s hx h = omega (arith, ap (λ (v : ℕ). v * y) hx)

words_product : (a b : ℕ) → a ≤ 2 ^ 32 - 1 → b ≤ 2 ^ 32 → a * b < 2 ^ 64
words_product a b ha hb = omega (arith, mul-le-mul ha hb)

product_half :
    (a b : ℕ)
    → a < 2 ^ 32
    → b < 2 ^ 32
    → u64 (sext64 a * b) ≡ pattern64 (is_neg a) (magnitude a * b)
unfolding sext64
product_half a b ha hb = elim (Bool-cases (is_neg a)) [
  | inl na ↦ ground (
    arith,
    neg_pos (sext64 a) b (magnitude a) (ground arith)
        (words_product (magnitude a) b (ground arith) (ground arith)),
  )
  | inr na ↦ ground (arith, words_product a b (ground arith) (ground arith))
]

product_signed :
    (a b : ℕ)
    → a < 2 ^ 32
    → b < 2 ^ 32
    → u64 (sext64 a * sext64 b) ≡ pattern64 (signs_differ a b) (magnitude a * magnitude b)
unfolding sext64
product_signed a b ha hb = elim (Bool-cases (is_neg a)) [
  | inl na ↦ elim (Bool-cases (is_neg b)) [
    | inl nb ↦ ground (
      arith,
      neg_neg (sext64 a) (sext64 b) (magnitude a) (magnitude b) (ground arith) (ground arith)
          (words_product (magnitude a) (magnitude b) (ground arith) (ground arith)),
    )
    | inr nb ↦ ground (
      arith,
      neg_pos (sext64 a) b (magnitude a) (ground arith)
          (words_product (magnitude a) b (ground arith) (ground arith)),
    )
  ]
  | inr na ↦ elim (Bool-cases (is_neg b)) [
    | inl nb ↦ ground (
      arith,
      mul_comm a (sext64 b),
      mul_comm a (magnitude b),
      neg_pos (sext64 b) a (magnitude b) (ground arith)
          (words_product (magnitude b) a (ground arith) (ground arith)),
    )
    | inr nb ↦ ground (arith, words_product a b (ground arith) (ground arith))
  ]
]

low_word : (a b : ℕ) → a < 2 ^ 32 → b < 2 ^ 32 → sext64 a * b % 2 ^ 32 ≡ a * b % 2 ^ 32
unfolding sext64
low_word a b ha hb = elim (Bool-cases (is_neg a)) [
  | inl na ↦ ground (arith, ap (λ (v : ℕ). v * b) (extra na))
  | inr na ↦ ground arith
]
  where
    extra : is_neg a ≡ true → sext64 a ≡ a + 4294967295 * 2 ^ 32
    extra h = ground arith

halves :
    (a b p : ℕ)
    → p < 2 ^ 64
    → p % 2 ^ 32 ≡ a * b % 2 ^ 32
    → u32 (sra64 p 32) * 2 ^ 32 + u32 (a * b) ≡ p
halves a b p h low = ap (λ (v : ℕ). u32 (sra64 p 32) * 2 ^ 32 + v) (sym low) ∙ high_low p h

mod_low : (p : ℕ) → u64 p % 2 ^ 32 ≡ p % 2 ^ 32
mod_low p = omega arith

low_words : (a b : ℕ) → a < 2 ^ 32 → b < 2 ^ 32 → sext64 a * sext64 b % 2 ^ 32 ≡ a * b % 2 ^ 32
unfolding sext64
low_words a b ha hb = elim (Bool-cases (is_neg b)) [
  | inl nb ↦ ground (arith, ap (λ (v : ℕ). sext64 a * v) (extra nb), low_word a b ha hb)
  | inr nb ↦ ground (arith, low_word a b ha hb)
]
  where
    extra : is_neg b ≡ true → sext64 b ≡ b + 4294967295 * 2 ^ 32
    extra h = ground arith

-- For words, MULH and MUL give the two halves of the two's complement of the exact signed product:
-- the product of the magnitudes, negated when the signs differ.
pub mulh32-mul32 :
    (a b : ℕ)
    → a < 2 ^ 32
    → b < 2 ^ 32
    → mulh32 a b * 2 ^ 32 + mul32 a b ≡ pattern64 (signs_differ a b) (magnitude a * magnitude b)
unfolding mulh32 mul32
mulh32-mul32 a b ha hb =
    halves a b (u64 (sext64 a * sext64 b)) (omega arith)
      (mod_low (sext64 a * sext64 b) ∙ low_words a b ha hb)
    ∙ product_signed a b ha hb

-- For words, MULHSU and MUL give the two halves of the two's complement of the exact product of
-- the signed first operand and the unsigned second one.
mulhsu32-mul32 :
    (a b : ℕ)
    → a < 2 ^ 32
    → b < 2 ^ 32
    → mulhsu32 a b * 2 ^ 32 + mul32 a b ≡ pattern64 (is_neg a) (magnitude a * b)
unfolding mulhsu32 mul32 sext64
mulhsu32-mul32 a b ha hb =
    high_half (u64 (sext64 a * b)) (omega arith) (mod_low (sext64 a * b) ∙ low_word a b ha hb)
    ∙ product_half a b ha hb
  where
    high_half :
        (p : ℕ)
        → p < 2 ^ 64
        → p % 2 ^ 32 ≡ a * b % 2 ^ 32
        → u32 (p / 2 ^ 32) * 2 ^ 32 + u32 (a * b) ≡ p
    high_half p h low = ap (λ (v : ℕ). u32 (p / 2 ^ 32) * 2 ^ 32 + v) (sym low) ∙ omega arith
