-- ===== src/Cpu/Division.antt =====
-- What the division of Alu.antt computes, against sign and magnitude.
use native.Mathlib.Nat.{div-add-mod', mod-lt, mod-le, div-le_self}
use ysyxworkbench.Prelude.{
  ℕ, ◌+◌, ◌-◌, ◌*◌, ◌/◌, ◌%◌, ◌^◌, ◌<◌, ◌≤◌, ◌≡◌, refl, ap, ◌⊎◌, inl, inr, Bool-cases, Bool, true,
  false, ok, arith, ◌==◌, u32,
}
use ysyxworkbench.Cpu.Alu.{is_neg, magnitude, signs_differ, with_sign, no_quotient, div32, rem32}

-- A division of magnitudes, with signs put on its results.
division : (m n : ℕ) → 0 < n → (m / n * n + m % n ≡ m) × (m % n < n) × (m % n ≤ m) × (m / n ≤ m)
division m n h = ground (arith, div-add-mod' m n, mod-lt m h, mod-le m n, div-le_self m n)

neg_product : (q b : ℕ) → q ≤ 2 ^ 32 → (k : ℕ) × (u32 (2 ^ 32 - q) * b + q * b ≡ k * 2 ^ 32)
neg_product q b h = elim (Bool-cases (q == 0)) [
  | inl z ↦ (0, ground (arith, ap (λ (v : ℕ). u32 (2 ^ 32 - v) * b + v * b) (zero_eq z)))
  | inr nz ↦ (b, ground (arith, ap (λ (v : ℕ). v * b) (whole nz)))
]
  where
    zero_eq : (q == 0) ≡ true → q ≡ 0
    zero_eq e = ground arith

    whole : (q == 0) ≡ false → u32 (2 ^ 32 - q) + q ≡ 2 ^ 32
    whole e = ground arith

signed_sum :
    (a b q r : ℕ)
    → a < 2 ^ 32
    → b < 2 ^ 32
    → r < magnitude b
    → q ≤ magnitude a
    → q * magnitude b + r ≡ magnitude a
    → u32 (with_sign (signs_differ a b) q * b + with_sign (is_neg a) r) ≡ a
signed_sum a b q r ha hb hr hq h = elim (Bool-cases (is_neg a)) [
  | inl na ↦ elim (Bool-cases (is_neg b)) [
    | inl nb ↦ ground (arith, ap (λ (v : ℕ). q * v) (other_half nb))
    | inr nb ↦ (let (k, e) = neg_product q b (ground arith) in ground (arith, e))
  ]
  | inr na ↦ elim (Bool-cases (is_neg b)) [
    | inl nb ↦
        (let (k, e) = neg_product q b (ground arith) in
          ground (arith, e, ap (λ (v : ℕ). q * v) (other_half nb)))
    | inr nb ↦ ground arith
  ]
]
  where
    other_half : is_neg b ≡ true → b + magnitude b ≡ 2 ^ 32
    other_half e = ground arith

remainder_size :
    (a r n : ℕ) → a < 2 ^ 32 → r < n → r ≤ magnitude a → magnitude (with_sign (is_neg a) r) < n
remainder_size a r n ha h le = elim (Bool-cases (is_neg a)) [
  | inl na ↦ ground arith
  | inr na ↦ ground arith
]

remainder_sign :
    (a r : ℕ)
    → a < 2 ^ 32
    → r ≤ magnitude a
    → (with_sign (is_neg a) r ≡ 0) ⊎ (is_neg (with_sign (is_neg a) r) ≡ is_neg a)
remainder_sign a r ha le = elim (Bool-cases (r == 0)) [
  | inl z ↦ inl (ground arith)
  | inr nz ↦ inr (ground arith)
]

magnitude-with_sign :
    (neg : Bool) (v : ℕ)
    → v ≤ 2 ^ 31
    → (neg ≡ false → v < 2 ^ 31)
    → (magnitude (with_sign neg v) ≡ v) × ((with_sign neg v ≡ 0) ⊎ (is_neg (with_sign neg v) ≡ neg))
magnitude-with_sign true v le below = elim (Bool-cases (v == 0)) [
  | inl z ↦ (ground arith, inl (ground arith))
  | inr nz ↦ (ground arith, inr (ground arith))
]
magnitude-with_sign false v le below =
    (ground (arith, below refl), inr (ground (arith, below refl)))

-- A quotient of magnitudes that gets no minus sign is less than 2^31.
quotient_below :
    (a b q r : ℕ)
    → a < 2 ^ 32
    → b < 2 ^ 32
    → no_quotient a b ≡ false
    → q ≤ magnitude a
    → q * magnitude b + r ≡ magnitude a
    → signs_differ a b ≡ false
    → q < 2 ^ 31
quotient_below a b q r ha hb defined le sum same = elim (Bool-cases (q == 2 ^ 31)) [
  | inl top ↦ ground (arith, ap (λ (v : ℕ). v * magnitude b) (at_top top))
  | inr other ↦ ground arith
]
  where
    at_top : (q == 2 ^ 31) ≡ true → q ≡ 2 ^ 31
    at_top e = ground arith

-- When the divisor is not 0 and the division does not overflow, DIV and REM return the quotient
-- and remainder of the truncating division: the magnitude of the quotient times that of the divisor,
-- plus that of the remainder, is the magnitude of the dividend; the magnitude of the remainder is
-- smaller than that of the divisor; the quotient is 0 or negative exactly when the signs of the
-- operands differ; and the remainder is 0 or has the dividend's sign. Also, modulo 2^32, quotient
-- times divisor plus remainder is the dividend.
pub div32-rem32 :
    (a b : ℕ)
    → a < 2 ^ 32
    → b < 2 ^ 32
    → no_quotient a b ≡ false
    → (q : ℕ) × (r : ℕ) × (div32 a b ≡ ok q)
      × (rem32 a b ≡ ok r)
      × (u32 (q * b + r) ≡ a)
      × (magnitude q * magnitude b + magnitude r ≡ magnitude a)
      × (magnitude r < magnitude b)
      × ((q ≡ 0) ⊎ (is_neg q ≡ signs_differ a b))
      × ((r ≡ 0) ⊎ (is_neg r ≡ is_neg a))
unfolding div32 rem32
div32-rem32 a b ha hb defined =
    let pos : 0 < magnitude b = ground arith in
    let (sum, less, r_le, q_le) = division (magnitude a) (magnitude b) pos in
    let q = magnitude a / magnitude b in
    let r = magnitude a % magnitude b in
    let (q_size, q_sign) =
      magnitude-with_sign (signs_differ a b) q (ground arith)
        (quotient_below a b q r ha hb defined q_le sum) in
    let (r_size, _) = magnitude-with_sign (is_neg a) r (ground arith) (λ e. ground arith) in
    (
      with_sign (signs_differ a b) (magnitude a / magnitude b),
      with_sign (is_neg a) (magnitude a % magnitude b),
      rw defined refl,
      rw defined refl,
      signed_sum a b (magnitude a / magnitude b) (magnitude a % magnitude b) ha hb less q_le sum,
      rw (q_size, r_size) sum,
      remainder_size a (magnitude a % magnitude b) (magnitude b) ha less r_le,
      q_sign,
      remainder_sign a (magnitude a % magnitude b) ha r_le,
    )
