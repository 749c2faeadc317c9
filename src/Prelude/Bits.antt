-- ===== src/Prelude/Bits.antt =====
-- Laws of the native `&`, `|` and `^` at variables: bounds, the lowest digit, masks.
use Prim.Native.Nat.{differ, digits, bitwise, bit_and-bitwise, bit_or-bitwise, bit_xor-bitwise}
use Prim.Native.Nat.{ℕ, zero, suc, ◌+◌, ◌-◌, ◌*◌, ◌/◌, ◌%◌, ◌^◌, ◌≤◌, ◌<◌, min, max}
use Prim.Native.Nat.{bit_and, bit_or, bit_xor}
use mathlib.Core.Path.{◌≡◌, refl, ap, ap₂, ◌∙◌}
use native.Mathlib.Nat.{pow-suc, one-le-pow, mod-lt, mod-eq_of_lt, div-add-mod'}
use native.Mathlib.Omega.{arith}

-- One more unit of fuel than the first argument needs changes nothing.
module _ (rest : ℕ → ℕ) (op : ℕ → ℕ → ℕ) where
  fuel_irrelevant : (k l a b : ℕ) → a ≤ k → a ≤ l → digits rest op k a b ≡ digits rest op l a b
  fuel_irrelevant zero zero a b hk hl = refl
  fuel_irrelevant zero (suc l) zero b hk hl = refl
  fuel_irrelevant zero (suc l) (suc a) b hk hl = absurd (omega arith)
  fuel_irrelevant (suc k) zero zero b hk hl = refl
  fuel_irrelevant (suc k) zero (suc a) b hk hl = absurd (omega arith)
  fuel_irrelevant (suc k) (suc l) zero b hk hl = refl
  fuel_irrelevant (suc k) (suc l) (suc a) b hk hl =
      let half = fuel_irrelevant k l (suc a / 2) (b / 2) (omega arith) (omega arith) in
      ap (λ t. t * 2 + op (suc a % 2) (b % 2)) half

  bitwise_digit :
      (a b : ℕ)
      → bitwise rest op (suc a) b ≡ bitwise rest op (suc a / 2) (b / 2) * 2 + op (suc a % 2) (b % 2)
  bitwise_digit a b =
      omega (arith, fuel_irrelevant a (suc a / 2) (suc a / 2) (b / 2) (omega arith) (omega arith))

pub and_digit : (a b : ℕ) → bit_and a b ≡ bit_and (a / 2) (b / 2) * 2 + min (a % 2) (b % 2)
and_digit zero b = simp bit_and-bitwise (omega arith)
and_digit (suc a) b = simp bit_and-bitwise (bitwise_digit (λ y. 0) min a b)

pub or_digit : (a b : ℕ) → bit_or a b ≡ bit_or (a / 2) (b / 2) * 2 + max (a % 2) (b % 2)
or_digit zero b = simp bit_or-bitwise (omega arith)
or_digit (suc a) b = simp bit_or-bitwise (bitwise_digit (λ y. y) max a b)

pub xor_digit : (a b : ℕ) → bit_xor a b ≡ bit_xor (a / 2) (b / 2) * 2 + differ (a % 2) (b % 2)
xor_digit zero b = simp bit_xor-bitwise (omega arith)
xor_digit (suc a) b = simp bit_xor-bitwise (bitwise_digit (λ y. y) differ a b)

two_pow_suc : (q k : ℕ) → q * 2 ^ suc k ≡ 2 * (q * 2 ^ k)
two_pow_suc q k = omega (arith, ap (λ (t : ℕ). q * t) (pow-suc 2 k))

differ-le : (x y : ℕ) → x < 2 → y < 2 → differ x y < 2
differ-le zero zero h k = omega arith
differ-le zero (suc y) h k = omega arith
differ-le (suc x) zero h k = omega arith
differ-le (suc zero) (suc zero) h k = omega arith
differ-le (suc zero) (suc (suc y)) h k = absurd (omega arith)
differ-le (suc (suc x)) (suc y) h k = absurd (omega arith)

-- The three operations stay below a power of two that bounds both arguments.
pub or-lt : (k a b : ℕ) → a < 2 ^ k → b < 2 ^ k → bit_or a b < 2 ^ k
or-lt zero zero zero h l = omega arith
or-lt zero zero (suc b) h l = absurd (omega arith)
or-lt zero (suc a) b h l = absurd (omega arith)
or-lt (suc k) a b h l = omega (
  arith,
  pow-suc 2 k,
  or_digit a b,
  or-lt k (a / 2) (b / 2) (omega (arith, pow-suc 2 k)) (omega (arith, pow-suc 2 k)),
)

pub xor-lt : (k a b : ℕ) → a < 2 ^ k → b < 2 ^ k → bit_xor a b < 2 ^ k
xor-lt zero zero zero h l = omega arith
xor-lt zero zero (suc b) h l = absurd (omega arith)
xor-lt zero (suc a) b h l = absurd (omega arith)
xor-lt (suc k) a b h l =
    let rest = xor-lt k (a / 2) (b / 2) (omega (arith, pow-suc 2 k)) (omega (arith, pow-suc 2 k)) in
    let digit = differ-le (a % 2) (b % 2) (omega arith) (omega arith) in
    omega (arith, pow-suc 2 k, xor_digit a b)

and-le_fuel : (k a b : ℕ) → a ≤ k → bit_and a b ≤ a
and-le_fuel k zero b h = simp bit_and-bitwise (omega arith)
and-le_fuel zero (suc a) b h = absurd (omega arith)
and-le_fuel (suc k) (suc a) b h =
    omega (arith, and_digit (suc a) b, and-le_fuel k (suc a / 2) (b / 2) (omega arith))

pub and-le : (a b : ℕ) → bit_and a b ≤ a
and-le a b = and-le_fuel a a b (omega arith)

and-zero_fuel : (k a : ℕ) → a ≤ k → bit_and a 0 ≡ 0
and-zero_fuel k zero h = refl
and-zero_fuel zero (suc a) h = absurd (omega arith)
and-zero_fuel (suc k) (suc a) h =
    omega (arith, and_digit (suc a) 0, and-zero_fuel k (suc a / 2) (omega arith))

pub and-zero : (a : ℕ) → bit_and a 0 ≡ 0
and-zero a = and-zero_fuel a a (omega arith)

or-zero_fuel : (k a : ℕ) → a ≤ k → bit_or a 0 ≡ a
or-zero_fuel k zero h = refl
or-zero_fuel zero (suc a) h = absurd (omega arith)
or-zero_fuel (suc k) (suc a) h =
    omega (arith, or_digit (suc a) 0, or-zero_fuel k (suc a / 2) (omega arith))

pub or-zero : (a : ℕ) → bit_or a 0 ≡ a
or-zero a = or-zero_fuel a a (omega arith)

zero-or : (a : ℕ) → bit_or 0 a ≡ a
zero-or a = simp bit_or-bitwise

-- A mask of `k` ones keeps the low field of `k` bits, which is the remainder by `2 ^ k`.
and_low_field : (k q r : ℕ) → r < 2 ^ k → bit_and (q * 2 ^ k + r) (2 ^ k - 1) ≡ r
and_low_field zero q zero h = and-zero (q * 2 ^ 0 + 0)
and_low_field zero q (suc r) h = absurd (omega arith)
and_low_field (suc k) q r h =
    let low = and_low_field k q (r / 2) (omega (arith, pow-suc 2 k)) in
    let digit = and_digit (q * 2 ^ suc k + r) (2 ^ suc k - 1) in
    ground (arith, low, digit, two_pow_suc q k, pow-suc 2 k)

pub and_mask : (k a : ℕ) → bit_and a (2 ^ k - 1) ≡ a % 2 ^ k
and_mask k a = ground (arith, one-le-pow k 2, and_low_field k (a / 2 ^ k) (a % 2 ^ k))

-- A field above bit `k` and one below it do not meet: `|` adds them.
pub or_fields : (k q r : ℕ) → r < 2 ^ k → bit_or (q * 2 ^ k) r ≡ q * 2 ^ k + r
or_fields zero q zero h = or-zero (q * 1) ∙ (omega arith)
or_fields zero q (suc r) h = absurd (omega arith)
or_fields (suc k) q r h =
    let low = or_fields k q (r / 2) (omega (arith, pow-suc 2 k)) in
    let digit = or_digit (q * 2 ^ suc k) r in ground (arith, low, digit, two_pow_suc q k)

pub or_fields_low : (k q r : ℕ) → r < 2 ^ k → bit_or r (q * 2 ^ k) ≡ q * 2 ^ k + r
or_fields_low zero q zero h = zero-or (q * 1) ∙ (omega arith)
or_fields_low zero q (suc r) h = absurd (omega arith)
or_fields_low (suc k) q r h =
    let low = or_fields_low k q (r / 2) (omega (arith, pow-suc 2 k)) in
    let digit = or_digit r (q * 2 ^ suc k) in ground (arith, low, digit, two_pow_suc q k)

-- A mask with `k` ones at the bottom keeps the low field as it is.
pub and_keep_low :
    (k q r m : ℕ)
    → r < 2 ^ k
    → bit_and (q * 2 ^ k + r) (m * 2 ^ k + (2 ^ k - 1)) ≡ bit_and q m * 2 ^ k + r
and_keep_low zero q zero m h =
    let left : q * 2 ^ 0 + 0 ≡ q = omega arith in
    let right : m * 2 ^ 0 + (2 ^ 0 - 1) ≡ m = omega arith in ap₂ bit_and left right ∙ omega arith
and_keep_low zero q (suc r) m h = absurd (omega arith)
and_keep_low (suc k) q r m h =
    let low = and_keep_low k q (r / 2) m (omega (arith, pow-suc 2 k)) in
    let digit = and_digit (q * 2 ^ suc k + r) (m * 2 ^ suc k + (2 ^ suc k - 1)) in
    ground (
      arith,
      low,
      digit,
      two_pow_suc q k,
      two_pow_suc m k,
      two_pow_suc (bit_and q m) k,
      pow-suc 2 k,
      one-le-pow k 2,
    )

-- A mask with `k` zeros at the bottom leaves the low field out.
pub and_high_field :
    (k q r m : ℕ) → r < 2 ^ k → bit_and (q * 2 ^ k + r) (m * 2 ^ k) ≡ bit_and q m * 2 ^ k
and_high_field zero q zero m h =
    let left : q * 2 ^ 0 + 0 ≡ q = omega arith in
    let right : m * 2 ^ 0 ≡ m = omega arith in ap₂ bit_and left right ∙ omega arith
and_high_field zero q (suc r) m h = absurd (omega arith)
and_high_field (suc k) q r m h =
    let low = and_high_field k q (r / 2) m (omega (arith, pow-suc 2 k)) in
    let digit = and_digit (q * 2 ^ suc k + r) (m * 2 ^ suc k) in
    ground (
      arith,
      low,
      digit,
      two_pow_suc q k,
      two_pow_suc m k,
      two_pow_suc (bit_and q m) k,
      pow-suc 2 k,
    )

-- `a & ~(2 ^ k - 1)` rounds a word of `k + n` bits down.
pub and_round_down :
    (k n a : ℕ) → a / 2 ^ k < 2 ^ n → bit_and a ((2 ^ n - 1) * 2 ^ k) ≡ a / 2 ^ k * 2 ^ k
and_round_down k n a h =
    let fits : a % 2 ^ k < 2 ^ k = mod-lt a (one-le-pow k 2 (omega arith)) in
    rw (div-add-mod' a (2 ^ k)) at (and_high_field k (a / 2 ^ k) (a % 2 ^ k) (2 ^ n - 1) fits)
    ∙ ap (λ t. t * 2 ^ k) (and_mask n (a / 2 ^ k) ∙ mod-eq_of_lt h)
