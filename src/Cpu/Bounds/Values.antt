-- ===== src/Cpu/Bounds/Values.antt =====
-- What the arithmetic of the instructions computes is a word.
use ysyxworkbench.Prelude.{
  zero, suc, ◌≡◌, ◌==◌, ℕ, ◌+◌, ◌-◌, ◌*◌, ◌/◌, ◌%◌, ◌^◌, ◌<◌, ◌≤◌, Bool, true, false, Post, Post-if,
  arith, to_int,
}
use ysyxworkbench.Prelude.Bits.{and_mask}
use native.Mathlib.Nat.{div-lt_iff_lt-mul, pow-suc, one-le-pow}
use mathlib.Core.Path.{ap}
use ysyxworkbench.Cpu.Alu.{
  magnitude, shamt, with_sign, no_quotient, sra32, mul32, mulh32, mulhu32, mulhsu32, div32, rem32,
  divu32, remu32,
}

pow_split : (n k m : ℕ) → n + k ≡ m → 2 ^ n * 2 ^ k ≡ 2 ^ m
pow_split zero k m e = let same : k ≡ m = omega arith in rw same (omega arith)
pow_split (suc n) k zero e = absurd (omega arith)
pow_split (suc n) k (suc m) e =
    let rest = pow_split n k m (omega arith) in
    omega (arith, pow-suc 2 m, ap (λ (t : ℕ). t * 2 ^ k) (pow-suc 2 n))

shr-lt : (a n q : ℕ) → a < 2 ^ n * q → a / 2 ^ n < q
shr-lt a n q h =
    (div-lt_iff_lt-mul {k = 2 ^ n} {x = a} {y = q} (one-le-pow n 2 (omega arith))).1 (omega arith)

pub shamt-lt : (x : ℕ) → shamt x < 32
shamt-lt x = omega (arith, and_mask 5 x)

pub sra32-lt : (a n : ℕ) → a < 2 ^ 32 → n < 32 → sra32 a n < 2 ^ 32
unfolding sra32
sra32-lt a n h k =
    let split : 2 ^ n * 2 ^ (32 - n) ≡ 2 ^ 32 = pow_split n (32 - n) 32 (omega arith) in
    let part : a / 2 ^ n < 2 ^ (32 - n) = shr-lt a n (2 ^ (32 - n)) (rw split h) in ground arith

pub to_int-lt : (b : Bool) → to_int b < 2 ^ 32
to_int-lt true = omega arith
to_int-lt false = omega arith

pub mulh32-lt : (a b : ℕ) → mulh32 a b < 2 ^ 32
unfolding mulh32
mulh32-lt a b = omega arith

pub mulhu32-lt : (a b : ℕ) → mulhu32 a b < 2 ^ 32
unfolding mulhu32
mulhu32-lt a b = omega arith

pub mulhsu32-lt : (a b : ℕ) → mulhsu32 a b < 2 ^ 32
unfolding mulhsu32
mulhsu32-lt a b = omega arith

pub mul32-lt : (a b : ℕ) → mul32 a b < 2 ^ 32
unfolding mul32
mul32-lt a b = omega arith

with_sign-lt : (b : Bool) (v : ℕ) → v < 2 ^ 32 → with_sign b v < 2 ^ 32
with_sign-lt true v h = omega arith
with_sign-lt false v h = h

magnitude-lt : (a : ℕ) → a < 2 ^ 32 → magnitude a < 2 ^ 32
magnitude-lt a h = ground arith

div-le : (a b : ℕ) → a / b ≤ a
div-le a b = grind arith

mod-le : (a b : ℕ) → a % b ≤ a
mod-le a b = grind arith

pub div32-fits : (a b : ℕ) → a < 2 ^ 32 → Post (λ v. v < 2 ^ 32) (div32 a b)
unfolding div32
div32-fits a b h = Post-if _ (no_quotient a b) _ _ tt (
    with_sign-lt _ (magnitude a / magnitude b)
      (omega (arith, div-le (magnitude a) (magnitude b), magnitude-lt a h)))

pub rem32-fits : (a b : ℕ) → a < 2 ^ 32 → Post (λ v. v < 2 ^ 32) (rem32 a b)
unfolding rem32
rem32-fits a b h = Post-if _ (no_quotient a b) _ _ tt (
    with_sign-lt _ (magnitude a % magnitude b)
      (omega (arith, mod-le (magnitude a) (magnitude b), magnitude-lt a h)))

pub divu32-fits : (a b : ℕ) → a < 2 ^ 32 → Post (λ v. v < 2 ^ 32) (divu32 a b)
unfolding divu32
divu32-fits a b h = Post-if _ (b == 0) _ _ tt (omega (arith, div-le a b))

pub remu32-fits : (a b : ℕ) → a < 2 ^ 32 → Post (λ v. v < 2 ^ 32) (remu32 a b)
unfolding remu32
remu32-fits a b h = Post-if _ (b == 0) _ _ tt (omega (arith, mod-le a b))

pub shr-le : (a n : ℕ) → a / 2 ^ n ≤ a
shr-le a n = div-le a (2 ^ n)
