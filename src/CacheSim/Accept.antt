-- ===== src/CacheSim/Accept.antt =====
-- What `parse_args` of npc/tools/cachesim/cachesim.cpp lets through.
use native.Mathlib.Nat.{pow-suc, one-le-pow}
use ysyxworkbench.Prelude.{
  ℕ, zero, suc, ◌-◌, ◌/◌, ◌%◌, ◌^◌, ◌≤◌, ◌<◌, ◌≡◌, refl, ap, ◌∙◌, Bool, true, false, Result, ok,
  fault, undefined, List, if◌then◌else◌, length, bit_and, arith, >>=-eq-ok,
}
use mathlib.Core.Path.{subst}
use native.Mathlib.Decide.{ℕ_discrete}
use ysyxworkbench.Prelude.Bits.{and_digit}
use ysyxworkbench.CacheSim.{Options, Sim}
use ysyxworkbench.CacheSim.Args.{
  is_pow2, Doubles, Parsed, rejected, exits, accepted, parse_loop, fill_defaults, is_accepted,
  finish_args, parse_args, default_options,
}
use ysyxworkbench.CacheSim.Trace.{start, replay}
use ysyxworkbench.CacheSim.Totals.{IsTotal, numbered, replay-IsTotal}
use ysyxworkbench.CacheSim.Victims.{Draws}

abbrev IsPowerOfTwo : ℕ → Type 0
IsPowerOfTwo x = (k : ℕ) × (x ≡ 2 ^ k)

-- The lowest digit of x and x - 1.
pow2_and : (k : ℕ) → bit_and (2 ^ k) (2 ^ k - 1) ≡ 0
pow2_and zero = refl
pow2_and (suc k) =
    let half : 2 ^ suc k / 2 ≡ 2 ^ k = omega (arith, pow-suc 2 k) in
    let low : (2 ^ suc k - 1) / 2 ≡ 2 ^ k - 1 =
      omega (arith, pow-suc 2 k, one-le-pow k 2 (omega arith)) in
    let even : 2 ^ suc k % 2 ≡ 0 = omega (arith, pow-suc 2 k) in
    and_digit (2 ^ suc k) (2 ^ suc k - 1) ∙ rw (half, low, pow2_and k, even) (omega arith)

and_self : (n x : ℕ) → x ≤ n → bit_and x x ≡ x
and_self zero zero h = refl
and_self zero (suc x) h = absurd (omega arith)
and_self (suc n) x h = omega (arith, and_digit x x, and_self n (x / 2) (omega arith))

and_pow2 : (n x : ℕ) → x ≤ n → 0 < x → bit_and x (x - 1) ≡ 0 → IsPowerOfTwo x
and_pow2 zero x le h e = absurd (omega arith)
and_pow2 (suc n) x le h e = elim (ℕ_discrete (x % 2) 0) [
  | yes even ↦
      let below : (x - 1) / 2 ≡ x / 2 - 1 = omega arith in
      let e' = ap (λ (y : ℕ). bit_and (x / 2) y) below in
      let (k, half) =
        and_pow2 n (x / 2) (omega arith) (omega arith)
          (omega (arith, e, e', and_digit x (x - 1))) in
      (suc k, omega (arith, half, pow-suc 2 k))
  | no odd ↦
      let below : (x - 1) / 2 ≡ x / 2 = omega arith in
      let e' = ap (λ (y : ℕ). bit_and (x / 2) y) below in
      (0, omega (arith, e, e', and_digit x (x - 1), and_self x (x / 2) (omega arith)))
]

is_pow2-IsPowerOfTwo : (x : ℕ) → is_pow2 x ≡ true → IsPowerOfTwo x
unfolding is_pow2
is_pow2-IsPowerOfTwo x h = and_pow2 x x (omega arith) (ground arith) (ground arith)

-- `is_pow2` returns true exactly for the powers of two.
is_pow2_iff : (x : ℕ) → ((is_pow2 x ≡ true) → IsPowerOfTwo x) × ((k : ℕ) → is_pow2 (2 ^ k) ≡ true)
unfolding is_pow2
is_pow2_iff x =
    (is_pow2-IsPowerOfTwo x, λ k. ground (arith, pow2_and k, one-le-pow k 2 (omega arith)))

-- What the options guarantee.
pub record IsValid {D : Type 0} (opt : Options D) : Type 0 where
  pub sets : IsPowerOfTwo opt.sets
  pub line_size : IsPowerOfTwo opt.line_size
  pub bus_bytes : IsPowerOfTwo opt.bus_bytes
  pub ways : 0 < opt.ways

not_zero : (x : ℕ) → IsPowerOfTwo x → 0 < x
not_zero x (k, e) = omega (arith, e, one-le-pow k 2 (omega arith))

module _ {D : Type 0} (doubles : Doubles D) where
  is_accepted-IsValid : (opt : Options D) → is_accepted doubles opt ≡ true → IsValid opt
  unfolding is_accepted
  is_accepted-IsValid opt h = record {
    sets = is_pow2-IsPowerOfTwo opt.sets (ground arith);
    line_size = is_pow2-IsPowerOfTwo opt.line_size (ground arith);
    bus_bytes = is_pow2-IsPowerOfTwo opt.bus_bytes (ground arith);
    ways = ground arith;
  }

  chosen :
      (b : Bool) (filled opt : Options D)
      → is_accepted doubles filled ≡ b
      → ◌≡◌ {A = Result (Parsed D)}
          (ok (if b then accepted filled else rejected))
          (ok (accepted opt))
      → is_accepted doubles opt ≡ true
  chosen true filled opt e h =
      let same : filled ≡ opt = cc in subst (λ (o : Options D). is_accepted doubles o ≡ true) same e
  chosen false filled opt e h = cc

  finish_args-accepted :
      (parsed : Parsed D) (opt : Options D)
      → finish_args doubles parsed ≡ ok (accepted opt)
      → is_accepted doubles opt ≡ true
  unfolding finish_args
  finish_args-accepted rejected opt h = cc
  finish_args-accepted exits opt h = cc
  finish_args-accepted (accepted opt0) opt h =
      let (filled, e, last) = >>=-eq-ok (fill_defaults doubles opt0) _ h in
      chosen (is_accepted doubles filled) filled opt refl last

  -- Options that `parse_args` accepts have powers of two for the sets, the bytes of a line and those of
  -- the bus, and at least one way.
  parse_args-IsValid :
      (args : List (List ℕ)) (opt : Options D)
      → parse_args doubles args ≡ ok (accepted opt)
      → IsValid opt
  unfolding parse_args
  parse_args-IsValid args opt h =
      is_accepted-IsValid opt
        (finish_args-accepted (parse_loop doubles args (default_options doubles)) opt h)

  -- With `--bus-bytes 0` and no `--miss-penalty`, `parse_args` divides by zero before it can refuse.
  pub parse_args_no_bus :
      (args : List (List ℕ)) (opt : Options D)
      → parse_loop doubles args (default_options doubles) ≡ accepted opt
      → opt.bus_bytes ≡ 0
      → opt.miss_penalty_set ≡ false
      → parse_args doubles args ≡ fault undefined
  unfolding parse_args finish_args fill_defaults
  parse_args_no_bus args opt parsed no_bus unset =
      rw (parse_args, parsed, finish_args, fill_defaults, unset, no_bus) refl

-- A simulation with accepted options ends, and its counters add up, under every policy with draws
-- within their bound, for traces of fewer than 2 ^ 64 lines.
pub accepted-IsTotal :
    {D R : Type 0} (doubles : Doubles D) (draw : R → ℕ → ℕ × R) (args : List (List ℕ))
    (opt : Options D) (seed : R) (lines : List (List ℕ))
    → Draws draw
    → parse_args doubles args ≡ ok (accepted opt)
    → length lines < 2 ^ 64
    → (s : Sim R) × (replay draw opt lines 0 (start opt seed) ≡ ok s)
      × IsTotal (numbered lines) s.stats
accepted-IsTotal doubles draw args opt seed lines draws parsed few =
    let v = parse_args-IsValid doubles args opt parsed in
    replay-IsTotal draw draws opt (not_zero opt.sets v.sets) v.ways
      (not_zero opt.line_size v.line_size) seed lines few
