-- ===== src/Tests/Klib.antt =====
-- The C library's functions on small memories.
use ysyxworkbench.Prelude.{
  ℕ, zero, suc, ◌≡◌, ◌≢◌, refl, ok, fault, undefined, ◌>>=◌, Option, none, some, List, [], ◌∷◌,
  arith,
}
use ysyxworkbench.Prelude.{codes, ltb, ◌^◌, ◌-◌, if◌then◌else◌}
use ysyxworkbench.Klib.String.{Bytes, strncmp, memmove}
use ysyxworkbench.Klib.Format.{number, push_digits, h2a, i2a, convert, vsprintf}
use ysyxworkbench.Klib.Stdlib.{Heap, atoi, malloc, malloc_wraps}
use ysyxworkbench.Klib.Heap.{mallocs, Packed, mallocs-Packed}
use ysyxworkbench.Klib.Decimal.{atoi-i2a}
use ysyxworkbench.Klib.Copy.{moved, memmove-moved}

abbrev bytes : List ℕ → ℕ → ℕ
bytes [] i = 0
bytes (x ∷ xs) zero = x
bytes (x ∷ xs) (suc i) = bytes xs i

-- "abc" at 0 and "abd" at 4
abbrev two_strings : Bytes
two_strings = bytes (97 ∷ 98 ∷ 99 ∷ 0 ∷ 97 ∷ 98 ∷ 100 ∷ 0 ∷ [])

abbrev abc : List ℕ
abc = 97 ∷ 98 ∷ 99 ∷ []

abbrev abd : List ℕ
abd = 97 ∷ 98 ∷ 100 ∷ []

-- The first two bytes are equal, and yet the result is not 0.
strncmp_two : strncmp two_strings 0 4 2 ≢ 0
unfolding strncmp
strncmp_two = omega arith

memmove-moved_example : memmove 1 0 3 two_strings 3 ≡ moved 1 0 3 two_strings 3
memmove-moved_example = memmove-moved 1 0 3 two_strings 3

-- The first three conversions of a number, and a `%` at the end.
format_runs : vsprintf (codes "%d/%x%%") (number 7 ∷ number 255 ∷ []) ≡ ok (codes "7/ff%")
unfolding vsprintf convert h2a i2a push_digits
format_runs = refl

format_open : vsprintf (codes "5%") [] ≡ fault undefined
unfolding vsprintf
format_open = refl

atoi-i2a_example : (i2a 1234 >>= atoi) ≡ (
    if ltb 1234 (2 ^ 31 - 48)
    then ok 1234
    else (if ltb 1234 (2 ^ 31) then fault undefined else ok 0))
atoi-i2a_example = atoi-i2a 1234 (omega arith)

abbrev small_heap : Heap
small_heap = record { start = 0x80010000; end = 0x80020000 }

mallocs-Packed_example :
    (blocks : List ℕ) × (hbrk : Option ℕ) × (mallocs small_heap (13 ∷ 4096 ∷ 0 ∷ []) none
      ≡ ok (blocks, hbrk))
    × Packed 0x80010000 0x80020000 (13 ∷ 4096 ∷ 0 ∷ []) blocks
mallocs-Packed_example =
    mallocs-Packed small_heap (omega arith) (13 ∷ 4096 ∷ 0 ∷ []) refl (omega arith)

malloc_wraps_example : malloc small_heap 0xffff_ffff none ≡ ok (0x80010000, some 0x80010000)
malloc_wraps_example =
    malloc_wraps small_heap 0xffff_ffff none (omega arith) (omega arith) (omega arith) (omega arith)
