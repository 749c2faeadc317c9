-- ===== src/Klib/Stdlib.antt =====
-- abstract-machine/klib/src/stdlib.c on a 32-bit machine: `unsigned long`, `size_t` and pointers
-- have 32 bits.
use ysyxworkbench.Prelude.{
  ℕ, ◌+◌, ◌-◌, ◌*◌, ◌/◌, ◌%◌, ◌^◌, ◌<◌, ◌≤◌, ◌≡◌, ◌∙◌, Bool, Option, none, some, Result, ok, fault,
  undefined, assert, defined, ◌>>◌, List, [], ◌∷◌, ltb, leb, ◌==◌, not, ◌&&◌, if◌then◌else◌, u32,
  sub32, bit_and, arith,
}
use ysyxworkbench.Prelude.Bits.{and_round_down}

-- The number, and the new `next`.
unfoldable pub rand : ℕ → ℕ × ℕ
rand next = let next' = u32 (next * 1103515245 + 12345) in (next' / 65536 % 32768, next')

unfoldable pub srand : ℕ → ℕ
srand seed = seed

-- An `int` is its bit pattern; `-x` of INT_MIN overflows.
unfoldable pub abs : ℕ → Result ℕ
abs x = if leb (2 ^ 31) x then (do defined (not (x == 2 ^ 31)); ok (sub32 0 x)) else ok x

unfoldable pub skip_spaces : List ℕ → List ℕ
skip_spaces [] = []
skip_spaces (c ∷ cs) = if c == b' ' then skip_spaces cs else c ∷ cs

abbrev pub is_digit : ℕ → Bool
is_digit c = leb b'0' c && leb c b'9'

-- `x = x * 10 + *nptr - '0'`, undefined where a step overflows an `int`.
unfoldable pub atoi_digits : List ℕ → ℕ → Result ℕ
atoi_digits [] x = ok x
atoi_digits (c ∷ cs) x =
    let rest = atoi_digits cs (x * 10 + c - b'0') in
    if is_digit c then (if leb (2 ^ 31) (x * 10 + c) then fault undefined else rest) else ok x

unfoldable pub atoi : List ℕ → Result ℕ
unfolding skip_spaces atoi_digits
atoi text = atoi_digits (skip_spaces text) 0

-- `heap.start` and `heap.end`
pub record Heap : Type 0 where
  pub start : ℕ
  pub end : ℕ

abbrev pub current_hbrk : Heap → Option ℕ → ℕ
current_hbrk heap none = heap.start
current_hbrk heap (some b) = b

-- `hbrk` is `none` at first. The returned block starts at the old `hbrk`.
unfoldable pub malloc : Heap → ℕ → Option ℕ → Result (ℕ × Option ℕ)
malloc heap size hbrk = do
  let old_hbrk = current_hbrk heap hbrk
  let size' = bit_and (u32 (size + 7)) (2 ^ 32 - 8)
  let hbrk' = u32 (old_hbrk + size')
  assert (not (ltb heap.end hbrk'))
  ok (old_hbrk, some hbrk')

round_up : (n : ℕ) → n < 2 ^ 32 → bit_and n (2 ^ 32 - 8) ≡ n / 8 * 8
round_up n h = and_round_down 3 29 n (omega arith)

-- The end of `malloc`.
abbrev advance : ℕ → ℕ → ℕ → Result (ℕ × Option ℕ)
advance b e r = do assert (not (ltb e (u32 (b + r)))); ok (b, some (u32 (b + r)))

-- When the request, rounded up to a multiple of 8, fits between the aligned `hbrk` and the end of
-- the heap, `malloc` returns `hbrk`, and moves it by the rounded request.
pub malloc-fits :
    (heap : Heap) (size : ℕ) (hbrk : Option ℕ)
    → heap.end < 2 ^ 32
    → current_hbrk heap hbrk % 8 ≡ 0
    → current_hbrk heap hbrk + (size + 7) / 8 * 8 ≤ heap.end
    → (b : ℕ) × (malloc heap size hbrk ≡ ok (current_hbrk heap hbrk, some b))
      × (b ≡ current_hbrk heap hbrk + (size + 7) / 8 * 8)
unfolding malloc
malloc-fits heap size hbrk top aligned room =
    fits (current_hbrk heap hbrk) heap.end size (bit_and (u32 (size + 7)) (2 ^ 32 - 8)) top aligned
      room (round_up (u32 (size + 7)) (omega arith))
  where
    fits :
        (b e n r : ℕ)
        → e < 2 ^ 32
        → b % 8 ≡ 0
        → b + (n + 7) / 8 * 8 ≤ e
        → r ≡ u32 (n + 7) / 8 * 8
        → (b' : ℕ) × (advance b e r ≡ ok (b, some b')) × (b' ≡ b + (n + 7) / 8 * 8)
    fits b e n r top aligned room same = (b + r, ground arith, omega arith)

-- A request of more than 2^32 - 8 bytes is rounded to no bytes: `malloc` returns a block and leaves
-- `hbrk` where it is.
pub malloc_wraps :
    (heap : Heap) (size : ℕ) (hbrk : Option ℕ)
    → heap.end < 2 ^ 32
    → current_hbrk heap hbrk ≤ heap.end
    → 2 ^ 32 - 8 < size
    → size < 2 ^ 32
    → malloc heap size hbrk ≡ ok (current_hbrk heap hbrk, some (current_hbrk heap hbrk))
unfolding malloc
malloc_wraps heap size hbrk top inside low high =
    wraps (current_hbrk heap hbrk) heap.end (bit_and (u32 (size + 7)) (2 ^ 32 - 8)) top inside
      (round_up (u32 (size + 7)) (omega arith) ∙ omega arith)
  where
    wraps : (b e r : ℕ) → e < 2 ^ 32 → b ≤ e → r ≡ 0 → advance b e r ≡ ok (b, some b)
    wraps b e r top inside same = ground arith
