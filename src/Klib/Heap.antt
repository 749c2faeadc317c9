-- ===== src/Klib/Heap.antt =====
-- The blocks that a program gets from `malloc` of abstract-machine/klib/src/stdlib.c, one call after
-- the other.
use ysyxworkbench.Prelude.{
  ℕ, ◌+◌, ◌*◌, ◌/◌, ◌%◌, ◌^◌, ◌<◌, ◌≤◌, ◌≡◌, refl, Option, none, some, Result, ok, ◌>>=◌, List, [],
  ◌∷◌, arith,
}
use ysyxworkbench.Klib.Stdlib.{Heap, current_hbrk, malloc, malloc-fits}

-- A call for each size: the blocks, and `hbrk` at the end.
abbrev pub mallocs : Heap → List ℕ → Option ℕ → Result (List ℕ × Option ℕ)
mallocs heap [] hbrk = ok ([], hbrk)
mallocs heap (size ∷ sizes) hbrk = do
  (block, hbrk') ← malloc heap size hbrk
  (blocks, hbrk'') ← mallocs heap sizes hbrk'
  ok (block ∷ blocks, hbrk'')

-- Each size rounded up to a multiple of 8
abbrev pub total : List ℕ → ℕ
total [] = 0
total (size ∷ sizes) = (size + 7) / 8 * 8 + total sizes

-- There is a block for each size, at a multiple of 8. The first one starts at `low` or above, each
-- other one behind the end of the one before it, and the last one ends at `high` or below.
abbrev pub Packed : ℕ → ℕ → List ℕ → List ℕ → Type 0
Packed low high [] [] = low ≤ high
Packed low high (size ∷ sizes) (block ∷ blocks) =
    (low ≤ block) × (block % 8 ≡ 0) × Packed (block + size) high sizes blocks
Packed low high _ _ = ⊥

module _ (heap : Heap) (top : heap.end < 2 ^ 32) where
  Packed-lower :
      (low low' : ℕ) (sizes blocks : List ℕ)
      → low' ≤ low
      → Packed low heap.end sizes blocks
      → Packed low' heap.end sizes blocks
  Packed-lower low low' [] [] le h = omega (arith, le, h)
  Packed-lower low low' [] (b ∷ bs) le h = absurd h
  Packed-lower low low' (s ∷ ss) [] le h = absurd h
  Packed-lower low low' (s ∷ ss) (b ∷ bs) le (from, aligned, h) =
      (omega (arith, le, from), aligned, h)

  mallocs_from :
      (sizes : List ℕ) (hbrk : Option ℕ)
      → current_hbrk heap hbrk % 8 ≡ 0
      → current_hbrk heap hbrk + total sizes ≤ heap.end
      → (blocks : List ℕ) × (hbrk' : Option ℕ) × (mallocs heap sizes hbrk ≡ ok (blocks, hbrk'))
        × Packed (current_hbrk heap hbrk) heap.end sizes blocks
  mallocs_from [] hbrk aligned room = ([], hbrk, refl, omega (arith, room))
  mallocs_from (size ∷ sizes) hbrk aligned room =
      let (b, runs, next) = malloc-fits heap size hbrk top aligned (omega (arith, room)) in
      let (blocks, hbrk', rest, packed) =
        mallocs_from sizes (some b) (omega (arith, next, aligned)) (omega (arith, next, room)) in
      (
        current_hbrk heap hbrk ∷ blocks,
        hbrk',
        rw runs (rw rest refl),
        (
          omega arith,
          aligned,
          Packed-lower b (current_hbrk heap hbrk + size) sizes blocks (omega (arith, next)) packed,
        ),
      )

  -- From the first call on, when the heap starts at a multiple of 8 and the sizes, each rounded up to
  -- a multiple of 8, fit into it together, every call of `malloc` returns a block. The blocks are
  -- aligned to 8 bytes, they lie between the start and the end of the heap, and each lies behind all
  -- earlier ones.
  pub mallocs-Packed :
      (sizes : List ℕ)
      → heap.start % 8 ≡ 0
      → heap.start + total sizes ≤ heap.end
      → (blocks : List ℕ) × (hbrk : Option ℕ) × (mallocs heap sizes none ≡ ok (blocks, hbrk))
        × Packed heap.start heap.end sizes blocks
  mallocs-Packed sizes aligned room = mallocs_from sizes none aligned room
