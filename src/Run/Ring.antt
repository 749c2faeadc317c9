-- ===== src/Run/Ring.antt =====
-- The ring of the last instructions: `write_iringbuf` and `print_iringbuf` of
-- nemu/src/cpu/cpu-exec.c.
use ysyxworkbench.Prelude.{
  ℕ, zero, suc, ◌+◌, ◌-◌, ◌%◌, ◌<◌, ◌≤◌, ◌≡◌, refl, ap, ap₂, ◌∙◌, Bool, true, false, ◌==◌,
  if◌then◌else◌, List, [], ◌∷◌, ◌++◌, length, drop, arith,
}

abbrev pub iringbuf_size : ℕ
iringbuf_size = 16

-- `iringbuf` and `iringbuf_index`. A log is its bytes before the NUL.
pub record Iringbuf : Type 0 where
  pub logbuf : ℕ → List ℕ
  pub index : ℕ

unfoldable pub write_iringbuf : List ℕ → Iringbuf → Iringbuf
write_iringbuf str b = record {
  logbuf = λ i. if b.index == i then str else b.logbuf i;
  index = (b.index + 1) % iringbuf_size;
}

-- The lines printed from entry `current` on, `left` entries to go: whether the arrow stands before
-- the line, and the line.
unfoldable pub print_from : ℕ → ℕ → Iringbuf → List (Bool × List ℕ)
print_from current zero b = []
print_from current (suc left) b =
    let rest = print_from ((current + 1) % iringbuf_size) left b in
    if length (b.logbuf current) == 0
    then rest
    else ((current + 1) % iringbuf_size == b.index, b.logbuf current) ∷ rest

unfoldable pub print_iringbuf : Iringbuf → List (Bool × List ℕ)
unfolding print_from
print_iringbuf b = print_from b.index iringbuf_size b

-- The entries from index `i` on, around the end of the array.
unfoldable pub entries_from : (ℕ → List ℕ) → ℕ → ℕ → List (List ℕ)
entries_from logs i zero = []
entries_from logs i (suc n) = logs i ∷ entries_from logs ((i + 1) % iringbuf_size) n

-- The 16 entries, the one written last at the end.
unfoldable pub entries : Iringbuf → List (List ℕ)
unfolding entries_from
entries b = entries_from b.logbuf b.index iringbuf_size

-- The non-empty lines, with an arrow before the last entry.
unfoldable pub shown : List (List ℕ) → List (Bool × List ℕ)
shown [] = []
shown (x ∷ xs) = if length x == 0 then shown xs else (length xs == 0, x) ∷ shown xs

entries_from-snoc :
    (logs : ℕ → List ℕ) (i n : ℕ)
    → i < iringbuf_size
    → entries_from logs i (suc n) ≡ entries_from logs i n ++ logs ((i + n) % iringbuf_size) ∷ []
unfolding entries_from
entries_from-snoc logs i zero h = ap (λ (j : ℕ). logs j ∷ []) (omega arith)
entries_from-snoc logs i (suc n) h =
    ap (λ (xs : List (List ℕ)). logs i ∷ xs)
      (entries_from-snoc logs ((i + 1) % iringbuf_size) n (omega arith)
        ∙ ap (λ (j : ℕ). entries_from logs ((i + 1) % iringbuf_size) n ++ logs j ∷ [])
            (omega arith))

-- A write leaves the run of entries that starts after it and is shorter than the ring.
entries_from_frame :
    (logs : ℕ → List ℕ) (w : ℕ) (str : List ℕ) (i n k : ℕ)
    → i ≡ (w + 1 + k) % iringbuf_size
    → w < iringbuf_size
    → k + n < iringbuf_size
    → entries_from (λ j. if w == j then str else logs j) i n ≡ entries_from logs i n
unfolding entries_from
entries_from_frame logs w str i zero k e h room = refl
entries_from_frame logs w str i (suc n) k e h room =
    let other : (w == i) ≡ false = ground arith in
    ap₂ (λ (x : List ℕ) (xs : List (List ℕ)). x ∷ xs) (rw other refl)
      (entries_from_frame logs w str ((i + 1) % iringbuf_size) n (suc k) (omega arith) h
        (omega arith))

length-entries_from : (logs : ℕ → List ℕ) (i n : ℕ) → length (entries_from logs i n) ≡ n
unfolding entries_from
length-entries_from logs i zero = refl
length-entries_from logs i (suc n) = ap suc (length-entries_from logs ((i + 1) % iringbuf_size) n)

print_from-shown :
    (b : Iringbuf) (i n : ℕ)
    → (i + n) % iringbuf_size ≡ b.index
    → i < iringbuf_size
    → n ≤ iringbuf_size
    → print_from i n b ≡ shown (entries_from b.logbuf i n)
unfolding print_from shown entries_from
print_from-shown b i zero e h room = refl
print_from-shown b i (suc n) e h room =
    let i' = (i + 1) % iringbuf_size in
    let last =
      flag i n b.index (entries_from b.logbuf i' n) (length-entries_from b.logbuf i' n) e h room in
    ap₂
      (λ (arrow : Bool) (rest : List (Bool × List ℕ)).
        if length (b.logbuf i) == 0 then rest else (arrow, b.logbuf i) ∷ rest)
      last (print_from-shown b i' n (omega arith) (omega arith) (omega arith))
  where
    flag :
        (i n w : ℕ) (xs : List (List ℕ))
        → length xs ≡ n
        → (i + suc n) % iringbuf_size ≡ w
        → i < iringbuf_size
        → suc n ≤ iringbuf_size
        → ((i + 1) % iringbuf_size == w) ≡ (length xs == 0)
    flag i n w xs len e h room = ground (arith, len)

entries_written :
    (logs : ℕ → List ℕ) (w : ℕ) (str : List ℕ) (n : ℕ)
    → w < iringbuf_size
    → n ≡ iringbuf_size - 1
    → entries_from (λ j. if w == j then str else logs j) ((w + 1) % iringbuf_size) (suc n)
      ≡ drop 1 (entries_from logs w (suc n)) ++ str ∷ []
unfolding entries_from
entries_written logs w str n h e =
    let i = (w + 1) % iringbuf_size in
    let written : ℕ → List ℕ = λ j. if w == j then str else logs j in
    let back : (w == (i + n) % iringbuf_size) ≡ true = ground arith in
    entries_from-snoc written i n (omega arith)
    ∙ ap₂ (λ (xs : List (List ℕ)) (x : List ℕ). xs ++ x ∷ [])
        (entries_from_frame logs w str i n 0 (omega arith) h (omega arith)) (rw back refl)

print_written :
    (str : List ℕ) (b : Iringbuf) (n : ℕ)
    → b.index < iringbuf_size
    → n ≡ iringbuf_size - 1
    → print_from ((b.index + 1) % iringbuf_size) (suc n) (write_iringbuf str b)
      ≡ shown (drop 1 (entries_from b.logbuf b.index (suc n)) ++ str ∷ [])
unfolding write_iringbuf
print_written str b n h e =
    print_from-shown (write_iringbuf str b) ((b.index + 1) % iringbuf_size) (suc n) (omega arith)
      (omega arith) (omega arith)
    ∙ ap shown (entries_written b.logbuf b.index str n h e)

-- After a write, `print_iringbuf` prints the entries written before, without the oldest, and then
-- the new one; empty entries are left out, and the arrow stands before the new one.
pub print_iringbuf-write_iringbuf :
    (str : List ℕ) (b : Iringbuf)
    → b.index < iringbuf_size
    → print_iringbuf (write_iringbuf str b) ≡ shown (drop 1 (entries b) ++ str ∷ [])
unfolding print_iringbuf write_iringbuf entries
print_iringbuf-write_iringbuf str b h = print_written str b 15 h refl
