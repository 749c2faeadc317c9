-- ===== src/Klib/Strings.antt =====
-- What the functions of String.antt that run to a NUL do, on the bytes before the NUL.
use ysyxworkbench.Prelude.{
  ℕ, zero, suc, ◌+◌, ◌^◌, ◌<◌, ◌≡◌, ◌≢◌, refl, ap, ap₂, ◌∙◌, false, ◌⊎◌, inl, inr, Bool-cases,
  arith, ◌==◌, if◌then◌else◌, sub32, ok, List, [], ◌∷◌, length, take,
}
use ysyxworkbench.Klib.String.{
  Bytes, set_byte, strlen_from, strlen, strcpy_from, strcpy, strcmp, strncmp_from, strncmp,
}
use ysyxworkbench.Klib.Copy.{moved, up_step}

-- At `s` stands a string of the bytes `xs`, ended by a NUL.
abbrev pub IsCStr : Bytes → ℕ → List ℕ → Type 0
IsCStr m s [] = m s ≡ 0
IsCStr m s (x ∷ xs) = (m s ≡ x) × (x ≢ 0) × IsCStr m (suc s) xs

-- The difference of two strings at the first byte where they differ, as a 32-bit pattern.
unfoldable pub difference : List ℕ → List ℕ → ℕ
difference [] [] = 0
difference [] (y ∷ ys) = sub32 0 y
difference (x ∷ xs) [] = sub32 x 0
difference (x ∷ xs) (y ∷ ys) = if x == y then difference xs ys else sub32 x y

add_suc : (s n : ℕ) → s + suc n ≡ suc (s + n)
add_suc s n = omega arith

add_zero : (s : ℕ) → s + 0 ≡ s
add_zero s = omega arith

strlen_from-length :
    (k : ℕ) (m : Bytes) (s n : ℕ) (xs : List ℕ)
    → IsCStr m (s + n) xs
    → length xs < k
    → strlen_from k m s n ≡ ok (n + length xs)
unfolding strlen_from
strlen_from-length zero m s n xs str room = ground arith
strlen_from-length (suc k) m s n [] str room = rw str (ground arith)
strlen_from-length (suc k) m s n (x ∷ xs) (here, nonzero, rest) room =
    let more : (x == 0) ≡ false = ground arith in
    rw here (
      rw more (
        strlen_from-length k m s (suc n) xs (rw (add_suc s n) rest) (omega arith)
        ∙ ap ok (omega arith)))

-- `strlen` of a string is the number of bytes before its NUL; the loop takes one round more.
strlen-length :
    (fuel : ℕ) (m : Bytes) (s : ℕ) (xs : List ℕ)
    → IsCStr m s xs
    → length xs < fuel
    → strlen fuel m s ≡ ok (length xs)
unfolding strlen
strlen-length fuel m s xs str room =
    strlen_from-length fuel m s 0 xs (rw (add_zero s) str) room ∙ ap ok (omega arith)

strcmp-sub : (a : ℕ) → a < 2 ^ 32 → sub32 a a ≡ 0
strcmp-sub a h = omega arith

-- `strcmp` returns the difference of the two strings; the loop takes at most one round more than
-- the first string has bytes.
strcmp-difference :
    (fuel : ℕ) (m : Bytes) (s1 s2 : ℕ) (xs ys : List ℕ)
    → IsCStr m s1 xs
    → IsCStr m s2 ys
    → length xs < fuel
    → strcmp fuel m s1 s2 ≡ ok (difference xs ys)
unfolding strcmp difference
strcmp-difference zero m s1 s2 xs ys h1 h2 room = ground arith
strcmp-difference (suc k) m s1 s2 [] [] h1 h2 room = rw h1 (rw h2 refl)
strcmp-difference (suc k) m s1 s2 [] (y ∷ ys) h1 (here, n, rest) room = rw h1 (rw here refl)
strcmp-difference (suc k) m s1 s2 (x ∷ xs) [] (here, n, rest) h2 room = ground (arith, here, h2, n)
strcmp-difference (suc k) m s1 s2 (x ∷ xs) (y ∷ ys) (e1, n1, r1) (e2, n2, r2) room =
    ground
      (arith, e1, e2, n1, n2, strcmp-difference k m (suc s1) (suc s2) xs ys r1 r2 (omega arith))

strncmp_from-difference :
    (n : ℕ) (m : Bytes) (s1 s2 : ℕ) (xs ys : List ℕ)
    → IsCStr m s1 xs
    → IsCStr m s2 ys
    → strncmp_from n m s1 s2 ≡ difference (take (suc n) xs) (take (suc n) ys)
unfolding strncmp_from difference
strncmp_from-difference zero m s1 s2 [] [] h1 h2 = rw h1 (rw h2 refl)
strncmp_from-difference zero m s1 s2 [] (y ∷ ys) h1 (here, n, rest) = rw h1 (rw here refl)
strncmp_from-difference zero m s1 s2 (x ∷ xs) [] (here, n, rest) h2 = rw here (rw h2 refl)
strncmp_from-difference zero m s1 s2 (x ∷ xs) (y ∷ ys) (e1, n1, r1) (e2, n2, r2) =
    ground (arith, e1, e2)
strncmp_from-difference (suc k) m s1 s2 [] [] h1 h2 = rw h1 (rw h2 refl)
strncmp_from-difference (suc k) m s1 s2 [] (y ∷ ys) h1 (here, n, rest) = rw h1 (rw here refl)
strncmp_from-difference (suc k) m s1 s2 (x ∷ xs) [] (here, n, rest) h2 = ground (arith, here, h2, n)
strncmp_from-difference (suc k) m s1 s2 (x ∷ xs) (y ∷ ys) (e1, n1, r1) (e2, n2, r2) =
    ground (arith, e1, e2, n1, n2, strncmp_from-difference k m (suc s1) (suc s2) xs ys r1 r2)

-- For a positive `n`, `strncmp` returns the difference of the first `n + 1` bytes of the two
-- strings, one byte more than the C standard compares; for 0 it returns 0.
pub strncmp-difference :
    (n : ℕ) (m : Bytes) (s1 s2 : ℕ) (xs ys : List ℕ)
    → IsCStr m s1 xs
    → IsCStr m s2 ys
    → strncmp m s1 s2 n ≡ (if n == 0 then 0 else difference (take (suc n) xs) (take (suc n) ys))
unfolding strncmp
strncmp-difference n m s1 s2 xs ys h1 h2 = elim (Bool-cases (n == 0)) [
  | inl none_left ↦ rw none_left refl
  | inr some_left ↦ rw some_left (strncmp_from-difference n m s1 s2 xs ys h1 h2)
]

IsCStr-set_byte :
    (m : Bytes) (p v s : ℕ) (xs : List ℕ)
    → IsCStr m s xs
    → (p < s) ⊎ (s + length xs < p)
    → IsCStr (set_byte m p v) s xs
IsCStr-set_byte m p v s [] str out = ground (arith, str, out)
IsCStr-set_byte m p v s (x ∷ xs) (here, nonzero, rest) out = (
  ground (arith, here, out),
  nonzero,
  IsCStr-set_byte m p v (suc s) xs rest (ground (arith, out)),
)

strcpy_from-moved :
    (k dst src i : ℕ) (m : Bytes) (xs : List ℕ)
    → IsCStr m (src + i) xs
    → length xs < k
    → (dst + i + length xs < src + i) ⊎ (src + i + length xs < dst + i)
    → (m' : Bytes) × (strcpy_from k dst src i m ≡ ok m')
      × ((a : ℕ) → m' a ≡ moved (dst + i) (src + i) (suc (length xs)) m a)
unfolding strcpy_from moved
strcpy_from-moved zero dst src i m xs str room apart = ground arith
strcpy_from-moved (suc k) dst src i m [] str room apart =
    (set_byte m (dst + i) 0, rw str refl, λ a. grind (arith, str))
strcpy_from-moved (suc k) dst src i m (x ∷ xs) (here, nonzero, rest) room apart =
    let m1 = set_byte m (dst + i) (m (src + i)) in
    let more : (x == 0) ≡ false = ground arith in
    let str1 =
      IsCStr-set_byte m (dst + i) (m (src + i)) (suc (src + i)) xs rest (ground (arith, apart)) in
    let (m', runs, same) =
      strcpy_from-moved k dst src (suc i) m1 xs (rw (add_suc src i) str1) (omega arith)
        (ground (arith, apart)) in
    (
      m',
      rw (here, more) refl ∙ runs,
      λ a.
          same a
          ∙ ap₂ (λ (d s : ℕ). moved d s (suc (length xs)) m1 a) (add_suc dst i) (add_suc src i)
          ∙ up_step (dst + i) (src + i) (suc (length xs)) m a (ground (arith, apart)),
    )

-- `strcpy` of a string that its destination does not touch puts the bytes of the string and its
-- NUL there, and changes no other byte; the loop takes one round more than the string has bytes.
strcpy-moved :
    (fuel dst src : ℕ) (m : Bytes) (xs : List ℕ)
    → IsCStr m src xs
    → length xs < fuel
    → (dst + length xs < src) ⊎ (src + length xs < dst)
    → (m' : Bytes) × (strcpy fuel dst src m ≡ ok m')
      × ((a : ℕ) → m' a ≡ moved dst src (suc (length xs)) m a)
unfolding strcpy
strcpy-moved fuel dst src m xs str room apart =
    let (m', runs, same) =
      strcpy_from-moved fuel dst src 0 m xs (rw (add_zero src) str) room (ground (arith, apart)) in
    (
      m',
      runs,
      λ a.
          same a ∙ ap₂ (λ (d s : ℕ). moved d s (suc (length xs)) m a) (add_zero dst) (add_zero src),
    )
