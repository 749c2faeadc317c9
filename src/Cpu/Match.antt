-- ===== src/Cpu/Match.antt =====
-- What the key, mask and shift of `pattern_decode` mean: a word matches a pattern when it has the
-- pattern's binary digits.
use native.Mathlib.Nat.{
  pow-suc, one-le-pow, pow-le-pow_right, div-div-eq-div-mul, div-add-mod', mod-lt, mul-div_cancel,
  mul_comm,
}
use native.Mathlib.Numerals.{add-one}
use ysyxworkbench.Prelude.{
  ℕ, suc, ◌+◌, ◌*◌, ◌/◌, ◌%◌, ◌^◌, ◌≤◌, ◌<◌, ◌≡◌, refl, ap, ◌∙◌, ◌⊎◌, inl, inr, Bool-cases, Bool,
  true, false, ◌&&◌, List, [], ◌∷◌, ok, arith, ◌==◌, ◌-◌, if◌then◌else◌, bit_and, bit_or, u64,
  length,
}
use ysyxworkbench.Prelude.Bits.{and-zero, and_digit, or_fields, and_high_field}
use ysyxworkbench.Cpu.Pattern.{Fields, decode_char, decode_chars, instpat}

abbrev pub IsPatternChar : ℕ → Type 0
IsPatternChar c = (c ≡ b' ') ⊎ (c ≡ b'?') ⊎ (c ≡ b'0') ⊎ (c ≡ b'1')

abbrev pub IsPattern : List ℕ → Type 0
IsPattern [] = Unit {0}
IsPattern (c ∷ cs) = IsPatternChar c × IsPattern cs

-- The number of digits: every character but a space stands for one.
pub digit_count : List ℕ → ℕ
digit_count [] = 0
digit_count (c ∷ cs) = if c == b' ' then digit_count cs else suc (digit_count cs)

-- The digits of the word agree with the pattern: its last character stands for bit 0.
unfoldable pub agrees : List ℕ → ℕ → Bool
unfolding digit_count
agrees [] w = true
agrees (c ∷ cs) w =
    if c == b' '
    then agrees cs w
    else if c == b'?'
    then agrees cs w
    else (w / 2 ^ digit_count cs % 2 == c - b'0') && agrees cs w

div-two-pow : (w n : ℕ) → w / 2 ^ n / 2 ≡ w / 2 ^ suc n
div-two-pow w n = rw (pow-suc 2 n) (div-div-eq-div-mul w (2 ^ n) 2)

-- A digit shifted into a word of at most 63 digits.
shift_in : (x j b : ℕ) → j < 63 → x < 2 ^ j → b < 2 → bit_or (u64 (x * 2)) b ≡ x * 2 + b
shift_in x j b small fits h =
    let room : 2 ^ j ≤ 2 ^ 62 = pow-le-pow_right (omega arith) {j = 62} (omega arith) in
    let kept : u64 (x * 2) ≡ x * 2 = omega arith in rw kept (or_fields 1 x b h)

abbrev key_digit : ℕ → ℕ
key_digit c = if c == b'1' then 1 else 0

abbrev mask_digit : ℕ → ℕ
mask_digit c = if c == b'?' then 0 else 1

abbrev extend : Fields → ℕ → Fields
extend f c = record {
  key = f.key * 2 + key_digit c;
  mask = f.mask * 2 + mask_digit c;
  shift = if c == b'?' then f.shift + 1 else 0;
}

decode_char-extend :
    (c : ℕ) (f : Fields) (j : ℕ)
    → IsPatternChar c
    → (c == b' ') ≡ false
    → j < 63
    → f.key < 2 ^ j
    → f.mask < 2 ^ j
    → decode_char c f ≡ ok (extend f c)
unfolding decode_char
decode_char-extend c f j h space small k m =
    ground (arith, shift_in f.key j (key_digit c) small k, shift_in f.mask j (mask_digit c) small m)

doubled : (q n : ℕ) → q * 2 ^ (n + 1) ≡ q * 2 ^ n * 2
doubled q n =
    let next : 2 ^ (n + 1) ≡ 2 ^ n * 2 = rw add-one (pow-suc 2 n) in
    omega (arith, ap (λ (t : ℕ). q * t) next)

-- The low `shift` digits of key and mask are zero.
record Shifted (f : Fields) : Type 0 where
  key_high : ℕ
  mask_high : ℕ
  key_eq : f.key ≡ key_high * 2 ^ f.shift
  mask_eq : f.mask ≡ mask_high * 2 ^ f.shift

Shifted-extend : (c : ℕ) (f : Fields) → Shifted f → Shifted (extend f c)
Shifted-extend c f sh = elim (Bool-cases (c == b'?')) [
  | inl any ↦ record {
    key_high = sh.key_high;
    mask_high = sh.mask_high;
    key_eq = ground (arith, doubled sh.key_high f.shift);
    mask_eq = ground (arith, doubled sh.mask_high f.shift);
  }
  | inr digit ↦ record {
    key_high = f.key * 2 + key_digit c;
    mask_high = f.mask * 2 + mask_digit c;
    key_eq = ground arith;
    mask_eq = ground arith;
  }
]

-- The test on one digit more.
digit_test :
    (w n c : ℕ) (f : Fields)
    → IsPatternChar c
    → (c == b' ') ≡ false
    → (bit_and (w / 2 ^ n) (extend f c).mask == (extend f c).key) ≡ (
        (bit_and (w / 2 ^ suc n) f.mask == f.key)
        && (if c == b'?' then true else w / 2 ^ n % 2 == c - b'0'))
digit_test w n c f h space =
    ground (arith, and_digit (w / 2 ^ n) (extend f c).mask, div-two-pow w n)

-- The result of `decode_chars` from `f`, on a word `w`.
record Decoded (cs : List ℕ) (w : ℕ) (f : Fields) : Type 0 where
  fields : Fields
  returns : decode_chars cs f ≡ ok fields
  shifted : Shifted fields
  meaning :
      (bit_and w fields.mask == fields.key)
      ≡ ((bit_and (w / 2 ^ digit_count cs) f.mask == f.key) && agrees cs w)

Decoded-space :
    (c : ℕ) (cs : List ℕ) (w : ℕ) (f : Fields)
    → (c == b' ') ≡ true
    → Decoded cs w f
    → Decoded (c ∷ cs) w f
unfolding decode_chars decode_char agrees digit_count
Decoded-space c cs w f space rest = record {
  fields = rest.fields;
  returns = ground (arith, rest.returns);
  shifted = rest.shifted;
  meaning = rw space rest.meaning;
}

Decoded-digit :
    (c : ℕ) (cs : List ℕ) (w j : ℕ) (f : Fields)
    → IsPatternChar c
    → (c == b' ') ≡ false
    → j < 63
    → f.key < 2 ^ j
    → f.mask < 2 ^ j
    → Decoded cs w (extend f c)
    → Decoded (c ∷ cs) w f
unfolding decode_chars agrees digit_count
Decoded-digit c cs w j f h digit small k m rest = record {
  fields = rest.fields;
  returns = rw (decode_char-extend c f j h digit small k m) rest.returns;
  shifted = rest.shifted;
  meaning = rest.meaning ∙ ground (arith, digit_test w (digit_count cs) c f h digit);
}

decode_chars-Decoded :
    (cs : List ℕ) (w j : ℕ) (f : Fields)
    → IsPattern cs
    → j + length cs < 64
    → f.key < 2 ^ j
    → f.mask < 2 ^ j
    → Shifted f
    → Decoded cs w f
unfolding decode_chars agrees digit_count
decode_chars-Decoded [] w j f h small k m sh = record {
  fields = f;
  returns = refl;
  shifted = sh;
  meaning = ground arith;
}
decode_chars-Decoded (c ∷ cs) w j f (h, hs) small k m sh = elim (Bool-cases (c == b' ')) [
  | inl space ↦ Decoded-space c cs w f space (decode_chars-Decoded cs w j f hs (omega arith) k m sh)
  | inr digit ↦ Decoded-digit c cs w j f h digit (omega arith) k m (
      decode_chars-Decoded cs w (suc j) (extend f c) hs (omega arith) (ground (arith, pow-suc 2 j))
        (ground (arith, pow-suc 2 j)) (Shifted-extend c f sh))
]

unshift : (q s : ℕ) → q * 2 ^ s / 2 ^ s ≡ q
unshift q s = mul-div_cancel q {n = 2 ^ s} (one-le-pow s 2 (omega arith))

scaled_test : (x k p : ℕ) → 0 < p → (x == k) ≡ (x * p == k * p)
scaled_test x k p pos = elim (Bool-cases (x == k)) [
  | inl same ↦ ground arith
  | inr other ↦ ground (
    arith,
    mul-div_cancel x {n = p} pos,
    mul-div_cancel k {n = p} pos,
    mul_comm p x,
    mul_comm p k,
  )
]

-- The test on the fields shifted right is the test on the fields.
shifted_test : (w s k m : ℕ) → (bit_and (w / 2 ^ s) m == k) ≡ (bit_and w (m * 2 ^ s) == k * 2 ^ s)
shifted_test w s k m =
    let pos : 0 < 2 ^ s = one-le-pow s 2 (omega arith) in
    let whole =
      rw (div-add-mod' w (2 ^ s)) at (and_high_field s (w / 2 ^ s) (w % 2 ^ s) m (mod-lt w pos)) in
    rw whole (scaled_test (bit_and (w / 2 ^ s) m) k (2 ^ s) pos)

start : Fields
start = record { key = 0; mask = 0; shift = 0 }

instpat_of_Decoded :
    (cs : List ℕ) (w : ℕ) → length cs < 64 → Decoded cs w start → instpat cs w ≡ ok (agrees cs w)
unfolding instpat start
instpat_of_Decoded cs w small d =
    let sh = d.shifted in
    ground (
      arith,
      d.returns,
      d.meaning,
      and-zero (w / 2 ^ digit_count cs),
      sh.key_eq,
      sh.mask_eq,
      unshift sh.key_high d.fields.shift,
      unshift sh.mask_high d.fields.shift,
      shifted_test w d.fields.shift sh.key_high sh.mask_high,
    )

-- INSTPAT accepts a word exactly when the word has the digits of the pattern, for every pattern of
-- fewer than 64 characters that are all a space, `?`, `0` or `1`. Only as many low digits of the
-- word count as the pattern has.
pub instpat-agrees :
    (cs : List ℕ) (w : ℕ) → IsPattern cs → length cs < 64 → instpat cs w ≡ ok (agrees cs w)
unfolding start
instpat-agrees cs w h small = instpat_of_Decoded cs w small (
    decode_chars-Decoded cs w 0 start h (omega arith) (omega arith) (omega arith)
      (record { key_high = 0; mask_high = 0; key_eq = omega arith; mask_eq = omega arith }))
