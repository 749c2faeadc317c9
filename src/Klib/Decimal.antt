-- ===== src/Klib/Decimal.antt =====
-- The text that `i2a` writes, read back by `atoi`.
use ysyxworkbench.Prelude.{
  ℕ, ◌+◌, ◌-◌, ◌*◌, ◌^◌, ◌<◌, ◌≤◌, ◌≡◌, refl, ap, ◌∙◌, true, false, Bool-cases, inl, inr, ok, fault,
  undefined, ◌>>=◌, List, [], ◌∷◌, ltb, leb, sub32, ◌==◌, if◌then◌else◌, arith,
}
use ysyxworkbench.Klib.Format.{push_digits, decimal_digit, in_buffer, i2a}
use ysyxworkbench.Klib.Stdlib.{skip_spaces, is_digit, atoi_digits, atoi}
use ysyxworkbench.Klib.Digits.{
  read_number, decimal_value, AllDigits, push_digits-Pushed, append_nil, buffered,
}

abbrev IsDecimal : ℕ → Type 0
IsDecimal c = is_digit c ≡ true

decimal_digit-value :
    (d : ℕ) → d < 10 → IsDecimal (decimal_digit d) × (decimal_value (decimal_digit d) ≡ d)
decimal_digit-value d h = (ground arith, omega arith)

read_number-le : (cs : List ℕ) (x : ℕ) → x ≤ read_number decimal_value 10 cs x
unfolding read_number
read_number-le [] x = omega arith
read_number-le (c ∷ cs) x = omega (arith, read_number-le cs (x * 10 + decimal_value c))

-- The number, or the overflow on the way to it
atoi_digits-read_number :
    (cs : List ℕ) (x : ℕ)
    → AllDigits IsDecimal cs
    → x < 2 ^ 31 - 48
    → atoi_digits cs x ≡ (
        if ltb (read_number decimal_value 10 cs x) (2 ^ 31 - 48)
        then ok (read_number decimal_value 10 cs x)
        else fault undefined)
unfolding atoi_digits read_number
atoi_digits-read_number [] x h small = ground arith
atoi_digits-read_number (c ∷ cs) x (d, h) small =
    let bound = read_number-le cs (x * 10 + decimal_value c) in
    let step : x * 10 + c - b'0' ≡ x * 10 + decimal_value c = ground arith in
    elim (Bool-cases (leb (2 ^ 31) (x * 10 + c))) [
      | inl over ↦
          let large : ltb (read_number decimal_value 10 cs (x * 10 + decimal_value c)) (2 ^ 31 - 48)
              ≡ false =
            ground (arith, bound) in
          rw (d, over, large) refl
      | inr fits ↦
          rw (d, fits, step)
            (atoi_digits-read_number cs (x * 10 + decimal_value c) h (ground arith))
    ]

no_spaces : (ds : List ℕ) → AllDigits IsDecimal ds → skip_spaces ds ≡ ds
unfolding skip_spaces
no_spaces [] h = refl
no_spaces (c ∷ cs) (d, h) = ground arith

-- The decimal digits of a number of 32 bits fit into the buffer.
in_buffer-push_digits :
    (n : ℕ)
    → n < 2 ^ 32
    → (ds : List ℕ) × (in_buffer (push_digits 33 decimal_digit 10 n []) ≡ ok ds)
      × AllDigits IsDecimal ds
      × (read_number decimal_value 10 ds 0 ≡ n)
in_buffer-push_digits n h =
    let d =
      push_digits-Pushed IsDecimal decimal_digit decimal_value 10 (omega arith) decimal_digit-value
        33 10 n [] (omega arith) (omega (arith, h)) in
    let same : push_digits 33 decimal_digit 10 n [] ≡ ok d.digits =
      d.returns ∙ ap ok (append_nil d.digits) in
    (
      d.digits,
      buffered (push_digits 33 decimal_digit 10 n []) d.digits same (omega (arith, d.few)),
      d.all_digits,
      d.reads,
    )

-- What `atoi` makes of the text that `i2a` writes of an `int`, given as its bit pattern: of a number
-- that is not negative and lies 48 or more below 2^31, the number itself; of a larger one, an
-- overflow; and of a negative one 0, since `atoi` reads no sign.
pub atoi-i2a :
    (n : ℕ)
    → n < 2 ^ 32
    → (i2a n >>= atoi)
      ≡ (if ltb n (2 ^ 31 - 48) then ok n else (if ltb n (2 ^ 31) then fault undefined else ok 0))
unfolding i2a atoi
atoi-i2a n h = elim (Bool-cases (n == 0)) [
  | inl z ↦ rw (i2a, z) (ground arith)
  | inr more ↦ elim (Bool-cases (leb (2 ^ 31) n)) [
    | inl negative ↦
        let (ds, writes, all, reads) = in_buffer-push_digits (sub32 0 n) (omega arith) in
        let high : ltb n (2 ^ 31 - 48) ≡ false = ground arith in
        let high' : ltb n (2 ^ 31) ≡ false = ground arith in
        rw (i2a, more, negative, high, high') (rw writes (ground arith))
    | inr small ↦
        let (ds, writes, all, reads) = in_buffer-push_digits n h in
        let below : ltb n (2 ^ 31) ≡ true = ground arith in
        rw (i2a, more, small, below) (rw writes (read_back ds all reads))
  ]
]
  where
    read_back :
        (ds : List ℕ)
        → AllDigits IsDecimal ds
        → read_number decimal_value 10 ds 0 ≡ n
        → atoi ds ≡ (if ltb n (2 ^ 31 - 48) then ok n else fault undefined)
    read_back ds all reads =
        ap (λ (t : List ℕ). atoi_digits t 0) (no_spaces ds all)
        ∙ atoi_digits-read_number ds 0 all (omega arith)
        ∙ ap (λ (v : ℕ). if ltb v (2 ^ 31 - 48) then ok v else fault undefined) reads
