-- ===== src/Klib/Digits.antt =====
-- The digits that Format.antt writes stand for the number.
use native.Mathlib.Nat.{div-add-mod', mod-lt, pow-zero, pow-suc, div-lt_iff_lt-mul}
use ysyxworkbench.Prelude.{
  ℕ, zero, suc, ◌+◌, ◌-◌, ◌*◌, ◌/◌, ◌%◌, ◌^◌, ◌<◌, ◌≤◌, ◌≡◌, refl, sym, ap, ◌∙◌, Bool-cases, inl,
  inr, Result, ok, List, [], ◌∷◌, ◌++◌, leb, ◌==◌, if◌then◌else◌, length, arith,
}
use ysyxworkbench.Klib.Format.{push_digits, hex_digit, in_buffer, buffer_size, h2a}

-- The number that the digits after `acc` stand for.
unfoldable pub read_number : (ℕ → ℕ) → ℕ → List ℕ → ℕ → ℕ
read_number value radix [] acc = acc
read_number value radix (c ∷ cs) acc = read_number value radix cs (acc * radix + value c)

abbrev pub hex_value : ℕ → ℕ
hex_value c = if leb b'a' c then c - b'a' + 10 else c - b'0'

abbrev pub decimal_value : ℕ → ℕ
decimal_value c = c - b'0'

abbrev pub AllDigits : (ℕ → Type 0) → List ℕ → Type 0
AllDigits P [] = Unit {0}
AllDigits P (c ∷ cs) = P c × AllDigits P cs

AllDigits-snoc :
    (P : ℕ → Type 0) (cs : List ℕ) (c : ℕ) → AllDigits P cs → P c → AllDigits P (cs ++ c ∷ [])
AllDigits-snoc P [] c h p = (p, tt)
AllDigits-snoc P (d ∷ cs) c (q, h) p = (q, AllDigits-snoc P cs c h p)

length-snoc : (xs : List ℕ) (x : ℕ) → length (xs ++ x ∷ []) ≡ suc (length xs)
length-snoc [] x = refl
length-snoc (y ∷ xs) x = ap suc (length-snoc xs x)

snoc_append : (xs : List ℕ) (x : ℕ) (ys : List ℕ) → (xs ++ x ∷ []) ++ ys ≡ xs ++ x ∷ ys
snoc_append [] x ys = refl
snoc_append (y ∷ xs) x ys = ap (λ (zs : List ℕ). y ∷ zs) (snoc_append xs x ys)

pub append_nil : (xs : List ℕ) → xs ++ [] ≡ xs
append_nil [] = refl
append_nil (x ∷ xs) = ap (λ (zs : List ℕ). x ∷ zs) (append_nil xs)

read_number-snoc :
    (value : ℕ → ℕ) (radix : ℕ) (xs : List ℕ) (x acc : ℕ)
    → read_number value radix (xs ++ x ∷ []) acc ≡ read_number value radix xs acc * radix + value x
unfolding read_number
read_number-snoc value radix [] x acc = refl
read_number-snoc value radix (y ∷ xs) x acc =
    read_number-snoc value radix xs x (acc * radix + value y)

-- The digits of `num`: they are pushed in front of `after`, they stand for `num`, and they are as
-- few as the bound on `num` says.
pub record Pushed (P : ℕ → Type 0) (digit value : ℕ → ℕ) (radix fuel k num : ℕ) (after : List ℕ)
    : Type 0 where
  pub digits : List ℕ
  pub returns : push_digits fuel digit radix num after ≡ ok (digits ++ after)
  pub reads : read_number value radix digits 0 ≡ num
  pub few : length digits ≤ k
  pub all_digits : AllDigits P digits

pub push_digits-Pushed :
    (P : ℕ → Type 0) (digit value : ℕ → ℕ) (radix : ℕ)
    → 1 < radix
    → ((d : ℕ) → d < radix → P (digit d) × (value (digit d) ≡ d))
    → (fuel k num : ℕ) (after : List ℕ) → k < fuel
    → num < radix ^ k
    → Pushed P digit value radix fuel k num after
unfolding push_digits read_number
push_digits-Pushed P digit value radix big good zero k num after room h = ground arith
push_digits-Pushed P digit value radix big good (suc f) zero num after room h =
    let none_left : num ≡ 0 = omega (arith, h, pow-zero radix) in
    record {
      digits = [];
      returns = ground (arith, none_left);
      reads = omega (arith, none_left);
      few = omega arith;
      all_digits = tt;
    }
push_digits-Pushed P digit value radix big good (suc f) (suc k) num after room h =
    elim (Bool-cases (num == 0)) [
      | inl zero_left ↦ record {
        digits = [];
        returns = rw zero_left refl;
        reads = ground arith;
        few = omega arith;
        all_digits = tt;
      }
      | inr more ↦
          let pos : 0 < radix = omega arith in
          let lower : num / radix < radix ^ k =
            (div-lt_iff_lt-mul pos).1 (rw (pow-suc radix k) at h) in
          let (is_digit', reads_back) = good (num % radix) (mod-lt num pos) in
          let ih =
            push_digits-Pushed P digit value radix big good f k (num / radix)
              (digit (num % radix) ∷ after) (omega arith) lower in
          record {
            digits = ih.digits ++ digit (num % radix) ∷ [];
            returns =
                rw more
                  (ih.returns ∙ ap ok (sym (snoc_append ih.digits (digit (num % radix)) after)));
            reads =
                read_number-snoc value radix ih.digits (digit (num % radix)) 0
                ∙ rw (ih.reads, reads_back) (div-add-mod' num radix);
            few = omega (arith, length-snoc ih.digits (digit (num % radix)), ih.few);
            all_digits = AllDigits-snoc P ih.digits (digit (num % radix)) ih.all_digits is_digit';
          }
    ]

pub buffered :
    (r : Result (List ℕ)) (ds : List ℕ) → r ≡ ok ds → length ds ≤ buffer_size → in_buffer r ≡ ok ds
buffered r ds e h = rw e (fits ds h)
  where
    fits : (ds : List ℕ) → length ds ≤ buffer_size → in_buffer (ok ds) ≡ ok ds
    fits ds h = ground arith

abbrev IsHexDigit : ℕ → Type 0
IsHexDigit c = hex_digit (hex_value c) ≡ c

hex_digit-hex_value : (d : ℕ) → d < 16 → IsHexDigit (hex_digit d) × (hex_value (hex_digit d) ≡ d)
hex_digit-hex_value d h = (ground arith, ground arith)

-- For a word, `h2a` writes at least one and at most 8 hexadecimal digits, which stand for the
-- number, and does not overrun its buffer.
h2a-read_number :
    (num : ℕ)
    → num < 2 ^ 32
    → (ds : List ℕ) × (h2a num ≡ ok ds)
      × (read_number hex_value 16 ds 0 ≡ num)
      × (0 < length ds)
      × (length ds ≤ 8)
unfolding h2a read_number
h2a-read_number num h = elim (Bool-cases (num == 0)) [
  | inl z ↦ (b'0' ∷ [], rw z refl, ground arith, omega arith, omega arith)
  | inr more ↦
      let d =
        push_digits-Pushed IsHexDigit hex_digit hex_value 16 (omega arith) hex_digit-hex_value 33 8
          num [] (omega arith) h in
      let same : push_digits 33 hex_digit 16 num [] ≡ ok d.digits =
        d.returns ∙ ap ok (append_nil d.digits) in
      (
        d.digits,
        rw (h2a, more)
            (buffered (push_digits 33 hex_digit 16 num []) d.digits same (omega (arith, d.few))),
        d.reads,
        written num d.digits (ground arith) d.reads,
        d.few,
      )
]
  where
    written : (n : ℕ) (ds : List ℕ) → 0 < n → read_number hex_value 16 ds 0 ≡ n → 0 < length ds
    written n [] pos e = omega (arith, pos, e)
    written n (c ∷ cs) pos e = omega arith
