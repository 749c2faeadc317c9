-- ===== src/Klib/Format.antt =====
-- The number and text formatting of abstract-machine/klib/src/stdio.c. What is written at `out`,
-- before the final NUL, is the list of bytes; strings are the bytes before their NUL.
use ysyxworkbench.Prelude.{
  ℕ, zero, suc, ◌+◌, ◌-◌, ◌/◌, ◌%◌, ◌^◌, true, false, Result, ok, fault, undefined, no_fuel,
  defined, ◌>>=◌, ◌>>◌, List, [], ◌∷◌, ◌++◌, ltb, leb, ◌==◌, if◌then◌else◌, length, u8, sub32,
}

-- The loops `while (num > 0)` fill a buffer from the lowest digit on; then it is copied backwards.
-- `push` puts the digits before those that follow.
unfoldable pub push_digits : ℕ → (ℕ → ℕ) → ℕ → ℕ → List ℕ → Result (List ℕ)
push_digits zero digit radix num after = fault no_fuel
push_digits (suc k) digit radix num after =
    let rest = push_digits k digit radix (num / radix) (digit (num % radix) ∷ after) in
    if num == 0 then ok after else rest

abbrev pub hex_digit : ℕ → ℕ
hex_digit d = if ltb d 10 then b'0' + d else b'a' + (d - 10)

abbrev pub decimal_digit : ℕ → ℕ
decimal_digit d = b'0' + d

-- The buffers have 16 places; a 17th digit would be written outside.
abbrev pub buffer_size : ℕ
buffer_size = 16

abbrev pub in_buffer : Result (List ℕ) → Result (List ℕ)
in_buffer r = do digits ← r; defined (leb (length digits) buffer_size); ok digits

-- A word has at most 32 digits in any radix: 33 rounds are enough.
unfoldable pub h2a : ℕ → Result (List ℕ)
h2a num = if num == 0 then ok (b'0' ∷ []) else in_buffer (push_digits 33 hex_digit 16 num [])

-- `n` is an `int`, as its bit pattern.
unfoldable pub i2a : ℕ → Result (List ℕ)
i2a n =
    if n == 0
    then ok (b'0' ∷ [])
    else if leb (2 ^ 31) n
    then (do
      digits ← in_buffer (push_digits 33 decimal_digit 10 (sub32 0 n) [])
      ok (b'-' ∷ digits))
    else in_buffer (push_digits 33 decimal_digit 10 n [])

-- What `va_arg` gives: a number, or a string.
pub data Arg : Type 0 where
  number : ℕ → Arg
  text : List ℕ → Arg

-- The conversions of a format: its output, with what `va_arg` gives. Another argument than the
-- conversion asks for is undefined.
abbrev pub take_number : List Arg → Result (ℕ × List Arg)
take_number (number n ∷ args) = ok (n, args)
take_number _ = fault undefined

abbrev pub take_text : List Arg → Result (List ℕ × List Arg)
take_text (text s ∷ args) = ok (s, args)
take_text _ = fault undefined

-- The switch of `vsprintf`.
unfoldable pub convert : ℕ → List Arg → Result (List ℕ × List Arg)
unfolding h2a i2a
convert c args =
    if c == b'd'
    then (do (n, args') ← take_number args; out ← i2a n; ok (out, args'))
    else if c == b's'
    then take_text args
    else if c == b'x'
    then hex
    else if c == b'p'
    then hex
    else if c == b'c'
    then (do (n, args') ← take_number args; ok (u8 n ∷ [], args'))
    else if c == b'%'
    then ok (b'%' ∷ [], args)
    else ok ([], args)
  where
    hex : Result (List ℕ × List Arg)
    hex = do (n, args') ← take_number args; out ← h2a n; ok (out, args')

-- The switch of `sprintf`, which has fewer conversions.
unfoldable pub convert_sprintf : ℕ → List Arg → Result (List ℕ × List Arg)
unfolding i2a
convert_sprintf c args =
    if c == b'd'
    then (do (n, args') ← take_number args; out ← i2a n; ok (out, args'))
    else if c == b's'
    then take_text args
    else if c == b'%'
    then ok (b'%' ∷ [], args)
    else ok ([], args)

-- The loop over the format. After a `%` at the end the loop steps over the NUL and reads on beyond
-- the string.
unfoldable pub format :
    (ℕ → List Arg → Result (List ℕ × List Arg)) → List ℕ → List Arg → Result (List ℕ)
format conv [] args = ok []
format conv (c ∷ []) args = if c == b'%' then fault undefined else ok (c ∷ [])
format conv (c ∷ d ∷ fmt) args = elim (c == b'%') [
  | true ↦ (do (out, args') ← conv d args; rest ← format conv fmt args'; ok (out ++ rest))
  | false ↦ (do rest ← format conv (d ∷ fmt) args; ok (c ∷ rest))
]

unfoldable pub vsprintf : List ℕ → List Arg → Result (List ℕ)
unfolding convert format
vsprintf fmt args = format convert fmt args

unfoldable pub sprintf : List ℕ → List Arg → Result (List ℕ)
unfolding convert_sprintf format
sprintf fmt args = format convert_sprintf fmt args

-- `printf`: the bytes put out, through a buffer of 2048.
unfoldable pub printf : List ℕ → List Arg → Result (List ℕ)
unfolding vsprintf
printf fmt args = do out ← vsprintf fmt args; defined (ltb (length out) 2048); ok out
