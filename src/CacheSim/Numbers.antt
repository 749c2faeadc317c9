-- ===== src/CacheSim/Numbers.antt =====
-- The numbers of the options: the calls of `strtoul` in npc/tools/cachesim/cachesim.cpp.
use ysyxworkbench.Prelude.{
  ℕ, ◌+◌, ◌-◌, ◌*◌, ◌^◌, Bool, true, false, not, ◌&&◌, ◌||◌, Option, none, some, List, [], ◌∷◌, ltb,
  leb, ◌==◌, if◌then◌else◌,
}

abbrev pub is_space : ℕ → Bool
is_space c = c == 32 || (leb 9 c && leb c 13)

unfoldable pub skip_space : List ℕ → List ℕ
skip_space [] = []
skip_space (c ∷ cs) = if is_space c then skip_space cs else c ∷ cs

-- The value of a character as a digit; 36 is no digit in any base.
abbrev pub digit : ℕ → ℕ
digit c =
    if leb b'0' c && leb c b'9'
    then c - b'0'
    else if leb b'a' c && leb c b'z'
    then c - b'a' + 10
    else if leb b'A' c && leb c b'Z'
    then c - b'A' + 10
    else 36

-- The digits at the head of the text, their value after `acc`, and what follows them.
unfoldable pub read_base : ℕ → ℕ → List ℕ → ℕ × List ℕ
read_base base acc [] = (acc, [])
read_base base acc (c ∷ cs) =
    let rest = read_base base (acc * base + digit c) cs in
    if ltb (digit c) base then rest else (acc, c ∷ cs)

-- No digit at the head: `strtoul` converts nothing.
abbrev pub starts_digit : ℕ → List ℕ → Bool
starts_digit base [] = false
starts_digit base (c ∷ cs) = ltb (digit c) base

abbrev pub convert_digits : ℕ → List ℕ → Option (ℕ × List ℕ)
convert_digits base s = if starts_digit base s then some (read_base base 0 s) else none

-- With base 0: `0x` and a hexadecimal digit start a hexadecimal number, `0` an octal one.
unfoldable pub unsigned : List ℕ → Option (ℕ × List ℕ)
unfolding read_base
unsigned (z ∷ x ∷ rest) =
    if z == b'0' && (x == b'x' || x == b'X') && starts_digit 16 rest
    then convert_digits 16 rest
    else convert_digits (if z == b'0' then 8 else 10) (z ∷ x ∷ rest)
unsigned (z ∷ []) = convert_digits 10 (z ∷ [])
unsigned [] = none

-- `unsigned long` has 64 bits: too large a number gives ULONG_MAX, and a minus sign negates.
abbrev pub to_ulong : Bool → ℕ → ℕ
to_ulong negative v =
    if ltb v (2 ^ 64) then (if negative && not (v == 0) then 2 ^ 64 - v else v) else 2 ^ 64 - 1

abbrev pub signed : Bool → List ℕ → Option (ℕ × List ℕ)
signed negative s = elim (unsigned s) [
  | some (v, rest) ↦ some (to_ulong negative v, rest)
  | none ↦ none
]

-- `strtoul(s, &end, 0)`: the value and the text from `end` on; `none` stands for `end == s`.
unfoldable pub strtoul : List ℕ → Option (ℕ × List ℕ)
unfolding skip_space unsigned
strtoul s = elim (skip_space s) [
  | c ∷ cs ↦
      if c == b'-'
      then signed true cs
      else if c == b'+'
      then signed false cs
      else signed false (c ∷ cs)
  | [] ↦ none
]

-- The token goes in as a C string: what stands behind a null character is not read.
unfoldable pub parse_u32 : List ℕ → Option ℕ
unfolding strtoul
parse_u32 s = elim (strtoul s) [
  | some (v, []) ↦ if leb v (2 ^ 32 - 1) then some v else none
  | some (v, c ∷ cs) ↦ if c == 0 && leb v (2 ^ 32 - 1) then some v else none
  | none ↦ none
]

-- The type `double`, and the operations of it that the code uses.
