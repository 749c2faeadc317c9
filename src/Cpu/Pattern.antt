-- ===== src/Cpu/Pattern.antt =====
-- `pattern_decode` and the test of INSTPAT: nemu/include/cpu/decode.h.
use ysyxworkbench.Prelude.{
  ℕ, ◌+◌, ◌*◌, ◌/◌, ◌^◌, Bool, ◌||◌, List, [], ◌∷◌, Result, ok, fault, assertion, assert, ◌>>=◌,
  ◌>>◌, ltb, ◌==◌, if◌then◌else◌, bit_and, bit_or, u64, length,
}

-- `__key`, `__mask` and `__shift`, of type uint64_t
pub record Fields : Type 0 where
  pub key : ℕ
  pub mask : ℕ
  pub shift : ℕ

-- The body of `macro(i)` for the character `c`.
unfoldable pub decode_char : ℕ → Fields → Result Fields
decode_char c f =
    if c == b' '
    then ok f
    else if c == b'0' || c == b'1' || c == b'?'
    then ok (record {
      key = bit_or (u64 (f.key * 2)) (if c == b'1' then 1 else 0);
      mask = bit_or (u64 (f.mask * 2)) (if c == b'?' then 0 else 1);
      shift = if c == b'?' then f.shift + 1 else 0;
    })
    else fault assertion

unfoldable pub decode_chars : List ℕ → Fields → Result Fields
unfolding decode_char
decode_chars [] f = ok f
decode_chars (c ∷ cs) f = decode_char c f >>= decode_chars cs

-- `macro64(0)` looks at 64 characters and then panics: a pattern that is longer, or just as long,
-- is too long.
unfoldable pub pattern_decode : List ℕ → Result Fields
unfolding decode_chars
pattern_decode str = do
  f ← decode_chars str (record { key = 0; mask = 0; shift = 0 })
  assert (ltb (length str) 64)
  ok (record { key = f.key / 2 ^ f.shift; mask = f.mask / 2 ^ f.shift; shift = f.shift })

-- The test of INSTPAT on the instruction word.
unfoldable pub instpat : List ℕ → ℕ → Result Bool
unfolding pattern_decode
instpat str inst = do f ← pattern_decode str; ok (bit_and (inst / 2 ^ f.shift) f.mask == f.key)
