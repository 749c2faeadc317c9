-- ===== src/Monitor/Expr/Eval.antt =====
-- `eval` and `expr` of nemu/src/monitor/sdb/expr.c.
use ysyxworkbench.Prelude.{
  ℕ, zero, suc, ◌+◌, ◌-◌, ◌*◌, ◌^◌, Bool, true, false, ◌&&◌, ◌||◌, not, Option, none, some, Result,
  ok, fault, assertion, no_fuel, assert, defined, ◌>>=◌, ◌>>◌, List, [], ◌∷◌, ltb, leb, ◌==◌,
  if◌then◌else◌, length, min, u32, sub32, slt32, to_int, drop,
}
use ysyxworkbench.Memory.{Bus, Store, vaddr_read}
use ysyxworkbench.Cpu.State.{Cpu}
use ysyxworkbench.Cpu.Alu.{is_neg, magnitude, signs_differ, div32}
use ysyxworkbench.Monitor.Expr.{
  TokenType, Token, tk_num, tk_hex, tk_reg, tk_eq, tk_neq, tk_and, tk_or, tk_deref, tk_neg, tk_le,
  tk_ge, tk_lt, tk_gt, plus, minus, star, slash, make_token, token_at, check_parentheses,
  find_main_operator, mark_unary, isa_reg_str2val,
}

abbrev pub digit_value : ℕ → ℕ
digit_value c =
    if leb (b'a') c then c - b'a' + 10 else if leb (b'A') c then c - b'A' + 10 else c - b'0'

unfoldable pub read_digits : ℕ → List ℕ → ℕ → ℕ
read_digits radix [] acc = acc
read_digits radix (c ∷ cs) acc = read_digits radix cs (acc * radix + digit_value c)

-- `atoi` of decimal digits: undefined when the value is no `int`.
unfoldable pub atoi : List ℕ → Result ℕ
unfolding read_digits
atoi text = do let v = read_digits 10 text 0; defined (ltb v (2 ^ 31)); ok v

-- `strtoul(text, NULL, 16)` of `0x` and digits: it stops at ULONG_MAX. The value becomes a uint32_t.
unfoldable pub strtoul16 : List ℕ → ℕ
unfolding read_digits
strtoul16 text = u32 (min (read_digits 16 (drop 2 text) 0) (2 ^ 64 - 1))

-- Sums, differences and products of `int`s, as bit patterns: undefined when they overflow.
abbrev pub add_overflows : ℕ → ℕ → Bool
add_overflows a b =
    (is_neg a && is_neg b && not (is_neg (u32 (a + b))))
    || (not (is_neg a) && not (is_neg b) && is_neg (u32 (a + b)))

abbrev pub sub_overflows : ℕ → ℕ → Bool
sub_overflows a b =
    (is_neg a && not (is_neg b) && not (is_neg (sub32 a b)))
    || (not (is_neg a) && is_neg b && is_neg (sub32 a b))

abbrev pub mul_overflows : ℕ → ℕ → Bool
mul_overflows a b =
    let m = magnitude a * magnitude b in if signs_differ a b then ltb (2 ^ 31) m else leb (2 ^ 31) m

-- The cases of the switch at the end of `eval`, but for TK_DEREF.
unfoldable pub apply_operator : TokenType → ℕ → ℕ → Result ℕ
unfolding div32
apply_operator tk_or a b = ok (to_int (not (a == 0) || not (b == 0)))
apply_operator tk_and a b = ok (to_int (not (a == 0) && not (b == 0)))
apply_operator tk_eq a b = ok (to_int (a == b))
apply_operator tk_neq a b = ok (to_int (not (a == b)))
apply_operator tk_le a b = ok (to_int (not (slt32 b a)))
apply_operator tk_ge a b = ok (to_int (not (slt32 a b)))
apply_operator tk_lt a b = ok (to_int (slt32 a b))
apply_operator tk_gt a b = ok (to_int (slt32 b a))
apply_operator plus a b = do defined (not (add_overflows a b)); ok (u32 (a + b))
apply_operator minus a b = do defined (not (sub_overflows a b)); ok (sub32 a b)
apply_operator star a b = do defined (not (mul_overflows a b)); ok (u32 (a * b))
apply_operator slash a b = do assert (not (b == 0)); div32 a b
apply_operator tk_neg a b = do defined (not (b == 2 ^ 31)); ok (sub32 0 b)
apply_operator _ a b = fault assertion

abbrev pub is_unary : TokenType → Bool
is_unary tk_neg = true
is_unary tk_deref = true
is_unary _ = false

abbrev pub is_deref : TokenType → Bool
is_deref tk_deref = true
is_deref _ = false

-- Which of the branches of `eval` the tokens from `p` up to `e` take.
pub data Shape : Type 0 where
  empty single parens no_operator : Shape
  operator : ℕ → Shape

unfoldable pub shape : List Token → ℕ → ℕ → Shape
shape tokens p e =
    if leb e p
    then empty
    else if e == p + 1
    then single
    else if check_parentheses tokens p e
    then parens
    else elim (find_main_operator tokens p e) [ none ↦ no_operator | some op ↦ operator op ]

module _ {S : Type 0} (device : Option (Bus S)) (cpu : Cpu) where
  -- The value, `*success`, and the state after the reads.
  unfoldable pub eval_single : Token → Store S → Result (ℕ × Bool × Store S)
  unfolding atoi strtoul16 isa_reg_str2val
  eval_single t st = elim t.type [
    | tk_num ↦ (do v ← atoi t.str; ok (v, true, st))
    | tk_hex ↦ ok (strtoul16 t.str, true, st)
    | tk_reg ↦ (let (v, found) = isa_reg_str2val cpu (drop 1 t.str) in ok (v, found, st))
    | _ ↦ fault assertion
  ]

  unfoldable pub finish : TokenType → ℕ → ℕ → Bool → Store S → Result (ℕ × Bool × Store S)
  unfolding apply_operator
  finish type a b success st = elim (is_deref type) [
    | true ↦ (do (v, st') ← vaddr_read device b 4 st; ok (v, success, st'))
    | false ↦ (do v ← apply_operator type a b; ok (v, success, st))
  ]

  unfoldable pub eval : ℕ → List Token → ℕ → ℕ → Bool → Store S → Result (ℕ × Bool × Store S)
  unfolding shape eval_single finish token_at
  eval zero tokens p e success st = fault no_fuel
  eval (suc k) tokens p e false st = ok (0, false, st)
  eval (suc k) tokens p e true st = elim (shape tokens p e) [
    | empty ↦ fault assertion
    | single ↦ eval_single (token_at tokens p) st
    | parens ↦ eval k tokens (p + 1) (e - 1) true st
    | no_operator ↦ fault assertion
    | operator op ↦ (do
      let type = (token_at tokens op).type
      (a, success', st') ← elim (is_unary type) [
        | true ↦ ok (0, true, st)
        | false ↦ eval k tokens p op true st
      ]
      (b, success'', st'') ← eval k tokens (op + 1) e success' st'
      finish type a b success'' st'')
  ]

  -- `make_token` fails an assertion instead of returning false.
  unfoldable pub expr : (ℕ → List ℕ → Option ℕ) → List ℕ → Store S → Result (ℕ × Bool × Store S)
  unfolding eval
  expr regexec e st = do
    tokens ← make_token regexec (suc (length e)) e []
    if length tokens == 0
        then ok (0, false, st)
        else eval (suc (length tokens)) (mark_unary false tokens) 0 (length tokens) true st
