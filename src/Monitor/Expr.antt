-- ===== src/Monitor/Expr.antt =====
-- The expressions of the debugger: nemu/src/monitor/sdb/expr.c, with `isa_reg_str2val` of
-- nemu/src/isa/riscv32/reg.c. Strings are their bytes before the NUL. POSIX `regexec` is a
-- parameter.
pub mod Eval
pub mod EvalTotal
pub mod Total
pub mod Syntax
pub mod Segments
pub mod Nesting
pub mod Branches
pub mod Value
use ysyxworkbench.Prelude.{
  ℕ, zero, suc, ◌+◌, ◌-◌, ◌*◌, ◌^◌, ◌%◌, Bool, true, false, ◌&&◌, ◌||◌, not, Option, none, some,
  Result, ok, fault, assertion, undefined, no_fuel, assert, defined, ◌>>=◌, ◌>>◌, List, [], ◌∷◌,
  ◌++◌, ltb, leb, ◌==◌, if◌then◌else◌, length, take, drop, min,
}
use ysyxworkbench.Cpu.State.{Cpu}
use ysyxworkbench.Prelude.{codes, same_text}

-- The token types: the TK_ constants and the characters of the one-character tokens.
pub data TokenType : Type 0 where
  tk_notype tk_eq tk_num tk_hex tk_reg tk_neq tk_and tk_or : TokenType
  tk_deref tk_neg tk_le tk_ge tk_lt tk_gt : TokenType
  plus minus star slash lparen rparen : TokenType

pub record Token : Type 0 where
  pub type : TokenType
  pub str : List ℕ

-- The token types of `rules`, in order.
abbrev pub rule_types : List TokenType
rule_types =
    tk_notype ∷ plus ∷ minus ∷ star ∷ slash ∷ lparen ∷ rparen ∷ tk_hex ∷ tk_num ∷ tk_reg ∷ tk_neq
    ∷ tk_and ∷ tk_or ∷ tk_eq ∷ tk_le ∷ tk_ge ∷ tk_lt ∷ tk_gt ∷ []

abbrev pub max_tokens : ℕ
max_tokens = 65536

abbrev pub keeps_text : TokenType → Bool
keeps_text tk_num = true
keeps_text tk_hex = true
keeps_text tk_reg = true
keeps_text _ = false

abbrev pub is_space : TokenType → Bool
is_space tk_notype = true
is_space _ = false

unfoldable pub add_token : TokenType → List ℕ → List Token → Result (List Token)
add_token type text tokens = do
  assert (ltb (length tokens) max_tokens)
  assert (not (keeps_text type) || ltb (length text) 32)
  ok (tokens ++ record { type = type; str = if keeps_text type then text else [] } ∷ [])

-- `regexec(&re[i], text, ...)`: the end of the match, when there is one that starts at `text`.
module _ (regexec : ℕ → List ℕ → Option ℕ) where
  -- The first rule from index `i` on that matches, and the length of its match.
  unfoldable pub find_match : List TokenType → ℕ → List ℕ → Option (TokenType × ℕ)
  find_match [] i text = none
  find_match (type ∷ types) i text =
      let rest = find_match types (suc i) text in
      elim (regexec i text) [ some len ↦ some (type, len) | none ↦ rest ]

  -- The loop of `make_token`, on the text that is left.
  unfoldable pub make_token : ℕ → List ℕ → List Token → Result (List Token)
  unfolding find_match add_token
  make_token zero text tokens = fault no_fuel
  make_token (suc k) [] tokens = ok tokens
  make_token (suc k) (c ∷ cs) tokens = elim (find_match rule_types 0 (c ∷ cs)) [
    | none ↦ fault assertion
    | some m ↦ (do
      let (type, len) = m
      tokens' ← if is_space type then ok tokens else add_token type (take len (c ∷ cs)) tokens
      make_token k (drop len (c ∷ cs)) tokens')
  ]

abbrev pub no_token : Token
no_token = record { type = tk_notype; str = [] }

unfoldable pub token_at : List Token → ℕ → Token
token_at [] i = no_token
token_at (t ∷ ts) zero = t
token_at (t ∷ ts) (suc i) = token_at ts i

abbrev pub is_open : TokenType → Bool
is_open lparen = true
is_open _ = false

abbrev pub is_close : TokenType → Bool
is_close rparen = true
is_close _ = false

-- A run of the tokens from `p` to `q` is given by `p` and `e = q + 1`, since `q` can be -1.
-- The loop of `check_parentheses` at index `i`, with `left` tokens to go.
unfoldable pub parens_from : List Token → ℕ → ℕ → ℕ → Bool
unfolding token_at
parens_from tokens i zero count = count == 0
parens_from tokens i (suc left) count =
    let type = (token_at tokens i).type in
    if is_open type
    then parens_from tokens (suc i) left (count + 1)
    else if is_close type
    then not (count == 0) && parens_from tokens (suc i) left (count - 1)
    else parens_from tokens (suc i) left count

unfoldable pub check_parentheses : List Token → ℕ → ℕ → Bool
unfolding parens_from token_at
check_parentheses tokens p e =
    is_open (token_at tokens p).type
    && is_close (token_at tokens (e - 1)).type
    && parens_from tokens (p + 1) (e - 2 - p) 0

unfoldable pub precedence : TokenType → ℕ
precedence tk_or = 1
precedence tk_and = 2
precedence tk_eq = 3
precedence tk_neq = 3
precedence tk_le = 4
precedence tk_ge = 4
precedence tk_lt = 4
precedence tk_gt = 4
precedence plus = 5
precedence minus = 5
precedence star = 6
precedence slash = 6
precedence tk_deref = 7
precedence tk_neg = 7
precedence _ = 100

-- The variables of the loop; `parentheses_count` is the opening ones less the closing ones.
pub record Scan : Type 0 where
  pub main_op : Option ℕ
  pub min_precedence : ℕ
  pub opened : ℕ
  pub closed : ℕ

unfoldable pub scan_token : ℕ → TokenType → Scan → Scan
unfolding precedence
scan_token i type s =
    let prec = precedence type in
    if is_open type
    then record s { opened = s.opened + 1 }
    else if is_close type
    then record s { closed = s.closed + 1 }
    else if s.opened == s.closed
        && (ltb prec s.min_precedence || (prec == s.min_precedence && not (prec == 6)))
    then record s { main_op = some i; min_precedence = prec }
    else s

unfoldable pub scan_from : List Token → ℕ → ℕ → Scan → Scan
unfolding token_at scan_token
scan_from tokens i zero s = s
scan_from tokens i (suc left) s =
    scan_from tokens (suc i) left (scan_token i (token_at tokens i).type s)

abbrev pub scan_start : Scan
scan_start = record { main_op = none; min_precedence = 100; opened = 0; closed = 0 }

-- -1 is `none`.
unfoldable pub find_main_operator : List Token → ℕ → ℕ → Option ℕ
unfolding scan_from
find_main_operator tokens p e = (scan_from tokens p (e - p) scan_start).main_op

abbrev pub ends_operand : TokenType → Bool
ends_operand tk_num = true
ends_operand tk_hex = true
ends_operand tk_reg = true
ends_operand rparen = true
ends_operand _ = false

abbrev pub as_unary : TokenType → TokenType
as_unary star = tk_deref
as_unary minus = tk_neg
as_unary type = type

-- The loop of `expr` over the tokens; `operand` says that the token before ends an operand.
unfoldable pub mark_unary : Bool → List Token → List Token
mark_unary operand [] = []
mark_unary operand (t ∷ ts) =
    let type = if operand then t.type else as_unary t.type in
    record t { type = type } ∷ mark_unary (ends_operand type) ts

-- The 16 names of `regs` that are looked up.
abbrev pub regs : List (List ℕ)
regs =
    codes "$0"
    ∷ codes "ra"
    ∷ codes "sp"
    ∷ codes "gp"
    ∷ codes "tp"
    ∷ codes "t0"
    ∷ codes "t1"
    ∷ codes "t2"
    ∷ codes "s0"
    ∷ codes "s1"
    ∷ codes "a0"
    ∷ codes "a1"
    ∷ codes "a2"
    ∷ codes "a3"
    ∷ codes "a4"
    ∷ codes "a5"
    ∷ []

unfoldable pub find_reg : List (List ℕ) → ℕ → List ℕ → Option ℕ
find_reg [] i name = none
find_reg (r ∷ rs) i name = if same_text name r then some i else find_reg rs (suc i) name

-- The value, and `*success`.
unfoldable pub isa_reg_str2val : Cpu → List ℕ → ℕ × Bool
unfolding find_reg
isa_reg_str2val cpu name = elim (find_reg regs 0 name) [
  | some i ↦ (cpu.gpr i, true)
  | none ↦ if same_text name (codes "pc") then (cpu.pc, true) else (0, false)
]
