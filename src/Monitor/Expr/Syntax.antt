-- ===== src/Monitor/Expr/Syntax.antt =====
-- Expressions in which every operand stands in parentheses, their tokens and their values: what
-- `eval` of nemu/src/monitor/sdb/expr.c is compared with.
use ysyxworkbench.Prelude.{ℕ, Result, ◌>>=◌, List, [], ◌∷◌, ◌++◌}
use ysyxworkbench.Monitor.Expr.{
  TokenType, Token, tk_num, tk_eq, tk_neq, tk_and, tk_or, tk_neg, tk_le, tk_ge, tk_lt, tk_gt, plus,
  minus, star, slash, lparen, rparen,
}
use ysyxworkbench.Monitor.Expr.Eval.{atoi, apply_operator}

pub data BinOp : Type 0 where
  op_or op_and op_eq op_neq op_le op_ge op_lt op_gt op_add op_sub op_mul op_div : BinOp

abbrev pub op_type : BinOp → TokenType
op_type op_or = tk_or
op_type op_and = tk_and
op_type op_eq = tk_eq
op_type op_neq = tk_neq
op_type op_le = tk_le
op_type op_ge = tk_ge
op_type op_lt = tk_lt
op_type op_gt = tk_gt
op_type op_add = plus
op_type op_sub = minus
op_type op_mul = star
op_type op_div = slash

-- Decimal numbers, negation, and the operators with two operands.
pub data Exp : Type 0 where
  num : List ℕ → Exp
  neg : Exp → Exp
  bin : BinOp → Exp → Exp → Exp

abbrev pub sign : TokenType → Token
sign type = record { type = type; str = [] }

-- `xs` in parentheses, then `rest`.
abbrev pub group : List Token → List Token → List Token
group xs rest = sign lparen ∷ xs ++ sign rparen ∷ rest

unfoldable pub tokens_of : Exp → List Token
tokens_of (num text) = record { type = tk_num; str = text } ∷ []
tokens_of (neg e) = sign tk_neg ∷ group (tokens_of e) []
tokens_of (bin op a b) = group (tokens_of a) (sign (op_type op) ∷ group (tokens_of b) [])

-- The value by the structure of the expression: the left operand first.
unfoldable pub value_of : Exp → Result ℕ
value_of (num text) = atoi text
value_of (neg e) = do v ← value_of e; apply_operator tk_neg 0 v
value_of (bin op a b) = do x ← value_of a; y ← value_of b; apply_operator (op_type op) x y
