-- ===== src/Monitor/Expr/Segments.antt =====
-- The loops of `check_parentheses` and `find_main_operator` (nemu/src/monitor/sdb/expr.c) on the
-- tokens of an expression.
use ysyxworkbench.Prelude.{
  ℕ, suc, ◌+◌, ◌-◌, ◌≡◌, refl, ap, ◌∙◌, Bool, true, false, ◌&&◌, not, List, [], ◌∷◌, ◌++◌, ltb,
  ◌==◌, if◌then◌else◌, length, arith,
}
use ysyxworkbench.Monitor.Expr.{
  TokenType, Token, lparen, rparen, Scan, scan_token, scan_from, token_at, is_open, is_close,
  precedence, parens_from,
}
use ysyxworkbench.Monitor.Expr.Eval.{is_unary, is_deref}
use ysyxworkbench.Monitor.Expr.Syntax.{
  BinOp, op_or, op_and, op_eq, op_neq, op_le, op_ge, op_lt, op_gt, op_add, op_sub, op_mul, op_div,
  op_type, Exp, num, neg, bin, sign, group, tokens_of,
}

-- From index `i` on stand the tokens `ts`.
abbrev pub Segment : List Token → ℕ → List Token → Type 0
Segment tokens i [] = Unit {0}
Segment tokens i (t ∷ ts) = (token_at tokens i ≡ t) × Segment tokens (suc i) ts

pub Segment-append :
    (tokens : List Token) (i : ℕ) (xs ys : List Token)
    → Segment tokens i (xs ++ ys)
    → Segment tokens i xs × Segment tokens (i + length xs) ys
Segment-append tokens i [] ys h = (tt, rw (plus_zero i) h)
  where
    plus_zero : (i : ℕ) → i + 0 ≡ i
    plus_zero i = omega arith
Segment-append tokens i (x ∷ xs) ys (here, rest) =
    let (left, right) = Segment-append tokens (suc i) xs ys rest in
    ((here, left), rw (shift i (length xs)) right)
  where
    shift : (i n : ℕ) → i + suc n ≡ suc i + n
    shift i n = omega arith

-- The loops of `check_parentheses` and `find_main_operator` on a list of tokens.
unfoldable pub parens_list : List Token → ℕ → Bool
parens_list [] count = count == 0
parens_list (t ∷ ts) count =
    if is_open t.type
    then parens_list ts (count + 1)
    else if is_close t.type
    then not (count == 0) && parens_list ts (count - 1)
    else parens_list ts count

unfoldable pub scan_list : ℕ → List Token → Scan → Scan
scan_list i [] s = s
scan_list i (t ∷ ts) s = scan_list (suc i) ts (scan_token i t.type s)

pub parens_from-list :
    (tokens : List Token) (i c : ℕ) (xs : List Token)
    → Segment tokens i xs
    → parens_from tokens i (length xs) c ≡ parens_list xs c
unfolding parens_from parens_list
parens_from-list tokens i c [] h = refl
parens_from-list tokens i c (x ∷ xs) (here, rest) =
    rw
      (
        here,
        parens_from-list tokens (suc i) (c + 1) xs rest,
        parens_from-list tokens (suc i) (c - 1) xs rest,
        parens_from-list tokens (suc i) c xs rest,
      )
      refl

pub scan_from-list :
    (tokens : List Token) (i : ℕ) (xs : List Token) (s : Scan)
    → Segment tokens i xs
    → scan_from tokens i (length xs) s ≡ scan_list i xs s
unfolding scan_from scan_list
scan_from-list tokens i [] s h = refl
scan_from-list tokens i (x ∷ xs) s (here, rest) =
    ap (λ (t : Token). scan_from tokens (suc i) (length xs) (scan_token i t.type s)) here
    ∙ scan_from-list tokens (suc i) xs (scan_token i x.type s) rest

pub append_assoc : (xs ys zs : List Token) → (xs ++ ys) ++ zs ≡ xs ++ (ys ++ zs)
append_assoc [] ys zs = refl
append_assoc (x ∷ xs) ys zs = ap (λ (ts : List Token). x ∷ ts) (append_assoc xs ys zs)

-- What the loops and `eval` look at of an operator with two operands.
pub record Plain (type : TokenType) : Type 0 where
  pub not_open : is_open type ≡ false
  pub not_close : is_close type ≡ false
  pub not_unary : is_unary type ≡ false
  pub not_deref : is_deref type ≡ false
  pub binds : ltb (precedence type) 100 ≡ true

pub op_type-Plain : (op : BinOp) → Plain (op_type op)
unfolding precedence
op_type-Plain op_or = record {
  not_open = refl;
  not_close = refl;
  not_unary = refl;
  not_deref = refl;
  binds = refl;
}
op_type-Plain op_and = record {
  not_open = refl;
  not_close = refl;
  not_unary = refl;
  not_deref = refl;
  binds = refl;
}
op_type-Plain op_eq = record {
  not_open = refl;
  not_close = refl;
  not_unary = refl;
  not_deref = refl;
  binds = refl;
}
op_type-Plain op_neq = record {
  not_open = refl;
  not_close = refl;
  not_unary = refl;
  not_deref = refl;
  binds = refl;
}
op_type-Plain op_le = record {
  not_open = refl;
  not_close = refl;
  not_unary = refl;
  not_deref = refl;
  binds = refl;
}
op_type-Plain op_ge = record {
  not_open = refl;
  not_close = refl;
  not_unary = refl;
  not_deref = refl;
  binds = refl;
}
op_type-Plain op_lt = record {
  not_open = refl;
  not_close = refl;
  not_unary = refl;
  not_deref = refl;
  binds = refl;
}
op_type-Plain op_gt = record {
  not_open = refl;
  not_close = refl;
  not_unary = refl;
  not_deref = refl;
  binds = refl;
}
op_type-Plain op_add = record {
  not_open = refl;
  not_close = refl;
  not_unary = refl;
  not_deref = refl;
  binds = refl;
}
op_type-Plain op_sub = record {
  not_open = refl;
  not_close = refl;
  not_unary = refl;
  not_deref = refl;
  binds = refl;
}
op_type-Plain op_mul = record {
  not_open = refl;
  not_close = refl;
  not_unary = refl;
  not_deref = refl;
  binds = refl;
}
op_type-Plain op_div = record {
  not_open = refl;
  not_close = refl;
  not_unary = refl;
  not_deref = refl;
  binds = refl;
}

pub one_less : (c : ℕ) → c + 1 - 1 ≡ c
one_less c = omega arith

pub positive : (c : ℕ) → (c + 1 == 0) ≡ false
positive c = ground arith

-- The loop of `check_parentheses` passes over `xs`.
abbrev pub PassesOver : List Token → Type 0
PassesOver xs = (rest : List Token) (c : ℕ) → parens_list (xs ++ rest) c ≡ parens_list rest c

group-PassesOver :
    (xs rest : List Token) (c : ℕ)
    → PassesOver xs
    → parens_list (group xs rest) c ≡ parens_list rest c
unfolding parens_list
group-PassesOver xs rest c pass =
    pass (sign rparen ∷ rest) (c + 1) ∙ rw (positive c, one_less c) refl

pub group_append : (xs ys rest : List Token) → group xs ys ++ rest ≡ group xs (ys ++ rest)
group_append xs ys rest =
    ap (λ (ts : List Token). sign lparen ∷ ts) (append_assoc xs (sign rparen ∷ ys) rest)

bin-PassesOver :
    (xs ys : List Token) (t : Token)
    → Plain t.type
    → PassesOver xs
    → PassesOver ys
    → PassesOver (group xs (t ∷ group ys []))
unfolding parens_list
bin-PassesOver xs ys t plain px py rest c =
    let second : parens_list (group ys [] ++ rest) c ≡ parens_list rest c =
      ap (λ (ts : List Token). parens_list ts c) (group_append ys [] rest)
      ∙ group-PassesOver ys rest c py in
    let middle : parens_list (t ∷ (group ys [] ++ rest)) c ≡ parens_list rest c =
      rw (plain.not_open, plain.not_close) second in
    ap (λ (ts : List Token). parens_list ts c) (group_append xs (t ∷ group ys []) rest)
    ∙ group-PassesOver xs (t ∷ (group ys [] ++ rest)) c px
    ∙ middle

pub tokens_of-PassesOver : (e : Exp) → PassesOver (tokens_of e)
unfolding parens_list tokens_of
tokens_of-PassesOver (num text) rest c = refl
tokens_of-PassesOver (neg e) rest c =
    ap (λ (ts : List Token). parens_list ts c) (group_append (tokens_of e) [] rest)
    ∙ group-PassesOver (tokens_of e) rest c (tokens_of-PassesOver e)
tokens_of-PassesOver (bin op a b) rest c =
    bin-PassesOver (tokens_of a) (tokens_of b) (sign (op_type op)) (op_type-Plain op)
      (tokens_of-PassesOver a) (tokens_of-PassesOver b) rest c
