-- ===== src/Monitor/Expr/Branches.antt =====
-- The branch that `eval` of nemu/src/monitor/sdb/expr.c takes on the tokens of an expression.
use mathlib.Core.Path.{subst}
use ysyxworkbench.Prelude.{
  ℕ, suc, ◌+◌, ◌-◌, ◌<◌, ◌≡◌, refl, sym, ap, ap₂, ◌∙◌, Bool, true, false, ◌&&◌, some, List, [], ◌∷◌,
  ◌++◌, ltb, leb, ◌==◌, length, length-append, arith,
}
use ysyxworkbench.Monitor.Expr.{
  TokenType, Token, tk_neg, lparen, rparen, Scan, scan_token, scan_from, scan_start, token_at,
  is_open, is_close, precedence, parens_from, check_parentheses, find_main_operator,
}
use ysyxworkbench.Monitor.Expr.Eval.{shape, parens, operator}
use ysyxworkbench.Monitor.Expr.Syntax.{sign, group}
use ysyxworkbench.Monitor.Expr.Segments.{
  PassesOver, Plain, Segment, Segment-append, append_assoc, parens_from-list, parens_list,
  scan_from-list, scan_list,
}
use ysyxworkbench.Monitor.Expr.Nesting.{ScansOver, deeper, group-ScansOver, length-group}

-- Outside of parentheses a token that binds weaker than all before it becomes the main operator.
scan_token_level :
    (i : ℕ) (type : TokenType) (s : Scan)
    → is_open type ≡ false
    → is_close type ≡ false
    → s.opened ≡ s.closed
    → ltb (precedence type) s.min_precedence ≡ true
    → scan_token i type s ≡ record s { main_op = some i; min_precedence = precedence type }
unfolding scan_token
scan_token_level i type s no_open no_close level binds =
    let even : (s.opened == s.closed) ≡ true = ground arith in
    rw (no_open, no_close, even, binds) refl

-- The scan of a run ends with the main operator of the list of its tokens.
scanned :
    (tokens : List Token) (i e : ℕ) (xs : List Token)
    → Segment tokens i xs
    → e ≡ i + length xs
    → find_main_operator tokens i e ≡ (scan_list i xs scan_start).main_op
unfolding find_main_operator
scanned tokens i e xs seg end =
    let whole : e - i ≡ length xs = omega (arith, end) in
    ap (λ (n : ℕ). (scan_from tokens i n scan_start).main_op) whole
    ∙ ap (λ (s : Scan). s.main_op) (scan_from-list tokens i xs scan_start seg)

-- A weak token followed by a group.
main_op-last :
    (j : ℕ) (ys : List Token) (type : TokenType) (str : List ℕ) (s : Scan)
    → is_open type ≡ false
    → is_close type ≡ false
    → s.opened ≡ s.closed
    → ltb (precedence type) s.min_precedence ≡ true
    → ScansOver ys
    → (scan_list j (record { type = type; str = str } ∷ group ys []) s).main_op ≡ some j
unfolding scan_list
main_op-last j ys type str s no_open no_close level binds oy =
    let found : Scan = record s { main_op = some j; min_precedence = precedence type } in
    let (n, e) = group-ScansOver ys [] (suc j) found (omega arith) oy in
    ap (λ (s' : Scan). (scan_list (suc j) (group ys []) s').main_op)
      (scan_token_level j type s no_open no_close level binds)
    ∙ ap (λ (s' : Scan). s'.main_op) e

-- The main operator of an operator between groups, and of a negated group.
main_op-bin :
    (tokens : List Token) (i e : ℕ) (xs ys : List Token) (t : Token)
    → Plain t.type
    → ScansOver xs
    → ScansOver ys
    → Segment tokens i (group xs (t ∷ group ys []))
    → e ≡ i + length (group xs (t ∷ group ys []))
    → find_main_operator tokens i e ≡ some (i + length xs + 2)
main_op-bin tokens i e xs ys t plain ox oy seg end =
    let (n, first) = group-ScansOver xs (t ∷ group ys []) i scan_start (omega arith) ox in
    scanned tokens i e (group xs (t ∷ group ys [])) seg end
    ∙ ap (λ (s : Scan). s.main_op) first
    ∙ main_op-last (i + length xs + 2) ys t.type t.str (deeper n scan_start) plain.not_open
        plain.not_close refl plain.binds oy

main_op-neg :
    (tokens : List Token) (i e : ℕ) (xs : List Token)
    → ScansOver xs
    → Segment tokens i (sign tk_neg ∷ group xs [])
    → e ≡ i + length (sign tk_neg ∷ group xs [])
    → find_main_operator tokens i e ≡ some i
unfolding precedence
main_op-neg tokens i e xs ox seg end =
    scanned tokens i e (sign tk_neg ∷ group xs []) seg end
    ∙ main_op-last i xs tk_neg [] scan_start refl refl refl negates ox
  where
    negates : ltb (precedence tk_neg) scan_start.min_precedence ≡ true
    negates = refl

-- Which branch of `eval` the runs take.
shape-parens :
    (tokens : List Token) (p e : ℕ)
    → p + 1 < e
    → check_parentheses tokens p e ≡ true
    → shape tokens p e ≡ parens
unfolding shape
shape-parens tokens p e two h =
    let some_left : leb e p ≡ false = ground arith in
    let more : (e == p + 1) ≡ false = ground arith in rw (some_left, more, h) refl

shape-operator :
    (tokens : List Token) (p e op : ℕ)
    → p + 1 < e
    → check_parentheses tokens p e ≡ false
    → find_main_operator tokens p e ≡ some op
    → shape tokens p e ≡ operator op
unfolding shape
shape-operator tokens p e op two h main =
    let some_left : leb e p ≡ false = ground arith in
    let more : (e == p + 1) ≡ false = ground arith in rw (some_left, more, h, main) refl

append_nil : (xs : List Token) → xs ++ [] ≡ xs
append_nil [] = refl
append_nil (x ∷ xs) = ap (λ (ts : List Token). x ∷ ts) (append_nil xs)

and_false : (a : Bool) → (a && false) ≡ false
and_false true = refl
and_false false = refl

-- The loop of `check_parentheses` on the tokens `xs` between the ends of a run.
between :
    (tokens : List Token) (p e : ℕ) (xs : List Token)
    → Segment tokens (suc p) xs
    → e ≡ p + length xs + 2
    → parens_from tokens (p + 1) (e - 2 - p) 0 ≡ parens_list xs 0
between tokens p e xs seg end =
    ap₂ (λ (i n : ℕ). parens_from tokens i n 0) (omega arith) (omega (arith, end))
    ∙ parens_from-list tokens (suc p) 0 xs seg

pub is_group :
    (tokens : List Token) (p e : ℕ) (xs : List Token)
    → PassesOver xs
    → 0 < length xs
    → Segment tokens p (group xs [])
    → e ≡ p + length xs + 2
    → shape tokens p e ≡ parens
unfolding check_parentheses parens_list
is_group tokens p e xs px some_token seg end =
    let (opens, rest) = seg in
    let (inner, (closes, _)) = Segment-append tokens (suc p) xs (sign rparen ∷ []) rest in
    let last : token_at tokens (e - 1) ≡ sign rparen =
      ap (λ (i : ℕ). token_at tokens i) (omega (arith, end)) ∙ closes in
    let balanced = ap (λ (ts : List Token). parens_list ts 0) (sym (append_nil xs)) ∙ px [] 0 in
    shape-parens tokens p e (omega (arith, end, some_token))
      (rw (opens, last, between tokens p e xs inner end, balanced) refl)

pub is_bin :
    (tokens : List Token) (p e : ℕ) (xs ys : List Token) (t : Token)
    → Plain t.type
    → PassesOver xs
    → ScansOver xs
    → ScansOver ys
    → Segment tokens p (group xs (t ∷ group ys []))
    → e ≡ p + length (group xs (t ∷ group ys []))
    → shape tokens p e ≡ operator (p + length xs + 2)
unfolding check_parentheses parens_list
is_bin tokens p e xs ys t plain px ox oy seg end =
    let (_, rest) = seg in
    let interior = xs ++ sign rparen ∷ t ∷ sign lparen ∷ ys in
    let split : xs ++ sign rparen ∷ t ∷ group ys [] ≡ interior ++ sign rparen ∷ [] =
      sym (append_assoc xs (sign rparen ∷ t ∷ sign lparen ∷ ys) (sign rparen ∷ [])) in
    let (inner, _) =
      Segment-append tokens (suc p) interior (sign rparen ∷ [])
        (subst (λ (ts : List Token). Segment tokens (suc p) ts) split rest) in
    let closed_early : parens_list interior 0 ≡ false = px (sign rparen ∷ t ∷ sign lparen ∷ ys) 0 in
    let size : e ≡ p + length interior + 2 = omega (
      arith,
      end,
      length-append {0} xs (sign rparen ∷ t ∷ sign lparen ∷ ys),
      length-group xs (t ∷ group ys []),
      length-group ys [],
    ) in
    shape-operator tokens p e (p + length xs + 2) (omega (arith, size))
      (ap
          (λ (b : Bool).
            is_open (token_at tokens p).type && is_close (token_at tokens (e - 1)).type && b)
          (between tokens p e interior inner size ∙ closed_early)
        ∙ and_false (is_open (token_at tokens p).type && is_close (token_at tokens (e - 1)).type))
      (main_op-bin tokens p e xs ys t plain ox oy seg end)

pub is_neg_group :
    (tokens : List Token) (p e : ℕ) (xs : List Token)
    → ScansOver xs
    → Segment tokens p (sign tk_neg ∷ group xs [])
    → e ≡ p + length (sign tk_neg ∷ group xs [])
    → shape tokens p e ≡ operator p
unfolding check_parentheses parens_list
is_neg_group tokens p e xs ox seg end =
    let (negates, _) = seg in
    shape-operator tokens p e p (omega (arith, end, length-group xs [])) (rw negates refl)
      (main_op-neg tokens p e xs ox seg end)
