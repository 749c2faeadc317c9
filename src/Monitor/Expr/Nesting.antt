-- ===== src/Monitor/Expr/Nesting.antt =====
-- The loop of `find_main_operator` (nemu/src/monitor/sdb/expr.c) on the tokens inside parentheses.
use ysyxworkbench.Prelude.{
  ℕ, suc, ◌+◌, ◌<◌, ◌≤◌, ◌≡◌, refl, ap, ap₂, ◌∙◌, false, List, [], ◌∷◌, ◌++◌, ◌==◌, length,
  length-append, arith,
}
use ysyxworkbench.Monitor.Expr.{
  TokenType, Token, tk_num, tk_neg, rparen, Scan, scan_token, is_open, is_close,
}
use ysyxworkbench.Monitor.Expr.Syntax.{op_type, Exp, num, neg, bin, sign, group, tokens_of}
use ysyxworkbench.Monitor.Expr.Segments.{Plain, op_type-Plain, scan_list, group_append}

-- The scan with `n` pairs of parentheses more.
abbrev pub deeper : ℕ → Scan → Scan
deeper n s = record s { opened = s.opened + n; closed = s.closed + n }

-- Inside parentheses the loop of `find_main_operator` passes over `xs`.
abbrev pub ScansOver : List Token → Type 0
ScansOver xs =
    (rest : List Token) (i : ℕ) (s : Scan)
    → s.closed < s.opened
    → (n : ℕ) × (scan_list i (xs ++ rest) s ≡ scan_list (i + length xs) rest (deeper n s))

pub group-ScansOver :
    (xs rest : List Token) (i : ℕ) (s : Scan)
    → s.closed ≤ s.opened
    → ScansOver xs
    → (n : ℕ) × (scan_list i (group xs rest) s ≡ scan_list (i + length xs + 2) rest (deeper n s))
unfolding scan_list scan_token
group-ScansOver xs rest i s level over =
    let (n, e) =
      over (sign rparen ∷ rest) (suc i) (record s { opened = s.opened + 1 }) (omega arith) in
    (
      n + 1,
      e
          ∙ ap₂ (λ (j : ℕ) (s' : Scan). scan_list j rest s') (omega arith)
              (ap₂ (λ (o c : ℕ). record s { opened = o; closed = c }) (omega arith) (omega arith)),
    )

pub length-group : (xs ys : List Token) → length (group xs ys) ≡ length xs + 2 + length ys
length-group xs ys = omega (arith, length-append {0} xs (sign rparen ∷ ys))

-- Inside parentheses another token changes nothing.
scan_token_inside :
    (i : ℕ) (type : TokenType) (s : Scan)
    → is_open type ≡ false
    → is_close type ≡ false
    → s.closed < s.opened
    → scan_token i type s ≡ s
unfolding scan_token
scan_token_inside i type s no_open no_close inside =
    let apart : (s.opened == s.closed) ≡ false = ground arith in rw (no_open, no_close, apart) refl

deeper_twice : (m n : ℕ) (s : Scan) → deeper n (deeper m s) ≡ deeper (m + n) s
deeper_twice m n s =
    ap₂ (λ (o c : ℕ). record s { opened = o; closed = c }) (omega arith) (omega arith)

nest-ScansOver :
    (xs ys : List Token) (t : Token)
    → Plain t.type
    → ScansOver xs
    → ScansOver ys
    → ScansOver (group xs (t ∷ group ys []))
unfolding scan_list
nest-ScansOver xs ys t plain ox oy rest i s inside =
    let (m, first) = group-ScansOver xs (t ∷ (group ys [] ++ rest)) i s (omega arith) ox in
    let stay =
      scan_token_inside (i + length xs + 2) t.type (deeper m s) plain.not_open plain.not_close
        (omega arith) in
    let (n, second) =
      group-ScansOver ys rest (suc (i + length xs + 2)) (deeper m s) (omega arith) oy in
    (
      m + n,
      ap (λ (ts : List Token). scan_list i ts s) (group_append xs (t ∷ group ys []) rest)
          ∙ first
          ∙ ap (λ (s' : Scan). scan_list (suc (i + length xs + 2)) (group ys [] ++ rest) s') stay
          ∙ ap (λ (ts : List Token). scan_list (suc (i + length xs + 2)) ts (deeper m s))
              (group_append ys [] rest)
          ∙ second
          ∙ ap₂ (λ (j : ℕ) (s' : Scan). scan_list j rest s')
              (omega (arith, length-group xs (t ∷ group ys []), length-group ys []))
              (deeper_twice m n s),
    )

pub tokens_of-ScansOver : (e : Exp) → ScansOver (tokens_of e)
unfolding scan_list tokens_of
tokens_of-ScansOver (num text) rest i s inside = (
  0,
  ap₂ (λ (j : ℕ) (s' : Scan). scan_list j rest s') (omega arith)
      (scan_token_inside i tk_num s refl refl inside
        ∙ ap₂ (λ (o c : ℕ). record s { opened = o; closed = c }) (omega arith) (omega arith)),
)
tokens_of-ScansOver (neg e) rest i s inside =
    let (n, second) =
      group-ScansOver (tokens_of e) rest (suc i) s (omega arith) (tokens_of-ScansOver e) in
    (
      n,
      ap (λ (s' : Scan). scan_list (suc i) (group (tokens_of e) [] ++ rest) s')
            (scan_token_inside i tk_neg s refl refl inside)
          ∙ ap (λ (ts : List Token). scan_list (suc i) ts s) (group_append (tokens_of e) [] rest)
          ∙ second
          ∙ ap (λ (j : ℕ). scan_list j rest (deeper n s))
              (omega (arith, length-group (tokens_of e) [])),
    )
tokens_of-ScansOver (bin op a b) rest i s inside =
    nest-ScansOver (tokens_of a) (tokens_of b) (sign (op_type op)) (op_type-Plain op)
      (tokens_of-ScansOver a) (tokens_of-ScansOver b) rest i s inside
