-- ===== src/Monitor/Expr/EvalTotal.antt =====
-- The evaluator ends with fuel for one call more than there are tokens.
use ysyxworkbench.Prelude.{
  ℕ, zero, suc, ◌+◌, ◌-◌, ◌^◌, ◌<◌, ◌≤◌, ◌≡◌, refl, Bool, true, false, not, Option, none, some,
  if_cases, Bool-cases, inl, inr, Result, ok, ◌>>=◌, List, ltb, leb, ◌==◌, Ends, Ends-bind,
  Ends-guard, arith,
}
use ysyxworkbench.Memory.{Bus, Store, vaddr_read}
use ysyxworkbench.Cpu.State.{Cpu}
use ysyxworkbench.Cpu.Alu.{div32, no_quotient}
use ysyxworkbench.Monitor.Expr.{
  TokenType, Token, tk_num, tk_hex, tk_reg, tk_neg, plus, minus, star, slash, Scan, scan_token,
  scan_from, scan_start, token_at, check_parentheses, find_main_operator,
}
use ysyxworkbench.Monitor.Expr.Eval.{
  add_overflows, sub_overflows, mul_overflows, read_digits, atoi, apply_operator, eval, eval_single,
  finish, shape, Shape, empty, single, parens, no_operator, operator, is_unary, is_deref,
}
use ysyxworkbench.Monitor.Expr.{is_open, is_close, precedence}

abbrev Within : ℕ → ℕ → Option ℕ → Type 0
Within p e none = Unit {0}
Within p e (some op) = (p ≤ op) × (op < e)

scan_token-Within :
    (p e i : ℕ) (type : TokenType) (s : Scan)
    → Within p e s.main_op
    → p ≤ i
    → i < e
    → Within p e (scan_token i type s).main_op
unfolding scan_token
scan_token-Within p e i type s h low high =
    let P : Scan → Type 0 = λ s'. Within p e s'.main_op in
    let found : Scan = record s { main_op = some i; min_precedence = precedence type } in
    if_cases P (is_open type) _ _ (λ _. h)
      (λ _.
        if_cases P (is_close type) _ _ (λ _. h)
          (λ _. if_cases P _ found s (λ _. (low, high)) (λ _. h)))

scan_from-Within :
    (p e : ℕ) (tokens : List Token) (i left : ℕ) (s : Scan)
    → Within p e s.main_op
    → p ≤ i
    → i + left ≤ e
    → Within p e (scan_from tokens i left s).main_op
unfolding scan_from
scan_from-Within p e tokens i zero s h low high = h
scan_from-Within p e tokens i (suc left) s h low high =
    scan_from-Within p e tokens (suc i) left (scan_token i (token_at tokens i).type s)
      (scan_token-Within p e i (token_at tokens i).type s h low (omega arith)) (omega arith)
      (omega arith)

-- What `shape` says of the run: what is evaluated next is shorter.
abbrev Shorter : ℕ → ℕ → Shape → Type 0
Shorter p e empty = Unit {0}
Shorter p e single = Unit {0}
Shorter p e parens = p < e
Shorter p e no_operator = Unit {0}
Shorter p e (operator op) = (p ≤ op) × (op < e)

shape-Shorter : (tokens : List Token) (p e : ℕ) → Shorter p e (shape tokens p e)
unfolding shape find_main_operator
shape-Shorter tokens p e =
    let none_yet : Within p e none = tt in
    let P = Shorter p e in
    if_cases P (leb e p) _ _ (λ _. tt)
      (λ some_left.
        if_cases P (e == p + 1) _ _ (λ _. tt)
          (λ _.
            if_cases P (check_parentheses tokens p e) _ _ (λ _. ground arith)
              (λ _. found (scan_from tokens p (e - p) scan_start).main_op (
                scan_from-Within p e tokens p (e - p) scan_start tt (omega arith) (ground arith)))))
  where
    found :
        (o : Option ℕ)
        → Within p e o
        → Shorter p e (elim o [ none ↦ no_operator | some op ↦ operator op ])
    found none h = tt
    found (some op) h = h

operand_case :
    {A : Type 0} (unary : Bool) (none_needed : A) (m : Result A)
    → Ends m
    → Ends (elim unary [ true ↦ ok none_needed | false ↦ m ])
operand_case true a m h = tt
operand_case false a m h = h

apply_operator-Ends : (type : TokenType) (a b : ℕ) → Ends (apply_operator type a b)
unfolding apply_operator div32
apply_operator-Ends type a b = elim type as (λ t. Ends (apply_operator t a b)) [
  | plus ↦ (Ends-guard (not (add_overflows a b)) _ tt).1
  | minus ↦ (Ends-guard (not (sub_overflows a b)) _ tt).1
  | star ↦ (Ends-guard (not (mul_overflows a b)) _ tt).1
  | slash ↦
      (Ends-guard (not (b == 0)) _ (if_cases Ends (no_quotient a b) _ _ (λ _. tt) (λ _. tt))).0
  | tk_neg ↦ (Ends-guard (not (b == 2 ^ 31)) _ tt).1
  | _ ↦ tt
]

eval_single-Ends :
    {S : Type 0} (device : Option (Bus S)) (cpu : Cpu) (t : Token) (st : Store S)
    → Ends (eval_single device cpu t st)
unfolding eval_single atoi
eval_single-Ends device cpu t st = go t.type t.str
  where
    go :
        (type : TokenType) (str : List ℕ)
        → Ends (eval_single device cpu (record { type = type; str = str }) st)
    go tk_num str =
        Ends-bind (atoi str) _ (Ends-guard (ltb (read_digits 10 str 0) (2 ^ 31)) _ tt).1 (λ v. tt)
    go tk_hex str = tt
    go tk_reg str = tt
    go _ str = tt

module _ {S : Type 0} (device : Option (Bus S)) (cpu : Cpu)
    (reads : (a : ℕ) (st : Store S) → Ends (vaddr_read device a 4 st)) where
  finish-Ends :
      (type : TokenType) (a b : ℕ) (success : Bool) (st : Store S)
      → Ends (finish device cpu type a b success st)
  unfolding finish
  finish-Ends type a b success st = elim (Bool-cases (is_deref type)) [
    | inl deref ↦ rw (Ends, deref) (Ends-bind (vaddr_read device b 4 st) _ (reads b st) (λ r. tt))
    | inr other ↦
        rw (Ends, other)
          (Ends-bind (apply_operator type a b) _ (apply_operator-Ends type a b) (λ v. tt))
  ]

  eval_step-Ends :
      (k : ℕ) (tokens : List Token) (p e : ℕ) (st : Store S)
      → e - p < suc k
      → ((p' e' : ℕ) (success : Bool) (st' : Store S)
          → e' - p' < k
          → Ends (eval device cpu k tokens p' e' success st'))
      → (sh : Shape) → shape tokens p e ≡ sh
      → Shorter p e sh
      → Ends (eval device cpu (suc k) tokens p e true st)
  unfolding eval
  eval_step-Ends k tokens p e st h next empty same less = rw (Ends, same) tt
  eval_step-Ends k tokens p e st h next single same less =
      rw (Ends, same) (eval_single-Ends device cpu (token_at tokens p) st)
  eval_step-Ends k tokens p e st h next parens same less =
      rw (Ends, same) (next (p + 1) (e - 1) true st (omega (arith, less)))
  eval_step-Ends k tokens p e st h next no_operator same less = rw (Ends, same) tt
  eval_step-Ends k tokens p e st h next (operator op) same (low, high) =
      rw (Ends, same)
        (let type = (token_at tokens op).type in
          Ends-bind _
            (λ (r : ℕ × Bool × Store S).
              eval device cpu k tokens (op + 1) e r.1 r.2 >>= λ (r' : ℕ × Bool × Store S).
              finish device cpu type r.0 r'.0 r'.1 r'.2)
            (operand_case (is_unary type) _ _ (next p op true st (omega (arith, low, high))))
            (λ r.
              Ends-bind _ (λ (r' : ℕ × Bool × Store S). finish device cpu type r.0 r'.0 r'.1 r'.2)
                (next (op + 1) e r.1 r.2 (omega (arith, low, high)))
                (λ r'. finish-Ends type r.0 r'.0 r'.1 r'.2)))

  pub eval-Ends :
      (k : ℕ) (tokens : List Token) (p e : ℕ) (success : Bool) (st : Store S)
      → e - p < k
      → Ends (eval device cpu k tokens p e success st)
  unfolding eval
  eval-Ends zero tokens p e success st h = ground arith
  eval-Ends (suc k) tokens p e false st h = tt
  eval-Ends (suc k) tokens p e true st h =
      eval_step-Ends k tokens p e st h (λ p' e' b st' less. eval-Ends k tokens p' e' b st' less)
        (shape tokens p e) refl (shape-Shorter tokens p e)
