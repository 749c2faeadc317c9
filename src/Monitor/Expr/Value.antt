-- ===== src/Monitor/Expr/Value.antt =====
-- The value that `eval` of nemu/src/monitor/sdb/expr.c gives to the tokens of an expression in
-- which every operand stands in parentheses.
use mathlib.Core.Path.{subst}
use ysyxworkbench.Prelude.{
  ℕ, zero, suc, ◌+◌, ◌-◌, ◌<◌, ◌≡◌, refl, sym, ap, ◌∙◌, Bool, true, false, Option, Result, ok,
  fault, ◌>>=◌, List, [], ◌∷◌, ◌++◌, leb, ◌==◌, length, length-append, arith,
}
use ysyxworkbench.Memory.{Bus, Store}
use ysyxworkbench.Cpu.State.{Cpu}
use ysyxworkbench.Monitor.Expr.{TokenType, Token, tk_neg, rparen, token_at}
use ysyxworkbench.Monitor.Expr.Eval.{apply_operator, eval, eval_single, finish, shape, is_deref}
use ysyxworkbench.Monitor.Expr.Syntax.{
  BinOp, op_type, Exp, num, neg, bin, sign, group, tokens_of, value_of,
}
use ysyxworkbench.Monitor.Expr.Segments.{
  Segment, Segment-append, append_assoc, op_type-Plain, tokens_of-PassesOver,
}
use ysyxworkbench.Monitor.Expr.Nesting.{length-group, tokens_of-ScansOver}
use ysyxworkbench.Monitor.Expr.Branches.{is_bin, is_group, is_neg_group}

module _ {S : Type 0} (device : Option (Bus S)) (cpu : Cpu) (tokens : List Token) where
  -- The value of an expression as `eval` returns it.
  abbrev pub returned : Result ℕ → Store S → Result (ℕ × Bool × Store S)
  returned r st = do v ← r; ok (v, true, st)

  abbrev EvaluatesAt : Exp → ℕ → Type 0
  EvaluatesAt x p =
      (k e : ℕ) (st : Store S)
      → e ≡ p + length (tokens_of x)
      → e - p < k
      → eval device cpu k tokens p e true st ≡ returned (value_of x) st

  -- Wherever its tokens stand.
  abbrev IsEvaluated : Exp → Type 0
  IsEvaluated x = (p : ℕ) → Segment tokens p (tokens_of x) → EvaluatesAt x p

  eval-parens :
      (x : Exp) (k p e : ℕ) (st : Store S)
      → 0 < length (tokens_of x)
      → Segment tokens p (group (tokens_of x) [])
      → e ≡ p + length (tokens_of x) + 2
      → e - p < k
      → IsEvaluated x
      → eval device cpu k tokens p e true st ≡ returned (value_of x) st
  unfolding eval
  eval-parens x zero p e st some_token seg end room inner = ground arith
  eval-parens x (suc k) p e st some_token seg end room inner =
      let branch = is_group tokens p e (tokens_of x) (tokens_of-PassesOver x) some_token seg end in
      rw (eval, branch)
        (ap (λ (i : ℕ). eval device cpu k tokens i (e - 1) true st) (next p)
          ∙ inner (suc p) (Segment-append tokens (suc p) (tokens_of x) (sign rparen ∷ []) seg.1).0 k
              (e - 1) st (omega (arith, end)) (omega (arith, end, room)))
    where
      next : (p : ℕ) → p + 1 ≡ suc p
      next p = omega arith

  tokens_of-positive : (x : Exp) → 0 < length (tokens_of x)
  unfolding tokens_of
  tokens_of-positive (num text) = omega arith
  tokens_of-positive (neg x) = omega arith
  tokens_of-positive (bin op a b) = omega arith

  -- The two ends of the switch: after the operand of a negation, and after two operands.
  finish-neg :
      (r : Result ℕ) (st : Store S)
      → (returned r st >>= λ (q : ℕ × Bool × Store S). finish device cpu tk_neg 0 q.0 q.1 q.2)
        ≡ returned (r >>= λ (v : ℕ). apply_operator tk_neg 0 v) st
  unfolding finish
  finish-neg (ok v) st = refl
  finish-neg (fault f) st = refl

  finish-bin :
      (type : TokenType) (x : ℕ) (r : Result ℕ) (st : Store S)
      → is_deref type ≡ false
      → (returned r st >>= λ (q : ℕ × Bool × Store S). finish device cpu type x q.0 q.1 q.2)
        ≡ returned (r >>= λ (y : ℕ). apply_operator type x y) st
  unfolding finish
  finish-bin type x (ok y) st plain = rw (finish, plain) refl
  finish-bin type x (fault f) st plain = refl

  both :
      (type : TokenType) (ra rb : Result ℕ) (st : Store S)
      (right : Bool → Store S → Result (ℕ × Bool × Store S))
      → is_deref type ≡ false
      → right true st ≡ returned rb st
      → (returned ra st >>= λ (q : ℕ × Bool × Store S).
          right q.1 q.2 >>= λ (q' : ℕ × Bool × Store S). finish device cpu type q.0 q'.0 q'.1 q'.2)
        ≡ returned (ra >>= λ (x : ℕ). rb >>= λ (y : ℕ). apply_operator type x y) st
  both type (ok x) rb st right plain e =
      ap
        (λ (r : Result (ℕ × Bool × Store S)).
          r >>= λ (q' : ℕ × Bool × Store S). finish device cpu type x q'.0 q'.1 q'.2)
        e
      ∙ finish-bin type x rb st plain
  both type (fault f) rb st right plain e = refl

  num-at :
      (text : List ℕ) (p : ℕ) → Segment tokens p (tokens_of (num text)) → EvaluatesAt (num text) p
  unfolding eval tokens_of value_of shape eval_single
  num-at text p seg zero e st end room = ground arith
  num-at text p (here, _) (suc k) e st end room =
      let some_left : leb e p ≡ false = ground arith in
      let one : (e == p + 1) ≡ true = ground arith in rw (eval, some_left, one, here) refl

  neg-at : (x : Exp) → IsEvaluated x → IsEvaluated (neg x)
  unfolding eval tokens_of value_of
  neg-at x inner p seg zero e st end room = ground arith
  neg-at x inner p (negates, rest) (suc k) e st end room =
      let branch =
        is_neg_group tokens p e (tokens_of x) (tokens_of-ScansOver x) (negates, rest) end in
      rw (eval, branch, negates)
        (ap
            (λ (r : Result (ℕ × Bool × Store S)).
              r >>= λ (q : ℕ × Bool × Store S). finish device cpu tk_neg 0 q.0 q.1 q.2)
            (ap (λ (i : ℕ). eval device cpu k tokens i e true st) (next p)
              ∙ eval-parens x k (suc p) e st (tokens_of-positive x) rest
                  (omega (arith, end, length-group (tokens_of x) []))
                  (omega (arith, end, room, length-group (tokens_of x) [])) inner)
          ∙ finish-neg (value_of x) st)
    where
      next : (p : ℕ) → p + 1 ≡ suc p
      next p = omega arith

  -- The parts of the run of an operator with two operands.
  bin-parts :
      (op : BinOp) (a b : Exp) (p : ℕ)
      → Segment tokens p (tokens_of (bin op a b))
      → Segment tokens p (group (tokens_of a) [])
        × (token_at tokens (p + length (tokens_of a) + 2) ≡ sign (op_type op))
        × Segment tokens (p + length (tokens_of a) + 2 + 1) (group (tokens_of b) [])
  unfolding tokens_of
  bin-parts op a b p (opens, rest) =
      let closed = tokens_of a ++ sign rparen ∷ [] in
      let after = sign (op_type op) ∷ group (tokens_of b) [] in
      let split : tokens_of a ++ sign rparen ∷ after ≡ closed ++ after =
        sym (append_assoc (tokens_of a) (sign rparen ∷ []) after) in
      let (first, (at_op, second)) =
        Segment-append tokens (suc p) closed after
          (subst (λ (ts : List Token). Segment tokens (suc p) ts) split rest) in
      let size = length-append {0} (tokens_of a) (sign rparen ∷ []) in
      let index : suc p + length closed ≡ p + length (tokens_of a) + 2 = omega (arith, size) in
      let index' : suc (suc p + length closed) ≡ p + length (tokens_of a) + 2 + 1 =
        omega (arith, size) in
      (
        (opens, first),
        ap (λ (i : ℕ). token_at tokens i) (sym index) ∙ at_op,
        subst (λ (i : ℕ). Segment tokens i (group (tokens_of b) [])) index' second,
      )

  bin-at : (op : BinOp) (a b : Exp) → IsEvaluated a → IsEvaluated b → IsEvaluated (bin op a b)
  unfolding eval tokens_of value_of
  bin-at op a b left right p seg zero e st end room = ground arith
  bin-at op a b left right p seg (suc k) e st end room =
      let t = sign (op_type op) in
      let plain = op_type-Plain op in
      let branch =
        is_bin tokens p e (tokens_of a) (tokens_of b) t plain (tokens_of-PassesOver a)
          (tokens_of-ScansOver a) (tokens_of-ScansOver b) seg end in
      let (first, at_op, second) = bin-parts op a b p seg in
      let j = p + length (tokens_of a) + 2 in
      let size = length-group (tokens_of a) (t ∷ group (tokens_of b) []) in
      let size_b = length-group (tokens_of b) [] in
      let left_value =
        eval-parens a k p j st (tokens_of-positive a) first refl
          (omega (arith, end, room, size, size_b)) left in
      let right_value =
        eval-parens b k (j + 1) e st (tokens_of-positive b) second
          (omega (arith, end, size, size_b)) (omega (arith, end, room, size, size_b)) right in
      rw (eval, branch, at_op, plain.not_unary, left_value)
        (both (op_type op) (value_of a) (value_of b) st
          (λ (b' : Bool) (st' : Store S). eval device cpu k tokens (j + 1) e b' st') plain.not_deref
          right_value)

  value-at : (x : Exp) → IsEvaluated x
  value-at (num text) = num-at text
  value-at (neg x) = neg-at x (value-at x)
  value-at (bin op a b) = bin-at op a b (value-at a) (value-at b)

later-Segment :
    (t : Token) (ts : List Token) (i : ℕ) (xs : List Token)
    → Segment ts i xs
    → Segment (t ∷ ts) (suc i) xs
unfolding token_at
later-Segment t ts i [] h = tt
later-Segment t ts i (x ∷ xs) (here, rest) = (here, later-Segment t ts (suc i) xs rest)

whole-Segment : (tokens : List Token) → Segment tokens 0 tokens
unfolding token_at
whole-Segment [] = tt
whole-Segment (t ∷ ts) = (refl, later-Segment t ts 0 ts (whole-Segment ts))

-- For an expression in which every operand of an operator stands in parentheses, with more fuel than
-- it has tokens, `eval` of its tokens gives the value of the expression: the left operand first, then
-- the right one, then the operator. It leaves `success` set and the state as it was, and where the
-- value is a fault it gives that fault.
pub eval-value_of :
    {S : Type 0} (device : Option (Bus S)) (cpu : Cpu) (x : Exp) (k : ℕ) (st : Store S)
    → length (tokens_of x) < k
    → eval device cpu k (tokens_of x) 0 (length (tokens_of x)) true st
      ≡ (do v ← value_of x; ok (v, true, st))
eval-value_of device cpu x k st room =
    value-at device cpu (tokens_of x) x 0 (whole-Segment (tokens_of x)) k (length (tokens_of x)) st
      (omega arith) (omega (arith, room))
