-- ===== src/Monitor/Expr/Total.antt =====
-- The fuel of `eval` and `expr` is enough.
use ysyxworkbench.Prelude.{
  ℕ, zero, suc, ◌<◌, ◌≡◌, refl, Bool, true, false, ◌||◌, not, Option, some, if_cases, Option-cases,
  inl, inr, ok, assert, ◌>>◌, List, [], ◌∷◌, ◌++◌, ltb, ◌==◌, if◌then◌else◌, length, take, drop,
  length-drop, Ends, Ends-bind, arith,
}
use ysyxworkbench.Memory.{Bus, Store, vaddr_read}
use ysyxworkbench.Cpu.State.{Cpu}
use ysyxworkbench.Monitor.Expr.{
  TokenType, Token, find_match, add_token, make_token, rule_types, mark_unary,
}
use ysyxworkbench.Monitor.Expr.Eval.{expr}
use ysyxworkbench.Monitor.Expr.{ends_operand, as_unary, max_tokens, keeps_text, is_space}
use ysyxworkbench.Monitor.Expr.EvalTotal.{eval-Ends}

mark_unary-length :
    (operand : Bool) (tokens : List Token) → length (mark_unary operand tokens) ≡ length tokens
unfolding mark_unary
mark_unary-length operand [] = refl
mark_unary-length operand (t ∷ ts) =
    ground
      (arith, mark_unary-length (ends_operand (if operand then t.type else as_unary t.type)) ts)

add_token-Ends :
    (type : TokenType) (text : List ℕ) (tokens : List Token) → Ends (add_token type text tokens)
unfolding add_token
add_token-Ends type text tokens =
    guarded (ltb (length tokens) max_tokens) (not (keeps_text type) || ltb (length text) 32)
      (tokens ++ record { type = type; str = if keeps_text type then text else [] } ∷ [])
  where
    guarded : (b b' : Bool) (ts : List Token) → Ends (assert b >> (assert b' >> ok ts))
    guarded true true ts = tt
    guarded true false ts = tt
    guarded false b' ts = tt

module _ (regexec : ℕ → List ℕ → Option ℕ)
    (matches : (i len : ℕ) (text : List ℕ) → regexec i text ≡ some len → 0 < len) where
  find_match-positive :
      (types : List TokenType) (i : ℕ) (text : List ℕ) (type : TokenType) (len : ℕ)
      → find_match regexec types i text ≡ some (type, len)
      → 0 < len
  unfolding find_match
  find_match-positive [] i text type len h = ground arith
  find_match-positive (t ∷ ts) i text type len h = elim (Option-cases (regexec i text)) [
    | inl miss ↦ ground (arith, miss, h, find_match-positive ts (suc i) text type len)
    | inr (l, hit) ↦ ground (arith, hit, h, matches i l text hit)
  ]

  make_token-Ends :
      (k : ℕ) (text : List ℕ) (tokens : List Token)
      → length text < k
      → Ends (make_token regexec k text tokens)
  unfolding make_token
  make_token-Ends zero text tokens h = ground arith
  make_token-Ends (suc k) [] tokens h = tt
  make_token-Ends (suc k) (c ∷ cs) tokens h =
      elim (Option-cases (find_match regexec rule_types 0 (c ∷ cs))) [
        | inl miss ↦ rw (Ends, miss) tt
        | inr (m, hit) ↦
            rw (Ends, hit)
              (let shorter = find_match-positive rule_types 0 (c ∷ cs) m.0 m.1 hit in
                Ends-bind
                  (if is_space m.0 then ok tokens else add_token m.0 (take m.1 (c ∷ cs)) tokens)
                  (λ (ts : List Token). make_token regexec k (drop m.1 (c ∷ cs)) ts)
                  (if_cases Ends (is_space m.0) _ _ (λ _. tt)
                    (λ _. add_token-Ends m.0 (take m.1 (c ∷ cs)) tokens))
                  (λ ts.
                    make_token-Ends k (drop m.1 (c ∷ cs)) ts
                      (omega (arith, h, shorter, length-drop m.1 (c ∷ cs)))))
      ]

  -- When every rule matches one character or more, and reads of memory end, `expr` ends: the loops
  -- and the recursion of `make_token` and `eval` have enough fuel on every text.
  pub expr-Ends :
      {S : Type 0} (device : Option (Bus S)) (cpu : Cpu) (text : List ℕ) (st : Store S)
      → ((a : ℕ) (st' : Store S) → Ends (vaddr_read device a 4 st'))
      → Ends (expr device cpu regexec text st)
  unfolding expr
  expr-Ends device cpu text st reads =
      Ends-bind _ _ (make_token-Ends (suc (length text)) text [] (omega arith)) (λ tokens.
        if_cases Ends (length tokens == 0) _ _ (λ _. tt)
          (λ _.
            eval-Ends device cpu reads (suc (length tokens)) (mark_unary false tokens) 0
              (length tokens) true st (omega arith)))
