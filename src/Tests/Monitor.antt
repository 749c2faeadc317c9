-- ===== src/Tests/Monitor.antt =====
-- A pool with two watchpoints in use, and an expression.
use ysyxworkbench.Prelude.{
  ℕ, ◌<◌, ◌≡◌, refl, Option, none, some, Result, ok, fault, assertion, List, [], ◌∷◌, arith, Ends,
  Ends-intro, if◌then◌else◌, ◌==◌, leb, ◌&&◌,
}
use ysyxworkbench.Memory.{Bus, Store, vaddr_read, paddr_read, pmem_read, guest_to_host, host_read}
use ysyxworkbench.Monitor.Expr.{make_token, check_parentheses, mark_unary, find_main_operator}
use ysyxworkbench.Cpu.State.{Cpu}
use ysyxworkbench.Prelude.{codes}
use ysyxworkbench.Monitor.Watchpoint.{Wp, Pool, init_wp_pool, new_wp, delete_watchpoint}
use ysyxworkbench.Monitor.Watchpoint.Lists.{
  IsPool, occurrences, upto, init_wp_pool-IsPool, new_wp-IsPool,
}
use ysyxworkbench.Monitor.Watchpoint.Delete.{delete_watchpoint_later}
use ysyxworkbench.Monitor.Watchpoint.{add_watchpoint, check_watchpoints}
use ysyxworkbench.Monitor.Watchpoint.Check.{any_changed, Refreshed, check_watchpoints-Refreshed}
use ysyxworkbench.Monitor.Watchpoint.Add.{add_watchpoint-IsPool}
use ysyxworkbench.Prelude.{take, Bool, true, false}
use ysyxworkbench.Monitor.Expr.Eval.{expr}
use ysyxworkbench.Monitor.Expr.Total.{expr-Ends}
use ysyxworkbench.Monitor.Expr.Eval.{eval, atoi, apply_operator}
use ysyxworkbench.Monitor.Expr.Syntax.{Exp, num, bin, op_div, op_sub, tokens_of, value_of}
use ysyxworkbench.Monitor.Expr.Value.{eval-value_of}
use ysyxworkbench.Prelude.{length, ◌>>=◌}

abbrev blank : ℕ → Wp
blank i = record { number = 0; next = none; expr = []; old_val = 0 }

first :
    (p' : Pool) × (new_wp (init_wp_pool blank) ≡ ok (0, p'))
    × IsPool p' (0 ∷ []) (upto 1 31)
    × ((p'.wp_pool 0).expr ≡ [])
    × ((p'.wp_pool 0).old_val ≡ 0)
first = new_wp-IsPool (init_wp_pool blank) 0 [] (upto 1 31) (init_wp_pool-IsPool blank)

second :
    (p' : Pool) × (new_wp first.0 ≡ ok (1, p'))
    × IsPool p' (1 ∷ 0 ∷ []) (upto 2 30)
    × ((p'.wp_pool 1).expr ≡ [])
    × ((p'.wp_pool 1).old_val ≡ 0)
second = new_wp-IsPool first.0 1 (0 ∷ []) (upto 2 30) first.2

delete_watchpoint_later_example : delete_watchpoint 0 second.0 ≡ fault assertion
unfolding occurrences
delete_watchpoint_later_example =
    delete_watchpoint_later second.0 0 1 (0 ∷ []) (upto 2 30) second.2 (omega arith)

abbrev no_device : Option (Bus (Unit {0}))
no_device = none

abbrev cleared : Store (Unit {0})
cleared = record { mem = λ r i. 0; io = tt }

abbrev cpu_zero : Cpu
cpu_zero = record { gpr = λ i. 0; pc = 0; mepc = 0; mcause = 0; mstatus = 0; mtvec = 0 }

-- Rules for digits and the operators of one character, each of one character.
abbrev one_char : ℕ → List ℕ → Option ℕ
one_char i [] = none
one_char i (c ∷ cs) =
    if i == 8
    then if leb b'0' c && leb c b'9' then some 1 else none
    else if i == 1
    then if c == b'+' then some 1 else none
    else if i == 4
    then if c == b'/' then some 1 else none
    else none

one_char-positive : (i len : ℕ) (text : List ℕ) → one_char i text ≡ some len → 0 < len
one_char-positive i len [] h = cc
one_char-positive i len (c ∷ cs) h = ground arith

-- `/` groups to the right: the value is 8 / (4 / 2).
quotient_runs : expr no_device cpu_zero one_char (codes "8/4/2") cleared ≡ ok (4, true, cleared)
unfolding expr make_token check_parentheses mark_unary find_main_operator
quotient_runs = refl

reads : (a : ℕ) (st : Store (Unit {0})) → Ends (vaddr_read no_device a 4 st)
unfolding vaddr_read paddr_read pmem_read guest_to_host host_read
reads a st = Ends-intro (vaddr_read no_device a 4 st) (λ e. ground arith)

expr-Ends_example : Ends (expr no_device cpu_zero one_char (codes "1+2") cleared)
expr-Ends_example =
    expr-Ends one_char one_char-positive no_device cpu_zero (codes "1+2") cleared reads

-- Every text has the value 5.
abbrev always_five : List ℕ → ℕ → Result (ℕ × Bool × ℕ)
always_five text s = ok (5, true, s)

add_watchpoint-IsPool_example :
    (p' : Pool) × (add_watchpoint always_five (codes "1+4") second.0 9 ≡ ok (true, p', 9))
    × (true ≡ true
        → IsPool p' (2 ∷ 1 ∷ 0 ∷ []) (upto 3 29)
          × ((p'.wp_pool 2).expr ≡ take 127 (codes "1+4"))
          × ((p'.wp_pool 2).old_val ≡ 5))
    × (true ≡ false → IsPool p' (1 ∷ 0 ∷ []) (2 ∷ upto 3 29))
add_watchpoint-IsPool_example =
    add_watchpoint-IsPool always_five second.0 (codes "1+4") 2 5 true 9 9 (1 ∷ 0 ∷ []) (upto 3 29)
      second.2 refl

sum_runs : expr no_device cpu_zero one_char (codes "1+4") cleared ≡ ok (5, true, cleared)
unfolding expr make_token check_parentheses mark_unary find_main_operator
sum_runs = refl

watched :
    (p' : Pool) × (add_watchpoint
        (expr no_device cpu_zero one_char)
        (codes "1+4")
        (init_wp_pool blank)
        cleared
      ≡ ok (true, p', cleared))
    × (true ≡ true
        → IsPool p' (0 ∷ []) (upto 1 31)
          × ((p'.wp_pool 0).expr ≡ take 127 (codes "1+4"))
          × ((p'.wp_pool 0).old_val ≡ 5))
    × (true ≡ false → IsPool p' [] (0 ∷ upto 1 31))
watched =
    add_watchpoint-IsPool (expr no_device cpu_zero one_char) (init_wp_pool blank) (codes "1+4") 0 5
      true cleared cleared [] (upto 1 31) (init_wp_pool-IsPool blank) sum_runs

watched_reads :
    expr no_device cpu_zero one_char (watched.0.wp_pool 0).expr cleared ≡ ok (5, true, cleared)
watched_reads = rw (watched.2 refl).1 sum_runs

check_watchpoints-Refreshed_example :
    (pool' : ℕ → Wp) × (check_watchpoints (expr no_device cpu_zero one_char) watched.0 cleared
      ≡ ok (
        any_changed (λ text. 5) watched.0.wp_pool (0 ∷ []),
        record (watched.0) { wp_pool = pool' },
        cleared,
      ))
    × Refreshed (λ text. 5) (0 ∷ []) watched.0.wp_pool pool'
check_watchpoints-Refreshed_example =
    check_watchpoints-Refreshed (λ text. 5) (expr no_device cpu_zero one_char) cleared
      (λ text. true) watched.0 (0 ∷ []) (upto 1 31) (watched.2 refl).0 (watched_reads, tt)

-- (8)/((4)-(2))
abbrev quotient : Exp
quotient = bin op_div (num (codes "8")) (bin op_sub (num (codes "4")) (num (codes "2")))

quotient_value : value_of quotient ≡ ok 4
unfolding value_of atoi apply_operator
quotient_value = refl

eval-value_of_example :
    eval no_device cpu_zero 14 (tokens_of quotient) 0 (length (tokens_of quotient)) true cleared
    ≡ (do v ← value_of quotient; ok (v, true, cleared))
unfolding tokens_of
eval-value_of_example = eval-value_of no_device cpu_zero quotient 14 cleared (omega arith)
