-- ===== src/Monitor/Watchpoint.antt =====
-- The pool of watchpoints: nemu/src/monitor/sdb/watchpoint.c. A `WP *` is an index into `wp_pool`,
-- NULL is `none`, a string is its bytes before the NUL.
pub mod Lists
pub mod Delete
pub mod Add
pub mod Links
pub mod Check
use ysyxworkbench.Prelude.{
  ℕ, zero, suc, ◌+◌, ◌-◌, Bool, true, false, not, ◌||◌, Option, none, some, Result, ok, fault,
  assertion, no_fuel, assert, ◌>>=◌, ◌>>◌, List, [], ◌∷◌, ◌==◌, if◌then◌else◌, take,
}

abbrev pub nr_wp : ℕ
nr_wp = 32

-- `WP`
pub record Wp : Type 0 where
  pub number : ℕ
  pub next : Option ℕ
  pub expr : List ℕ
  pub old_val : ℕ

-- `wp_pool`, `head` and `free_`
pub record Pool : Type 0 where
  pub wp_pool : ℕ → Wp
  pub head : Option ℕ
  pub free : Option ℕ

abbrev pub put_wp : (ℕ → Wp) → ℕ → Wp → ℕ → Wp
put_wp pool i wp j = if i == j then wp else pool j

abbrev pub same : Option ℕ → ℕ → Bool
same none j = false
same (some i) j = i == j

unfoldable pub init_wp_pool : (ℕ → Wp) → Pool
init_wp_pool pool = record {
  wp_pool =
      λ i. record (pool i) { number = i; next = if i == nr_wp - 1 then none else some (i + 1) };
  head = none;
  free = some 0;
}

unfoldable pub new_wp : Pool → Result (ℕ × Pool)
new_wp p = elim p.free [
  | none ↦ fault assertion
  | some i ↦
      (let wp = p.wp_pool i in
        ok (
          i,
          record {
            wp_pool = put_wp p.wp_pool i (record wp { next = p.head; expr = []; old_val = 0 });
            head = some i;
            free = wp.next;
          },
        ))
]

-- `while (prev->next != NULL && prev->next != wp) prev = prev->next;`
unfoldable pub find_prev : ℕ → (ℕ → Wp) → ℕ → ℕ → Result ℕ
find_prev zero pool wp prev = fault no_fuel
find_prev (suc k) pool wp prev = elim (pool prev).next [
  | none ↦ ok prev
  | some i ↦ (let rest = find_prev k pool wp i in if i == wp then ok prev else rest)
]

-- The `else` branch of `free_wp`, then the last two lines.
unfoldable pub unlink : Pool → ℕ → ℕ → Result (ℕ → Wp)
unfolding find_prev
unlink p wp first = do
  prev ← find_prev nr_wp p.wp_pool wp first
  let after = (p.wp_pool prev).next
  assert (not (same after wp))
  let linked = put_wp p.wp_pool prev (record (p.wp_pool prev) { next = (p.wp_pool wp).next })
  ok (if same after wp then linked else p.wp_pool)

abbrev pub give_back : (ℕ → Wp) → Option ℕ → Option ℕ → ℕ → Pool
give_back pool head free wp = record {
  wp_pool = put_wp pool wp (record (pool wp) { next = free });
  head = head;
  free = some wp;
}

unfoldable pub free_wp : Pool → Option ℕ → Result Pool
unfolding unlink
free_wp p none = ok p
free_wp p (some wp) = elim p.head [
  | none ↦ ok p
  | some first ↦
      if first == wp
      then ok (give_back p.wp_pool (p.wp_pool first).next p.free wp)
      else (do pool ← unlink p wp first; ok (give_back pool p.head p.free wp))
]

-- The loop of `delete_watchpoint` from `wp` on.
unfoldable pub delete_from : ℕ → Pool → ℕ → Option ℕ → Result Pool
unfolding free_wp
delete_from zero p n wp = fault no_fuel
delete_from (suc k) p n none = ok p
delete_from (suc k) p n (some i) =
    let rest = delete_from k p n (p.wp_pool i).next in
    if (p.wp_pool i).number == n then free_wp p (some i) else rest

-- `nr_wp + 1` rounds pass over a list of `nr_wp` watchpoints and its end.
unfoldable pub delete_watchpoint : ℕ → Pool → Result Pool
unfolding delete_from
delete_watchpoint n p = delete_from (nr_wp + 1) p n p.head

-- `expr` gives the value and the flag `success`, and may change the state of the machine.
module _ {S : Type 0} (expr : List ℕ → S → Result (ℕ × Bool × S)) where
  unfoldable pub add_watchpoint : List ℕ → Pool → S → Result (Bool × Pool × S)
  unfolding new_wp free_wp
  add_watchpoint expr_str p s = do
    (i, p') ← new_wp p
    (val, success, s') ← expr expr_str s
    let wp = p'.wp_pool i
    let filled : Wp = record wp { expr = take 127 expr_str; old_val = val }
    let p'' : Pool = record p' { wp_pool = put_wp p'.wp_pool i filled }
    if success then ok (true, p'', s') else (do freed ← free_wp p'' (some i); ok (false, freed, s'))

  -- The loop of `check_watchpoints` from `wp` on.
  unfoldable pub check_from : ℕ → Option ℕ → Bool → Pool → S → Result (Bool × Pool × S)
  check_from zero wp triggered p s = fault no_fuel
  check_from (suc k) none triggered p s = ok (triggered, p, s)
  check_from (suc k) (some i) triggered p s = do
    let wp = p.wp_pool i
    (new_val, success, s') ← expr wp.expr s
    let updated : Pool = record p { wp_pool = put_wp p.wp_pool i (record wp { old_val = new_val }) }
    let same_val = new_val == wp.old_val
    check_from k wp.next (triggered || not same_val) (if same_val then p else updated) s'

  unfoldable pub check_watchpoints : Pool → S → Result (Bool × Pool × S)
  unfolding check_from
  check_watchpoints p s = check_from (nr_wp + 1) p.head false p s
