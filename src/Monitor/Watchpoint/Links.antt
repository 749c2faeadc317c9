-- ===== src/Monitor/Watchpoint/Links.antt =====
-- Changes of the pool that keep its lists.
use ysyxworkbench.Prelude.{
  ℕ, ◌≡◌, refl, ◌∙◌, Option, List, [], ◌∷◌, ◌==◌, arith, Bool-cases, inl, inr,
}
use ysyxworkbench.Monitor.Watchpoint.{Wp, Pool, put_wp}
use ysyxworkbench.Monitor.Watchpoint.Lists.{IsChain, IsPool}

-- Two pools that differ in values and expressions at most.
abbrev pub SameLinks : (ℕ → Wp) → (ℕ → Wp) → Type 0
SameLinks pool pool' =
    (x : ℕ) → ((pool' x).next ≡ (pool x).next) × ((pool' x).number ≡ (pool x).number)

pub IsChain-SameLinks :
    (pool pool' : ℕ → Wp) (start : Option ℕ) (xs : List ℕ)
    → SameLinks pool pool'
    → IsChain pool start xs
    → IsChain pool' start xs
IsChain-SameLinks pool pool' start [] same h = h
IsChain-SameLinks pool pool' start (x ∷ xs) same (here, rest) =
    (here, rw ((same x).0) (IsChain-SameLinks pool pool' (pool x).next xs same rest))

pub IsPool-SameLinks :
    (p : Pool) (pool' : ℕ → Wp) (used free : List ℕ)
    → SameLinks p.wp_pool pool'
    → IsPool p used free
    → IsPool (record p { wp_pool = pool' }) used free
IsPool-SameLinks p pool' used free same h = record {
  used_chain = IsChain-SameLinks p.wp_pool pool' p.head used same h.used_chain;
  free_chain = IsChain-SameLinks p.wp_pool pool' p.free free same h.free_chain;
  numbers = λ w small. (same w).1 ∙ h.numbers w small;
  partition = h.partition;
}

pub put_wp-SameLinks :
    (pool : ℕ → Wp) (w : ℕ) (v : Wp)
    → v.next ≡ (pool w).next
    → v.number ≡ (pool w).number
    → SameLinks pool (put_wp pool w v)
put_wp-SameLinks pool w v next number x = elim (Bool-cases (w == x)) [
  | inl here ↦ ground (arith, here, next, number)
  | inr there ↦ rw there (refl, refl)
]
