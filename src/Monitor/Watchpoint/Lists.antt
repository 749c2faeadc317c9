-- ===== src/Monitor/Watchpoint/Lists.antt =====
-- The two linked lists of the pool: which watchpoints are in use and which are free.
use ysyxworkbench.Prelude.{
  ℕ, zero, suc, ◌+◌, ◌<◌, ◌≡◌, refl, true, false, Option, none, some, ok, fault, assertion, List,
  [], ◌∷◌, ◌==◌, ltb, if◌then◌else◌, arith, Bool-cases, inl, inr, to_int,
}
use ysyxworkbench.Monitor.Watchpoint.{
  nr_wp, Wp, Pool, put_wp, init_wp_pool, new_wp, give_back, free_wp,
}

-- From `start`, the `next` pointers run through the watchpoints `xs`.
abbrev pub IsChain : (ℕ → Wp) → Option ℕ → List ℕ → Type 0
IsChain pool start [] = start ≡ none
IsChain pool start (x ∷ xs) = (start ≡ some x) × IsChain pool (pool x).next xs

unfoldable pub occurrences : ℕ → List ℕ → ℕ
occurrences w [] = 0
occurrences w (x ∷ xs) = to_int (x == w) + occurrences w xs

-- `used` and `free` are the two lists, and each of the `nr_wp` watchpoints is on one of them, once.
pub record IsPool (p : Pool) (used free : List ℕ) : Type 0 where
  pub used_chain : IsChain p.wp_pool p.head used
  pub free_chain : IsChain p.wp_pool p.free free
  pub numbers : (w : ℕ) → w < nr_wp → (p.wp_pool w).number ≡ w
  pub partition : (w : ℕ) → occurrences w used + occurrences w free ≡ to_int (ltb w nr_wp)

put_wp_other :
    (pool : ℕ → Wp) (w : ℕ) (v : Wp) (x : ℕ) → (w == x) ≡ false → put_wp pool w v x ≡ pool x
put_wp_other pool w v x h = rw h refl

pub put_wp_same : (pool : ℕ → Wp) (w : ℕ) (v : Wp) → put_wp pool w v w ≡ v
put_wp_same pool w v = ground arith

pub IsChain-put_wp :
    (pool : ℕ → Wp) (w : ℕ) (v : Wp) (start : Option ℕ) (xs : List ℕ)
    → occurrences w xs ≡ 0
    → IsChain pool start xs
    → IsChain (put_wp pool w v) start xs
unfolding occurrences
IsChain-put_wp pool w v start [] free h = h
IsChain-put_wp pool w v start (x ∷ xs) free (here, rest) =
    let other : (w == x) ≡ false = ground arith in
    (here, rw other (IsChain-put_wp pool w v (pool x).next xs (ground arith) rest))

abbrev pub upto : ℕ → ℕ → List ℕ
upto i zero = []
upto i (suc k) = i ∷ upto (suc i) k

upto-IsChain :
    (pool : ℕ → Wp) (i k : ℕ)
    → i + suc k ≡ nr_wp
    → IsChain (init_wp_pool pool).wp_pool (some i) (upto i (suc k))
unfolding init_wp_pool
upto-IsChain pool i zero h = (refl, ground arith)
upto-IsChain pool i (suc k) h =
    let more : (i == 31) ≡ false = ground arith in
    (refl, rw more (rw (one_more i) (upto-IsChain pool (suc i) k (omega arith))))
  where
    one_more : (i : ℕ) → i + 1 ≡ suc i
    one_more i = omega arith

occurrences-upto :
    (w i k : ℕ)
    → i + k ≡ nr_wp
    → occurrences w (upto i k) ≡ (if ltb w i then 0 else to_int (ltb w nr_wp))
unfolding occurrences
occurrences-upto w i zero h = ground arith
occurrences-upto w i (suc k) h = ground (arith, occurrences-upto w (suc i) k (omega arith))

-- `init_wp_pool` leaves no watchpoint in use and all of them free, in order.
pub init_wp_pool-IsPool : (pool : ℕ → Wp) → IsPool (init_wp_pool pool) [] (upto 0 nr_wp)
unfolding init_wp_pool occurrences
init_wp_pool-IsPool pool = record {
  used_chain = refl;
  free_chain = upto-IsChain pool 0 31 refl;
  numbers = λ w h. refl;
  partition = λ w. all_free w (occurrences w (upto 0 nr_wp)) (occurrences-upto w 0 nr_wp refl);
}
  where
    all_free :
        (w n : ℕ) → n ≡ (if ltb w 0 then 0 else to_int (ltb w nr_wp)) → 0 + n ≡ to_int (ltb w nr_wp)
    all_free w n h = ground arith

pub same_self : (w : ℕ) → (w == w) ≡ true
same_self w = ground arith

-- A watchpoint of one list is not a second time in the lists.
pub once :
    (w : ℕ) (xs ys : List ℕ)
    → occurrences w xs + occurrences w (w ∷ ys) ≡ to_int (ltb w nr_wp)
    → (occurrences w xs ≡ 0) × (occurrences w ys ≡ 0)
unfolding occurrences
once w xs ys h = (ground arith, ground arith)

pub put_wp-numbers :
    (pool : ℕ → Wp) (w : ℕ) (v : Wp)
    → ((i : ℕ) → i < nr_wp → (pool i).number ≡ i)
    → v.number ≡ (pool w).number
    → (i : ℕ) → i < nr_wp
    → (put_wp pool w v i).number ≡ i
put_wp-numbers pool w v numbers e i h = elim (Bool-cases (w == i)) [
  | inl here ↦ ground (arith, e, numbers i h)
  | inr there ↦ rw there (numbers i h)
]

-- With a free watchpoint, `new_wp` takes the first one of the free list, puts it in front of those
-- in use, clears its value and expression, and the pool stays partitioned into the two lists.
pub new_wp-IsPool :
    (p : Pool) (w : ℕ) (used free : List ℕ)
    → IsPool p used (w ∷ free)
    → (p' : Pool) × (new_wp p ≡ ok (w, p'))
      × IsPool p' (w ∷ used) free
      × ((p'.wp_pool w).expr ≡ [])
      × ((p'.wp_pool w).old_val ≡ 0)
unfolding new_wp occurrences
new_wp-IsPool p w used free h =
    let (first, rest) = h.free_chain in
    let (in_used, in_free) = once w used free (h.partition w) in
    let taken : Wp = record (p.wp_pool w) { next = p.head; expr = []; old_val = 0 } in
    let p' : Pool = record {
      wp_pool = put_wp p.wp_pool w taken;
      head = some w;
      free = (p.wp_pool w).next;
    } in
    let written = put_wp_same p.wp_pool w taken in
    (
      p',
      rw first refl,
      record {
        used_chain =
            (refl, rw written (IsChain-put_wp p.wp_pool w taken p.head used in_used h.used_chain));
        free_chain = IsChain-put_wp p.wp_pool w taken (p.wp_pool w).next free in_free rest;
        numbers = put_wp-numbers p.wp_pool w taken h.numbers refl;
        partition = λ v. ground (arith, h.partition v);
      },
      rw written refl,
      rw written refl,
    )

-- With all watchpoints in use, `new_wp` fails its assertion.
new_wp_exhausted : (p : Pool) (used : List ℕ) → IsPool p used [] → new_wp p ≡ fault assertion
unfolding new_wp
new_wp_exhausted p used h = rw (h.free_chain) refl

-- Freeing the watchpoint used last puts it in front of the free list, and the pool stays
-- partitioned into the two lists.
pub free_wp_head :
    (p : Pool) (w : ℕ) (used free : List ℕ)
    → IsPool p (w ∷ used) free
    → (p' : Pool) × (free_wp p (some w) ≡ ok p') × IsPool p' used (w ∷ free)
unfolding free_wp occurrences
free_wp_head p w used free h =
    let (first, rest) = h.used_chain in
    let (in_used, in_free) = once w free used (ground (arith, h.partition w)) in
    let freed : Wp = record (p.wp_pool w) { next = p.free } in
    let written = put_wp_same p.wp_pool w freed in
    (
      give_back p.wp_pool (p.wp_pool w).next p.free w,
      rw first (rw (same_self w) refl),
      record {
        used_chain = IsChain-put_wp p.wp_pool w freed (p.wp_pool w).next used in_free rest;
        free_chain =
            (refl, rw written (IsChain-put_wp p.wp_pool w freed p.free free in_used h.free_chain));
        numbers = put_wp-numbers p.wp_pool w freed h.numbers refl;
        partition = λ v. ground (arith, h.partition v);
      },
    )
