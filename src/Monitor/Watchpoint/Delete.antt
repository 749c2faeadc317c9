-- ===== src/Monitor/Watchpoint/Delete.antt =====
-- What `delete_watchpoint` and `add_watchpoint` do to the two lists.
use ysyxworkbench.Prelude.{
  ℕ, zero, suc, ◌+◌, ◌<◌, ◌≤◌, ◌≡◌, ◌≢◌, refl, ap, ◌∙◌, false, Option, some, ok, fault, assertion,
  List, [], ◌∷◌, ◌==◌, ltb, arith, Bool-cases, inl, inr, to_int, length,
}
use ysyxworkbench.Monitor.Watchpoint.{
  nr_wp, Wp, Pool, find_prev, unlink, free_wp, delete_from, delete_watchpoint,
}
use ysyxworkbench.Monitor.Watchpoint.Lists.{IsChain, IsPool, occurrences, free_wp_head, same_self}

-- The members of a list below `n`, counted by their values.
total : ℕ → List ℕ → ℕ
unfolding occurrences
total zero xs = 0
total (suc n) xs = occurrences n xs + total n xs

total_cons : (n x : ℕ) (xs : List ℕ) → total n (x ∷ xs) ≡ to_int (ltb x n) + total n xs
unfolding total occurrences
total_cons zero x xs = ground arith
total_cons (suc n) x xs = ground (arith, total_cons n x xs)

total_nil : (n : ℕ) → total n [] ≡ 0
unfolding total occurrences
total_nil zero = refl
total_nil (suc n) = ground (arith, total_nil n)

abbrev pub IsSmall : List ℕ → Type 0
IsSmall xs = (w : ℕ) → occurrences w xs ≤ to_int (ltb w nr_wp)

abbrev OnlySmall : List ℕ → Type 0
OnlySmall xs = (w : ℕ) → ltb w nr_wp ≡ false → occurrences w xs ≡ 0

total-length : (xs : List ℕ) → OnlySmall xs → total nr_wp xs ≡ length xs
unfolding occurrences
total-length [] h = total_nil nr_wp
total-length (x ∷ xs) h =
    ground (arith, total_cons nr_wp x xs, total-length xs (λ w e. ground (arith, h w e)), h x)

total_bound : (n : ℕ) (xs : List ℕ) → ((w : ℕ) → occurrences w xs ≤ 1) → total n xs ≤ n
unfolding total
total_bound zero xs h = omega arith
total_bound (suc n) xs h = omega (arith, h n, total_bound n xs h)

pub IsSmall-length : (xs : List ℕ) → IsSmall xs → length xs ≤ nr_wp
IsSmall-length xs h =
    let whole = total-length xs (λ w e. ground (arith, h w)) in
    let bound = total_bound nr_wp xs (λ w. ground (arith, h w)) in ground (arith, whole, bound)

find_prev-next :
    (k : ℕ) (pool : ℕ → Wp) (w prev : ℕ) (xs : List ℕ)
    → IsChain pool (pool prev).next xs
    → length xs < k
    → occurrences w xs ≢ 0
    → (i : ℕ) × (find_prev k pool w prev ≡ ok i) × ((pool i).next ≡ some w)
unfolding find_prev occurrences
find_prev-next zero pool w prev xs chain small h = ground arith
find_prev-next (suc k) pool w prev [] chain small h = ground arith
find_prev-next (suc k) pool w prev (x ∷ xs) (here, rest) small h = elim (Bool-cases (x == w)) [
  | inl found ↦ (prev, rw (find_prev, here) (rw found refl), here ∙ ground arith)
  | inr other ↦
      (let (i, runs, points) = find_prev-next k pool w x xs rest (omega arith) (ground arith) in
        (i, rw (find_prev, here) (rw other runs), points))
]

pub used-IsSmall : (p : Pool) (used free : List ℕ) → IsPool p used free → IsSmall used
used-IsSmall p used free h w = ground (arith, h.partition w)

-- Freeing a watchpoint that is in use, but is not the one used last, fails the assertion
-- `prev->next != wp`.
pub free_wp_later :
    (p : Pool) (w x : ℕ) (used free : List ℕ)
    → IsPool p (x ∷ used) free
    → occurrences w used ≢ 0
    → free_wp p (some w) ≡ fault assertion
unfolding free_wp unlink occurrences
free_wp_later p w x used free h member =
    let (first, rest) = h.used_chain in
    let room = IsSmall-length (x ∷ used) (used-IsSmall p (x ∷ used) free h) in
    let (i, runs, points) =
      find_prev-next nr_wp p.wp_pool w x used rest (omega (arith, room)) member in
    rw first (rw (not_first (h.partition w)) (rw runs (rw points (rw (same_self w) refl))))
  where
    not_first :
        occurrences w (x ∷ used) + occurrences w free ≡ to_int (ltb w nr_wp) → (x == w) ≡ false
    not_first e = ground (arith, e, member)

-- The loop of `delete_watchpoint` passes over the numbers that it does not look for.
delete_from_absent :
    (k : ℕ) (p : Pool) (n : ℕ) (start : Option ℕ) (xs : List ℕ)
    → IsChain p.wp_pool start xs
    → ((w : ℕ) → w < nr_wp → (p.wp_pool w).number ≡ w)
    → IsSmall xs
    → length xs < k
    → occurrences n xs ≡ 0
    → delete_from k p n start ≡ ok p
unfolding delete_from occurrences
delete_from_absent zero p n start xs chain numbers small room h = ground arith
delete_from_absent (suc k) p n start [] chain numbers small room h = rw chain refl
delete_from_absent (suc k) p n start (x ∷ xs) (here, rest) numbers small room h =
    let number = numbers x (ground (arith, small x)) in
    let other : (x == n) ≡ false = ground arith in
    rw here (
      rw number (
        rw other (
          delete_from_absent k p n (p.wp_pool x).next xs rest numbers (λ w. omega (arith, small w))
            (omega arith) (ground arith))))

delete_from_present :
    (k : ℕ) (p : Pool) (n : ℕ) (start : Option ℕ) (xs : List ℕ)
    → IsChain p.wp_pool start xs
    → ((w : ℕ) → w < nr_wp → (p.wp_pool w).number ≡ w)
    → IsSmall xs
    → length xs < k
    → occurrences n xs ≢ 0
    → delete_from k p n start ≡ free_wp p (some n)
unfolding delete_from occurrences
delete_from_present zero p n start xs chain numbers small room h = ground arith
delete_from_present (suc k) p n start [] chain numbers small room h = ground arith
delete_from_present (suc k) p n start (x ∷ xs) (here, rest) numbers small room h =
    let number = numbers x (ground (arith, small x)) in
    elim (Bool-cases (x == n)) [
      | inl found ↦
          rw here (rw number (rw found (ap (λ (i : ℕ). free_wp p (some i)) (ground arith))))
      | inr other ↦ rw here (
          rw number (
            rw other (
              delete_from_present k p n (p.wp_pool x).next xs rest numbers
                (λ w. omega (arith, small w)) (omega arith) (ground arith))))
    ]

-- Deleting the number of a watchpoint that is not in use changes nothing.
delete_watchpoint_absent :
    (p : Pool) (n : ℕ) (used free : List ℕ)
    → IsPool p used free
    → occurrences n used ≡ 0
    → delete_watchpoint n p ≡ ok p
unfolding delete_watchpoint
delete_watchpoint_absent p n used free h absent =
    let small = used-IsSmall p used free h in
    delete_from_absent (nr_wp + 1) p n p.head used h.used_chain h.numbers small
      (omega (arith, IsSmall-length used small)) absent

-- Deleting the watchpoint used last puts it in front of the free list, and the pool stays
-- partitioned into the two lists.
pub delete_watchpoint_head :
    (p : Pool) (n : ℕ) (used free : List ℕ)
    → IsPool p (n ∷ used) free
    → (p' : Pool) × (delete_watchpoint n p ≡ ok p') × IsPool p' used (n ∷ free)
unfolding delete_watchpoint occurrences
delete_watchpoint_head p n used free h =
    let small = used-IsSmall p (n ∷ used) free h in
    let (p', frees, h') = free_wp_head p n used free h in
    (
      p',
      delete_from_present (nr_wp + 1) p n p.head (n ∷ used) h.used_chain h.numbers small
            (omega (arith, IsSmall-length (n ∷ used) small)) (ground (arith, same_self n))
          ∙ frees,
      h',
    )

-- Deleting a watchpoint that is in use, but is not the one used last, stops at the assertion
-- `prev->next != wp`.
pub delete_watchpoint_later :
    (p : Pool) (n x : ℕ) (used free : List ℕ)
    → IsPool p (x ∷ used) free
    → occurrences n used ≢ 0
    → delete_watchpoint n p ≡ fault assertion
unfolding delete_watchpoint occurrences
delete_watchpoint_later p n x used free h member =
    let small = used-IsSmall p (x ∷ used) free h in
    delete_from_present (nr_wp + 1) p n p.head (x ∷ used) h.used_chain h.numbers small
      (omega (arith, IsSmall-length (x ∷ used) small)) (ground (arith, member))
    ∙ free_wp_later p n x used free h member
