-- ===== src/Monitor/Watchpoint/Check.antt =====
-- What `add_watchpoint` and `check_watchpoints` do, given what `expr` returns.
use ysyxworkbench.Prelude.{
  ℕ, zero, suc, ◌+◌, ◌<◌, ◌≤◌, ◌≡◌, refl, ap, sym, ◌∙◌, Bool, true, false, ◌||◌, not, Option, some,
  Result, ok, List, [], ◌∷◌, ◌==◌, if◌then◌else◌, arith, Bool-cases, inl, inr, ==_iff, to_int,
  length,
}
use ysyxworkbench.Monitor.Watchpoint.{nr_wp, Wp, Pool, put_wp, check_from, check_watchpoints}
use ysyxworkbench.Monitor.Watchpoint.Lists.{IsChain, IsPool, occurrences}
use ysyxworkbench.Monitor.Watchpoint.Delete.{IsSmall-length, used-IsSmall}
use ysyxworkbench.Monitor.Watchpoint.Links.{SameLinks, IsChain-SameLinks}

-- What `check_watchpoints` finds and leaves, with `f` for the value of `expr`.
module _ (f : List ℕ → ℕ) where
  unfoldable pub any_changed : (ℕ → Wp) → List ℕ → Bool
  any_changed pool [] = false
  any_changed pool (x ∷ xs) = not (f (pool x).expr == (pool x).old_val) || any_changed pool xs

  -- The watchpoints of the list have the new values, and nothing else has changed.
  abbrev pub Refreshed : List ℕ → (ℕ → Wp) → (ℕ → Wp) → Type 0
  Refreshed xs pool pool' =
      (w : ℕ)
      → pool' w
        ≡ (if occurrences w xs == 0 then pool w else record (pool w) { old_val = f (pool w).expr })

  -- One watchpoint has its new value.
  abbrev Stepped : ℕ → (ℕ → Wp) → (ℕ → Wp) → Type 0
  Stepped x pool pool' =
      (w : ℕ) → pool' w ≡ (if x == w then record (pool w) { old_val = f (pool w).expr } else pool w)

  at_index : (pool : ℕ → Wp) (x w : ℕ) → (x == w) ≡ true → pool x ≡ pool w
  at_index pool x w h = ap pool ((==_iff x w).0 h)

  unchanged-Stepped :
      (pool : ℕ → Wp) (x : ℕ) → (f (pool x).expr == (pool x).old_val) ≡ true → Stepped x pool pool
  unchanged-Stepped pool x h w = elim (Bool-cases (x == w)) [
    | inl here ↦
        let same : (pool w).old_val ≡ f (pool w).expr =
          sym ((==_iff _ _).0 (rw (at_index pool x w here) at h)) in
        rw here (ap (λ (v : ℕ). record (pool w) { old_val = v }) same)
    | inr there ↦ rw there refl
  ]

  changed-Stepped :
      (pool : ℕ → Wp) (x : ℕ)
      → Stepped x pool (put_wp pool x (record (pool x) { old_val = f (pool x).expr }))
  changed-Stepped pool x w = elim (Bool-cases (x == w)) [
    | inl here ↦ rw here (ap (λ (v : Wp). record v { old_val = f v.expr }) (at_index pool x w here))
    | inr there ↦ rw there refl
  ]

  Stepped-SameLinks : (x : ℕ) (pool pool' : ℕ → Wp) → Stepped x pool pool' → SameLinks pool pool'
  Stepped-SameLinks x pool pool' h w = elim (Bool-cases (x == w)) [
    | inl here ↦ rw (h w) (rw here (refl, refl))
    | inr there ↦ rw (h w) (rw there (refl, refl))
  ]

  any_changed-Stepped :
      (x : ℕ) (pool pool' : ℕ → Wp) (xs : List ℕ)
      → Stepped x pool pool'
      → occurrences x xs ≡ 0
      → any_changed pool' xs ≡ any_changed pool xs
  unfolding any_changed occurrences
  any_changed-Stepped x pool pool' [] h out = refl
  any_changed-Stepped x pool pool' (y ∷ ys) h out =
      let other : (x == y) ≡ false = ground arith in
      let same : pool' y ≡ pool y = h y ∙ rw other refl in
      rw (same, any_changed-Stepped x pool pool' ys h (ground arith)) refl

  Refreshed-cons :
      (x : ℕ) (xs : List ℕ) (pool pool1 pool' : ℕ → Wp)
      → Stepped x pool pool1
      → occurrences x xs ≡ 0
      → Refreshed xs pool1 pool'
      → Refreshed (x ∷ xs) pool pool'
  unfolding occurrences
  Refreshed-cons x xs pool pool1 pool' first out rest w = elim (Bool-cases (x == w)) [
    | inl here ↦
        let gone : (occurrences w xs == 0) ≡ true =
          ground (arith, ap (λ (i : ℕ). occurrences i xs) ((==_iff x w).0 here)) in
        rest w
        ∙ rw gone (first w ∙ rw here (picked w (to_int true + occurrences w xs) (omega arith)))
    | inr there ↦
        let same : pool1 w ≡ pool w = first w ∙ rw there refl in
        rest w ∙ rw (same, there) (sum_zero (occurrences w xs) (pool w))
  ]
    where
      picked :
          (w n : ℕ)
          → 0 < n
          → record (pool w) { old_val = f (pool w).expr }
            ≡ (if n == 0 then pool w else record (pool w) { old_val = f (pool w).expr })
      picked w n pos = let more : (n == 0) ≡ false = ground arith in rw more refl

      sum_zero :
          (n : ℕ) (v : Wp)
          → (if n == 0 then v else record v { old_val = f v.expr })
            ≡ (if to_int false + n == 0 then v else record v { old_val = f v.expr })
      sum_zero n v =
          ap (λ (i : ℕ). if i == 0 then v else record v { old_val = f v.expr }) (omega arith)

  Stepped-expr :
      (x : ℕ) (pool pool' : ℕ → Wp)
      → Stepped x pool pool'
      → (w : ℕ) → (pool' w).expr ≡ (pool w).expr
  Stepped-expr x pool pool' h w = elim (Bool-cases (x == w)) [
    | inl here ↦ rw (h w) (rw here refl)
    | inr there ↦ rw (h w) (rw there refl)
  ]

  module _ {S : Type 0} (expr : List ℕ → S → Result (ℕ × Bool × S)) (s : S)
      (flag : List ℕ → Bool) where
    -- `expr` returns on a text, and changes no state.
    abbrev pub IsRead : List ℕ → Type 0
    IsRead text = expr text s ≡ ok (f text, flag text, s)

    -- It does so on the text of each watchpoint of a list.
    abbrev pub AllRead : (ℕ → Wp) → List ℕ → Type 0
    AllRead pool [] = Unit {0}
    AllRead pool (x ∷ xs) = IsRead (pool x).expr × AllRead pool xs

    AllRead-Stepped :
        (x : ℕ) (pool pool' : ℕ → Wp) (xs : List ℕ)
        → Stepped x pool pool'
        → AllRead pool xs
        → AllRead pool' xs
    AllRead-Stepped x pool pool' [] h reads = tt
    AllRead-Stepped x pool pool' (y ∷ ys) h (read, reads) =
        (rw (Stepped-expr x pool pool' h y) read, AllRead-Stepped x pool pool' ys h reads)

    or_false : (b : Bool) → b ≡ (b || false)
    or_false true = refl
    or_false false = refl

    or_assoc : (a b c : Bool) → ((a || b) || c) ≡ (a || (b || c))
    or_assoc true b c = refl
    or_assoc false b c = refl

    -- A round that sets the pool to `pool1`.
    round :
        (k x : ℕ) (start : Option ℕ) (t : Bool) (p : Pool) (pool1 : ℕ → Wp)
        → start ≡ some x
        → IsRead (p.wp_pool x).expr
        → (if f (p.wp_pool x).expr == (p.wp_pool x).old_val then p else record p {
          wp_pool = put_wp p.wp_pool x (record (p.wp_pool x) { old_val = f (p.wp_pool x).expr });
        })
          ≡ record p { wp_pool = pool1 }
        → check_from expr (suc k) start t p s
          ≡ check_from expr k
              (p.wp_pool x).next
              (t || not (f (p.wp_pool x).expr == (p.wp_pool x).old_val))
              (record p { wp_pool = pool1 })
              s
    unfolding check_from
    round k x start t p pool1 here read made = rw (check_from, here) (rw read (rw made refl))

    round_pool :
        (x : ℕ) (p : Pool)
        → (pool1 : ℕ → Wp) × ((if f (p.wp_pool x).expr == (p.wp_pool x).old_val
              then p
              else record p {
                wp_pool =
                    put_wp p.wp_pool x (record (p.wp_pool x) { old_val = f (p.wp_pool x).expr });
              })
            ≡ record p { wp_pool = pool1 })
          × Stepped x p.wp_pool pool1
    round_pool x p = elim (Bool-cases (f (p.wp_pool x).expr == (p.wp_pool x).old_val)) [
      | inl same ↦ (p.wp_pool, rw same refl, unchanged-Stepped p.wp_pool x same)
      | inr other ↦ (
        put_wp p.wp_pool x (record (p.wp_pool x) { old_val = f (p.wp_pool x).expr }),
        rw other refl,
        changed-Stepped p.wp_pool x,
      )
    ]

    check_from-Refreshed :
        (k : ℕ) (start : Option ℕ) (xs : List ℕ) (t : Bool) (p : Pool)
        → IsChain p.wp_pool start xs
        → AllRead p.wp_pool xs
        → ((w : ℕ) → occurrences w xs ≤ 1)
        → length xs < k
        → (pool' : ℕ → Wp) × (check_from expr k start t p s
            ≡ ok (t || any_changed p.wp_pool xs, record p { wp_pool = pool' }, s))
          × Refreshed xs p.wp_pool pool'
    unfolding check_from any_changed occurrences
    check_from-Refreshed zero start xs t p chain reads small room = ground arith
    check_from-Refreshed (suc k) start [] t p chain reads small room = (
      p.wp_pool,
      rw (check_from, chain) (ap (λ (b : Bool). ok (b, p, s)) (or_false t)),
      λ w. refl,
    )
    check_from-Refreshed (suc k) start (x ∷ xs) t p (here, rest) (read, reads) small room =
        let (out, _) = alone (occurrences x xs) (small x) in
        let (pool1, made, first) = round_pool x p in
        let changed = f (p.wp_pool x).expr == (p.wp_pool x).old_val in
        let (pool', runs, refreshed) =
          check_from-Refreshed k (p.wp_pool x).next xs (t || not changed)
            (record p { wp_pool = pool1 })
            (IsChain-SameLinks p.wp_pool pool1 (p.wp_pool x).next xs
              (Stepped-SameLinks x p.wp_pool pool1 first) rest)
            (AllRead-Stepped x p.wp_pool pool1 xs first reads) (λ w. omega (arith, small w))
            (omega arith) in
        (
          pool',
          round k x start t p pool1 here read made
              ∙ runs
              ∙ ap (λ (b : Bool). ok (b, record p { wp_pool = pool' }, s))
                  (ap (λ (b : Bool). (t || not changed) || b)
                      (any_changed-Stepped x p.wp_pool pool1 xs first out)
                    ∙ or_assoc t (not changed) (any_changed p.wp_pool xs)),
          Refreshed-cons x xs p.wp_pool pool1 pool' first out refreshed,
        )
      where
        alone : (n : ℕ) → to_int (x == x) + n ≤ 1 → (n ≡ 0) × (n ≡ 0)
        alone n h = (ground arith, ground arith)

    -- When `expr` returns on the text of every watchpoint in use and changes no state,
    -- `check_watchpoints` reports whether some watchpoint in use has another value than before, gives
    -- those in use their new values, and changes nothing else.
    pub check_watchpoints-Refreshed :
        (p : Pool) (used free : List ℕ)
        → IsPool p used free
        → AllRead p.wp_pool used
        → (pool' : ℕ → Wp) × (check_watchpoints expr p s
            ≡ ok (any_changed p.wp_pool used, record p { wp_pool = pool' }, s))
          × Refreshed used p.wp_pool pool'
    unfolding check_watchpoints
    check_watchpoints-Refreshed p used free h reads =
        let small = used-IsSmall p used free h in
        check_from-Refreshed (nr_wp + 1) p.head used false p h.used_chain reads
          (λ w. ground (arith, small w)) (omega (arith, IsSmall-length used small))
