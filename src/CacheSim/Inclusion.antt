-- ===== src/CacheSim/Inclusion.antt =====
-- A cache with lru and more ways (npc/tools/cachesim/cachesim.cpp) holds all that the smaller one
-- holds.
use ysyxworkbench.Prelude.{
  ℕ, zero, suc, ◌+◌, ◌/◌, ◌%◌, ◌^◌, ◌≤◌, ◌<◌, ◌≡◌, refl, sym, ap, ◌∙◌, Bool, true, false, ok, List,
  [], ◌∷◌, ◌==◌, if◌then◌else◌, length, take, codes, arith, Bool-cases, Option-cases, inl, inr,
}
use ysyxworkbench.CacheSim.{Options, Stats, Sim, cacheable}
use ysyxworkbench.CacheSim.Trace.{parse_pc_from_line, start, replay}
use ysyxworkbench.CacheSim.Queue.{contains, remove, lru_step}
use ysyxworkbench.CacheSim.Ideal.{
  Ideal, put_queue, count_cached, empty_ideal, ideal_access, ideal_replay,
}
use ysyxworkbench.CacheSim.Refine.{replay-lru}

take-take : (m n : ℕ) (q : List ℕ) → m ≤ n → take m (take n q) ≡ take m q
take-take zero n q h = refl
take-take (suc m) zero q h = absurd (omega arith)
take-take (suc m) (suc n) [] h = refl
take-take (suc m) (suc n) (t ∷ q) h = ap (λ (ts : List ℕ). t ∷ ts) (take-take m n q (omega arith))

-- `m` tags after the removal come from the first `m + 1` before it.
take-remove : (m t : ℕ) (q : List ℕ) → take m (remove t (take (suc m) q)) ≡ take m (remove t q)
unfolding remove
take-remove zero t q = refl
take-remove (suc m) t [] = refl
take-remove (suc m) t (u ∷ q) = elim (Bool-cases (u == t)) [
  | inl same ↦ rw (remove, same) (take-take (suc m) (suc m) q (omega arith))
  | inr other ↦ rw (remove, other) (ap (λ (ts : List ℕ). u ∷ ts) (take-remove m t q))
]

contains-take : (m t : ℕ) (q : List ℕ) → contains t (take m q) ≡ true → contains t q ≡ true
unfolding contains
contains-take zero t q h = cc
contains-take (suc m) t [] h = cc
contains-take (suc m) t (u ∷ q) h = ground (arith, contains-take m t q)

remove-take_all :
    (m t : ℕ) (q : List ℕ) → take m (t ∷ remove t (take m q)) ≡ take m (t ∷ remove t q)
remove-take_all zero t q = refl
remove-take_all (suc m) t q = ap (λ (ts : List ℕ). t ∷ ts) (take-remove m t q)

take_none : (n : ℕ) → ◌≡◌ {A = List ℕ} (take n []) []
take_none zero = refl
take_none (suc n) = refl

not_both : false ≡ true → ⊥
not_both h = cc

-- Two sets under lru stay a prefix of one another.
lru_step-take : (m n t : ℕ) (q : List ℕ) → m ≤ n → lru_step m t (take m q) ≡ take m (lru_step n t q)
lru_step-take m n t q h = remove-take_all m t q ∙ sym (take-take m n (t ∷ remove t q) h)

-- The smaller ideal cache beside the larger one.
record Within (m : ℕ) (i j : Ideal) : Type 0 where
  prefix : (k : ℕ) → i.queue k ≡ take m (j.queue k)
  fewer : i.counts.hits ≤ j.counts.hits

module _ {D : Type 0} (opt : Options D) (n : ℕ) (more : opt.ways ≤ n) where
  abbrev larger : Options D
  larger = record opt { ways = n }

  cached-Within :
      (k tag : ℕ) (i j : Ideal)
      → Within opt.ways i j
      → Within opt.ways
          (record {
            queue = put_queue i.queue k (lru_step opt.ways tag (i.queue k));
            counts = count_cached (contains tag (i.queue k)) i.counts;
          })
          (record {
            queue = put_queue j.queue k (lru_step n tag (j.queue k));
            counts = count_cached (contains tag (j.queue k)) j.counts;
          })
  cached-Within k tag i j w = record {
    prefix = λ k'. elim (Bool-cases (k == k')) [
      | inl here ↦ rw here (
          ap (λ (q : List ℕ). lru_step opt.ways tag q) (w.prefix k)
          ∙ lru_step-take opt.ways n tag (j.queue k) more)
      | inr other ↦ rw other (w.prefix k')
    ];
    fewer =
        hits (contains tag (i.queue k)) (contains tag (j.queue k)) i.counts.hits j.counts.hits
          w.fewer
          (λ h.
            contains-take opt.ways tag (j.queue k)
              (ap (λ (q : List ℕ). contains tag q) (sym (w.prefix k)) ∙ h));
  }
    where
      hits :
          (b c : Bool) (x y : ℕ)
          → x ≤ y
          → (b ≡ true → c ≡ true)
          → (if b then x + 1 else x) ≤ (if c then y + 1 else y)
      hits true true x y h f = omega arith
      hits true false x y h f = absurd (not_both (f refl))
      hits false true x y h f = omega arith
      hits false false x y h f = h

  same_region : (pc : ℕ) → cacheable pc larger ≡ cacheable pc opt
  unfolding cacheable
  same_region pc = refl

  ideal_access-Within :
      (pc : ℕ) (i j : Ideal)
      → Within opt.ways i j
      → Within opt.ways (ideal_access lru_step opt pc i) (ideal_access lru_step larger pc j)
  unfolding ideal_access
  ideal_access-Within pc i j w = elim (Bool-cases (cacheable pc opt)) [
    | inl is_in ↦
        rw (same_region pc, is_in)
          (cached-Within (pc / opt.line_size % opt.sets) (pc / opt.line_size / opt.sets) i j w)
    | inr out ↦ rw (same_region pc, out) (record { prefix = w.prefix; fewer = w.fewer })
  ]

  ideal_replay-Within :
      (lines : List (List ℕ)) (i j : Ideal)
      → Within opt.ways i j
      → Within opt.ways (ideal_replay lru_step opt lines i) (ideal_replay lru_step larger lines j)
  unfolding ideal_replay
  ideal_replay-Within [] i j w = w
  ideal_replay-Within (line ∷ lines) i j w = elim (Option-cases (parse_pc_from_line line)) [
    | inl skipped ↦ rw (ideal_replay, skipped) (ideal_replay-Within lines i j w)
    | inr (pc, found) ↦
        rw (ideal_replay, found)
          (ideal_replay-Within lines (ideal_access lru_step opt pc i)
            (ideal_access lru_step larger pc j) (ideal_access-Within pc i j w))
  ]

-- Under lru, with at least one set, one way and one byte in a line, and fewer than 2 ^ 64 lines in the
-- trace, the simulations with `opt.ways` and with `n` ways, `n` not less and all other options the
-- same, both end, and the one with `n` ways has at least as many hits.
pub replay_more_ways :
    {D R : Type 0} (draw : R → ℕ → ℕ × R) (opt : Options D) (n : ℕ) (seed : R)
    (lines : List (List ℕ))
    → opt.repl ≡ codes "lru"
    → 0 < opt.sets
    → 0 < opt.ways
    → opt.ways ≤ n
    → 0 < opt.line_size
    → length lines < 2 ^ 64
    → (s : Sim R) × (s' : Sim R) × (replay draw opt lines 0 (start opt seed) ≡ ok s)
      × (replay draw (record opt { ways = n }) lines 0 (start (record opt { ways = n }) seed)
          ≡ ok s')
      × (s.stats.hits ≤ s'.stats.hits)
replay_more_ways draw opt n seed lines lru some_set some_way more some_line few =
    let (s, runs, counts) = replay-lru draw opt seed lines some_set some_way some_line few lru in
    let (s', runs', counts') =
      replay-lru draw (record opt { ways = n }) seed lines some_set (omega arith) some_line few
        lru in
    let nothing : Within opt.ways empty_ideal empty_ideal = record {
      prefix = λ k. sym (take_none opt.ways);
      fewer = omega arith;
    } in
    let w = ideal_replay-Within opt n more lines empty_ideal empty_ideal nothing in
    (
      s,
      s',
      runs,
      runs',
      omega (arith, w.fewer, ap (λ (c : Stats). c.hits) counts, ap (λ (c : Stats). c.hits) counts'),
    )
