-- ===== src/CacheSim/Totals.antt =====
-- Every run of npc/tools/cachesim/cachesim.cpp ends, whatever the policy draws, and its counters add
-- up.
use ysyxworkbench.Prelude.{
  ℕ, suc, ◌+◌, ◌/◌, ◌%◌, ◌^◌, ◌≤◌, ◌<◌, ◌≡◌, refl, sym, ap, ◌∙◌, Bool, true, false, none, some, ok,
  List, [], ◌∷◌, length, get_elem?, set, replicate, u64, arith, Bool-cases, Option-cases, inl, inr,
  length-set, length-replicate, get_elem?-set_self, get_elem?-set_ne, get_elem?_below,
  get_elem?-replicate,
}
use mathlib.Core.Path.{subst}
use native.Mathlib.Nat.{mod-lt}
use native.Mathlib.Decide.{ℕ_discrete}
use ysyxworkbench.CacheSim.{
  Options, Line, Stats, Sim, cacheable, at, write, access_at, access_line, access_cache,
}
use ysyxworkbench.CacheSim.Trace.{parse_pc_from_line, blank, start, replay}
use ysyxworkbench.CacheSim.Ideal.{seen, count_line, count_missed, defined_positive}
use ysyxworkbench.CacheSim.Victims.{Draws, access_set_within}

-- The counters add up, and none has wrapped.
pub record IsTotal (n : ℕ) (c : Stats) : Type 0 where
  pub accesses : c.accesses ≡ n
  pub hit_or_miss : c.hits + c.misses ≡ c.accesses
  pub by_region : c.cacheable + c.uncacheable ≡ c.accesses
  pub uncached_misses : c.uncacheable ≤ c.misses

IsTotal-count_line :
    (hit : Bool) (n : ℕ) (c : Stats)
    → IsTotal n c
    → suc n < 2 ^ 64
    → IsTotal (suc n) (count_line hit (seen c))
IsTotal-count_line true n c t small = ground arith
IsTotal-count_line false n c t small = ground arith

IsTotal-count_missed :
    (n : ℕ) (c : Stats) → IsTotal n c → suc n < 2 ^ 64 → IsTotal (suc n) (count_missed (seen c))
IsTotal-count_missed n c t small = ground arith

-- The cache keeps its shape.
record IsSized {D R : Type 0} (opt : Options D) (n : ℕ) (s : Sim R) : Type 0 where
  sets : length s.cache ≡ opt.sets
  each : (k : ℕ) (lines : List Line) → get_elem? s.cache k ≡ some lines → length lines ≡ opt.ways
  totals : IsTotal n s.stats

start-IsSized : {D R : Type 0} (opt : Options D) (seed : R) → IsSized opt 0 (start opt seed)
start-IsSized opt seed = record {
  sets = length-replicate opt.sets (replicate opt.ways blank);
  each = λ k lines e.
      ap (λ (ls : List Line). length ls)
        (get_elem?-replicate k opt.sets (replicate opt.ways blank) lines e)
      ∙ length-replicate opt.ways blank;
  totals = record {
    accesses = refl;
    hit_or_miss = refl;
    by_region = refl;
    uncached_misses = omega arith;
  };
}

-- How many lines of the trace have a number.
unfoldable pub numbered : List (List ℕ) → ℕ
numbered [] = 0
numbered (line ∷ lines) = elim (parse_pc_from_line line) [
  | some pc ↦ suc (numbered lines)
  | none ↦ numbered lines
]

module _ {D R : Type 0} (draw : R → ℕ → ℕ × R) (draws : Draws draw) (opt : Options D)
    (some_set : 0 < opt.sets) (some_way : 0 < opt.ways) (some_line : 0 < opt.line_size) where
  each_within :
      (k : ℕ) (cache : List (List Line)) (lines' : List Line)
      → ((k : ℕ) (lines : List Line) → get_elem? cache k ≡ some lines → length lines ≡ opt.ways)
      → k < length cache
      → length lines' ≡ opt.ways
      → (j : ℕ) (lines : List Line) → get_elem? (set cache k lines') j ≡ some lines
      → length lines ≡ opt.ways
  each_within k cache lines' each inside size j lines e = elim (ℕ_discrete k j) [
    | yes same ↦
        let written : some lines ≡ some lines' =
          sym e
          ∙ ap (λ (n : ℕ). get_elem? (set cache k lines') n) (sym same)
          ∙ get_elem?-set_self cache k lines' inside in
        subst (λ (ls : List Line). length ls ≡ opt.ways) (cc written) size
    | no other ↦ each j lines (sym (get_elem?-set_ne cache lines' other) ∙ e)
  ]

  access_at-IsSized :
      (n k tag now : ℕ) (s : Sim R)
      → suc n < 2 ^ 64
      → k < length s.cache
      → IsSized opt n s
      → (s' : Sim R) × (access_at draw opt k tag now s (seen s.stats) ≡ ok s')
        × IsSized opt (suc n) s'
  unfolding access_at
  access_at-IsSized n k tag now s small inside h =
      let (lines, there) = get_elem?_below k s.cache inside in
      let (hit, lines', rng', runs, size) =
        access_set_within draw draws opt some_way tag now lines s.rng (h.each k lines there) in
      (
        record { cache = set s.cache k lines'; rng = rng'; stats = count_line hit (seen s.stats) },
        rw (at, write, there, runs) refl,
        record {
          sets = length-set s.cache k lines' ∙ h.sets;
          each = each_within k s.cache lines' h.each inside size;
          totals = IsTotal-count_line hit n s.stats h.totals small;
        },
      )

  access_cache-IsSized :
      (n pc now : ℕ) (s : Sim R)
      → suc n < 2 ^ 64
      → IsSized opt n s
      → (s' : Sim R) × (access_cache draw opt pc now s ≡ ok s') × IsSized opt (suc n) s'
  unfolding access_cache access_line
  access_cache-IsSized n pc now s small h = elim (Bool-cases (cacheable pc opt)) [
    | inl is_in ↦
        let block = pc / opt.line_size in
        let inside : block % opt.sets < length s.cache =
          omega (arith, h.sets, mod-lt block some_set) in
        let (s', runs, h') =
          access_at-IsSized n (block % opt.sets) (block / opt.sets) now s small inside h in
        (
          s',
          rw
              (
                is_in,
                access_line,
                defined_positive opt.line_size some_line,
                defined_positive opt.sets some_set,
              )
              runs,
          h',
        )
    | inr out ↦ (
      record s { stats = count_missed (seen s.stats) },
      rw out refl,
      record {
        sets = h.sets;
        each = h.each;
        totals = IsTotal-count_missed n s.stats h.totals small;
      },
    )
  ]

  replay-IsSized :
      (lines : List (List ℕ)) (n now : ℕ) (s : Sim R)
      → n + length lines < 2 ^ 64
      → IsSized opt n s
      → (s' : Sim R) × (replay draw opt lines now s ≡ ok s') × IsSized opt (n + numbered lines) s'
  unfolding replay numbered
  replay-IsSized [] n now s small h = (s, refl, rw (plus_zero n) h)
    where
      plus_zero : (n : ℕ) → n + 0 ≡ n
      plus_zero n = omega arith
  replay-IsSized (line ∷ lines) n now s small h = elim (Option-cases (parse_pc_from_line line)) [
    | inl skipped ↦ rw (replay, numbered, skipped) (replay-IsSized lines n now s (omega arith) h)
    | inr (pc, found) ↦
        let (s1, runs, h1) = access_cache-IsSized n pc (u64 (now + 1)) s (omega arith) h in
        let (s2, rest, h2) = replay-IsSized lines (suc n) (u64 (now + 1)) s1 (omega arith) h1 in
        let shift : suc n + numbered lines ≡ n + suc (numbered lines) = omega arith in
        (
          s2,
          rw (replay, found, runs) rest,
          rw (numbered, found) (subst (λ (k : ℕ). IsSized opt k s2) shift h2),
        )
  ]

  -- With at least one set, one way and one byte in a line, draws within their bound, and fewer than
  -- 2 ^ 64 lines in the trace, the simulation of a trace ends under every policy. There is an access
  -- for each line with a number; hits and misses add up to the accesses, cacheable and uncacheable ones
  -- too; and every uncacheable access is a miss.
  pub replay-IsTotal :
      (seed : R) (lines : List (List ℕ))
      → length lines < 2 ^ 64
      → (s : Sim R) × (replay draw opt lines 0 (start opt seed) ≡ ok s)
        × IsTotal (numbered lines) s.stats
  replay-IsTotal seed lines few =
      let (s, runs, h) =
        replay-IsSized lines 0 0 (start opt seed) (omega arith) (start-IsSized opt seed) in
      (s, runs, rw (zero_plus (numbered lines)) h.totals)
    where
      zero_plus : (n : ℕ) → n ≡ 0 + n
      zero_plus n = omega arith
