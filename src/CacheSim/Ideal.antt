-- ===== src/CacheSim/Ideal.antt =====
-- The ideal cache that npc/tools/cachesim/cachesim.cpp is compared with: for each set it keeps only
-- the list of its tags.
use ysyxworkbench.Prelude.{
  ℕ, suc, ◌+◌, ◌/◌, ◌%◌, ◌≤◌, ◌<◌, ◌≡◌, Bool, not, none, some, ok, defined, List, [], ◌∷◌, ◌==◌,
  if◌then◌else◌, length, get_elem?, u64, arith,
}
use ysyxworkbench.CacheSim.{Options, Line, Stats, Sim, cacheable}
use ysyxworkbench.CacheSim.Trace.{parse_pc_from_line, no_stats}
use ysyxworkbench.CacheSim.Queue.{contains, Entries, tags}
use ysyxworkbench.CacheSim.Tracked.{Tracks}

pub record Ideal : Type 0 where
  pub queue : ℕ → List ℕ
  pub counts : Stats

abbrev pub put_queue : (ℕ → List ℕ) → ℕ → List ℕ → ℕ → List ℕ
put_queue queue k q j = if k == j then q else queue j

abbrev pub empty_ideal : Ideal
empty_ideal = record { queue = λ k. []; counts = no_stats }

-- The counts after an access: uncacheable addresses count as misses.
abbrev pub count_uncached : Stats → Stats
count_uncached c = record c {
  accesses = c.accesses + 1;
  uncacheable = c.uncacheable + 1;
  misses = c.misses + 1;
}

abbrev pub count_cached : Bool → Stats → Stats
count_cached hit c = record c {
  accesses = c.accesses + 1;
  cacheable = c.cacheable + 1;
  hits = if hit then c.hits + 1 else c.hits;
  misses = if hit then c.misses else c.misses + 1;
}

module _ {D : Type 0} (step : ℕ → ℕ → List ℕ → List ℕ) (opt : Options D) where
  unfoldable pub ideal_access : ℕ → Ideal → Ideal
  ideal_access pc i =
      let block = pc / opt.line_size in
      let k = block % opt.sets in
      let tag = block / opt.sets in
      if cacheable pc opt
      then record {
        queue = put_queue i.queue k (step opt.ways tag (i.queue k));
        counts = count_cached (contains tag (i.queue k)) i.counts;
      }
      else record i { counts = count_uncached i.counts }

  -- The ideal cache over the lines of a trace.
  unfoldable pub ideal_replay : List (List ℕ) → Ideal → Ideal
  ideal_replay [] i = i
  ideal_replay (line ∷ lines) i = elim (parse_pc_from_line line) [
    | some pc ↦ ideal_replay lines (ideal_access pc i)
    | none ↦ ideal_replay lines i
  ]

-- The counters that the code has after the access.
abbrev pub seen : Stats → Stats
seen c = record c { accesses = u64 (c.accesses + 1) }

abbrev pub count_line : Bool → Stats → Stats
count_line hit c = record c {
  cacheable = u64 (c.cacheable + 1);
  hits = if hit then u64 (c.hits + 1) else c.hits;
  misses = if hit then c.misses else u64 (c.misses + 1);
}

abbrev pub count_missed : Stats → Stats
count_missed c = record c { uncacheable = u64 (c.uncacheable + 1); misses = u64 (c.misses + 1) }

pub defined_positive : (n : ℕ) → 0 < n → defined (not (n == 0)) ≡ ok tt
defined_positive n h = ground arith

-- The counters do not wrap before 2 ^ 64 accesses.
pub record Bounded (now : ℕ) (c : Stats) : Type 0 where
  pub accesses : c.accesses ≤ now
  pub cacheable : c.cacheable ≤ now
  pub uncacheable : c.uncacheable ≤ now
  pub hits : c.hits ≤ now
  pub misses : c.misses ≤ now

-- The simulator's state at time `now` holds what the ideal cache holds.
pub record Simulates {D R : Type 0} (opt : Options D) (now : ℕ) (s : Sim R) (i : Ideal)
    : Type 0 where
  pub sets : length s.cache ≡ opt.sets
  pub each :
      (k : ℕ) (lines : List Line)
      → get_elem? s.cache k ≡ some lines
      → (q : Entries) × Tracks opt.ways (suc now) lines q × (tags q ≡ i.queue k)
  pub stats : s.stats ≡ i.counts
  pub bounded : Bounded now i.counts
