-- ===== src/CacheSim/Refine.antt =====
-- Whole runs of npc/tools/cachesim/cachesim.cpp against an ideal cache that keeps, for each set, only
-- the list of its tags.
use ysyxworkbench.Prelude.{
  ℕ, suc, ◌+◌, ◌/◌, ◌%◌, ◌^◌, ◌<◌, ◌≡◌, refl, sym, ap, ◌∙◌, Bool, true, false, some, ok, List, [],
  ◌∷◌, length, get_elem?, set, replicate, codes, u64, arith, Bool-cases, Option-cases, inl, inr,
  length-set, get_elem?-set_self, get_elem?-set_ne, get_elem?_below, get_elem?-replicate,
  length-replicate,
}
use mathlib.Core.Path.{subst}
use native.Mathlib.Nat.{mod-lt}
use native.Mathlib.Decide.{ℕ_discrete}
use ysyxworkbench.CacheSim.{
  Options, Line, Stats, Sim, cacheable, at, write, access_set, access_at, access_line, access_cache,
}
use ysyxworkbench.CacheSim.Trace.{parse_pc_from_line, blank, start, replay}
use ysyxworkbench.CacheSim.Queue.{contains, lru_step, fifo_step, Entries, tags}
use ysyxworkbench.CacheSim.Written.{age_of_empty, empty-IsDistinct, valid_count_empty}
use ysyxworkbench.CacheSim.Tracked.{Tracks, Tracks-mono}
use ysyxworkbench.CacheSim.Policies.{Follows, lru-Follows, fifo-Follows}
use ysyxworkbench.CacheSim.Ideal.{
  Ideal, put_queue, empty_ideal, count_uncached, count_cached, ideal_access, ideal_replay, seen,
  count_line, count_missed, defined_positive, Bounded, Simulates,
}

-- An empty set.
blank-Tracks : (ways : ℕ) → Tracks ways 1 (replicate ways blank) []
unfolding ysyxworkbench.CacheSim.Queue.age_in
blank-Tracks ways = record {
  size = length-replicate ways blank;
  same = λ t. age_of_empty t ways blank refl;
  distinct = empty-IsDistinct ways blank refl;
  ordered = tt;
  counted = sym (valid_count_empty ways blank refl);
}

start-Simulates :
    {D R : Type 0} (opt : Options D) (seed : R) → Simulates opt 0 (start opt seed) empty_ideal
start-Simulates opt seed = record {
  sets = length-replicate opt.sets (replicate opt.ways blank);
  each = λ k lines e. (
    [],
    rw (get_elem?-replicate k opt.sets (replicate opt.ways blank) lines e) (blank-Tracks opt.ways),
    refl,
  );
  stats = refl;
  bounded = omega arith;
}

module _ {D R : Type 0} (draw : R → ℕ → ℕ × R) (step : ℕ → ℕ → List ℕ → List ℕ) (opt : Options D)
    (follows : Follows draw opt step) (some_set : 0 < opt.sets) (some_way : 0 < opt.ways)
    (some_line : 0 < opt.line_size) where
  -- The counters after a cached access, in the code and in the ideal cache.
  counted :
      (hit : Bool) (now : ℕ) (c : Stats)
      → Bounded now c
      → suc now < 2 ^ 64
      → (count_line hit (seen c) ≡ count_cached hit c) × Bounded (suc now) (count_cached hit c)
  counted true now c b small = (ground arith, ground arith)
  counted false now c b small = (ground arith, ground arith)

  access_at_runs :
      (k tag now : ℕ) (s : Sim R) (c : Stats) (lines lines' : List Line) (hit : Bool) (rng' : R)
      → get_elem? s.cache k ≡ some lines
      → access_set draw opt tag now lines s.rng ≡ ok (hit, lines', rng')
      → access_at draw opt k tag now s c
        ≡ ok (record { cache = set s.cache k lines'; rng = rng'; stats = count_line hit c })
  unfolding access_at
  access_at_runs k tag now s c lines lines' hit rng' there accessed =
      rw (at, write, there, accessed) refl

  access_line_at :
      (pc now : ℕ) (s : Sim R) (c : Stats)
      → access_line draw opt pc now s c
        ≡ access_at draw opt (pc / opt.line_size % opt.sets) (pc / opt.line_size / opt.sets) now s c
  unfolding access_line
  access_line_at pc now s c =
      rw (defined_positive opt.line_size some_line, defined_positive opt.sets some_set) refl

  -- The sets after one of them has changed.
  each_set :
      (now k : ℕ) (s : Sim R) (i : Ideal) (lines' : List Line) (q' : Entries)
      → Simulates opt now s i
      → k < length s.cache
      → Tracks opt.ways (suc (suc now)) lines' q'
      → (j : ℕ) (lines : List Line) → get_elem? (set s.cache k lines') j ≡ some lines
      → (q : Entries) × Tracks opt.ways (suc (suc now)) lines q
        × (tags q ≡ put_queue i.queue k (tags q') j)
  each_set now k s i lines' q' h inside t j lines e = elim (ℕ_discrete k j) [
    | yes same ↦
        let written : some lines ≡ some lines' =
          sym e
          ∙ ap (λ (n : ℕ). get_elem? (set s.cache k lines') n) (sym same)
          ∙ get_elem?-set_self s.cache k lines' inside in
        (
          q',
          subst (λ (ls : List Line). Tracks opt.ways (suc (suc now)) ls q') (cc written) t,
          ground arith,
        )
    | no other ↦
        let (q, t', e') = h.each j lines (sym (get_elem?-set_ne s.cache lines' other) ∙ e) in
        (q, Tracks-mono t' (omega arith), e' ∙ ground arith)
  ]

  cached-Simulates :
      (now k tag : ℕ) (s : Sim R) (i : Ideal) (lines lines' : List Line) (q q' : Entries)
      → suc now < 2 ^ 64
      → Simulates opt now s i
      → k < length s.cache
      → tags q ≡ i.queue k
      → Tracks opt.ways (suc (suc now)) lines' q'
      → tags q' ≡ step opt.ways tag (tags q)
      → Simulates opt
          (suc now)
          (record {
            cache = set s.cache k lines';
            rng = s.rng;
            stats = count_line (contains tag (tags q)) (seen s.stats);
          })
          (record {
            queue = put_queue i.queue k (step opt.ways tag (i.queue k));
            counts = count_cached (contains tag (i.queue k)) i.counts;
          })
  cached-Simulates now k tag s i lines lines' q q' small h inside e t e' =
      let (counts, bounded) = counted (contains tag (i.queue k)) now i.counts h.bounded small in
      record {
        sets = length-set s.cache k lines' ∙ h.sets;
        each = λ j ls there.
            let (r, t', same) = each_set now k s i lines' q' h inside t j ls there in
            (
              r,
              t',
              same
                  ∙ ap (λ (ts : List ℕ). put_queue i.queue k ts j)
                      (e' ∙ ap (λ (ts : List ℕ). step opt.ways tag ts) e),
            );
        stats =
            ap (λ (ts : List ℕ). count_line (contains tag ts) (seen s.stats)) e
            ∙ ap (λ (c : Stats). count_line (contains tag (i.queue k)) (seen c)) h.stats
            ∙ counts;
        bounded = bounded;
      }

  uncached-Simulates :
      (now : ℕ) (s : Sim R) (i : Ideal)
      → suc now < 2 ^ 64
      → Simulates opt now s i
      → Simulates opt
          (suc now)
          (record s { stats = count_missed (seen s.stats) })
          (record i { counts = count_uncached i.counts })
  uncached-Simulates now s i small h = record {
    sets = h.sets;
    each = λ j ls there.
        let (q, t, same) = h.each j ls there in (q, Tracks-mono t (omega arith), same);
    stats = ap (λ (c : Stats). count_missed (seen c)) h.stats ∙ missed i.counts now h.bounded small;
    bounded = ground arith;
  }
    where
      missed :
          (c : Stats) (n : ℕ)
          → Bounded n c
          → suc n < 2 ^ 64
          → count_missed (seen c) ≡ count_uncached c
      missed c n b h = ground arith

  access_cache-Simulates :
      (now pc : ℕ) (s : Sim R) (i : Ideal)
      → suc now < 2 ^ 64
      → Simulates opt now s i
      → (s' : Sim R) × (access_cache draw opt pc (suc now) s ≡ ok s')
        × Simulates opt (suc now) s' (ideal_access step opt pc i)
  unfolding access_cache ideal_access
  access_cache-Simulates now pc s i small h = elim (Bool-cases (cacheable pc opt)) [
    | inl is_in ↦
        let block = pc / opt.line_size in
        let k = block % opt.sets in
        let tag = block / opt.sets in
        let inside : k < length s.cache = omega (arith, h.sets, mod-lt block some_set) in
        let (lines, there) = get_elem?_below k s.cache inside in
        let (q, t, e) = h.each k lines there in
        let (q', (lines', runs, t'), e') =
          follows (suc now) lines q tag (suc now) s.rng t (omega arith) some_way in
        (
          record {
            cache = set s.cache k lines';
            rng = s.rng;
            stats = count_line (contains tag (tags q)) (seen s.stats);
          },
          rw is_in (
              access_line_at pc (suc now) s (seen s.stats)
              ∙ access_at_runs k tag (suc now) s (seen s.stats) lines lines' (contains tag (tags q))
                  s.rng there runs),
          rw is_in (cached-Simulates now k tag s i lines lines' q q' small h inside e t' e'),
        )
    | inr out ↦ (
      record s { stats = count_missed (seen s.stats) },
      rw out refl,
      rw out (uncached-Simulates now s i small h),
    )
  ]

  replay-Simulates :
      (lines : List (List ℕ)) (now : ℕ) (s : Sim R) (i : Ideal)
      → now + length lines < 2 ^ 64
      → Simulates opt now s i
      → (s' : Sim R) × (replay draw opt lines now s ≡ ok s')
        × (n : ℕ) × Simulates opt n s' (ideal_replay step opt lines i)
  unfolding replay ideal_replay
  replay-Simulates [] now s i small h = (s, refl, now, h)
  replay-Simulates (line ∷ lines) now s i small h = elim (Option-cases (parse_pc_from_line line)) [
    | inl skipped ↦
        rw (replay, ideal_replay, skipped) (replay-Simulates lines now s i (omega arith) h)
    | inr (pc, found) ↦
        let (s1, runs, h1) = access_cache-Simulates now pc s i (omega arith) h in
        let (s2, rest, n, h2) =
          replay-Simulates lines (suc now) s1 (ideal_access step opt pc i) (omega arith) h1 in
        let tick : u64 (now + 1) ≡ suc now = omega arith in
        (s2, rw (replay, found, tick, runs) rest, n, rw (ideal_replay, found) h2)
  ]

-- Where each replacement policy is an ideal list.
module _ {D R : Type 0} (draw : R → ℕ → ℕ × R) (opt : Options D) (seed : R) (lines : List (List ℕ))
    (some_set : 0 < opt.sets) (some_way : 0 < opt.ways) (some_line : 0 < opt.line_size)
    (few : length lines < 2 ^ 64) where
  replay-Follows :
      (step : ℕ → ℕ → List ℕ → List ℕ)
      → Follows draw opt step
      → (s : Sim R) × (replay draw opt lines 0 (start opt seed) ≡ ok s)
        × (s.stats ≡ (ideal_replay step opt lines empty_ideal).counts)
  replay-Follows step follows =
      let (s, runs, n, h) =
        replay-Simulates draw step opt follows some_set some_way some_line lines 0 (start opt seed)
          empty_ideal (omega arith) (start-Simulates opt seed) in
      (s, runs, h.stats)

  -- Under lru, with at least one set, one way and one byte in a line, and fewer than 2 ^ 64 lines in
  -- the trace, the simulation of a trace ends, and all five counters are those of a cache whose sets
  -- are lists of tags: an access moves the tag to the front, and what is then beyond the number of
  -- ways is dropped.
  pub replay-lru :
      opt.repl ≡ codes "lru"
      → (s : Sim R) × (replay draw opt lines 0 (start opt seed) ≡ ok s)
        × (s.stats ≡ (ideal_replay lru_step opt lines empty_ideal).counts)
  replay-lru lru = replay-Follows lru_step (lru-Follows draw opt (rw lru refl) (rw lru refl))

  -- The same under fifo, where an access to a tag that is in the set changes nothing, and any other
  -- tag comes to the front.
  pub replay-fifo :
      opt.repl ≡ codes "fifo"
      → (s : Sim R) × (replay draw opt lines 0 (start opt seed) ≡ ok s)
        × (s.stats ≡ (ideal_replay fifo_step opt lines empty_ideal).counts)
  replay-fifo fifo = replay-Follows fifo_step (fifo-Follows draw opt (rw fifo refl) (rw fifo refl))
