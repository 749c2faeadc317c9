-- ===== src/Tests/CacheSim.antt =====
-- A cache of two sets and a short trace.
use ysyxworkbench.Prelude.{
  ℕ, ◌≡◌, ◌≤◌, refl, false, Option, none, some, Result, ok, fault, List, [], ◌∷◌, ◌++◌, codes,
  arith,
}
use ysyxworkbench.CacheSim.{
  Options, Sim, Stats, cacheable, access_cache, access_line, access_at, access_set, choose_victim,
  refresh, find_hit, find_invalid, oldest,
}
use ysyxworkbench.CacheSim.Args.{
  finish_args, fill_defaults, is_accepted, is_pow2, Doubles, accepted, parse_args, parse_loop,
  default_options,
}
use ysyxworkbench.CacheSim.Numbers.{unsigned, parse_u32, strtoul, skip_space, read_base}
use ysyxworkbench.CacheSim.Trace.{parse_pc_from_line, start, replay}
use ysyxworkbench.CacheSim.Queue.{contains, remove, lru_step, fifo_step}
use ysyxworkbench.CacheSim.Ideal.{ideal_access, ideal_replay, empty_ideal}
use ysyxworkbench.CacheSim.Refine.{replay-lru, replay-fifo}
use ysyxworkbench.CacheSim.Inclusion.{replay_more_ways}
use ysyxworkbench.CacheSim.Totals.{IsTotal, numbered}
use ysyxworkbench.CacheSim.Accept.{accepted-IsTotal}

-- Whole numbers in place of `double`.
abbrev whole : Doubles ℕ
whole = record { strtod = λ s. none; is_negative = λ x. false; times = λ n x. n; zero = 0; one = 1 }

abbrev first_draw : Unit {0} → ℕ → ℕ × Unit {0}
first_draw rng n = (0, rng)

abbrev two_sets : List ℕ → Options ℕ
two_sets policy = record (default_options whole) {
  sets = 2;
  ways = 2;
  line_size = 16;
  repl = policy;
  trace_path = codes "trace";
}

-- Four blocks of set 0, the first one again, and a line without a number.
abbrev trace : List (List ℕ)
trace =
    codes "0xa0000000: addi"
    ∷ codes "0xa0000020,"
    ∷ codes "pc = 0xa0000004"
    ∷ codes "nothing"
    ∷ codes "0xa0000040"
    ∷ codes "0xa0000000"
    ∷ []

-- A null character ends the number.
nul_token : parse_u32 (codes "12" ++ 0 ∷ codes "x") ≡ some 12
unfolding parse_u32 strtoul skip_space unsigned read_base
nul_token = refl

third_line : parse_pc_from_line (codes "pc = 0xa0000004") ≡ some 0xa0000004
unfolding parse_pc_from_line unsigned
third_line = refl

-- Under lru the last access hits, under fifo it does not.
lru_counts :
    (ideal_replay lru_step (two_sets (codes "lru")) trace empty_ideal).counts
    ≡ record { accesses = 5; cacheable = 5; uncacheable = 0; hits = 2; misses = 3 }
unfolding ideal_replay ideal_access parse_pc_from_line cacheable contains remove
lru_counts = refl

fifo_counts :
    (ideal_replay fifo_step (two_sets (codes "fifo")) trace empty_ideal).counts
    ≡ record { accesses = 5; cacheable = 5; uncacheable = 0; hits = 1; misses = 4 }
unfolding ideal_replay ideal_access parse_pc_from_line cacheable contains
fifo_counts = refl

abbrev stats_of : Result (Sim (Unit {0})) → Option Stats
stats_of (ok s) = some s.stats
stats_of (fault f) = none

fifo_runs :
    stats_of
      (replay first_draw (two_sets (codes "fifo")) trace 0 (start (two_sets (codes "fifo")) tt))
    ≡ some (record { accesses = 5; cacheable = 5; uncacheable = 0; hits = 1; misses = 4 })
unfolding replay parse_pc_from_line access_cache access_line access_at access_set cacheable
    choose_victim refresh find_hit find_invalid oldest
fifo_runs = refl

replay-lru_example :
    (s : Sim (Unit {0})) × (replay first_draw
        (two_sets (codes "lru"))
        trace
        0
        (start (two_sets (codes "lru")) tt)
      ≡ ok s)
    × (s.stats ≡ (ideal_replay lru_step (two_sets (codes "lru")) trace empty_ideal).counts)
replay-lru_example =
    replay-lru first_draw (two_sets (codes "lru")) tt trace (omega arith) (omega arith)
      (omega arith) (omega arith) refl

replay-fifo_example :
    (s : Sim (Unit {0})) × (replay first_draw
        (two_sets (codes "fifo"))
        trace
        0
        (start (two_sets (codes "fifo")) tt)
      ≡ ok s)
    × (s.stats ≡ (ideal_replay fifo_step (two_sets (codes "fifo")) trace empty_ideal).counts)
replay-fifo_example =
    replay-fifo first_draw (two_sets (codes "fifo")) tt trace (omega arith) (omega arith)
      (omega arith) (omega arith) refl

replay_more_ways_example :
    (s : Sim (Unit {0})) × (s' : Sim (Unit {0})) × (replay first_draw
        (two_sets (codes "lru"))
        trace
        0
        (start (two_sets (codes "lru")) tt)
      ≡ ok s)
    × (replay first_draw
          (record (two_sets (codes "lru")) { ways = 4 })
          trace
          0
          (start (record (two_sets (codes "lru")) { ways = 4 }) tt)
        ≡ ok s')
    × (s.stats.hits ≤ s'.stats.hits)
replay_more_ways_example =
    replay_more_ways first_draw (two_sets (codes "lru")) 4 tt trace refl (omega arith) (omega arith)
      (omega arith) (omega arith) (omega arith)

abbrev arguments : List (List ℕ)
arguments = codes "--sets" ∷ codes "0x2" ∷ codes "--repl" ∷ codes "random" ∷ codes "trace" ∷ []

abbrev chosen : Options ℕ
chosen = record (default_options whole) {
  sets = 2;
  line_size = 16;
  miss_penalty = 4;
  repl = codes "random";
  trace_path = codes "trace";
}

arguments_parse : parse_args whole arguments ≡ ok (accepted chosen)
unfolding parse_args finish_args parse_loop fill_defaults is_accepted is_pow2
arguments_parse = refl

accepted-IsTotal_example :
    (s : Sim (Unit {0})) × (replay first_draw chosen trace 0 (start chosen tt) ≡ ok s)
    × IsTotal (numbered trace) s.stats
accepted-IsTotal_example =
    accepted-IsTotal whole first_draw arguments chosen tt trace (λ rng n. omega arith)
      arguments_parse (omega arith)

abbrev no_bus : List (List ℕ)
no_bus = codes "--bus-bytes" ∷ codes "0" ∷ codes "trace" ∷ []

no_bus_parse :
    parse_loop whole no_bus (default_options whole)
    ≡ accepted (record (default_options whole) { bus_bytes = 0; trace_path = codes "trace" })
unfolding parse_loop
no_bus_parse = refl
