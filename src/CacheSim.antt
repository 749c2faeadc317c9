-- ===== src/CacheSim.antt =====
-- The cache simulator npc/tools/cachesim/cachesim.cpp: the cache and `access_cache`. `Args` has the
-- command line and `Trace` the loop of `main`.
pub mod Numbers
pub mod Args
pub mod Trace
pub mod Lines
pub mod Written
pub mod Queue
pub mod Tracked
pub mod Policies
pub mod Ideal
pub mod Refine
pub mod Inclusion
pub mod Victims
pub mod Totals
pub mod Accept
use ysyxworkbench.Prelude.{
  ℕ, suc, ◌+◌, ◌-◌, ◌/◌, ◌%◌, ◌^◌, Bool, true, false, not, ◌&&◌, ◌||◌, Option, none, some, Result,
  ok, fault, undefined, defined, ◌>>=◌, ◌>>◌, List, [], ◌∷◌, ltb, ◌==◌, if◌then◌else◌, get_elem?,
  set, codes, same_text, u64,
}

-- `Options`; `D` is `double`.
pub record Options (D : Type 0) : Type 0 where
  pub sets : ℕ
  pub ways : ℕ
  pub bus_bytes : ℕ
  pub line_transactions : ℕ
  pub line_size : ℕ
  pub access_time : D
  pub miss_penalty : D
  pub bus_penalty : D
  pub line_size_set : Bool
  pub miss_penalty_set : Bool
  pub cache_region : List ℕ
  pub repl : List ℕ
  pub trace_path : List ℕ

pub record Line : Type 0 where
  pub valid : Bool
  pub tag : ℕ
  pub age : ℕ

pub record Stats : Type 0 where
  pub accesses : ℕ
  pub cacheable : ℕ
  pub uncacheable : ℕ
  pub hits : ℕ
  pub misses : ℕ

-- What `main` hands to `access_cache` by reference: `cache`, `rng` and `stats`.
pub record Sim (R : Type 0) : Type 0 where
  pub cache : List (List Line)
  pub rng : R
  pub stats : Stats

-- The three regions are 0x3xxxxxxx, 0x8xxxxxxx to 0x9xxxxxxx, and 0xaxxxxxxx to 0xbxxxxxxx.
unfoldable pub cacheable : {D : Type 0} → ℕ → Options D → Bool
cacheable addr opt =
    if same_text opt.cache_region (codes "all")
    then (addr / 2 ^ 28 == 0x3) || (addr / 2 ^ 29 == 0x4) || (addr / 2 ^ 29 == 0x5)
    else if same_text opt.cache_region (codes "flash")
    then addr / 2 ^ 28 == 0x3
    else if same_text opt.cache_region (codes "psram")
    then addr / 2 ^ 29 == 0x4
    else addr / 2 ^ 29 == 0x5

-- The way of the first valid line with the tag: the loop over `cache[set]`.
unfoldable pub find_hit : ℕ → ℕ → List Line → Option ℕ
find_hit tag way [] = none
find_hit tag way (l ∷ ls) = if l.valid && l.tag == tag then some way else find_hit tag (suc way) ls

-- The first way that is not valid.
unfoldable pub find_invalid : ℕ → List Line → Option ℕ
find_invalid way [] = none
find_invalid way (l ∷ ls) = if not l.valid then some way else find_invalid (suc way) ls

-- The loop with `best_age` and `victim`, from `way` on.
unfoldable pub oldest_from : ℕ → ℕ → ℕ → List Line → ℕ
oldest_from way best_age victim [] = victim
oldest_from way best_age victim (l ∷ ls) =
    let older = ltb l.age best_age in
    oldest_from (suc way) (if older then l.age else best_age) (if older then way else victim) ls

-- `cache[set][0].age` is undefined in a cache with no ways.
unfoldable pub oldest : List Line → Result ℕ
unfolding oldest_from
oldest [] = fault undefined
oldest (l ∷ ls) = ok (oldest_from 1 l.age 0 ls)

-- `cache[i]` of a `std::vector`
abbrev pub at {ℓ} : {A : Type ℓ} → List A → ℕ → Result A
at xs i = elim (get_elem? xs i) [ some x ↦ ok x | none ↦ fault undefined ]

-- `cache[i] = x`
abbrev pub write {ℓ} : {A : Type ℓ} → List A → ℕ → A → Result (List A)
write xs i x = elim (get_elem? xs i) [ some old ↦ ok (set xs i x) | none ↦ fault undefined ]

-- The lines of the set after a hit in `way`.
unfoldable pub refresh : {D : Type 0} → Options D → ℕ → ℕ → List Line → Result (List Line)
refresh opt now way lines =
    if same_text opt.repl (codes "lru")
    then (do line ← at lines way; write lines way (record line { age = now }))
    else ok lines

-- `draw rng n` is a draw of `std::uniform_int_distribution` from 0 to `n`.
module _ {D : Type 0} {R : Type 0} (draw : R → ℕ → ℕ × R) where
  unfoldable pub choose_victim : Options D → List Line → R → Result (ℕ × R)
  choose_victim opt lines rng = elim (find_invalid 0 lines) [
    | some way ↦ ok (way, rng)
    | none ↦
        if same_text opt.repl (codes "random")
        then ok (draw rng (opt.ways - 1))
        else (do victim ← oldest lines; ok (victim, rng))
  ]

  unfoldable pub access_set : Options D → ℕ → ℕ → List Line → R → Result (Bool × List Line × R)
  access_set opt tag now lines rng = elim (find_hit tag 0 lines) [
    | some way ↦ do lines' ← refresh opt now way lines; ok (true, lines', rng)
    | none ↦ do
      (victim, rng') ← choose_victim opt lines rng
      lines' ← write lines victim (record { valid = true; tag = tag; age = now })
      ok (false, lines', rng')
  ]

  -- `access_cache` from the loop over `cache[set]` on.
  unfoldable pub access_at : Options D → ℕ → ℕ → ℕ → Sim R → Stats → Result (Sim R)
  access_at opt set_index tag now s seen = do
    lines ← at s.cache set_index
    (hit, lines', rng') ← access_set opt tag now lines s.rng
    cache' ← write s.cache set_index lines'
    ok (record {
      cache = cache';
      rng = rng';
      stats = record seen {
        cacheable = u64 (seen.cacheable + 1);
        hits = if hit then u64 (seen.hits + 1) else seen.hits;
        misses = if hit then seen.misses else u64 (seen.misses + 1);
      };
    })

  -- The part of `access_cache` for a cacheable address.
  unfoldable pub access_line : Options D → ℕ → ℕ → Sim R → Stats → Result (Sim R)
  access_line opt pc now s seen = do
    defined (not (opt.line_size == 0))
    defined (not (opt.sets == 0))
    let block = pc / opt.line_size
    access_at opt (block % opt.sets) (block / opt.sets) now s seen

  unfoldable pub access_cache : Options D → ℕ → ℕ → Sim R → Result (Sim R)
  access_cache opt pc now s = do
    let seen : Stats = record (s.stats) { accesses = u64 (s.stats.accesses + 1) }
    if cacheable pc opt
        then access_line opt pc now s seen
        else ok (record s {
          stats = record seen {
            uncacheable = u64 (seen.uncacheable + 1);
            misses = u64 (seen.misses + 1);
          };
        })
