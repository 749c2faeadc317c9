-- ===== src/CacheSim/Trace.antt =====
-- The trace of npc/tools/cachesim/cachesim.cpp: `parse_pc_from_line` and the loop of `main`.
use ysyxworkbench.Prelude.{
  ℕ, ◌+◌, false, ◌||◌, Option, none, some, Result, ok, ◌>>=◌, List, [], ◌∷◌, ◌++◌, ◌==◌,
  if◌then◌else◌, replicate, u64,
}
use ysyxworkbench.CacheSim.{Options, Line, Stats, Sim, access_cache}
use ysyxworkbench.CacheSim.Numbers.{is_space, parse_u32}

-- `tok.pop_back()` after a last `:` or `,`
unfoldable pub trim : List ℕ → List ℕ
trim [] = []
trim (c ∷ []) = if c == b':' || c == b',' then [] else c ∷ []
trim (c ∷ d ∷ tok) = c ∷ trim (d ∷ tok)

-- The words that `iss >> tok` reads, with `tok` the characters of the word at hand, in order.
unfoldable pub words_from : List ℕ → List ℕ → List (List ℕ)
words_from [] [] = []
words_from (t ∷ tok) [] = (t ∷ tok) ∷ []
words_from [] (c ∷ cs) = words_from (if is_space c then [] else c ∷ []) cs
words_from (t ∷ tok) (c ∷ cs) =
    let next = words_from [] cs in
    let longer = words_from ((t ∷ tok) ++ c ∷ []) cs in
    if is_space c then (t ∷ tok) ∷ next else longer

unfoldable pub first_number : List (List ℕ) → Option ℕ
unfolding trim parse_u32
first_number [] = none
first_number (tok ∷ toks) = elim (parse_u32 (trim tok)) [
  | some value ↦ some value
  | none ↦ first_number toks
]

unfoldable pub parse_pc_from_line : List ℕ → Option ℕ
unfolding first_number words_from
parse_pc_from_line line = first_number (words_from [] line)

abbrev pub blank : Line
blank = record { valid = false; tag = 0; age = 0 }

abbrev pub no_stats : Stats
no_stats = record { accesses = 0; cacheable = 0; uncacheable = 0; hits = 0; misses = 0 }

-- `cache`, `rng` and `stats` as `main` makes them; `seed` is `std::mt19937 rng(0x23060000u)`.
abbrev pub start : {D R : Type 0} → Options D → R → Sim R
start opt seed = record {
  cache = replicate opt.sets (replicate opt.ways blank);
  rng = seed;
  stats = no_stats;
}

module _ {D : Type 0} {R : Type 0} (draw : R → ℕ → ℕ × R) where
  -- The `while` loop of `main` over the lines of the trace: a line without a number is skipped.
  unfoldable pub replay : Options D → List (List ℕ) → ℕ → Sim R → Result (Sim R)
  replay opt [] now s = ok s
  replay opt (line ∷ lines) now s = elim (parse_pc_from_line line) [
    | some pc ↦ do
      s' ← access_cache draw opt pc (u64 (now + 1)) s
      replay opt lines (u64 (now + 1)) s'
    | none ↦ replay opt lines now s
  ]
