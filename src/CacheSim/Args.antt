-- ===== src/CacheSim/Args.antt =====
-- The command line of npc/tools/cachesim/cachesim.cpp: `parse_args`.
use ysyxworkbench.Prelude.{
  ℕ, ◌+◌, ◌-◌, ◌*◌, ◌/◌, ◌^◌, Bool, true, false, not, ◌&&◌, ◌||◌, Option, none, some, Result, ok,
  defined, ◌>>=◌, ◌>>◌, List, [], ◌∷◌, ◌==◌, if◌then◌else◌, bit_and, codes, same_text, u32,
}
use ysyxworkbench.CacheSim.{Options}
use ysyxworkbench.CacheSim.Numbers.{parse_u32}

unfoldable pub is_pow2 : ℕ → Bool
is_pow2 x = not (x == 0) && bit_and x (x - 1) == 0

pub record Doubles (D : Type 0) : Type 0 where
  pub strtod : List ℕ → Option (D × List ℕ)
  pub is_negative : D → Bool
  pub times : ℕ → D → D
  pub zero : D
  pub one : D

-- What one round of the loop over `argv` does: it takes the argument and its value, or the argument
-- alone, or it ends the program.
pub data Taken (D : Type 0) : Type 0 where
  with_value : Options D → Taken D
  alone : Options D → Taken D
  refused : Taken D
  help : Taken D

-- How `parse_args` ends: it returns false, or it calls `exit(0)`, or it returns true.
pub data Parsed (D : Type 0) : Type 0 where
  rejected : Parsed D
  exits : Parsed D
  accepted : Options D → Parsed D

module _ {D : Type 0} (doubles : Doubles D) where
  unfoldable pub parse_double : List ℕ → Option D
  parse_double s = elim (doubles.strtod s) [
    | some (v, []) ↦ if doubles.is_negative v then none else some v
    | some (v, c ∷ cs) ↦ none
    | none ↦ none
  ]

  abbrev pub default_options : Options D
  default_options = record {
    sets = 16;
    ways = 1;
    bus_bytes = 4;
    line_transactions = 4;
    line_size = 0;
    access_time = doubles.one;
    miss_penalty = doubles.zero;
    bus_penalty = doubles.zero;
    line_size_set = false;
    miss_penalty_set = false;
    cache_region = codes "sdram";
    repl = codes "fifo";
    trace_path = [];
  }

  abbrev pub number : List ℕ → (ℕ → Options D) → Taken D
  number text put = elim (parse_u32 text) [ some n ↦ with_value (put n) | none ↦ refused ]

  abbrev pub real : List ℕ → (D → Options D) → Taken D
  real text put = elim (parse_double text) [ some x ↦ with_value (put x) | none ↦ refused ]

  -- The branches from `-h` on.
  unfoldable pub take_alone : List ℕ → Options D → Taken D
  take_alone arg opt =
      if same_text arg (codes "-h") || same_text arg (codes "--help")
      then help
      else if same_text opt.trace_path []
      then alone (record opt { trace_path = arg })
      else refused

  -- The branches for an argument that has another behind it.
  unfoldable pub take_value : List ℕ → List ℕ → Options D → Taken D
  unfolding take_alone parse_u32 parse_double
  take_value arg value opt =
      if same_text arg (codes "--sets")
      then number value (λ n. record opt { sets = n })
      else if same_text arg (codes "--ways")
      then number value (λ n. record opt { ways = n })
      else if same_text arg (codes "--bus-bytes")
      then number value (λ n. record opt { bus_bytes = n })
      else if same_text arg (codes "--line-transactions")
      then number value (λ n. record opt { line_transactions = n })
      else if same_text arg (codes "--line-size")
      then number value (λ n. record opt { line_size = n; line_size_set = true })
      else if same_text arg (codes "--cache-region")
      then with_value (record opt { cache_region = value })
      else if same_text arg (codes "--access-time")
      then real value (λ x. record opt { access_time = x })
      else if same_text arg (codes "--bus-penalty")
      then real value (λ x. record opt { bus_penalty = x })
      else if same_text arg (codes "--miss-penalty")
      then real value (λ x. record opt { miss_penalty = x; miss_penalty_set = true })
      else if same_text arg (codes "--repl")
      then with_value (record opt { repl = value })
      else take_alone arg opt

  unfoldable pub parse_loop : List (List ℕ) → Options D → Parsed D
  unfolding take_value take_alone
  parse_loop [] opt = accepted opt
  parse_loop (arg ∷ []) opt = elim (take_alone arg opt) [
    | alone opt' ↦ accepted opt'
    | with_value opt' ↦ accepted opt'
    | refused ↦ rejected
    | help ↦ exits
  ]
  parse_loop (arg ∷ value ∷ rest) opt = elim (take_value arg value opt) [
    | with_value opt' ↦ parse_loop rest opt'
    | alone opt' ↦ parse_loop (value ∷ rest) opt'
    | refused ↦ rejected
    | help ↦ exits
  ]

  -- The two defaults that depend on the other options; the division is done before `bus_bytes` is
  -- tested.
  unfoldable pub fill_defaults : Options D → Result (Options D)
  fill_defaults opt =
      let line_size =
        if opt.line_size_set then opt.line_size else u32 (opt.bus_bytes * opt.line_transactions) in
      let sized : Options D = record opt { line_size = line_size } in
      if opt.miss_penalty_set then ok sized else (do
        defined (not (opt.bus_bytes == 0))
        let fill_transactions = u32 (u32 (line_size + opt.bus_bytes) + 2 ^ 32 - 1) / opt.bus_bytes
        ok (record sized { miss_penalty = doubles.times fill_transactions opt.bus_penalty }))

  unfoldable pub is_accepted : Options D → Bool
  is_accepted opt =
      not (
        same_text opt.trace_path []
        || opt.sets == 0
        || opt.ways == 0
        || opt.bus_bytes == 0
        || opt.line_transactions == 0
        || opt.line_size == 0
        || not (is_pow2 opt.sets)
        || not (is_pow2 opt.bus_bytes)
        || not (is_pow2 opt.line_size))
      && (same_text opt.repl (codes "fifo")
          || same_text opt.repl (codes "lru")
          || same_text opt.repl (codes "random"))
      && (same_text opt.cache_region (codes "sdram")
          || same_text opt.cache_region (codes "flash")
          || same_text opt.cache_region (codes "psram")
          || same_text opt.cache_region (codes "all"))

  -- `parse_args` after its loop.
  unfoldable pub finish_args : Parsed D → Result (Parsed D)
  finish_args (accepted opt) = do
    opt' ← fill_defaults opt
    ok (if is_accepted opt' then accepted opt' else rejected)
  finish_args rejected = ok rejected
  finish_args exits = ok exits

  -- The arguments without the program's name.
  unfoldable pub parse_args : List (List ℕ) → Result (Parsed D)
  parse_args args = finish_args (parse_loop args default_options)
