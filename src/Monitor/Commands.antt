-- ===== src/Monitor/Commands.antt =====
-- The commands of the debugger: nemu/src/monitor/sdb/sdb.c. Readline, `strtok` and `sscanf` are
-- parameters or done before: a command is its name and the text after it, NULL is `none`. What is
-- printed is left out, but for the words of `x` and the value of `p`.
use ysyxworkbench.Prelude.{
  ℕ, zero, suc, ◌+◌, ◌-◌, ◌^◌, Bool, true, false, Option, none, some, Result, ok, ◌>>=◌, List, [],
  ◌∷◌, leb, if◌then◌else◌, u32,
}
use ysyxworkbench.State.{quit}
use ysyxworkbench.Memory.{Store, vaddr_read}
use ysyxworkbench.Prelude.{codes}
use ysyxworkbench.Cpu.Exec.{Platform}
use ysyxworkbench.Monitor.Watchpoint.{add_watchpoint, delete_watchpoint}
use ysyxworkbench.Prelude.{same_text}
use ysyxworkbench.Monitor.Expr.Eval.{expr}
use ysyxworkbench.Run.{Nemu, cpu_exec, set_run_state}

-- What a command shows of its results.
pub data Shown : Type 0 where
  nothing failed : Shown
  words : List ℕ → Shown
  value : ℕ → Shown

-- `sscanf(args, "%d", ...)` gives an `int` as its bit pattern, and `scan_two` is the one of
-- `cmd_x`.
module _ {S : Type 0} (nr_gpr : ℕ) (platform : Platform S) (regexec : ℕ → List ℕ → Option ℕ)
    (update : Nemu S → Result (Nemu S)) (scan_int : List ℕ → Option ℕ)
    (scan_two : List ℕ → Option (ℕ × ℕ)) where
  -- Whether the loop ends, what is shown, and the new state.
  abbrev pub Outcome : Type 0
  Outcome = Result (Bool × Shown × Nemu S)

  abbrev go_on : Shown → Nemu S → Outcome
  go_on shown n = ok (false, shown, n)

  abbrev with_store : Nemu S → Store S → Nemu S
  with_store n st = record n { machine = record (n.machine) { store = st } }

  unfoldable pub cmd_c : Nemu S → Outcome
  cmd_c n = do n' ← cpu_exec nr_gpr platform regexec update (2 ^ 64 - 1) n; go_on nothing n'

  unfoldable pub cmd_q : Nemu S → Outcome
  cmd_q n = ok (true, nothing, set_run_state quit n)

  -- An `int` as the `uint64_t` argument of `cpu_exec`.
  abbrev pub as_count : ℕ → ℕ
  as_count n = if leb (2 ^ 31) n then n + 2 ^ 64 - 2 ^ 32 else n

  unfoldable pub cmd_si : Option (List ℕ) → Nemu S → Outcome
  cmd_si none n = do n' ← cpu_exec nr_gpr platform regexec update 1 n; go_on nothing n'
  cmd_si (some args) n = elim (scan_int args) [
    | none ↦ go_on failed n
    | some k ↦ (do n' ← cpu_exec nr_gpr platform regexec update (as_count k) n; go_on nothing n')
  ]

  unfoldable pub cmd_w : Option (List ℕ) → Nemu S → Outcome
  cmd_w none n = go_on failed n
  cmd_w (some args) n = do
    let evaluate = expr platform.mmio n.machine.cpu regexec
    (added, pool', st) ← add_watchpoint evaluate args n.pool n.machine.store
    go_on (if added then nothing else failed) (with_store (record n { pool = pool' }) st)

  -- A negative number is the number of no watchpoint.
  unfoldable pub cmd_d : Option (List ℕ) → Nemu S → Outcome
  cmd_d none n = go_on failed n
  cmd_d (some args) n = elim (scan_int args) [
    | none ↦ go_on failed n
    | some k ↦ (do pool' ← delete_watchpoint k n.pool; go_on nothing (record n { pool = pool' }))
  ]

  -- The loop of `cmd_x` with `left` words to go.
  unfoldable pub read_words : ℕ → ℕ → Store S → Result (List ℕ × Store S)
  read_words zero addr st = ok ([], st)
  read_words (suc left) addr st = do
    (v, st') ← vaddr_read platform.mmio addr 4 st
    (vs, st'') ← read_words left (u32 (addr + 4)) st'
    ok (v ∷ vs, st'')

  unfoldable pub cmd_x : Option (List ℕ) → Nemu S → Outcome
  unfolding read_words
  cmd_x none n = go_on failed n
  cmd_x (some args) n = elim (scan_two args) [
    | none ↦ go_on failed n
    | some r ↦ (do
      let count = if leb (2 ^ 31) r.0 then 0 else r.0
      (vs, st) ← read_words count r.1 n.machine.store
      go_on (words vs) (with_store n st))
  ]

  unfoldable pub cmd_p : Option (List ℕ) → Nemu S → Outcome
  cmd_p none n = go_on failed n
  cmd_p (some args) n = do
    (v, success, st) ← expr platform.mmio n.machine.cpu regexec args n.machine.store
    go_on (if success then value v else failed) (with_store n st)

  -- `cmd_table` and the body of the loop of `sdb_mainloop`; `help` and `info` only print.
  unfoldable pub run_command : List ℕ → Option (List ℕ) → Nemu S → Outcome
  unfolding cmd_c cmd_q cmd_si cmd_w cmd_d cmd_x cmd_p
  run_command name args n =
      if same_text name (codes "help")
      then go_on nothing n
      else if same_text name (codes "c")
      then cmd_c n
      else if same_text name (codes "q")
      then cmd_q n
      else if same_text name (codes "si")
      then cmd_si args n
      else if same_text name (codes "info")
      then go_on nothing n
      else if same_text name (codes "x")
      then cmd_x args n
      else if same_text name (codes "p")
      then cmd_p args n
      else if same_text name (codes "w")
      then cmd_w args n
      else if same_text name (codes "d")
      then cmd_d args n
      else go_on failed n
