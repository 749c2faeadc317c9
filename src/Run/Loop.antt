-- ===== src/Run/Loop.antt =====
-- The run states that the main loop leaves, and the instructions that it runs.
use ysyxworkbench.Prelude.{
  ℕ, zero, suc, ◌+◌, ◌^◌, ◌<◌, ◌≤◌, ◌≡◌, refl, Bool, true, false, if_cases, Result, ok, fault,
  ◌>>=◌, List, Option, if◌then◌else◌, u64, Post, Post-bind, Post-true, Post-weaken, Post-intro,
  Post-eq_ok, arith,
}
use ysyxworkbench.State.{running, stop, is_running}
use ysyxworkbench.Cpu.Exec.{Platform, Machine, exec_once}
use ysyxworkbench.Monitor.Watchpoint.{check_watchpoints}
use ysyxworkbench.Monitor.Expr.Eval.{expr}
use ysyxworkbench.Run.{
  Nemu, run_state, set_run_state, has_ended, trace_and_difftest, execute_one, execute, cpu_exec,
}

module _ {S : Type 0} (nr_gpr : ℕ) (platform : Platform S) (regexec : ℕ → List ℕ → Option ℕ)
    (update : Nemu S → Result (Nemu S)) where
  -- In a run that has ended, `cpu_exec` changes nothing. Else, if it returns, the run state is not
  -- running.
  pub cpu_exec_stops :
      (k : ℕ) (n : Nemu S)
      → (has_ended (run_state n) ≡ true → cpu_exec nr_gpr platform regexec update k n ≡ ok n)
        × (has_ended (run_state n) ≡ false
            → Post
                (λ n'. is_running (run_state n') ≡ false)
                (cpu_exec nr_gpr platform regexec update k n))
  unfolding cpu_exec
  cpu_exec_stops k n = (
    λ ended. rw (cpu_exec, ended) refl,
    λ open_run.
        rw (Post, cpu_exec, open_run)
          (stops (execute nr_gpr platform regexec update k (set_run_state running n))),
  )
    where
      stops :
          (r : Result (Nemu S))
          → Post
              (λ n'. is_running (run_state n') ≡ false)
              (r >>= λ n'. ok (if is_running (run_state n') then set_run_state stop n' else n'))
      stops (ok n') =
          if_cases (λ (m : Nemu S). is_running (run_state m) ≡ false) (is_running (run_state n')) _
            _ (λ _. refl) (λ h. h)
      stops (fault f) = tt

  -- One instruction with what `trace_and_difftest` makes of it, whatever the count is then.
  abbrev pub Round : Nemu S → Nemu S → Type 0
  Round n n' =
      (m : Machine S) × (count : ℕ) × (exec_once nr_gpr platform n.machine.cpu.pc n.machine ≡ ok m)
      × (trace_and_difftest nr_gpr platform regexec update
            (record n { machine = m; nr_guest_inst = count })
          ≡ ok n')

  -- The instructions that have been run from one state to another: the last one leaves the run
  -- state not running, or there is no round to go.
  pub data Ran : ℕ → Nemu S → Nemu S → Type 0 where
    no_rounds : (n : Nemu S) → Ran 0 n n
    stopped : {n n' : Nemu S} → Round n n' → is_running (run_state n') ≡ false → Ran 1 n n'
    one_more :
        {k : ℕ} {n n' m n'' : Nemu S}
        → Round n n'
        → is_running (run_state n') ≡ true
        → update n' ≡ ok m
        → Ran k m n''
        → Ran (suc k) n n''

  -- The instructions run, as counted by `g_nr_guest_inst`.
  abbrev pub Counted : ℕ → Nemu S → Nemu S → Type 0
  Counted k n n' =
      (steps : ℕ) × (steps ≤ k)
      × Ran steps n n'
      × (n'.nr_guest_inst ≡ u64 (n.nr_guest_inst + steps))
      × (is_running (run_state n') ≡ true → steps ≡ k)

  trace_and_difftest-keeps :
      (n : Nemu S)
      → Post
          (λ n'. n'.nr_guest_inst ≡ n.nr_guest_inst)
          (trace_and_difftest nr_gpr platform regexec update n)
  unfolding trace_and_difftest
  trace_and_difftest-keeps n =
      let Q : Nemu S → Type 0 = λ n'. n'.nr_guest_inst ≡ n.nr_guest_inst in
      Post-bind (λ _. Unit {0}) Q
        (check_watchpoints (expr platform.mmio n.machine.cpu regexec) n.pool n.machine.store) _
        (Post-true _) (λ r _. if_cases Q r.0 _ _ (λ _. refl) (λ _. refl))

  abbrev OneMore : Nemu S → Nemu S → Type 0
  OneMore n n' = Round n n' × (n'.nr_guest_inst ≡ u64 (n.nr_guest_inst + 1))

  execute_one-counts :
      (n : Nemu S) → Post (OneMore n) (execute_one nr_gpr platform regexec update n)
  unfolding execute_one
  execute_one-counts n =
      let runs = exec_once nr_gpr platform n.machine.cpu.pc n.machine in
      Post-bind (λ m. runs ≡ ok m) (OneMore n) runs _
        (Post-intro (λ m. runs ≡ ok m) runs (λ m e. e))
        (λ m e.
          let ran = record n { machine = m; nr_guest_inst = u64 (n.nr_guest_inst + 1) } in
          let traced = trace_and_difftest nr_gpr platform regexec update ran in
          Post-intro (OneMore n) traced (λ n' e'. (
            (m, u64 (n.nr_guest_inst + 1), e, e'),
            Post-eq_ok (λ n'. n'.nr_guest_inst ≡ ran.nr_guest_inst) traced
                (trace_and_difftest-keeps ran) e',
          )))

  Counted-next :
      (k : ℕ) (n n' : Nemu S)
      → OneMore n n'
      → ((m : Nemu S) → Post (λ m'. m'.nr_guest_inst ≡ m.nr_guest_inst) (update m))
      → ((m : Nemu S)
          → m.nr_guest_inst < 2 ^ 64
          → Post (Counted k m) (execute nr_gpr platform regexec update k m))
      → (b : Bool) → is_running (run_state n') ≡ b
      → Post
          (Counted (suc k) n)
          (elim b [ true ↦ update n' >>= execute nr_gpr platform regexec update k | false ↦ ok n' ])
  Counted-next k n n' (round, e) keeps rest true running_on =
      Post-bind (λ m. update n' ≡ ok m) (Counted (suc k) n) (update n') _
        (Post-intro (λ m. update n' ≡ ok m) (update n') (λ m e. e))
        (λ m updated.
          let same =
            Post-eq_ok (λ m. m.nr_guest_inst ≡ n'.nr_guest_inst) (update n') (keeps n') updated in
          Post-weaken (Counted k m) (Counted (suc k) n) (execute nr_gpr platform regexec update k m)
            (rest m (omega (arith, e, same)))
            (λ n'' (steps, few, ran, count, all). (
              suc steps,
              omega (arith, few),
              one_more round running_on updated ran,
              omega (arith, e, same, count),
              λ on. omega (arith, all on),
            )))
  Counted-next k n n' (round, e) keeps rest false no_more =
      (1, omega arith, stopped round no_more, e, λ on. cc)

  -- `execute` of `k` rounds, if it returns, has run some number of instructions, at most `k`: each but
  -- the last with the run state running after it and the devices updated, and all `k` of them when
  -- the run state is running at its end. `g_nr_guest_inst` has grown by that number, the last
  -- instruction included, modulo 2^64. The update of the devices must not touch the count.
  pub execute-Counted :
      (k : ℕ) (n : Nemu S)
      → n.nr_guest_inst < 2 ^ 64
      → ((m : Nemu S) → Post (λ m'. m'.nr_guest_inst ≡ m.nr_guest_inst) (update m))
      → Post (Counted k n) (execute nr_gpr platform regexec update k n)
  unfolding execute
  execute-Counted zero n small keeps = (0, omega arith, no_rounds n, omega arith, λ _. refl)
  execute-Counted (suc k) n small keeps =
      Post-bind (OneMore n) (Counted (suc k) n) (execute_one nr_gpr platform regexec update n) _
        (execute_one-counts n)
        (λ n' round.
          Counted-next k n n' round keeps (λ m small'. execute-Counted k m small' keeps)
            (is_running (run_state n')) refl)
