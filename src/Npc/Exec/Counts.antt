-- ===== src/Npc/Exec/Counts.antt =====
-- The counters of npc/csrc/main.cpp over a run of `cpu_exec`.
use ysyxworkbench.Prelude.{
  ℕ, zero, suc, ◌+◌, ◌^◌, ◌≤◌, ◌<◌, ◌≡◌, refl, Bool, ◌||◌, ok, Post, Post-bind, Post-true, Post-if,
  Post-weaken, if◌then◌else◌, u64, arith,
}
use ysyxworkbench.Npc.Exec.{
  Hardware, Reference, Npc, single_cycle, difftest, commit, cpu_exec, checkregs,
}

-- What the differential test leaves as it was.
pub record IsKept {D R : Type 0} (m m' : Npc D R) : Type 0 where
  pub insts : m'.insts ≡ m.insts
  pub cycles : m'.cycles ≡ m.cycles
  pub reset_pin : m'.reset_pin ≡ m.reset_pin
  pub top : m'.circuit.top ≡ m.circuit.top

-- A part of a run: the instructions to go at its ends, and the cycles that it may take.
record IsCounted {D R : Type 0} (rounds n n' : ℕ) (m m' : Npc D R) : Type 0 where
  pub insts : m'.insts + n' ≡ m.insts + n
  pub started : m.cycles ≤ m'.cycles
  pub cycles : m'.cycles ≤ m.cycles + rounds

module _ {D R : Type 0} (hw : Hardware D) (api : Reference R) where
  pub difftest-IsKept : (m : Npc D R) → Post (IsKept m) (difftest hw api m)
  unfolding difftest
  difftest-IsKept m =
      Post-if (IsKept m) (hw.check_skip m.circuit.top || m.circuit.arrays.is_skip_ref) _ _
        (record { insts = refl; cycles = refl; reset_pin = refl; top = refl })
        (Post-bind (λ _. Unit {0}) (IsKept m)
          (checkregs hw (api.read (api.exec m.ref)) m.circuit.top) _
          (Post-true (checkregs hw (api.read (api.exec m.ref)) m.circuit.top))
          (λ _ _. record { insts = refl; cycles = refl; reset_pin = refl; top = refl }))

  commit-IsCounted :
      (checked : Bool) (k : ℕ) (m : Npc D R)
      → m.insts + suc k < 2 ^ 64
      → Post (λ (n', m'). IsCounted 0 (suc k) n' m m') (commit hw api checked (suc k) m)
  unfolding commit
  commit-IsCounted checked k m small =
      Post-if (λ (n', m'). IsCounted 0 (suc k) n' m m') (hw.is_commit m.circuit.top) _ _
        (Post-bind (IsKept (record m { insts = u64 (m.insts + 1) }))
          (λ (n', m'). IsCounted 0 (suc k) n' m m')
          (if checked
            then difftest hw api (record m { insts = u64 (m.insts + 1) })
            else ok (record m { insts = u64 (m.insts + 1) }))
          _
          (Post-if (IsKept (record m { insts = u64 (m.insts + 1) })) checked _ _
            (difftest-IsKept (record m { insts = u64 (m.insts + 1) }))
            (record { insts = refl; cycles = refl; reset_pin = refl; top = refl }))
          (λ m' kept.
            let insts = kept.insts in
            let cycles = kept.cycles in
            record {
              insts = omega (arith, insts, small);
              started = omega (arith, cycles);
              cycles = omega (arith, cycles);
            }))
        (record { insts = refl; started = omega arith; cycles = omega arith })

  -- A run of `cpu_exec` that returns has counted each instruction: the counter and the instructions to
  -- go have the same sum before and after, and the cycles counted are at most one for each round.
  -- Neither counter may reach 2^64.
  cpu_exec-IsCounted :
      (checked : Bool) (rounds n : ℕ) (m : Npc D R)
      → m.insts + n < 2 ^ 64
      → m.cycles + rounds < 2 ^ 64
      → Post (λ (n', m'). IsCounted rounds n n' m m') (cpu_exec hw api checked rounds n m)
  unfolding cpu_exec single_cycle
  cpu_exec-IsCounted checked zero n m small enough = record {
    insts = refl;
    started = omega arith;
    cycles = omega arith;
  }
  cpu_exec-IsCounted checked (suc rounds) zero m small enough = record {
    insts = refl;
    started = omega arith;
    cycles = omega arith;
  }
  cpu_exec-IsCounted checked (suc rounds) (suc k) m small enough =
      Post-if (λ (n', m'). IsCounted (suc rounds) (suc k) n' m m') (hw.finished m.circuit.top) _ _
        (record { insts = refl; started = omega arith; cycles = omega arith })
        (Post-bind (λ (n', m'). IsCounted 0 (suc k) n' (single_cycle hw m) m')
          (λ (n', m'). IsCounted (suc rounds) (suc k) n' m m')
          (commit hw api checked (suc k) (single_cycle hw m)) _
          (commit-IsCounted checked k (single_cycle hw m) small)
          (λ (n', m') one.
            let insts = one.insts in
            let started = one.started in
            let cycles = one.cycles in
            Post-weaken (λ (n'', m''). IsCounted rounds n' n'' m' m'')
              (λ (n'', m''). IsCounted (suc rounds) (suc k) n'' m m'')
              (cpu_exec hw api checked rounds n' m')
              (cpu_exec-IsCounted checked rounds n' m' (omega (arith, insts))
                (omega (arith, cycles)))
              (λ (n'', m'') rest.
                let insts' = rest.insts in
                let started' = rest.started in
                let cycles' = rest.cycles in
                record {
                  insts = omega (arith, insts, insts');
                  started = omega (arith, started, started', enough);
                  cycles = omega (arith, cycles, cycles');
                })))
