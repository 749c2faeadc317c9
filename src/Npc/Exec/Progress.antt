-- ===== src/Npc/Exec/Progress.antt =====
-- The loop of `cpu_exec` in npc/csrc/main.cpp ends with hardware that commits again and again.
use ysyxworkbench.Prelude.{
  ℕ, zero, suc, ◌+◌, ◌*◌, ◌≤◌, ◌<◌, ◌≡◌, refl, sym, ◌∙◌, Bool, true, false, ok, Post, Post-bind,
  Post-if, Post-branch, if◌then◌else◌, u64, arith, ◌⊎◌, inl, inr,
}
use mathlib.Core.Path.{subst}
use ysyxworkbench.Npc.Uart.{drive_uart_rx}
use ysyxworkbench.Npc.Exec.{
  Circuit, Hardware, Reference, Npc, single_cycle, difftest, commit, cpu_exec,
}
use ysyxworkbench.Npc.Exec.Counts.{IsKept, difftest-IsKept}

-- Out of reset, each cycle commits, finishes the simulation, or brings the next of these nearer;
-- `bound` is the longest that an instruction takes.
pub record Commits {D : Type 0} (hw : Hardware D) (bound : ℕ) : Type 0 where
  pub wait : Circuit D → ℕ
  pub bounded : (c : Circuit D) → wait c ≤ bound
  pub nearer :
      (pin : ℕ) (c : Circuit D)
      → (hw.finished (hw.eval 1 0 pin (hw.eval 0 0 pin c)).top ≡ true)
        ⊎ ((hw.is_commit (hw.eval 1 0 pin (hw.eval 0 0 pin c)).top ≡ true)
            ⊎ (wait (hw.eval 1 0 pin (hw.eval 0 0 pin c)) < wait c))

-- The loop has stopped by itself.
pub record Stops {D R : Type 0} (hw : Hardware D) (n : ℕ) (m : Npc D R) : Type 0 where
  pub stopped : (n ≡ 0) ⊎ (hw.finished m.circuit.top ≡ true)

module _ {D R : Type 0} (hw : Hardware D) (api : Reference R) (bound : ℕ)
    (commits : Commits hw bound) where
  -- At most `left` rounds to go
  data Near (left : ℕ) (n : ℕ) (m : Npc D R) : Type 0 where
    ended : hw.finished m.circuit.top ≡ true → Near left n m
    fresh : n * suc bound ≤ left → Near left n m
    waiting : (k : ℕ) → n ≡ suc k → k * suc bound + commits.wait m.circuit < left → Near left n m

  IsNear : ℕ → ℕ × Npc D R → Type 0
  IsNear left (n, m) = (m.reset_pin ≡ 0) × Near left n m

  commit-IsNear :
      (checked : Bool) (k left : ℕ) (m : Npc D R)
      → m.reset_pin ≡ 0
      → k * suc bound ≤ left
      → (hw.finished m.circuit.top ≡ true)
        ⊎ ((hw.is_commit m.circuit.top ≡ true) ⊎ (k * suc bound + commits.wait m.circuit < left))
      → Post (IsNear left) (commit hw api checked (suc k) m)
  unfolding commit IsNear
  commit-IsNear checked k left m pin few state =
      Post-branch (IsNear left) (hw.is_commit m.circuit.top) _ _
        (λ _.
          Post-bind (IsKept (record m { insts = u64 (m.insts + 1) })) (IsNear left)
            (if checked
              then difftest hw api (record m { insts = u64 (m.insts + 1) })
              else ok (record m { insts = u64 (m.insts + 1) }))
            _
            (Post-if (IsKept (record m { insts = u64 (m.insts + 1) })) checked _ _
              (difftest-IsKept hw api (record m { insts = u64 (m.insts + 1) }))
              (record { insts = refl; cycles = refl; reset_pin = refl; top = refl }))
            (λ m' kept. (kept.reset_pin ∙ pin, fresh (grind (arith, few)))))
        (λ waits. (
          pin,
          elim state [
            | inl ends ↦ ended ends
            | inr (inl now) ↦ cc
            | inr (inr soon) ↦ waiting k refl soon
          ],
        ))

  after_cycle :
      (k left p pin : ℕ) (c : Circuit D)
      → p ≡ 0
      → k * suc bound + commits.wait c ≤ left
      → (hw.finished (hw.eval 1 p pin (hw.eval 0 p pin c)).top ≡ true)
        ⊎ ((hw.is_commit (hw.eval 1 p pin (hw.eval 0 p pin c)).top ≡ true)
            ⊎ (k * suc bound + commits.wait (hw.eval 1 p pin (hw.eval 0 p pin c)) < left))
  after_cycle k left p pin c e soon =
      subst
        (λ p.
          (hw.finished (hw.eval 1 p pin (hw.eval 0 p pin c)).top ≡ true)
          ⊎ ((hw.is_commit (hw.eval 1 p pin (hw.eval 0 p pin c)).top ≡ true)
              ⊎ (k * suc bound + commits.wait (hw.eval 1 p pin (hw.eval 0 p pin c)) < left)))
        (sym e)
        (elim (commits.nearer pin c) [
          | inl ends ↦ inl ends
          | inr (inl now) ↦ inr (inl now)
          | inr (inr less) ↦ inr (inr (omega (arith, soon, less)))
        ])

  cycle-IsNear :
      (checked : Bool) (k left : ℕ) (m : Npc D R)
      → m.reset_pin ≡ 0
      → k * suc bound + commits.wait m.circuit ≤ left
      → Post (IsNear left) (commit hw api checked (suc k) (single_cycle hw m))
  unfolding single_cycle
  cycle-IsNear checked k left m pin soon =
      commit-IsNear checked k left (single_cycle hw m) pin (omega (arith, soon))
        (after_cycle k left m.reset_pin (drive_uart_rx m.uart).1 m.circuit pin soon)

  soon_enough :
      (k left : ℕ) (m : Npc D R)
      → Near (suc left) (suc k) m
      → hw.finished m.circuit.top ≡ false
      → k * suc bound + commits.wait m.circuit ≤ left
  soon_enough k left m (ended ends) goes = cc
  soon_enough k left m (fresh enough) goes =
      let within = commits.bounded m.circuit in omega (arith, within, enough)
  soon_enough k left m (waiting j e soon) goes = grind (arith, e, soon)

  run-Stops :
      (checked : Bool) (rounds n : ℕ) (m : Npc D R)
      → IsNear rounds (n, m)
      → Post (λ (n', m'). Stops hw n' m') (cpu_exec hw api checked rounds n m)
  unfolding cpu_exec IsNear
  run-Stops checked zero n m (pin, ended ends) = record { stopped = inr ends }
  run-Stops checked zero n m (pin, fresh enough) = record { stopped = inl grind (arith, enough) }
  run-Stops checked zero n m (pin, waiting k e soon) = record {
    stopped = inl (omega (arith, soon));
  }
  run-Stops checked (suc rounds) zero m near = record { stopped = inl refl }
  run-Stops checked (suc rounds) (suc k) m (pin, near) =
      Post-branch (λ (n', m'). Stops hw n' m') (hw.finished m.circuit.top) _ _
        (λ ends. record { stopped = inr ends })
        (λ goes.
          Post-bind (IsNear rounds) (λ (n', m'). Stops hw n' m')
            (commit hw api checked (suc k) (single_cycle hw m)) _
            (cycle-IsNear checked k rounds m pin (soon_enough k rounds m near goes))
            (λ (n', m') near'. run-Stops checked rounds n' m' near'))

  -- `cpu_exec` ends: when out of reset each instruction of the hardware takes at most `bound` + 1
  -- cycles, or the simulation finishes, `n * (bound + 1)` rounds are enough to run `n` instructions:
  -- the loop stops by a failed assertion, with no instruction to go, or with the simulation finished.
  pub cpu_exec-Stops :
      (checked : Bool) (rounds n : ℕ) (m : Npc D R)
      → m.reset_pin ≡ 0
      → n * suc bound ≤ rounds
      → Post (λ (n', m'). Stops hw n' m') (cpu_exec hw api checked rounds n m)
  unfolding IsNear
  cpu_exec-Stops checked rounds n m pin enough = run-Stops checked rounds n m (pin, fresh enough)
