-- ===== src/Difftest/Checked.antt =====
-- What a step of the differential test finds.
use ysyxworkbench.Prelude.{
  ℕ, zero, suc, ◌+◌, ◌-◌, ◌<◌, ◌≤◌, ◌≡◌, ◌↔◌, refl, ap, ◌⊎◌, true, false, Bool-cases, inl, inr, ok,
  fault, assertion, ltb, ◌==◌, arith,
}
use ysyxworkbench.State.{NemuState, abort}
use ysyxworkbench.Cpu.State.{Cpu}
use ysyxworkbench.Difftest.Step.{
  Ref, Test, same_regs, isa_difftest_checkregs, checkregs, difftest_step,
}

-- The two processors agree on the pc and the registers that exist.
abbrev pub Agree : ℕ → Cpu → Cpu → Type 0
Agree nr_gpr a b = (a.pc ≡ b.pc) × ((i : ℕ) → i < nr_gpr → a.gpr i ≡ b.gpr i)

same_regs-to :
    (a b : Cpu) (i left : ℕ)
    → same_regs a b i left ≡ true
    → (j : ℕ) → i ≤ j
    → j < i + left
    → a.gpr j ≡ b.gpr j
unfolding same_regs
same_regs-to a b i zero h j low high = ground arith
same_regs-to a b i (suc left) h j low high = elim (Bool-cases (i == j)) [
  | inl here ↦ ground (arith, h, ap a.gpr (index here), ap b.gpr (index here))
  | inr later ↦ same_regs-to a b (suc i) left (ground (arith, h)) j (ground arith) (omega arith)
]
  where
    index : (i == j) ≡ true → i ≡ j
    index e = ground arith

same_regs-from :
    (a b : Cpu) (i left : ℕ)
    → ((j : ℕ) → i ≤ j → j < i + left → a.gpr j ≡ b.gpr j)
    → same_regs a b i left ≡ true
unfolding same_regs
same_regs-from a b i zero h = refl
same_regs-from a b i (suc left) h = ground (
  arith,
  h i (omega arith) (omega arith),
  same_regs-from a b (suc i) left (λ j low high. h j (omega arith) (omega arith)),
)

-- `isa_difftest_checkregs` returns true exactly when the two processors have the same pc and the
-- same general registers.
isa_difftest_checkregs-Agree :
    (nr_gpr : ℕ) (a b : Cpu) → (isa_difftest_checkregs nr_gpr a b ≡ true) ↔ Agree nr_gpr a b
unfolding isa_difftest_checkregs
isa_difftest_checkregs-Agree nr_gpr a b = (to, from)
  where
    to : isa_difftest_checkregs nr_gpr a b ≡ true → Agree nr_gpr a b
    to h = (
      ground (arith, h),
      λ i low. same_regs-to a b 0 nr_gpr (ground (arith, h)) i (omega arith) (omega arith),
    )

    from : Agree nr_gpr a b → isa_difftest_checkregs nr_gpr a b ≡ true
    from (pc, gprs) =
        ground (arith, pc, same_regs-from a b 0 nr_gpr (λ j low high. gprs j (omega (arith, high))))

checkregs_agreeing :
    (nr_gpr : ℕ) (a b : Cpu) (pc : ℕ) (nemu : NemuState)
    → Agree nr_gpr a b
    → checkregs nr_gpr a b pc nemu ≡ nemu
unfolding checkregs
checkregs_agreeing nr_gpr a b pc nemu h = rw ((isa_difftest_checkregs-Agree nr_gpr a b).1 h) refl

checkregs_differing :
    (nr_gpr : ℕ) (a b : Cpu) (pc : ℕ) (nemu : NemuState)
    → ¬ Agree nr_gpr a b
    → checkregs nr_gpr a b pc nemu ≡ record nemu { state = abort; halt_pc = pc }
unfolding checkregs
checkregs_differing nr_gpr a b pc nemu h = elim (Bool-cases (isa_difftest_checkregs nr_gpr a b)) [
  | inl same ↦ absurd (h ((isa_difftest_checkregs-Agree nr_gpr a b).0 same))
  | inr other ↦ rw other refl
]

compares :
    {R : Type 0} (nr_gpr : ℕ) (r : Ref R) (cpu : Cpu) (pc npc : ℕ) (t : Test R)
    → ltb 0 t.skip.skip_dut_nr_inst ≡ false
    → t.skip.is_skip_ref ≡ false
    → difftest_step nr_gpr r cpu pc npc t
      ≡ ok (record t {
        ref = r.exec_one t.ref;
        nemu = checkregs nr_gpr cpu (r.get_regs (r.exec_one t.ref)) pc t.nemu;
      })
unfolding difftest_step
compares nr_gpr r cpu pc npc t none_ahead compared = rw (none_ahead, compared) refl

-- A step that compares runs the reference machine once, and leaves the run state alone exactly
-- when the processors then agree; else it aborts at `pc`.
pub difftest_step-checked :
    {R : Type 0} (nr_gpr : ℕ) (r : Ref R) (cpu : Cpu) (pc npc : ℕ) (t : Test R)
    → t.skip.skip_dut_nr_inst ≡ 0
    → t.skip.is_skip_ref ≡ false
    → (t' : Test R) × (difftest_step nr_gpr r cpu pc npc t ≡ ok t')
      × (t'.ref ≡ r.exec_one t.ref)
      × (t'.skip ≡ t.skip)
      × (Agree nr_gpr cpu (r.get_regs t'.ref) → t'.nemu ≡ t.nemu)
      × (¬ Agree nr_gpr cpu (r.get_regs t'.ref) → (t'.nemu.state ≡ abort) × (t'.nemu.halt_pc ≡ pc))
difftest_step-checked {R} nr_gpr r cpu pc npc t none_ahead compared =
    let ref' = r.exec_one t.ref in
    let t' : Test R = record t {
      ref = ref';
      nemu = checkregs nr_gpr cpu (r.get_regs ref') pc t.nemu;
    } in
    (
      t',
      compares nr_gpr r cpu pc npc t (ground (arith, none_ahead)) compared,
      refl,
      refl,
      λ same. checkregs_agreeing nr_gpr cpu (r.get_regs ref') pc t.nemu same,
      λ other.
          (let aborts = checkregs_differing nr_gpr cpu (r.get_regs ref') pc t.nemu other in
            (ap (λ (s : NemuState). s.state) aborts, ap (λ (s : NemuState). s.halt_pc) aborts)),
    )

-- While the reference machine is ahead, a step never runs it: the count of instructions to catch
-- up goes down by one, unless the reference's pc is reached, which ends the wait, or the count
-- runs out, which fails.
difftest_step-ahead :
    {R : Type 0} (nr_gpr : ℕ) (r : Ref R) (cpu : Cpu) (pc npc n : ℕ) (t : Test R)
    → t.skip.skip_dut_nr_inst ≡ suc n
    → (((r.get_regs t.ref).pc ≡ npc)
        × ((t' : Test R) × (difftest_step nr_gpr r cpu pc npc t ≡ ok t')
            × (t'.ref ≡ t.ref)
            × (t'.skip.skip_dut_nr_inst ≡ 0)))
      ⊎ ((n ≡ 0) × (difftest_step nr_gpr r cpu pc npc t ≡ fault assertion))
      ⊎ ((t' : Test R) × (difftest_step nr_gpr r cpu pc npc t ≡ ok t')
          × (t'.ref ≡ t.ref)
          × (t'.nemu ≡ t.nemu)
          × (t'.skip.skip_dut_nr_inst ≡ n))
unfolding difftest_step
difftest_step-ahead {R} nr_gpr r cpu pc npc n t ahead =
    let waits : ltb 0 t.skip.skip_dut_nr_inst ≡ true = ground (arith, ahead) in
    elim (Bool-cases ((r.get_regs t.ref).pc == npc)) [
      | inl reached ↦ inl (
        ground (arith, reached),
        (
          record t {
            skip = record (t.skip) { skip_dut_nr_inst = 0 };
            nemu = checkregs nr_gpr cpu (r.get_regs t.ref) npc t.nemu;
          },
          rw (waits, reached) refl,
          refl,
          refl,
        ),
      )
      | inr apart ↦ elim (Bool-cases (t.skip.skip_dut_nr_inst - 1 == 0)) [
        | inl last ↦ inr (inl (ground (arith, ahead, last), rw (waits, apart, last) refl))
        | inr more ↦ inr (
            inr (
              record t {
                skip = record (t.skip) { skip_dut_nr_inst = t.skip.skip_dut_nr_inst - 1 };
              },
              rw (waits, apart, more) refl,
              refl,
              refl,
              omega (arith, ahead),
            ))
      ]
    ]
