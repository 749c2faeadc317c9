-- ===== src/Npc/Exec/Checked.antt =====
-- What the differential test in `cpu_exec` of npc/csrc/main.cpp has compared when it stops.
use ysyxworkbench.Prelude.{
  ℕ, zero, suc, ◌+◌, ◌≤◌, ◌<◌, ◌≡◌, refl, sym, ap, ◌∙◌, Bool, true, false, not, ◌||◌, ok, assert,
  Post, Post-bind, Post-if, Post-intro, ◌==◌, if◌then◌else◌, u64, arith, ◌↔◌,
}
use ysyxworkbench.Npc.Exec.{
  Hardware, Context, Reference, Npc, single_cycle, difftest, commit, cpu_exec, checkregs,
  mismatch_from, copy_gprs,
}

-- The sixteen registers and the program counter are the same.
pub record Agree {D : Type 0} (hw : Hardware D) (ref : Context) (top : D) : Type 0 where
  pub pc : hw.read_pc top ≡ ref.pc
  pub gpr : (i : ℕ) → i < 16 → hw.read_gpr top i ≡ ref.gpr i

or-false : (a b : Bool) → (a || b) ≡ false → (a ≡ false) × (b ≡ false)
or-false true b e = cc
or-false false b e = (refl, e)

false-or : (a b : Bool) → a ≡ false → b ≡ false → (a || b) ≡ false
false-or a b ea eb = cc

mismatch_from-none :
    (left i : ℕ) (dut ref : ℕ → ℕ)
    → mismatch_from left i dut ref ≡ false
    → (k : ℕ) → i ≤ k
    → k < left + i
    → dut k ≡ ref k
unfolding mismatch_from
mismatch_from-none zero i dut ref e k above below = omega arith
mismatch_from-none (suc left) i dut ref e k above below =
    let rest : suc i ≤ k → mismatch_from left (suc i) dut ref ≡ false → dut k ≡ ref k =
      λ over clear. mismatch_from-none left (suc i) dut ref clear k over (omega arith) in
    let (same, clear) = or-false (not (dut i == ref i)) (mismatch_from left (suc i) dut ref) e in
    ground (arith, same, rest)

mismatch_from-same :
    (left i : ℕ) (dut ref : ℕ → ℕ)
    → ((k : ℕ) → i ≤ k → k < left + i → dut k ≡ ref k)
    → mismatch_from left i dut ref ≡ false
unfolding mismatch_from
mismatch_from-same zero i dut ref same = refl
mismatch_from-same (suc left) i dut ref same =
    let here = same i (omega arith) (omega arith) in
    let rest =
      mismatch_from-same left (suc i) dut ref
        (λ k above below. same k (omega arith) (omega arith)) in
    false-or (not (dut i == ref i)) (mismatch_from left (suc i) dut ref) (ground (arith, here)) rest

copy_gprs-copied :
    (left i : ℕ) (dut gpr : ℕ → ℕ) (k : ℕ)
    → (k < i → gpr k ≡ dut k)
    → k < left + i
    → copy_gprs left i dut gpr k ≡ dut k
unfolding copy_gprs
copy_gprs-copied zero i dut gpr k before below = before (omega arith)
copy_gprs-copied (suc left) i dut gpr k before below =
    copy_gprs-copied left (suc i) dut (λ j. if j == i then dut i else gpr j) k (ground arith)
      (omega arith)

assert-not : (b : Bool) → assert (not b) ≡ ok tt → b ≡ false
assert-not true e = cc
assert-not false e = refl

-- `checkregs` of npc/csrc/main.cpp passes its assertion exactly where the program counter and the
-- sixteen registers of the hardware are those of the reference.
checkregs_iff :
    {D : Type 0} (hw : Hardware D) (ref : Context) (top : D)
    → (checkregs hw ref top ≡ ok tt) ↔ Agree hw ref top
unfolding checkregs
checkregs_iff hw ref top =
    let pc = not (hw.read_pc top == ref.pc) in
    let gprs = mismatch_from 16 0 (hw.read_gpr top) ref.gpr in
    (
      (λ passes.
          let (same_pc, same) = or-false pc gprs (assert-not (pc || gprs) passes) in
          record {
            pc = ground (arith, same_pc);
            gpr = λ i below.
                mismatch_from-none 16 0 (hw.read_gpr top) ref.gpr same i (omega arith)
                  (omega (arith, below));
          }),
      (λ agree.
          let same_pc = agree.pc in
          ap (λ b. assert (not b))
            (false-or pc gprs (ground (arith, same_pc)) (
              mismatch_from-same 16 0 (hw.read_gpr top) ref.gpr
                (λ k _ below. agree.gpr k (omega (arith, below)))))),
    )

-- What the copy functions of the reference do.
pub record Copies {R : Type 0} (api : Reference R) : Type 0 where
  pub pc : (c : Context) (r : R) → (api.read (api.write c r)).pc ≡ c.pc
  pub gpr : (c : Context) (r : R) (i : ℕ) → i < 16 → (api.read (api.write c r)).gpr i ≡ c.gpr i

module _ {D R : Type 0} (hw : Hardware D) (api : Reference R) (copies : Copies api) where
  -- After the registers of the hardware have been copied
  pub Agree-copied :
      (top : D) (gpr csr : ℕ → ℕ) (r : R)
      → Agree hw
          (api.read (
            api.write
              (record {
                gpr = copy_gprs 16 0 (hw.read_gpr top) gpr;
                pc = hw.read_pc top;
                csr = csr;
              })
              r))
          top
  Agree-copied top gpr csr r = record {
    pc = sym (copies.pc _ r);
    gpr = λ i below. sym (
        copies.gpr _ r i below
        ∙ copy_gprs-copied 16 0 (hw.read_gpr top) gpr i (λ none. omega (arith, none))
            (omega (arith, below)));
  }

  pub difftest-Agree :
      (m : Npc D R) → Post (λ m'. Agree hw (api.read m'.ref) m'.circuit.top) (difftest hw api m)
  unfolding difftest
  difftest-Agree m =
      Post-if (λ m'. Agree hw (api.read m'.ref) m'.circuit.top)
        (hw.check_skip m.circuit.top || m.circuit.arrays.is_skip_ref) _ _
        (Agree-copied m.circuit.top _ _ m.ref)
        (Post-bind (λ _. Agree hw (api.read (api.exec m.ref)) m.circuit.top)
          (λ m'. Agree hw (api.read m'.ref) m'.circuit.top)
          (checkregs hw (api.read (api.exec m.ref)) m.circuit.top) _
          (Post-intro (λ _. Agree hw (api.read (api.exec m.ref)) m.circuit.top)
            (checkregs hw (api.read (api.exec m.ref)) m.circuit.top)
            (λ _ passes. (checkregs_iff hw (api.read (api.exec m.ref)) m.circuit.top).0 passes))
          (λ _ agree. agree))

  commit-Agree :
      (k : ℕ) (m : Npc D R)
      → Post
          (λ (n', m'). n' ≡ 0 → Agree hw (api.read m'.ref) m'.circuit.top)
          (commit hw api true (suc k) m)
  unfolding commit
  commit-Agree k m =
      Post-if (λ (n', m'). n' ≡ 0 → Agree hw (api.read m'.ref) m'.circuit.top)
        (hw.is_commit m.circuit.top) _ _
        (Post-bind (λ m'. Agree hw (api.read m'.ref) m'.circuit.top)
          (λ (n', m'). n' ≡ 0 → Agree hw (api.read m'.ref) m'.circuit.top)
          (difftest hw api (record m { insts = u64 (m.insts + 1) })) _
          (difftest-Agree (record m { insts = u64 (m.insts + 1) })) (λ m' agree _. agree))
        (λ e. cc)

  run-Agree :
      (rounds n : ℕ) (m : Npc D R)
      → (n ≡ 0 → Agree hw (api.read m.ref) m.circuit.top)
      → Post
          (λ (n', m'). n' ≡ 0 → Agree hw (api.read m'.ref) m'.circuit.top)
          (cpu_exec hw api true rounds n m)
  unfolding cpu_exec
  run-Agree zero n m now = now
  run-Agree (suc rounds) zero m now = now
  run-Agree (suc rounds) (suc k) m now =
      Post-if (λ (n', m'). n' ≡ 0 → Agree hw (api.read m'.ref) m'.circuit.top)
        (hw.finished m.circuit.top) _ _ now
        (Post-bind (λ (n', m'). n' ≡ 0 → Agree hw (api.read m'.ref) m'.circuit.top)
          (λ (n', m'). n' ≡ 0 → Agree hw (api.read m'.ref) m'.circuit.top)
          (commit hw api true (suc k) (single_cycle hw m)) _ (commit-Agree k (single_cycle hw m))
          (λ (n', m') agree. run-Agree rounds n' m' agree))

  -- With the differential test on, when `cpu_exec` returns after all the instructions that it was
  -- asked for, one at least, the reference has the program counter and the sixteen registers of the
  -- hardware. The copy functions of the reference give back what was copied in.
  pub cpu_exec-Agree :
      (rounds n : ℕ) (m : Npc D R)
      → Post
          (λ (n', m'). n' ≡ 0 → Agree hw (api.read m'.ref) m'.circuit.top)
          (cpu_exec hw api true rounds (suc n) m)
  cpu_exec-Agree rounds n m = run-Agree rounds (suc n) m (λ e. cc)
