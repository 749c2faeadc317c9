-- ===== src/Cpu/Bounds/Steps.antt =====
-- The steps that the bodies of the INSTPATs are made of keep every width.
use ysyxworkbench.Prelude.{
  ℕ, ◌+◌, ◌^◌, ◌<◌, Bool, true, false, Result, ok, fault, Post, Post-bind, Post-if, ◌==◌, arith,
  Result-cases, inl, inr, u32,
}
use ysyxworkbench.State.{RunState, abort}
use ysyxworkbench.Memory.{Store, vaddr_ifetch, vaddr_read, vaddr_write}
use ysyxworkbench.Cpu.State.{Cpu, set_reg}
use ysyxworkbench.Cpu.Operand.{Operands, bits}
use ysyxworkbench.Cpu.Exec.{
  Platform, Machine, Decode, set_nemu_state, invalid_inst, write_rd, write_result, load, save,
  branch, csr, csr_access, jump,
}
use ysyxworkbench.Cpu.Bounds.{
  PlatformLaws, Fits, set_reg-Fits, StoreFits, paddr_read-fits, paddr_write-fits, MachineFits,
  StepFits,
}

pub csrs-Fits :
    (cpu : Cpu)
    → Fits cpu
    → (a b c d : ℕ) → a < 2 ^ 32
    → b < 2 ^ 32
    → c < 2 ^ 32
    → d < 2 ^ 32
    → Fits (record cpu { mepc = a; mcause = b; mstatus = c; mtvec = d })
csrs-Fits cpu f a b c d ha hb hc hd = record {
  gpr_fits = f.gpr_fits;
  pc_fits = f.pc_fits;
  mepc_fits = ha;
  mcause_fits = hb;
  mstatus_fits = hc;
  mtvec_fits = hd;
}

module _ {S : Type 0} (p : Platform S) (laws : PlatformLaws p) (nr : ℕ) where
  pub set_nemu_state-fits :
      (m : Machine S) (state : RunState) (pc ret : ℕ)
      → MachineFits p laws m
      → MachineFits p laws (set_nemu_state nr p state pc ret m)
  unfolding set_nemu_state
  set_nemu_state-fits m state pc ret f = record {
    cpu_fits = f.cpu_fits;
    store_fits = record {
      bytes = f.store_fits.bytes;
      good = laws.skip_good m.store.io f.store_fits.good;
    };
  }

  vaddr_read-fits :
      (addr len : ℕ) (st : Store S)
      → StoreFits p laws st
      → Post (λ r. (r.0 < 2 ^ 32) × StoreFits p laws r.1) (vaddr_read p.mmio addr len st)
  unfolding vaddr_read
  vaddr_read-fits addr len st f = elim (Result-cases (vaddr_read p.mmio addr len st)) [
    | inl ((v, st'), e) ↦ rw e (paddr_read-fits p laws addr len v st st' f e)
    | inr (k, e) ↦ rw e tt
  ]

  pub vaddr_ifetch-fits :
      (addr len : ℕ) (st : Store S)
      → StoreFits p laws st
      → Post (λ r. (r.0 < 2 ^ 32) × StoreFits p laws r.1) (vaddr_ifetch p.mmio addr len st)
  unfolding vaddr_ifetch
  vaddr_ifetch-fits addr len st f = elim (Result-cases (vaddr_ifetch p.mmio addr len st)) [
    | inl ((v, st'), e) ↦ rw e (paddr_read-fits p laws addr len v st st' f e)
    | inr (k, e) ↦ rw e tt
  ]

  vaddr_write-fits :
      (addr len word : ℕ) (st : Store S)
      → StoreFits p laws st
      → Post (StoreFits p laws) (vaddr_write p.mmio addr len word st)
  unfolding vaddr_write
  vaddr_write-fits addr len word st f = elim (Result-cases (vaddr_write p.mmio addr len word st)) [
    | inl (st', e) ↦ rw e (paddr_write-fits p laws addr len word st st' f e)
    | inr (k, e) ↦ rw e tt
  ]

  set_reg-MachineFits :
      (i v : ℕ) (cpu : Cpu) → Fits cpu → v < 2 ^ 32 → Post Fits (set_reg nr cpu i v)
  set_reg-MachineFits i v cpu f small = elim (Result-cases (set_reg nr cpu i v)) [
    | inl (cpu', e) ↦ rw e (set_reg-Fits nr i v cpu cpu' f small e)
    | inr (k, e) ↦ rw e tt
  ]

  module _ (s : Decode) (here : s.pc < 2 ^ 32) (following : s.snpc < 2 ^ 32) (o : Operands) where
    pub write_rd-fits :
        (m : Machine S) (v : ℕ)
        → MachineFits p laws m
        → v < 2 ^ 32
        → StepFits p laws (write_rd nr p s o v m)
    unfolding write_rd
    write_rd-fits m v f small =
        Post-bind Fits _ (set_reg nr m.cpu o.rd v) _
          (set_reg-MachineFits o.rd v m.cpu f.cpu_fits small)
          λ cpu' fits. (following, record { cpu_fits = fits; store_fits = f.store_fits })

    pub write_result-fits :
        (m : Machine S) (r : Result ℕ)
        → MachineFits p laws m
        → Post (λ v. v < 2 ^ 32) r
        → StepFits p laws (write_result nr p s o r m)
    unfolding write_result
    write_result-fits m (ok v) f small = write_rd-fits m v f small
    write_result-fits m (fault k) f small = tt

    pub load-fits :
        (m : Machine S) (len : ℕ) (extend : ℕ → ℕ)
        → MachineFits p laws m
        → ((v : ℕ) → v < 2 ^ 32 → extend v < 2 ^ 32)
        → StepFits p laws (load nr p s o len extend m)
    unfolding load
    load-fits m len extend f small =
        Post-bind _ _ (vaddr_read p.mmio (u32 (o.src1 + o.imm)) len m.store) _
          (vaddr_read-fits (u32 (o.src1 + o.imm)) len m.store f.store_fits)
          λ r (fits, st_fits).
            write_rd-fits (record m { store = r.1 }) (extend r.0)
              (record { cpu_fits = f.cpu_fits; store_fits = st_fits }) (small r.0 fits)

    pub save-fits :
        (m : Machine S) (len : ℕ) → MachineFits p laws m → StepFits p laws (save nr p s o len m)
    unfolding save
    save-fits m len f =
        Post-bind _ _ (vaddr_write p.mmio (u32 (o.src1 + o.imm)) len o.src2 m.store) _
          (vaddr_write-fits (u32 (o.src1 + o.imm)) len o.src2 m.store f.store_fits)
          λ st fits. (following, record { cpu_fits = f.cpu_fits; store_fits = fits })

    pub branch-fits :
        (m : Machine S) (taken : Bool)
        → MachineFits p laws m
        → StepFits p laws (branch nr p s o taken m)
    unfolding branch
    branch-fits m true f = (omega arith, f)
    branch-fits m false f = (following, f)

    csr_access-Fits :
        (idx : ℕ) (update : ℕ → ℕ) (cpu : Cpu)
        → Fits cpu
        → ((v : ℕ) → v < 2 ^ 32 → update v < 2 ^ 32)
        → Post (λ r. (r.0 < 2 ^ 32) × Fits r.1) (csr_access idx update cpu)
    unfolding csr_access
    csr_access-Fits idx update cpu f small =
        let P : ℕ × Cpu → Type 0 = λ r. (r.0 < 2 ^ 32) × Fits r.1 in
        Post-if P (idx == 0x300) _ _
          (
            f.mstatus_fits,
            csrs-Fits cpu f cpu.mepc cpu.mcause (update cpu.mstatus) cpu.mtvec f.mepc_fits
                f.mcause_fits (small cpu.mstatus f.mstatus_fits) f.mtvec_fits,
          )
          (Post-if P (idx == 0x305) _ _
            (
              f.mtvec_fits,
              csrs-Fits cpu f cpu.mepc cpu.mcause cpu.mstatus (update cpu.mtvec) f.mepc_fits
                  f.mcause_fits f.mstatus_fits (small cpu.mtvec f.mtvec_fits),
            )
            (Post-if P (idx == 0x341) _ _
              (
                f.mepc_fits,
                csrs-Fits cpu f (update cpu.mepc) cpu.mcause cpu.mstatus cpu.mtvec
                    (small cpu.mepc f.mepc_fits) f.mcause_fits f.mstatus_fits f.mtvec_fits,
              )
              (Post-if P (idx == 0x342) _ _
                (
                  f.mcause_fits,
                  csrs-Fits cpu f cpu.mepc (update cpu.mcause) cpu.mstatus cpu.mtvec f.mepc_fits
                      (small cpu.mcause f.mcause_fits) f.mstatus_fits f.mtvec_fits,
                )
                (Post-if P (idx == 0xf11) _ _ (omega arith, f)
                  (Post-if P (idx == 0xf12) _ _ (omega arith, f) tt)))))

    pub csr-fits :
        (m : Machine S) (update : ℕ → ℕ)
        → MachineFits p laws m
        → ((v : ℕ) → v < 2 ^ 32 → update v < 2 ^ 32)
        → StepFits p laws (csr nr p s o update m)
    unfolding csr
    csr-fits m update f small =
        Post-bind _ _ (csr_access (bits s.inst 31 20) update m.cpu) _
          (csr_access-Fits (bits s.inst 31 20) update m.cpu f.cpu_fits small)
          λ r (fits, cpu_fits).
            write_rd-fits (record m { cpu = r.1 }) r.0
              (record { cpu_fits = cpu_fits; store_fits = f.store_fits }) fits

    pub jump-fits :
        (m : Machine S) (dnpc rs1 : ℕ) (is_jalr : Bool)
        → MachineFits p laws m
        → dnpc < 2 ^ 32
        → StepFits p laws (jump nr p s o dnpc rs1 is_jalr m)
    unfolding jump
    jump-fits m dnpc rs1 is_jalr f small =
        Post-bind Fits _ (set_reg nr m.cpu o.rd (u32 (s.pc + 4))) _
          (set_reg-MachineFits o.rd (u32 (s.pc + 4)) m.cpu f.cpu_fits (omega arith))
          λ cpu' fits. (small, record { cpu_fits = fits; store_fits = f.store_fits })

    pub invalid_inst-fits :
        (m : Machine S)
        → MachineFits p laws m
        → Post (MachineFits p laws) (invalid_inst nr p s.pc m)
    unfolding invalid_inst
    invalid_inst-fits m f =
        Post-bind _ _ (vaddr_ifetch p.mmio s.pc 4 m.store) _
          (vaddr_ifetch-fits s.pc 4 m.store f.store_fits)
          λ r (_, fits).
            Post-bind _ _ (vaddr_ifetch p.mmio (u32 (s.pc + 4)) 4 r.1) _
              (vaddr_ifetch-fits (u32 (s.pc + 4)) 4 r.1 fits)
              λ r' (_, fits').
                set_nemu_state-fits (record m { store = r'.1 }) abort s.pc 0xffff_ffff
                  (record { cpu_fits = f.cpu_fits; store_fits = fits' })
