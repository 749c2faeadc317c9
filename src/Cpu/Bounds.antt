-- ===== src/Cpu/Bounds.antt =====
-- Every register and every byte keeps its width, whatever instruction runs.
pub mod Values
pub mod Steps
pub mod Bodies
pub mod Exec
use mathlib.Core.Path.{subst}
use ysyxworkbench.Cpu.Operand.{Operands}
use ysyxworkbench.Cpu.Exec.{set_nemu_state, write_rd, write_result, load, save, branch}
use ysyxworkbench.Prelude.{
  true, false, ℕ, ◌+◌, ◌^◌, ◌<◌, ◌≡◌, refl, Option, some, none, Bool, Result, ok, fault, Post,
  ◌>>=◌, arith, Result-cases, Option-cases, Bool-cases, inl, inr, u32, slt32, to_int, ltb, bit_and,
  bit_or, bit_xor,
}
use ysyxworkbench.Memory.{
  size, host_read, guest_to_host, pmem_write, Bus, Store, paddr_read, paddr_write, vaddr_ifetch,
  vaddr_read, vaddr_write, pmem_read,
}
use ysyxworkbench.Memory.Access.{IsBytes, host_read-lt-word, in_memory, in_ram}
use ysyxworkbench.Memory.Frame.{paddr_write-IsBytes}
use ysyxworkbench.State.{RunState}
use ysyxworkbench.Cpu.State.{Cpu, get_reg, set_reg, isa_raise_intr}
use ysyxworkbench.Cpu.Exec.{Platform, Machine, Decode}

-- What the processor relies on at the devices: a value read is a word, and the devices stay in
-- states of which that holds.
pub record PlatformLaws {S : Type 0} (p : Platform S) : Type 1 where
  pub Good : S → Type 0
  pub read_good :
      (bus : Bus S) (addr len v : ℕ) (s s' : S)
      → p.mmio ≡ some bus
      → Good s
      → bus.mmio_read addr len s ≡ ok (v, s')
      → (v < 2 ^ 32) × Good s'
  pub write_good :
      (bus : Bus S) (addr len word : ℕ) (s s' : S)
      → p.mmio ≡ some bus
      → Good s
      → bus.mmio_write addr len word s ≡ ok s'
      → Good s'
  pub skip_good : (s : S) → Good s → Good (p.skip_ref s)

pub record Fits (cpu : Cpu) : Type 0 where
  pub gpr_fits : (i : ℕ) → cpu.gpr i < 2 ^ 32
  pub pc_fits : cpu.pc < 2 ^ 32
  pub mepc_fits : cpu.mepc < 2 ^ 32
  pub mcause_fits : cpu.mcause < 2 ^ 32
  pub mstatus_fits : cpu.mstatus < 2 ^ 32
  pub mtvec_fits : cpu.mtvec < 2 ^ 32

pub set_reg-Fits :
    (nr i v : ℕ) (cpu cpu' : Cpu) → Fits cpu → v < 2 ^ 32 → set_reg nr cpu i v ≡ ok cpu' → Fits cpu'
unfolding set_reg
set_reg-Fits nr i v cpu cpu' f lt e = record {
  gpr_fits = λ j. ground (arith, f.gpr_fits j);
  pc_fits = ground (arith, f);
  mepc_fits = ground (arith, f);
  mcause_fits = ground (arith, f);
  mstatus_fits = ground (arith, f);
  mtvec_fits = ground (arith, f);
}

module _ {S : Type 0} (p : Platform S) (laws : PlatformLaws p) where
  -- The memory holds bytes, and the devices are in a good state.
  pub record StoreFits (st : Store S) : Type 0 where
    pub bytes : IsBytes st.mem
    pub good : laws.Good st.io

  pub paddr_read-fits :
      (addr len v : ℕ) (st st' : Store S)
      → StoreFits st
      → paddr_read p.mmio addr len st ≡ ok (v, st')
      → (v < 2 ^ 32) × StoreFits st'
  unfolding paddr_read pmem_read
  paddr_read-fits addr len v st st' f e = elim (Bool-cases (in_memory addr)) [
    | inl inside ↦ elim (Result-cases (guest_to_host addr)) [
      | inl (h, p') ↦
          elim (Result-cases (host_read (st.mem h.region) (size h.region) h.offset len)) [
            | inl (w, q) ↦
                let fits =
                  host_read-lt-word (st.mem h.region) (size h.region) h.offset len w
                    (f.bytes h.region) q in
                let same : (w ≡ v) × (st ≡ st') = ground arith in (ground arith, rw (← same.1) f)
            | inr (k, q) ↦ ground arith
          ]
      | inr (k, p') ↦ ground arith
    ]
    | inr outside ↦ elim (Option-cases p.mmio) [
      | inl off ↦ ground arith
      | inr (bus, on) ↦ elim (Result-cases (bus.mmio_read addr len st.io)) [
        | inl ((w, s'), q) ↦
            let (small, good) = laws.read_good bus addr len w st.io s' on f.good q in
            let same : (w ≡ v) × (record st { io = s' } ≡ st') = ground arith in
            (ground arith, rw (← same.1) (record { bytes = f.bytes; good = good }))
        | inr (k, q) ↦ ground arith
      ]
    ]
  ]

  pub paddr_write-fits :
      (addr len word : ℕ) (st st' : Store S)
      → StoreFits st
      → paddr_write p.mmio addr len word st ≡ ok st'
      → StoreFits st'
  unfolding paddr_write
  paddr_write-fits addr len word st st' f e = record {
    bytes = paddr_write-IsBytes p.mmio addr len word st st' f.bytes e;
    good = elim (Bool-cases (in_ram addr)) [
      | inl ram ↦ elim (Result-cases (pmem_write st.mem addr len word)) [
        | inl (m, q) ↦ let same : st.io ≡ st'.io = ground arith in subst laws.Good same f.good
        | inr (k, q) ↦ ground arith
      ]
      | inr outside ↦ elim (Option-cases p.mmio) [
        | inl off ↦ ground arith
        | inr (bus, on) ↦ elim (Result-cases (bus.mmio_write addr len word st.io)) [
          | inl (s', q) ↦
              let same : s' ≡ st'.io = ground arith in
              subst laws.Good same (laws.write_good bus addr len word st.io s' on f.good q)
          | inr (k, q) ↦ ground arith
        ]
      ]
    ];
  }

  pub record MachineFits (m : Machine S) : Type 0 where
    pub cpu_fits : Fits m.cpu
    pub store_fits : StoreFits m.store

  -- What a step returns: the address of the next instruction, and the new state.
  abbrev pub StepFits : Result (ℕ × Machine S) → Type 0
  StepFits = Post (λ r. (r.0 < 2 ^ 32) × MachineFits r.1)
