-- ===== src/Cpu/Bounds/Exec.antt =====
-- A whole instruction keeps every width, and leaves register 0 at zero.
use ysyxworkbench.Prelude.{
  ℕ, ◌+◌, ◌^◌, ◌<◌, ◌≡◌, ok, Post, Post-bind, Post-true, Post-eq_ok, ◌>>=◌, arith, Result-cases,
  inl, inr, u32,
}
use ysyxworkbench.Cpu.State.{Cpu, set_reg}
use ysyxworkbench.Cpu.Operand.{decode_operand}
use ysyxworkbench.Cpu.Op.{decode}
use ysyxworkbench.Cpu.Exec.{Platform, Machine, Decode, execute_op, decode_exec, exec_once}
use ysyxworkbench.Memory.{vaddr_ifetch}
use ysyxworkbench.Cpu.Bounds.{set_reg-Fits, PlatformLaws, MachineFits}
use ysyxworkbench.Cpu.Bounds.Steps.{vaddr_ifetch-fits}
use ysyxworkbench.Cpu.Bounds.Bodies.{OperandsFit, decode_operand-OperandsFit, execute_op-fits}

-- The operands are words.
pub record IsSafe {S : Type 0} (p : Platform S) (laws : PlatformLaws p) (m : Machine S)
    : Type 0 where
  pub fits : MachineFits p laws m
  pub zero_reg : m.cpu.gpr 0 ≡ 0

module _ {S : Type 0} (p : Platform S) (laws : PlatformLaws p) (nr : ℕ) where
  zero_written : (cpu cpu' : Cpu) → set_reg nr cpu 0 0 ≡ ok cpu' → cpu'.gpr 0 ≡ 0
  unfolding set_reg
  zero_written cpu cpu' e = ground arith

  last :
      (dnpc : ℕ) (m : Machine S)
      → dnpc < 2 ^ 32
      → MachineFits p laws m
      → Post
          (λ (r : ℕ × Machine S). (r.0 < 2 ^ 32) × IsSafe p laws r.1)
          (do cpu' ← set_reg nr m.cpu 0 0; ok (dnpc, record m { cpu = cpu' }))
  last dnpc m small f = elim (Result-cases (set_reg nr m.cpu 0 0)) [
    | inl (cpu', e) ↦ rw e (
      small,
      record {
        fits = record {
          cpu_fits = set_reg-Fits nr 0 0 m.cpu cpu' f.cpu_fits (omega arith) e;
          store_fits = f.store_fits;
        };
        zero_reg = zero_written m.cpu cpu' e;
      },
    )
    | inr (k, e) ↦ rw e tt
  ]

  with_pc :
      (m : Machine S) (pc : ℕ)
      → pc < 2 ^ 32
      → IsSafe p laws m
      → IsSafe p laws (record m { cpu = record (m.cpu) { pc = pc } })
  with_pc m pc small safe = record {
    fits = record {
      cpu_fits = record {
        gpr_fits = safe.fits.cpu_fits.gpr_fits;
        pc_fits = small;
        mepc_fits = safe.fits.cpu_fits.mepc_fits;
        mcause_fits = safe.fits.cpu_fits.mcause_fits;
        mstatus_fits = safe.fits.cpu_fits.mstatus_fits;
        mtvec_fits = safe.fits.cpu_fits.mtvec_fits;
      };
      store_fits = safe.fits.store_fits;
    };
    zero_reg = safe.zero_reg;
  }

  decode_exec-IsSafe :
      (s : Decode) (m : Machine S)
      → s.pc < 2 ^ 32
      → s.snpc < 2 ^ 32
      → MachineFits p laws m
      → Post (λ r. (r.0 < 2 ^ 32) × IsSafe p laws r.1) (decode_exec nr p s m)
  unfolding decode_exec
  decode_exec-IsSafe s m here following f =
      Post-bind (λ _. Unit {0}) _ (decode s.inst) _ (Post-true (decode s.inst))
        λ rule _.
          Post-bind OperandsFit _ (decode_operand nr rule.type s.inst m.cpu) _
            (decode_operand-OperandsFit nr rule.type s.inst m.cpu f.cpu_fits)
            λ o fits.
              Post-bind _ _ (execute_op nr p rule.op s o m) _
                (execute_op-fits p laws nr s here following o fits rule.op m f)
                λ r (small, f'). last r.0 r.1 small f'

  -- An instruction that runs to its end leaves register 0 at zero, every register and program
  -- counter below 2 ^ 32 and every byte of the memory below 256, if all that held before but for
  -- register 0, and the devices return words.
  pub exec_once-IsSafe :
      (m m' : Machine S)
      → MachineFits p laws m
      → exec_once nr p m.cpu.pc m ≡ ok m'
      → IsSafe p laws m'
  unfolding exec_once
  exec_once-IsSafe m m' f e =
      Post-eq_ok (IsSafe p laws) (exec_once nr p m.cpu.pc m)
        (Post-bind _ (IsSafe p laws) (vaddr_ifetch p.mmio m.cpu.pc 4 m.store) _
          (vaddr_ifetch-fits p laws nr m.cpu.pc 4 m.store f.store_fits)
          λ r (_, st_fits).
            Post-bind _ (IsSafe p laws) (decode_exec nr p (fetched r.0) (record m { store = r.1 }))
              _
              (decode_exec-IsSafe (fetched r.0) (record m { store = r.1 }) f.cpu_fits.pc_fits
                (omega arith) (record { cpu_fits = f.cpu_fits; store_fits = st_fits }))
              λ r' (small, safe). with_pc r'.1 r'.0 small safe)
        e
    where
      fetched : ℕ → Decode
      fetched inst = record { pc = m.cpu.pc; snpc = u32 (m.cpu.pc + 4); inst = inst }
