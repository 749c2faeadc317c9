-- ===== src/Am/Cte/Emulated.antt =====
-- The trap code of the abstract machine between an ecall and an mret that nemu runs.
use ysyxworkbench.Prelude.{
  ℕ, ◌+◌, ◌^◌, ◌<◌, ◌≡◌, ◌≢◌, refl, ◌∙◌, Bool, true, false, some, ok, Result, ◌>>=◌, ◌==◌, ltb, u32,
  sub32, arith,
}
use ysyxworkbench.Cpu.State.{Cpu, set_gpr, isa_raise_intr, set_reg}
use ysyxworkbench.Cpu.Exec.{Platform, Machine, Decode, decode_exec, execute_op}
use ysyxworkbench.Cpu.Op.{decode}
use ysyxworkbench.Cpu.Operand.{decode_operand}
use ysyxworkbench.Am.Cte.{Guest, Handler, is_saved, nr_regs, context_size, am_asm_trap}
use ysyxworkbench.Am.Cte.Saved.{save_context-event_of, nr_regs_cases}
use ysyxworkbench.Am.Cte.Switch.{context, called, Keeps, Saved-Keeps, am_asm_trap-Resumed}

-- The processor after an ecall at `pc`, at the address in mtvec.
abbrev pub trapped : ℕ → Cpu → Cpu
trapped pc cpu = record cpu { gpr = set_gpr cpu.gpr 0 0; mepc = pc; mcause = 11; pc = cpu.mtvec }

module _ (riscv_e npc : Bool) {S : Type 0} (p : Platform S) where
  -- nemu runs the instruction of `s`, the trap code runs from the address that nemu goes to, and
  -- nemu runs the instruction of `s'`, the mret, on the registers of the trap code: the two
  -- addresses that nemu goes to, and the registers in the end.
  abbrev pub through_trap :
      ℕ → Handler → Decode → Decode → Machine S → (ℕ → ℕ) → Result (ℕ × ℕ × Cpu)
  through_trap ra handler s s' m words = do
    (vector, m1) ← decode_exec (nr_regs riscv_e) p s m
    g ←
        am_asm_trap riscv_e npc ra (some handler)
          (record { cpu = record (m1.cpu) { pc = vector }; words = words })
    (next, m2) ← decode_exec (nr_regs riscv_e) p s' (record m1 { cpu = g.cpu })
    ok (vector, next, m2.cpu)

  zero_writable : ltb 0 (nr_regs riscv_e) ≡ true
  zero_writable = ground (arith, nr_regs_cases riscv_e)

  ecall_runs :
      (s : Decode) (m : Machine S)
      → s.inst ≡ 0x73
      → decode_exec (nr_regs riscv_e) p s m
        ≡ ok (m.cpu.mtvec, record m { cpu = record (trapped s.pc m.cpu) { pc = m.cpu.pc } })
  unfolding decode_exec decode decode_operand set_reg execute_op isa_raise_intr
  ecall_runs s m is_ecall = rw (is_ecall, zero_writable) refl

  mret_runs :
      (s : Decode) (m : Machine S)
      → s.inst ≡ 0x30200073
      → decode_exec (nr_regs riscv_e) p s m
        ≡ ok (m.cpu.mepc, record m { cpu = record (m.cpu) { gpr = set_gpr m.cpu.gpr 0 0 } })
  unfolding decode_exec decode decode_operand set_reg execute_op
  mret_runs s m is_mret = rw (is_mret, zero_writable) refl

  through_trap-runs :
      (ra : ℕ) (handler : Handler) (s s' : Decode) (m : Machine S) (words : ℕ → ℕ) (g' : Guest)
      (next : ℕ)
      → s.inst ≡ 0x73
      → s'.inst ≡ 0x30200073
      → am_asm_trap riscv_e npc ra
          (some handler)
          (record { cpu = trapped s.pc m.cpu; words = words })
        ≡ ok g'
      → g'.cpu.mepc ≡ next
      → through_trap ra handler s s' m words
        ≡ ok (m.cpu.mtvec, next, record (g'.cpu) { gpr = set_gpr g'.cpu.gpr 0 0 })
  through_trap-runs ra handler s s' m words g' next is_ecall is_mret ends to_next =
      let m1 : Machine S = record m { cpu = record (trapped s.pc m.cpu) { pc = m.cpu.pc } } in
      rw (ecall_runs s m is_ecall, ends, mret_runs s' (record m1 { cpu = g'.cpu }) is_mret, to_next)
        refl

  -- nemu runs an ecall, with a stack pointer of 32 bits; the trap code runs with a handler that
  -- returns the context it was given, not at address 0, and keeps its registers and csrs; and nemu
  -- runs the mret. Then nemu has gone to mtvec first, and to the instruction behind the ecall in the
  -- end, with the registers and the status of before, and zero in x0.
  pub through_trap-resumes :
      (ra : ℕ) (handler : Handler) (s s' : Decode) (m : Machine S) (words : ℕ → ℕ) (g2 : Guest)
      → let g : Guest = record { cpu = trapped s.pc m.cpu; words = words } in
        s.inst ≡ 0x73
        → s'.inst ≡ 0x30200073
        → m.cpu.gpr 2 < 2 ^ 32
        → context riscv_e npc ra g ≢ 0
        → Keeps riscv_e npc ra (context riscv_e npc ra g) (called riscv_e npc ra g).1.words g2.words
        → handler (called riscv_e npc ra g).0 (context riscv_e npc ra g) (called riscv_e npc ra g).1
          ≡ (context riscv_e npc ra g, g2)
        → (cpu : Cpu) × (through_trap ra handler s s' m words
            ≡ ok (m.cpu.mtvec, u32 (s.pc + 4), cpu))
          × ((n : ℕ) → n < nr_regs riscv_e → is_saved n ≡ true → cpu.gpr n ≡ m.cpu.gpr n)
          × (cpu.gpr 0 ≡ 0)
          × (cpu.gpr 2 ≡ m.cpu.gpr 2)
          × (cpu.mstatus ≡ m.cpu.mstatus)
  through_trap-resumes ra handler s s' m words g2 is_ecall is_mret small some_c keeps runs =
      let g : Guest = record { cpu = trapped s.pc m.cpu; words = words } in
      let c = context riscv_e npc ra g in
      let goal_cpu = record (trapped s.pc m.cpu) { pc = u32 (s.pc + 4) } in
      let saved = save_context-event_of riscv_e npc ra g refl in
      let (g', ends, resumed) =
        am_asm_trap-Resumed riscv_e npc ra handler g g2 c goal_cpu runs some_c (
          Saved-Keeps riscv_e npc ra c goal_cpu (called riscv_e npc ra g).1.words g2.words saved
            keeps) in
      (
        record (g'.cpu) { gpr = set_gpr g'.cpu.gpr 0 0 },
        through_trap-runs ra handler s s' m words g' (u32 (s.pc + 4)) is_ecall is_mret ends
            resumed.resumed_epc,
        λ n few is. kept g'.cpu.gpr n (saved-ne_zero n is) (resumed.resumed_gpr n few is),
        refl,
        resumed.resumed_sp ∙ back (m.cpu.gpr 2) small,
        resumed.resumed_status,
      )
    where
      saved-ne_zero : (n : ℕ) → is_saved n ≡ true → (0 == n) ≡ false
      saved-ne_zero n is = ground arith

      kept :
          (gpr : ℕ → ℕ) (n : ℕ)
          → (0 == n) ≡ false
          → gpr n ≡ set_gpr m.cpu.gpr 0 0 n
          → set_gpr gpr 0 0 n ≡ m.cpu.gpr n
      kept gpr n other same = rw other (rw other at same)

      back :
          (sp : ℕ)
          → sp < 2 ^ 32
          → u32 (sub32 sp (context_size riscv_e npc) + context_size riscv_e npc) ≡ sp
      back sp small = ground arith
