-- ===== src/Am/Cte/Saved.antt =====
-- What a context in the memory says, and what `__am_asm_trap` writes to it and reads from it.
use ysyxworkbench.Prelude.{ℕ, ◌+◌, ◌<◌, ◌≡◌, ◌⊎◌, refl, ap, inr, Bool, true, u32, sub32, arith, ◌∙◌}
use ysyxworkbench.Cpu.State.{Cpu, set_gpr}
use ysyxworkbench.Am.Cte.{
  Guest, event_yield, gpr1, is_saved, word_at, store_word, push_regs, save_context, restore_context,
  nr_regs, event_of, offset_cause, context_size, offset_status, offset_epc,
}
use ysyxworkbench.Am.Cte.Words.{
  store_word_same, store_word_other, push_regs_saved, pop_regs_other, pop_regs_saved, saved_ne,
  with_csrs-read, with_csrs-below,
}

module _ (riscv_e : Bool) where
  -- The words at `c` say that `cpu` goes on at its `pc` with its registers and status.
  pub record Saved (c : ℕ) (cpu : Cpu) (words : ℕ → ℕ) : Type 0 where
    pub saved_gpr :
        (n : ℕ) → n < nr_regs riscv_e → is_saved n ≡ true → words (word_at c n) ≡ cpu.gpr n
    pub saved_status : words (word_at c (offset_status riscv_e)) ≡ cpu.mstatus
    pub saved_epc : words (word_at c (offset_epc riscv_e)) ≡ cpu.pc

  pub nr_regs_cases : (nr_regs riscv_e ≡ 16) ⊎ (nr_regs riscv_e ≡ 32)
  nr_regs_cases = ground arith

module _ (riscv_e : Bool) where
  event_of-Saved :
      (c : ℕ) (cpu : Cpu) (words : ℕ → ℕ)
      → words (word_at c (offset_cause riscv_e)) ≡ 11
      → Saved riscv_e c cpu words
      → Saved riscv_e c (record cpu { pc = u32 (cpu.pc + 4) }) (event_of riscv_e c words).1
  unfolding event_of
  event_of-Saved c cpu words ecall saved =
      let epc = u32 (words (word_at c (offset_epc riscv_e)) + 4) in
      rw ecall record {
        saved_gpr = λ m small is.
            below_epc m epc c words (ground (arith, small)) ∙ saved.saved_gpr m small is;
        saved_status =
            below_epc (offset_status riscv_e) epc c words (omega arith) ∙ saved.saved_status;
        saved_epc =
            store_word_same c (offset_epc riscv_e) epc words
            ∙ ap (λ (a : ℕ). u32 (a + 4)) saved.saved_epc;
      }
    where
      below_epc :
          (m epc c : ℕ) (words : ℕ → ℕ)
          → m < offset_epc riscv_e
          → store_word (word_at c (offset_epc riscv_e)) epc words (word_at c m)
            ≡ words (word_at c m)
      below_epc m epc c words below =
          let few = nr_regs_cases riscv_e in
          store_word_other c m (offset_epc riscv_e) epc words (omega arith) (omega arith)
            (ground (arith, below))

  pub event_of-yield :
      (c : ℕ) (words : ℕ → ℕ)
      → words (word_at c (offset_cause riscv_e)) ≡ 11
      → words (word_at c (gpr1 riscv_e)) ≡ 0xffff_ffff
      → (event_of riscv_e c words).0 ≡ event_yield
  unfolding event_of
  event_of-yield c words ecall a7 = rw (ecall, a7) refl

  pub gpr1_saved : (gpr1 riscv_e < nr_regs riscv_e) × (is_saved (gpr1 riscv_e) ≡ true)
  gpr1_saved = ground arith

module _ (riscv_e npc : Bool) where
  -- `cpu'` goes on as `cpu`, with its stack above the context at `c`.
  pub record Resumed (c : ℕ) (cpu cpu' : Cpu) : Type 0 where
    pub resumed_gpr : (n : ℕ) → n < nr_regs riscv_e → is_saved n ≡ true → cpu'.gpr n ≡ cpu.gpr n
    pub resumed_sp : cpu'.gpr 2 ≡ u32 (c + context_size riscv_e npc)
    pub resumed_status : cpu'.mstatus ≡ cpu.mstatus
    pub resumed_pc : cpu'.pc ≡ cpu.pc
    pub resumed_epc : cpu'.mepc ≡ cpu.pc

  pub restore_context-Resumed :
      (c : ℕ) (cpu : Cpu) (g : Guest)
      → Saved riscv_e c cpu g.words
      → Resumed c cpu (restore_context riscv_e npc c g).cpu
  unfolding restore_context
  restore_context-Resumed c cpu g saved =
      let status = g.words (word_at c (offset_status riscv_e)) in
      let epc = g.words (word_at c (offset_epc riscv_e)) in
      let gpr = set_gpr (set_gpr (set_gpr g.cpu.gpr 2 c) 6 status) 7 epc in
      record {
        resumed_gpr = λ n small is. rw (saved_ne n is) (
            pop_regs_saved (nr_regs riscv_e) n c g.words gpr small is ∙ saved.saved_gpr n small is);
        resumed_sp =
            ap (λ (sp : ℕ). u32 (sp + context_size riscv_e npc))
              (pop_regs_other (nr_regs riscv_e) 2 c g.words gpr (inr refl));
        resumed_status = saved.saved_status;
        resumed_pc = saved.saved_epc;
        resumed_epc = saved.saved_epc;
      }

  -- What `__am_asm_trap` saves.
  pub save_context-Saved :
      (ra : ℕ) (g : Guest)
      → let sp = sub32 (g.cpu.gpr 2) (context_size riscv_e npc) in
        let words = (save_context riscv_e npc ra g).words in
        Saved riscv_e sp (record (g.cpu) { pc = g.cpu.mepc }) words
        × (words (word_at sp (offset_cause riscv_e)) ≡ g.cpu.mcause)
  unfolding save_context
  save_context-Saved ra g =
      let sp = sub32 (g.cpu.gpr 2) (context_size riscv_e npc) in
      let n = nr_regs riscv_e in
      let pushed = push_regs n g.cpu.gpr sp g.words in
      let few : n < 60 = ground (arith, nr_regs_cases riscv_e) in
      let (cause, status, epc) =
        with_csrs-read sp n g.cpu.mcause g.cpu.mstatus g.cpu.mepc pushed few in
      (
        record {
          saved_gpr = λ m small is.
              with_csrs-below sp n m g.cpu.mcause g.cpu.mstatus g.cpu.mepc pushed few small
              ∙ push_regs_saved n m sp g.cpu.gpr g.words small (omega arith) is;
          saved_status = status;
          saved_epc = epc;
        },
        cause,
      )

  -- For an ecall, the handler finds the registers, the status and the address of the next
  -- instruction in the context.
  pub save_context-event_of :
      (ra : ℕ) (g : Guest)
      → g.cpu.mcause ≡ 11
      → let sp = sub32 (g.cpu.gpr 2) (context_size riscv_e npc) in
        Saved riscv_e sp
          (record (g.cpu) { pc = u32 (g.cpu.mepc + 4) })
          (event_of riscv_e sp (save_context riscv_e npc ra g).words).1
  save_context-event_of ra g ecall =
      let sp = sub32 (g.cpu.gpr 2) (context_size riscv_e npc) in
      let (saved, cause) = save_context-Saved ra g in
      event_of-Saved riscv_e sp (record (g.cpu) { pc = g.cpu.mepc })
        (save_context riscv_e npc ra g).words (cause ∙ ecall) saved
