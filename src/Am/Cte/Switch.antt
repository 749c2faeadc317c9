-- ===== src/Am/Cte/Switch.antt =====
-- A trap goes on in the context that the handler returns: one that `yield` saved, or a new one.
use ysyxworkbench.Prelude.{
  ℕ, ◌+◌, ◌^◌, ◌<◌, ◌≡◌, ◌≢◌, refl, ◌∙◌, Bool, false, some, ok, ◌==◌, u32, sub32, arith,
}
use ysyxworkbench.Cpu.State.{Cpu, set_gpr, isa_raise_intr}
use ysyxworkbench.Am.Cte.{
  Event, event_yield, Guest, Handler, word_at, nr_regs, context_size, gpr1, event_of, am_irq_handle,
  save_context, restore_context, am_asm_trap, yield,
}
use ysyxworkbench.Am.Cte.Saved.{
  Saved, Resumed, restore_context-Resumed, save_context-event_of, save_context-Saved,
  event_of-yield, gpr1_saved,
}

module _ (riscv_e npc : Bool) (ra : ℕ) where
  -- The context of a trap.
  abbrev pub context : Guest → ℕ
  context g = sub32 (g.cpu.gpr 2) (context_size riscv_e npc)

  -- What the handler is called with, but for the address of the context.
  abbrev pub called : Guest → Event × Guest
  called g =
      let saved = save_context riscv_e npc ra g in
      let (ev, words) = event_of riscv_e (context g) saved.words in
      (ev, record saved { words = words })

  -- Some memory still has the three csrs and the registers of a context.
  abbrev pub Keeps : ℕ → (ℕ → ℕ) → (ℕ → ℕ) → Type 0
  Keeps c words words' =
      (i : ℕ) → i < nr_regs riscv_e + 3 → words' (word_at c i) ≡ words (word_at c i)

  pub Saved-Keeps :
      (c : ℕ) (cpu : Cpu) (words words' : ℕ → ℕ)
      → Saved riscv_e c cpu words
      → Keeps c words words'
      → Saved riscv_e c cpu words'
  Saved-Keeps c cpu words words' saved keeps = record {
    saved_gpr = λ n small is. keeps n (omega arith) ∙ saved.saved_gpr n small is;
    saved_status = keeps (nr_regs riscv_e + 1) (omega arith) ∙ saved.saved_status;
    saved_epc = keeps (nr_regs riscv_e + 2) (omega arith) ∙ saved.saved_epc;
  }

  am_irq_handle-runs :
      (handler : Handler) (g g2 : Guest) (c : ℕ)
      → handler (called g).0 (context g) (called g).1 ≡ (c, g2)
      → c ≢ 0
      → am_irq_handle riscv_e (some handler) (context g) (save_context riscv_e npc ra g)
        ≡ ok (c, g2)
  unfolding am_irq_handle
  am_irq_handle-runs handler g g2 c runs some_c = rw runs (rw (not_null c some_c) refl)
    where
      not_null : (c : ℕ) → c ≢ 0 → (c == 0) ≡ false
      not_null c h = ground arith

  pub am_asm_trap-Resumed :
      (handler : Handler) (g g2 : Guest) (c : ℕ) (cpu : Cpu)
      → handler (called g).0 (context g) (called g).1 ≡ (c, g2)
      → c ≢ 0
      → Saved riscv_e c cpu g2.words
      → (g' : Guest) × (am_asm_trap riscv_e npc ra (some handler) g ≡ ok g')
        × Resumed riscv_e npc c cpu g'.cpu
  unfolding am_asm_trap
  am_asm_trap-Resumed handler g g2 c cpu runs some_c saved = (
    restore_context riscv_e npc c g2,
    rw (am_irq_handle-runs handler g g2 c runs some_c) refl,
    restore_context-Resumed riscv_e npc c cpu g2 saved,
  )

  -- The processor that `yield` leaves, at the instruction behind its ecall.
  abbrev pub behind_yield : ℕ → Guest → Cpu
  behind_yield pc g = record (g.cpu) {
    gpr = set_gpr g.cpu.gpr (gpr1 riscv_e) 0xffff_ffff;
    pc = u32 (pc + 4);
  }

  pub yield-Saved :
      (pc : ℕ) (g : Guest)
      → Saved riscv_e
          (context (yield riscv_e pc g))
          (behind_yield pc g)
          (called (yield riscv_e pc g)).1.words
        × ((called (yield riscv_e pc g)).0 ≡ event_yield)
  unfolding yield isa_raise_intr
  yield-Saved pc g =
      let g' = yield riscv_e pc g in
      let saved = save_context-event_of riscv_e npc ra g' refl in
      let (before, cause) = save_context-Saved riscv_e npc ra g' in
      let (small, is) = gpr1_saved riscv_e in
      (
        record {
          saved_gpr = saved.saved_gpr;
          saved_status = saved.saved_status;
          saved_epc = saved.saved_epc;
        },
        event_of-yield riscv_e (context g') (save_context riscv_e npc ra g').words cause
            (before.saved_gpr (gpr1 riscv_e) small is ∙ loaded g.cpu.gpr (gpr1 riscv_e)),
      )
    where
      loaded : (gpr : ℕ → ℕ) (i : ℕ) → set_gpr gpr i 0xffff_ffff i ≡ 0xffff_ffff
      loaded gpr i = ground arith

  same_sp :
      (pc : ℕ) (g : Guest)
      → g.cpu.gpr 2 < 2 ^ 32
      → u32 (context (yield riscv_e pc g) + context_size riscv_e npc) ≡ g.cpu.gpr 2
  unfolding yield isa_raise_intr
  same_sp pc g small = ground arith

  -- `yield` with a stack pointer of 32 bits hands EVENT_YIELD to the handler. When a later trap, or
  -- this one, ends in a handler that returns the context that `yield` made, not at address 0, with
  -- its registers and csrs as the handler of `yield` was given them, that trap goes on at the
  -- instruction behind the ecall, with the registers, the status and the stack of the yield.
  pub yield-resumes :
      (pc : ℕ) (g later g2 : Guest) (handler : Handler)
      → let first = yield riscv_e pc g in
        g.cpu.gpr 2 < 2 ^ 32
        → context first ≢ 0
        → Keeps (context first) (called first).1.words g2.words
        → handler (called later).0 (context later) (called later).1 ≡ (context first, g2)
        → ((called first).0 ≡ event_yield)
          × ((g' : Guest) × (am_asm_trap riscv_e npc ra (some handler) later ≡ ok g')
              × Resumed riscv_e npc (context first) (behind_yield pc g) g'.cpu
              × (g'.cpu.gpr 2 ≡ g.cpu.gpr 2))
  yield-resumes pc g later g2 handler small some_c keeps runs =
      let (saved, is_yield) = yield-Saved pc g in
      let c = context (yield riscv_e pc g) in
      let (g', ends, resumed) =
        am_asm_trap-Resumed handler later g2 c (behind_yield pc g) runs some_c (
          Saved-Keeps c (behind_yield pc g) (called (yield riscv_e pc g)).1.words g2.words saved
            keeps) in
      (is_yield, (g', ends, resumed, resumed.resumed_sp ∙ same_sp pc g small))
