-- ===== src/Am/Cte/Kcontext.antt =====
-- A new context, and the trap that enters it.
use ysyxworkbench.Prelude.{
  ℕ, ◌+◌, ◌^◌, ◌<◌, ◌≡◌, ◌≢◌, ◌∙◌, Bool, some, ok, if◌then◌else◌, u32, sub32, arith,
}
use ysyxworkbench.Cpu.State.{Cpu, set_gpr}
use ysyxworkbench.Am.Cte.{
  Guest, Handler, word_at, nr_regs, context_size, sizeof_context, am_asm_trap, kcontext,
  clear_words, store_word,
}
use ysyxworkbench.Am.Cte.Saved.{Saved, Resumed, nr_regs_cases}
use ysyxworkbench.Am.Cte.Words.{clear_words_zero}
use ysyxworkbench.Am.Cte.Switch.{context, called, Keeps, Saved-Keeps, am_asm_trap-Resumed}

-- The words of `kcontext` over a cleared context with `n` registers.
module _ (c n entry arg : ℕ) (words : ℕ → ℕ) where
  abbrev fresh : ℕ → ℕ
  fresh =
      let words' = store_word (word_at c (n + 2)) entry words in
      let words' = store_word (word_at c (n + 1)) 0x1800 words' in
      store_word (word_at c (n + 3)) 0 (store_word (word_at c 10) arg words')

  fresh-gpr :
      (m : ℕ)
      → 10 < n
      → n < 60
      → m < n
      → words (word_at c m) ≡ 0
      → fresh (word_at c m) ≡ set_gpr (λ i. 0) 10 arg m
  unfolding store_word
  fresh-gpr m low high below cleared = ground arith

  fresh-csrs :
      10 < n → n < 60 → (fresh (word_at c (n + 1)) ≡ 0x1800) × (fresh (word_at c (n + 2)) ≡ entry)
  unfolding store_word
  fresh-csrs low high = ground arith

module _ (riscv_e npc : Bool) (ra : ℕ) where
  -- The processor at the start of a new context.
  abbrev pub at_entry : ℕ → ℕ → Cpu → Cpu
  at_entry entry arg cpu = record cpu {
    gpr = set_gpr (λ i. 0) 10 arg;
    mstatus = 0x1800;
    pc = entry;
  }

  kcontext-Saved :
      (end entry arg : ℕ) (words : ℕ → ℕ) (cpu : Cpu)
      → let (c, words') = kcontext riscv_e end entry arg words in
        Saved riscv_e c (at_entry entry arg cpu) words'
  unfolding kcontext
  kcontext-Saved end entry arg words cpu =
      let c = sub32 end (sizeof_context riscv_e) in
      let n = nr_regs riscv_e in
      let few : n < 60 = ground (arith, nr_regs_cases riscv_e) in
      let many : 10 < n = ground (arith, nr_regs_cases riscv_e) in
      let cleared = clear_words (n + 4) c words in
      let (status, epc) = fresh-csrs c n entry arg cleared many few in
      record {
        saved_gpr = λ m small is.
            fresh-gpr c n entry arg cleared m many few small
              (clear_words_zero (n + 4) m c words (omega arith));
        saved_status = status;
        saved_epc = epc;
      }

  -- When a trap ends in a handler that returns a context of `kcontext`, not at address 0, for a
  -- stack that ends at an address of 32 bits, with its registers and csrs as `kcontext` left them,
  -- the trap goes on at `entry`, with the argument in a0, zero in the other registers that a context
  -- has, and the status 0x1800. The stack pointer is the end of the stack on npc, and the end less 4
  -- on nemu, whose trap.S pops a word less than a context has.
  pub kcontext-entered :
      (end entry arg : ℕ) (words : ℕ → ℕ) (later g2 : Guest) (handler : Handler)
      → let (c, words') = kcontext riscv_e end entry arg words in
        end < 2 ^ 32
        → c ≢ 0
        → Keeps riscv_e npc ra c words' g2.words
        → handler
            (called riscv_e npc ra later).0
            (context riscv_e npc ra later)
            (called riscv_e npc ra later).1
          ≡ (c, g2)
        → (g' : Guest) × (am_asm_trap riscv_e npc ra (some handler) later ≡ ok g')
          × Resumed riscv_e npc c (at_entry entry arg g'.cpu) g'.cpu
          × (g'.cpu.gpr 2 ≡ (if npc then end else sub32 end 4))
  unfolding kcontext
  kcontext-entered end entry arg words later g2 handler small some_c keeps runs =
      let (c, words') = kcontext riscv_e end entry arg words in
      let saved = λ (cpu : Cpu).
        Saved-Keeps riscv_e npc ra c (at_entry entry arg cpu) words' g2.words
          (kcontext-Saved end entry arg words cpu) keeps in
      let (g', ends, resumed) =
        am_asm_trap-Resumed riscv_e npc ra handler later g2 c (at_entry entry arg later.cpu) runs
          some_c (saved later.cpu) in
      (
        g',
        ends,
        record {
          resumed_gpr = resumed.resumed_gpr;
          resumed_sp = resumed.resumed_sp;
          resumed_status = resumed.resumed_status;
          resumed_pc = resumed.resumed_pc;
          resumed_epc = resumed.resumed_epc;
        },
        resumed.resumed_sp ∙ top end small,
      )
    where
      top :
          (end : ℕ)
          → end < 2 ^ 32
          → u32 (sub32 end (sizeof_context riscv_e) + context_size riscv_e npc)
            ≡ (if npc then end else sub32 end 4)
      top end small = ground arith
