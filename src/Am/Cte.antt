-- ===== src/Am/Cte.antt =====
-- Traps and contexts of the abstract machine on riscv: abstract-machine/am/src/riscv/nemu/cte.c and
-- trap.S, the same files of riscv/npc, and am/include/arch/riscv.h. `Saved` is about the words of a
-- context, and `Switch` about the traps that go from one context to another.
pub mod Words
pub mod Saved
pub mod Switch
pub mod Kcontext
pub mod Emulated
use ysyxworkbench.Prelude.{
  ℕ, zero, suc, ◌+◌, ◌*◌, ◌^◌, Bool, not, ◌&&◌, Option, none, some, Result, ok, assert, ◌>>=◌, ◌>>◌,
  ◌==◌, if◌then◌else◌, u32, sub32, bit_or,
}
use ysyxworkbench.Cpu.State.{Cpu, set_gpr, isa_raise_intr}

-- The processor, and the words of the memory at their byte addresses. A `Context *` is an address.
pub record Guest : Type 0 where
  pub cpu : Cpu
  pub words : ℕ → ℕ

-- The events that `__am_irq_handle` makes.
pub data Event : Type 0 where
  event_yield event_syscall event_error : Event

-- `user_handler`: it can change the memory and every register.
abbrev pub Handler : Type 0
Handler = Event → ℕ → Guest → ℕ × Guest

-- The address of word `i` from `base`, which wraps around.
abbrev pub word_at : ℕ → ℕ → ℕ
word_at base i = u32 (base + i * 4)

unfoldable pub store_word : ℕ → ℕ → (ℕ → ℕ) → ℕ → ℕ
store_word address value words a = if address == a then value else words a

-- REGS: all registers but x0 and sp.
abbrev pub is_saved : ℕ → Bool
is_saved n = not (n == 0) && not (n == 2)

-- PUSH and POP of the saved registers below x`n`
unfoldable pub push_regs : ℕ → (ℕ → ℕ) → ℕ → (ℕ → ℕ) → ℕ → ℕ
unfolding store_word
push_regs zero gpr sp words = words
push_regs (suc n) gpr sp words =
    let words' = push_regs n gpr sp words in
    if is_saved n then store_word (word_at sp n) (gpr n) words' else words'

unfoldable pub pop_regs : ℕ → (ℕ → ℕ) → ℕ → (ℕ → ℕ) → ℕ → ℕ
pop_regs zero words sp gpr = gpr
pop_regs (suc n) words sp gpr =
    let gpr' = pop_regs n words sp gpr in
    if is_saved n then set_gpr gpr' n (words (word_at sp n)) else gpr'

-- The loop of `kcontext`: `n` words from `c` become zero.
unfoldable pub clear_words : ℕ → ℕ → (ℕ → ℕ) → ℕ → ℕ
unfolding store_word
clear_words zero c words = words
clear_words (suc n) c words = store_word (word_at c n) 0 (clear_words n c words)

-- With `__riscv_e` or without it.
module _ (riscv_e : Bool) where
  abbrev pub nr_regs : ℕ
  nr_regs = if riscv_e then 16 else 32

  -- `struct Context` has `gpr` first, and then these words; `pdir` is the last.
  abbrev pub offset_cause : ℕ
  offset_cause = nr_regs

  abbrev pub offset_status : ℕ
  offset_status = nr_regs + 1

  abbrev pub offset_epc : ℕ
  offset_epc = nr_regs + 2

  abbrev pub offset_pdir : ℕ
  offset_pdir = nr_regs + 3

  abbrev pub sizeof_context : ℕ
  sizeof_context = (nr_regs + 4) * 4

  -- GPR1
  abbrev pub gpr1 : ℕ
  gpr1 = if riscv_e then 15 else 17

  -- The switch of `__am_irq_handle`: the event, and the memory.
  unfoldable pub event_of : ℕ → (ℕ → ℕ) → Event × (ℕ → ℕ)
  unfolding store_word
  event_of c words =
      if words (word_at c offset_cause) == 11
      then (
        if words (word_at c gpr1) == 0xffff_ffff then event_yield else event_syscall,
        store_word (word_at c offset_epc) (u32 (words (word_at c offset_epc) + 4)) words,
      )
      else (event_error, words)

  -- `__am_irq_handle`, without what nemu's prints.
  unfoldable pub am_irq_handle : Option Handler → ℕ → Guest → Result (ℕ × Guest)
  unfolding event_of
  am_irq_handle none c g = ok (c, g)
  am_irq_handle (some user_handler) c g = do
    let (ev, words) = event_of c g.words
    let (c', g') = user_handler ev c (record g { words = words })
    assert (not (c' == 0))
    ok (c', g')

  -- The new context, for a stack that ends at `end`.
  unfoldable pub kcontext : ℕ → ℕ → ℕ → (ℕ → ℕ) → ℕ × (ℕ → ℕ)
  unfolding clear_words store_word
  kcontext end entry arg words =
      let c = sub32 end sizeof_context in
      let words = clear_words (nr_regs + 4) c words in
      let words = store_word (word_at c offset_epc) entry words in
      let words = store_word (word_at c offset_status) 0x1800 words in
      let words = store_word (word_at c 10) arg words in
      (c, store_word (word_at c offset_pdir) 0 words)

  -- `li` and the ecall of `yield`; `pc` is the address of the ecall.
  unfoldable pub yield : ℕ → Guest → Guest
  unfolding isa_raise_intr
  yield pc g =
      let (vector, cpu) =
        isa_raise_intr 11 pc (record (g.cpu) { gpr = set_gpr g.cpu.gpr gpr1 0xffff_ffff }) in
      record g { cpu = record cpu { pc = vector } }

-- Also: in the files of npc or in those of nemu.
module _ (riscv_e npc : Bool) where
  -- CONTEXT_SIZE of trap.S
  abbrev pub context_size : ℕ
  context_size = (if npc then nr_regs riscv_e + 3 + 1 else nr_regs riscv_e + 3) * 4

  -- `__am_asm_trap` up to its call: the registers and the csrs are on the stack. `ra` is the address
  -- behind the call.
  unfoldable pub save_context : ℕ → Guest → Guest
  unfolding push_regs store_word
  save_context ra g =
      let cpu = g.cpu in
      let sp = sub32 (cpu.gpr 2) context_size in
      let words = push_regs (nr_regs riscv_e) cpu.gpr sp g.words in
      let words = store_word (word_at sp (offset_cause riscv_e)) cpu.mcause words in
      let words = store_word (word_at sp (offset_status riscv_e)) cpu.mstatus words in
      let words = store_word (word_at sp (offset_epc riscv_e)) cpu.mepc words in
      let status = if npc then cpu.mstatus else bit_or cpu.mstatus (2 ^ 17) in
      let gpr = set_gpr (set_gpr (set_gpr cpu.gpr 2 sp) 5 cpu.mcause) 6 status in
      record {
        cpu = record cpu {
          mstatus = status;
          gpr = set_gpr (set_gpr (set_gpr gpr 7 cpu.mepc) 10 sp) 1 ra;
        };
        words = words;
      }

  -- From `mv sp, a0` to the mret, with `c` in a0.
  unfoldable pub restore_context : ℕ → Guest → Guest
  unfolding pop_regs
  restore_context c g =
      let status = g.words (word_at c (offset_status riscv_e)) in
      let epc = g.words (word_at c (offset_epc riscv_e)) in
      let gpr = set_gpr (set_gpr (set_gpr g.cpu.gpr 2 c) 6 status) 7 epc in
      let gpr = pop_regs (nr_regs riscv_e) g.words c gpr in
      record g {
        cpu = record (g.cpu) {
          mstatus = status;
          mepc = epc;
          gpr = set_gpr gpr 2 (u32 (gpr 2 + context_size));
          pc = epc;
        };
      }

  unfoldable pub am_asm_trap : ℕ → Option Handler → Guest → Result Guest
  unfolding am_irq_handle save_context restore_context
  am_asm_trap ra user_handler g = do
    let saved = save_context ra g
    (c, g') ← am_irq_handle riscv_e user_handler (sub32 (g.cpu.gpr 2) context_size) saved
    ok (restore_context c g')

-- `trap` is the address of `__am_asm_trap`.
unfoldable pub cte_init : ℕ → Handler → Cpu → Option Handler × Cpu
cte_init trap handler cpu = (some handler, record cpu { mtvec = trap })
