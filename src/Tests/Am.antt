-- ===== src/Tests/Am.antt =====
-- Traps, the clock and the keyboard of the abstract machine on concrete inputs.
use ysyxworkbench.Prelude.{
  ℕ, ◌+◌, ◌-◌, ◌*◌, ◌<◌, ◌≡◌, refl, true, false, none, some, ok, ◌==◌, if◌then◌else◌, [], ◌∷◌,
  arith, min,
}
use ysyxworkbench.Cpu.State.{Cpu, isa_raise_intr}
use ysyxworkbench.Device.Map.{Io}
use ysyxworkbench.Device.Keyboard.{KeyQueue}
use ysyxworkbench.Am.Timer.{Timer, am_timer_init, am_timer_uptime}
use ysyxworkbench.Am.Timer.Uptime.{am_timer_uptime-elapsed}
use ysyxworkbench.Am.Input.{am_input_keybrd}
use ysyxworkbench.Am.Input.Keys.{send_keys, read_keys, read_keys-send_keys}
use ysyxworkbench.Am.Cte.{event_yield, Guest, Handler, am_asm_trap, is_saved, yield, kcontext}
use ysyxworkbench.Am.Cte.Saved.{Resumed}
use ysyxworkbench.Am.Cte.Switch.{context, called, behind_yield, yield-resumes}
use ysyxworkbench.State.{running}
use ysyxworkbench.Cpu.Exec.{Platform, Machine, Decode}
use ysyxworkbench.Am.Cte.Emulated.{through_trap, trapped, through_trap-resumes}
use ysyxworkbench.Am.Cte.Kcontext.{at_entry, kcontext-entered}

abbrev thread : ℕ → Guest
thread sp = record {
  cpu = record {
    gpr = λ i. if i == 2 then sp else i + 100;
    pc = 0x80000000;
    mepc = 0;
    mcause = 0;
    mstatus = 0x1800;
    mtvec = 0x80000800;
  };
  words = λ a. 0;
}

abbrev thread_a : Guest
thread_a = thread 0x80009000

-- The handler that goes back to the context of `thread_a`, whatever happens.
abbrev back_to_a : Handler
back_to_a ev c g = (
  context true true 0x80000848 (yield true 0x80000100 thread_a),
  record g { words = (called true true 0x80000848 (yield true 0x80000100 thread_a)).1.words },
)

abbrev thread_b : Guest
thread_b = yield true 0x80000200 (thread 0x8000a000)

yield-resumes_example :
    ((called true true 0x80000848 (yield true 0x80000100 thread_a)).0 ≡ event_yield)
    × ((g' : Guest) × (am_asm_trap true true 0x80000848 (some back_to_a) thread_b ≡ ok g')
        × Resumed true true
            (context true true 0x80000848 (yield true 0x80000100 thread_a))
            (behind_yield true true 0x80000848 0x80000100 thread_a)
            g'.cpu
        × (g'.cpu.gpr 2 ≡ 0x80009000))
unfolding yield isa_raise_intr
yield-resumes_example =
    yield-resumes true true 0x80000848 0x80000100 thread_a thread_b
      (back_to_a event_yield 0 (called true true 0x80000848 thread_b).1).1 back_to_a (omega arith)
      (omega arith) (λ i few. refl) refl

abbrev fresh_words : ℕ → ℕ
fresh_words = (kcontext false 0x80020000 0x80001234 7 (λ a. 99)).1

-- The handler that goes to a new context.
abbrev to_fresh : Handler
to_fresh ev c g =
    ((kcontext false 0x80020000 0x80001234 7 (λ a. 99)).0, record g { words = fresh_words })

kcontext-entered_example :
    (g' : Guest) × (am_asm_trap false false 0x80000848 (some to_fresh) thread_a ≡ ok g')
    × Resumed false false 0x8001ff70 (at_entry false false 0x80000848 0x80001234 7 g'.cpu) g'.cpu
    × (g'.cpu.gpr 2 ≡ 0x8001fffc)
unfolding kcontext
kcontext-entered_example =
    kcontext-entered false false 0x80000848 0x80020000 0x80001234 7 (λ a. 99) thread_a
      (to_fresh event_yield 0 (called false false 0x80000848 thread_a).1).1 to_fresh (omega arith)
      (omega arith) (λ i few. refl) refl

abbrev clear_io : {S : Type 0} → S → Io S
clear_io dev = record {
  io_space = λ i. 0;
  p_space = 0;
  dev = dev;
  skip = record { is_skip_ref = false; skip_dut_nr_inst = 0 };
}

-- The time at each read, up to 1000 reads.
abbrev slow_clock : ℕ → ℕ
slow_clock i = 5 * min i 1000

abbrev no_timer : Timer
no_timer = record { clock = record { io = clear_io 0; reads = 0 }; boot_time = 0 }

am_timer_uptime-elapsed_example :
    (t1 : Timer) × (t2 : Timer) × (i : ℕ) × (j : ℕ) × (rounds : ℕ) × (rounds' : ℕ) × (am_timer_init
        0 slow_clock 1 no_timer
      ≡ ok t1)
    × (am_timer_uptime 0 slow_clock 1 t1 ≡ ok (slow_clock j - slow_clock i, t2))
    × (t1.boot_time ≡ slow_clock i)
    × (i ≡ 0 + 3 * rounds)
    × (t1.clock.reads ≡ i + 3)
    × (j ≡ t1.clock.reads + 3 * rounds')
    × (t2.clock.reads ≡ j + 3)
am_timer_uptime-elapsed_example =
    am_timer_uptime-elapsed 0 slow_clock (omega arith) (λ i. omega arith) 1 no_timer
      (λ i j later. omega arith) (λ i. (0, omega arith, omega arith))

-- The keymap has one key only.
abbrev one_key : ℕ → ℕ
one_key scancode = if scancode == 5 then 43 else 0

abbrev no_keys : Io KeyQueue
no_keys = clear_io (record { key_queue = λ i. 0; key_f = 7; key_r = 7 })

read_keys-send_keys_example :
    (q : KeyQueue) × (io1 : Io KeyQueue) × (io2 : Io KeyQueue) × (send_keys one_key
        ((5, true) ∷ (6, true) ∷ (5, false) ∷ [])
        no_keys.dev
      ≡ ok q)
    × (read_keys 0 2 (record no_keys { dev = q }) ≡ ok ((true, 43) ∷ (false, 43) ∷ [], io1))
    × (am_input_keybrd 0 io1 ≡ ok ((false, 0), io2))
read_keys-send_keys_example =
    read_keys-send_keys 0 one_key ((5, true) ∷ (6, true) ∷ (5, false) ∷ []) no_keys (omega arith)
      (λ scancode. ground arith) (record { front = omega arith; room = omega arith; held = refl })
      (omega arith)

abbrev no_devices : Platform (Unit {0})
no_devices = record { mmio = none; skip_ref = λ s. s }

abbrev machine : Machine (Unit {0})
machine = record {
  cpu = thread_a.cpu;
  store = record { mem = λ region i. 0; io = tt };
  nemu = record { state = running; halt_pc = 0; halt_ret = 0 };
  ftrace = record { symbols = []; call_depth = 0; lines = [] };
}

abbrev fetched : ℕ → ℕ → Decode
fetched pc inst = record { pc = pc; snpc = pc + 4; inst = inst }

-- The handler that goes back to where it came from.
abbrev same_context : Handler
same_context ev c g = (c, g)

through_trap-resumes_example :
    (cpu : Cpu) × (through_trap true true no_devices 0x80000848 same_context
        (fetched 0x80000100 0x73)
        (fetched 0x80000900 0x30200073)
        machine
        (λ a. 0)
      ≡ ok (0x80000800, 0x80000104, cpu))
    × ((n : ℕ) → n < 16 → is_saved n ≡ true → cpu.gpr n ≡ machine.cpu.gpr n)
    × (cpu.gpr 0 ≡ 0)
    × (cpu.gpr 2 ≡ 0x80009000)
    × (cpu.mstatus ≡ 0x1800)
through_trap-resumes_example =
    through_trap-resumes true true no_devices 0x80000848 same_context (fetched 0x80000100 0x73)
      (fetched 0x80000900 0x30200073) machine (λ a. 0)
      (called true true 0x80000848
        (record { cpu = trapped 0x80000100 thread_a.cpu; words = λ a. 0 })).1
      refl refl (omega arith) (omega arith) (λ i few. refl) refl
