-- ===== src/Tests/Run.antt =====
-- The main loop without instructions to run, and the instruction ring.
use ysyxworkbench.Prelude.{
  ℕ, ◌≡◌, refl, Option, none, Result, ok, List, [], ◌∷◌, ◌++◌, arith, Post, drop,
}
use ysyxworkbench.State.{stop}
use ysyxworkbench.Cpu.Exec.{Platform}
use ysyxworkbench.Monitor.Watchpoint.{init_wp_pool}
use ysyxworkbench.Run.{Nemu, execute}
use ysyxworkbench.Run.Loop.{Counted, execute-Counted}
use ysyxworkbench.Run.Ring.{
  Iringbuf, write_iringbuf, print_iringbuf, entries, shown, print_iringbuf-write_iringbuf,
}

abbrev no_devices : Platform (Unit {0})
no_devices = record { mmio = none; skip_ref = λ s. s }

abbrev no_rule : ℕ → List ℕ → Option ℕ
no_rule i text = none

abbrev start : Nemu (Unit {0})
start = record {
  machine = record {
    cpu = record {
      gpr = λ i. 0;
      pc = 0x80000000;
      mepc = 0;
      mcause = 0;
      mstatus = 0x1800;
      mtvec = 0;
    };
    store = record { mem = λ r i. 0; io = tt };
    nemu = record { state = stop; halt_pc = 0; halt_ret = 0 };
    ftrace = record { symbols = []; call_depth = 0; lines = [] };
  };
  pool = init_wp_pool (λ i. record { number = 0; next = none; expr = []; old_val = 0 });
  nr_guest_inst = 0;
}

abbrev no_update : Nemu (Unit {0}) → Result (Nemu (Unit {0}))
no_update n = ok n

execute-Counted_example :
    Post
      (Counted 32 no_devices no_rule no_update 3 start)
      (execute 32 no_devices no_rule no_update 3 start)
execute-Counted_example =
    execute-Counted 32 no_devices no_rule no_update 3 start (omega arith) (λ m. refl)

abbrev ring : Iringbuf
ring = record { logbuf = λ i. []; index = 15 }

print_iringbuf-write_iringbuf_example :
    print_iringbuf (write_iringbuf (97 ∷ []) ring) ≡ shown (drop 1 (entries ring) ++ (97 ∷ []) ∷ [])
print_iringbuf-write_iringbuf_example = print_iringbuf-write_iringbuf (97 ∷ []) ring (omega arith)
