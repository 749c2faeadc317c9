-- ===== src/Tests/Npc.antt =====
-- Small images, a byte on the serial line, and hardware that commits in every second cycle.
use ysyxworkbench.Prelude.{
  ℕ, zero, suc, ◌+◌, ◌-◌, ◌*◌, ◌^◌, ◌≤◌, ◌<◌, ◌≡◌, refl, Bool, true, false, not, Option, none, some,
  Result, ok, fault, List, [], ◌∷◌, if◌then◌else◌, length, Post, arith, ◌⊎◌, inl, inr, u32, codes,
  same_text,
}
use ysyxworkbench.Npc.Memory.{
  Arrays, sram_base, word, mrom_read, pmem_read, pmem_write, load_img, npc_reset_pc,
}
use ysyxworkbench.Npc.Memory.Writes.{pmem_read-pmem_write, merged, in_run}
use ysyxworkbench.Npc.Memory.Image.{mrom_read-load_img, image_at}
use ysyxworkbench.Npc.Uart.{Uart, drive_pins}
use ysyxworkbench.Npc.Uart.Frame.{drive_pins-frame_pins, frame_pins}
use ysyxworkbench.Npc.Perf.{no_events}
use ysyxworkbench.Npc.Exec.{
  Hardware, Context, Reference, Npc, checkregs, single_cycle, difftest, commit, cpu_exec,
}
use ysyxworkbench.Npc.Exec.Checked.{Agree, Copies, cpu_exec-Agree}
use ysyxworkbench.Npc.Exec.Progress.{Commits, Stops}
use ysyxworkbench.Npc.Start.{
  Settings, take_file, take_arg, parse_args, is_checked, start_npc, run_batch,
}
use ysyxworkbench.Npc.Start.Batch.{IsReady, start_npc-IsReady, run_batch-Stops}

abbrev arrays : Arrays
arrays = record {
  mrom = λ i. 0;
  sram = λ i. 0;
  flash = λ i. 0;
  img_size_loaded = 0;
  flash_boot = false;
  is_skip_ref = false;
}

abbrev image : List ℕ
image = 0x13 ∷ 0 ∷ 0 ∷ 0 ∷ 0x6f ∷ []

pmem_read-pmem_write_example :
    (m' : Arrays) × (pmem_write sram_base 0x11223344 5 arrays ≡ m')
    × (pmem_read sram_base m'
        ≡ (word (merged arrays.sram (u32 sram_base - sram_base) 0x11223344 5) 0, m'))
    × ((at : ℕ) → in_run 4 0 (u32 sram_base - sram_base) at ≡ false → m'.sram at ≡ arrays.sram at)
    × (record m' { sram = arrays.sram } ≡ arrays)
pmem_read-pmem_write_example = pmem_read-pmem_write sram_base 0x11223344 5 arrays refl

mrom_read-load_img_example :
    (m' : Arrays) × (load_img (some image) arrays ≡ ok m')
    × ((offset : ℕ)
        → offset + 4 ≤ length image
        → mrom_read (npc_reset_pc m' + offset) m' ≡ ok (word (image_at image) offset))
mrom_read-load_img_example = mrom_read-load_img image arrays refl (omega arith) (omega arith)

abbrev idle : Uart
idle = record {
  stdin_enabled = true;
  stdin_requested = true;
  rx_frame = 0x3ff;
  rx_bits = 0;
  rx_ticks = 0;
  reads = some 0x61 ∷ none ∷ [];
}

drive_pins-frame_pins_example : drive_pins 160 idle ≡ (
  record idle { rx_frame = 0x3ff; rx_bits = 0; rx_ticks = 16; reads = none ∷ [] },
  frame_pins 0x61,
)
drive_pins-frame_pins_example =
    drive_pins-frame_pins idle 0x61 (none ∷ []) refl refl refl (omega arith)

-- In every second cycle the counter goes on and commits.
abbrev toggle : ℕ → Bool × ℕ → Bool × ℕ
toggle zero top = top
toggle (suc clock) (on, n) = (not on, if on then n else n + 4)

abbrev commits_now : Bool × ℕ → Bool
commits_now (on, n) = on

abbrev count_of : Bool × ℕ → ℕ
count_of (on, n) = n

abbrev toggling : Hardware (Bool × ℕ)
toggling = record {
  eval = λ clock reset pin c. record c { top = toggle clock c.top };
  finished = λ top. false;
  is_commit = commits_now;
  check_skip = λ top. false;
  read_gpr = λ top i. count_of top;
  read_pc = count_of;
}

abbrev counting : Reference Context
counting = record {
  init = λ ref. ref;
  memcpy = λ addr buf n ref. ref;
  exec = λ c. record c { gpr = λ i. c.gpr i + 4; pc = c.pc + 4 };
  read = λ c. c;
  write = λ c ref. c;
}

abbrev at_start : Npc (Bool × ℕ) Context
at_start = record {
  circuit = record { top = (false, 0); arrays = arrays; events = no_events };
  reset_pin = 0;
  uart = idle;
  cycles = 0;
  insts = 0;
  boot_time = 0;
  ref = record { gpr = λ i. 0; pc = 0; csr = λ i. 0 };
}

abbrev wait_of : Bool × ℕ → ℕ
wait_of (true, n) = 1
wait_of (false, n) = 0

wait_of-le : (top : Bool × ℕ) → wait_of top ≤ 1
wait_of-le (true, n) = omega arith
wait_of-le (false, n) = omega arith

toggle_nearer :
    (top : Bool × ℕ)
    → (false ≡ true)
      ⊎ ((commits_now (toggle 1 top) ≡ true) ⊎ (wait_of (toggle 1 top) < wait_of top))
toggle_nearer (true, n) = inr (inr (omega arith))
toggle_nearer (false, n) = inr (inl refl)

toggling-Commits : Commits toggling 1
toggling-Commits = record {
  wait = λ c. wait_of c.top;
  bounded = λ c. wait_of-le c.top;
  nearer = λ pin c. toggle_nearer c.top;
}

counting-Copies : Copies counting
counting-Copies = record { pc = λ c r. refl; gpr = λ c r i below. refl }

cpu_exec-Agree_example :
    Post
      (λ (n', m'). n' ≡ 0 → Agree toggling (counting.read m'.ref) m'.circuit.top)
      (cpu_exec toggling counting true 6 3 at_start)
cpu_exec-Agree_example = cpu_exec-Agree toggling counting counting-Copies 6 2 at_start

abbrev settings : Settings
settings =
    parse_args
      (codes "--flash-boot"
        ∷ codes "a.bin"
        ∷ codes "--pc-trace"
        ∷ codes "-b"
        ∷ codes "--batch"
        ∷ codes "a.elf"
        ∷ [])
      (record {
        batch_mode = false;
        flash_boot = false;
        ref_so_file = some (codes "ref.so");
        pc_trace_path = none;
        img_file = none;
        elf_file = none;
      })

settings-parsed : settings ≡ record {
  batch_mode = true;
  flash_boot = true;
  ref_so_file = some (codes "ref.so");
  pc_trace_path = some (codes "-b");
  img_file = some (codes "a.bin");
  elf_file = some (codes "a.elf");
}
unfolding parse_args take_arg take_file
settings-parsed = refl

abbrev files : List ℕ → Option (List ℕ)
files name = if same_text name (codes "a.bin") then some image else none

start_npc-IsReady_example :
    Post
      (IsReady toggling counting (is_checked true settings) 7)
      (start_npc toggling counting true files 7 settings at_start)
start_npc-IsReady_example =
    start_npc-IsReady toggling counting counting-Copies true files 7 settings at_start

run_batch-Stops_example :
    Post
      (λ (n', m'). Stops toggling n' m')
      (run_batch toggling counting true files 7 settings ((2 ^ 64 - 1) * 2) at_start)
run_batch-Stops_example =
    run_batch-Stops toggling counting counting-Copies 1 toggling-Commits true files 7 settings
      ((2 ^ 64 - 1) * 2) at_start (omega arith)

-- After three instructions the reference stands where the hardware stands.
abbrev pcs_of : Result (ℕ × Npc (Bool × ℕ) Context) → Option (ℕ × ℕ × ℕ × ℕ)
pcs_of (ok (n, m)) = some (n, m.cycles, m.insts, m.ref.pc)
pcs_of (fault e) = none

three_instructions : pcs_of (cpu_exec toggling counting true 6 3 at_start) ≡ some (0, 5, 3, 12)
unfolding cpu_exec commit single_cycle difftest checkregs
three_instructions = refl
