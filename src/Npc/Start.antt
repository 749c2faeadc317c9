-- ===== src/Npc/Start.antt =====
-- The start of npc/csrc/main.cpp: the arguments of `main`, `init_difftest`, and what `main` does before
-- and in batch mode. The file system is a parameter.
pub mod Batch
use ysyxworkbench.Prelude.{
  ℕ, zero, suc, ◌+◌, ◌-◌, ◌^◌, Bool, true, false, not, ◌&&◌, ◌||◌, Option, none, some, Result, ok,
  assert, fault, assertion, ◌>>=◌, ◌>>◌, List, [], ◌∷◌, if◌then◌else◌, codes, same_text,
}
use ysyxworkbench.Npc.Memory.{
  Arrays, mrom_base, mrom_size, sram_base, sram_size, flash_base, init_flash, load_img,
}
use ysyxworkbench.Npc.Perf.{reset_perf_stats, no_events}
use ysyxworkbench.Npc.Exec.{Circuit, Hardware, Context, Reference, Npc, copy_gprs, reset, cpu_exec}

-- The variables that the arguments set
pub record Settings : Type 0 where
  pub batch_mode : Bool
  pub flash_boot : Bool
  pub ref_so_file : Option (List ℕ)
  pub pc_trace_path : Option (List ℕ)
  pub img_file : Option (List ℕ)
  pub elf_file : Option (List ℕ)

-- An argument that is no option
unfoldable pub take_file : List ℕ → Settings → Settings
take_file arg s = elim s.img_file [
  | none ↦ record s { img_file = some arg }
  | some img ↦ elim s.elf_file [ none ↦ record s { elf_file = some arg } | some elf ↦ s ]
]

-- An argument other than `--pc-trace` with a path behind it
unfoldable pub take_arg : List ℕ → Settings → Settings
unfolding take_file
take_arg arg s =
    if same_text arg (codes "-b") || same_text arg (codes "--batch")
    then record s { batch_mode = true }
    else if same_text arg (codes "--flash-boot")
    then record s { flash_boot = true }
    else if same_text arg (codes "--no-difftest")
    then record s { ref_so_file = none }
    else take_file arg s

-- The loop over the arguments of `main`.
unfoldable pub parse_args : List (List ℕ) → Settings → Settings
parse_args [] s = s
parse_args (arg ∷ []) s = take_arg arg s
parse_args (arg ∷ next ∷ args) s =
    let rest = parse_args args (record s { pc_trace_path = some next }) in
    let all = parse_args (next ∷ args) (take_arg arg s) in
    if same_text arg (codes "--pc-trace") then rest else all

-- `file` gives the bytes of a file that can be opened.
unfoldable pub load_file : (List ℕ → Option (List ℕ)) → Option (List ℕ) → Arrays → Result Arrays
load_file file none m = load_img none m
load_file file (some name) m = elim (file name) [
  | some image ↦ load_img (some image) m
  | none ↦ fault assertion
]

-- ENABLE_DIFFTEST, with a shared object that has been loaded
abbrev pub is_checked : Bool → Settings → Bool
is_checked difftest s = elim s.ref_so_file [ some name ↦ difftest | none ↦ false ]

module _ {D R : Type 0} (hw : Hardware D) (api : Reference R) where
  -- With a reference that has been loaded.
  unfoldable pub init_difftest : Npc D R → Npc D R
  init_difftest m =
      let top = m.circuit.top in
      let arrays : Arrays = record m.circuit.arrays { sram = λ i. 0 } in
      let with_mrom = api.memcpy mrom_base arrays.mrom mrom_size (api.init m.ref) in
      let with_sram = api.memcpy sram_base arrays.sram sram_size with_mrom in
      let ref =
        if arrays.flash_boot
        then api.memcpy flash_base arrays.flash arrays.img_size_loaded with_sram
        else with_sram in
      let ctx : Context = record (api.read ref) {
        gpr = copy_gprs 16 0 (hw.read_gpr top) (api.read ref).gpr;
        pc = hw.read_pc top;
      } in
      record m { circuit = record m.circuit { arrays = arrays }; ref = api.write ctx ref }

  -- What `main` does from `init_flash` to `init_difftest`. `time` is what `get_time_internal` gives.
  unfoldable pub start_npc :
      Bool → (List ℕ → Option (List ℕ)) → ℕ → Settings → Npc D R → Result (Npc D R)
  start_npc difftest file time s m = do
    let arrays = init_flash (record m.circuit.arrays { flash_boot = s.flash_boot })
    loaded ← load_file file s.img_file arrays
    let ready = reset hw 10 (record m { circuit = record m.circuit { arrays = loaded } })
    let clear = reset_perf_stats time
    let counted = record ready {
      cycles = clear.cycles;
      insts = clear.insts;
      boot_time = clear.boot_time;
      circuit = record ready.circuit { events = clear.events };
    }
    ok (if is_checked difftest s then init_difftest counted else counted)

  -- `main` in batch mode: `cpu_exec(-1)`, in at most `rounds` rounds.
  unfoldable pub run_batch :
      Bool → (List ℕ → Option (List ℕ)) → ℕ → Settings → ℕ → Npc D R → Result (ℕ × Npc D R)
  run_batch difftest file time s rounds m = start_npc difftest file time s m >>= λ ready.
      cpu_exec hw api (is_checked difftest s) rounds (2 ^ 64 - 1) ready
