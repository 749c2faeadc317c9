-- ===== src/Npc/Start/Batch.antt =====
-- What npc/csrc/main.cpp has set up before the first instruction, and the end of a batch run.
use ysyxworkbench.Prelude.{
  ℕ, suc, ◌-◌, ◌*◌, ◌^◌, ◌≤◌, ◌≡◌, refl, Bool, true, false, Option, List, Post, Post-bind,
  Post-true, if◌then◌else◌,
}
use ysyxworkbench.Npc.Memory.{init_flash}
use ysyxworkbench.Npc.Perf.{Events, no_events, reset_perf_stats}
use ysyxworkbench.Npc.Exec.{Hardware, Reference, Npc, reset}
use ysyxworkbench.Npc.Exec.Checked.{Agree, Copies, Agree-copied}
use ysyxworkbench.Npc.Exec.Progress.{Commits, Stops, cpu_exec-Stops}
use ysyxworkbench.Npc.Start.{Settings, init_difftest, load_file, is_checked, start_npc, run_batch}

-- Every event counter is at zero.
pub record IsClear (e : Events) : Type 0 where
  pub cat_count : (i : ℕ) → e.cat_count i ≡ 0
  pub cat_cycles : (i : ℕ) → e.cat_cycles i ≡ 0
  pub ifu_fetch : e.ifu_fetch ≡ 0
  pub lsu_load_data : e.lsu_load_data ≡ 0
  pub lsu_store_done : e.lsu_store_done ≡ 0
  pub exu_done : e.exu_done ≡ 0
  pub icache_hit : e.icache_hit ≡ 0
  pub icache_miss : e.icache_miss ≡ 0
  pub ifu_wait_req : e.ifu_wait_req ≡ 0
  pub ifu_wait_rsp : e.ifu_wait_rsp ≡ 0
  pub ifu_wait_lsu_ld : e.ifu_wait_lsu_ld ≡ 0
  pub ifu_wait_lsu_st : e.ifu_wait_lsu_st ≡ 0
  pub lsu_load_lat_sum : e.lsu_load_lat_sum ≡ 0
  pub lsu_store_lat_sum : e.lsu_store_lat_sum ≡ 0
  pub lsu_load_lat_count : e.lsu_load_lat_count ≡ 0
  pub lsu_store_lat_count : e.lsu_store_lat_count ≡ 0
  pub icache_miss_lat_sum : e.icache_miss_lat_sum ≡ 0
  pub icache_miss_lat_count : e.icache_miss_lat_count ≡ 0

-- Out of reset, with all counters clear and the start time recorded, and the reference where the
-- hardware is if it is compared.
pub record IsReady {D R : Type 0} (hw : Hardware D) (api : Reference R) (checked : Bool) (time : ℕ)
    (m : Npc D R) : Type 0 where
  pub reset_pin : m.reset_pin ≡ 0
  pub insts : m.insts ≡ 0
  pub cycles : m.cycles ≡ 0
  pub boot_time : m.boot_time ≡ time
  pub events : IsClear m.circuit.events
  pub agree : checked ≡ true → Agree hw (api.read m.ref) m.circuit.top

no_events-IsClear : IsClear no_events
no_events-IsClear = record {
  cat_count = λ i. refl;
  cat_cycles = λ i. refl;
  ifu_fetch = refl;
  lsu_load_data = refl;
  lsu_store_done = refl;
  exu_done = refl;
  icache_hit = refl;
  icache_miss = refl;
  ifu_wait_req = refl;
  ifu_wait_rsp = refl;
  ifu_wait_lsu_ld = refl;
  ifu_wait_lsu_st = refl;
  lsu_load_lat_sum = refl;
  lsu_store_lat_sum = refl;
  lsu_load_lat_count = refl;
  lsu_store_lat_count = refl;
  icache_miss_lat_sum = refl;
  icache_miss_lat_count = refl;
}

module _ {D R : Type 0} (hw : Hardware D) (api : Reference R) (copies : Copies api) where
  init_difftest-IsReady :
      (checked : Bool) (time : ℕ) (m : Npc D R)
      → m.reset_pin ≡ 0
      → m.insts ≡ 0
      → m.cycles ≡ 0
      → m.boot_time ≡ time
      → IsClear m.circuit.events
      → IsReady hw api checked time (if checked then init_difftest hw api m else m)
  unfolding init_difftest
  init_difftest-IsReady true time m pin insts cycles boot events = record {
    reset_pin = pin;
    insts = insts;
    cycles = cycles;
    boot_time = boot;
    events = events;
    agree = λ _. Agree-copied hw api copies m.circuit.top _ _ _;
  }
  init_difftest-IsReady false time m pin insts cycles boot events = record {
    reset_pin = pin;
    insts = insts;
    cycles = cycles;
    boot_time = boot;
    events = events;
    agree = λ e. cc;
  }

  -- When `main` has started the simulation, with any image that can be loaded, the hardware is out of
  -- reset, the cycles, the instructions and every event counter are at zero, the start time is the
  -- time that was read, and where the differential test is on, the reference has the program counter
  -- and the registers of the hardware. The copy functions of the reference give back what was copied
  -- in.
  pub start_npc-IsReady :
      (difftest : Bool) (file : List ℕ → Option (List ℕ)) (time : ℕ) (s : Settings) (m : Npc D R)
      → Post (IsReady hw api (is_checked difftest s) time) (start_npc hw api difftest file time s m)
  unfolding start_npc reset reset_perf_stats
  start_npc-IsReady difftest file time s m =
      let arrays = init_flash (record m.circuit.arrays { flash_boot = s.flash_boot }) in
      Post-bind (λ _. Unit {0}) (IsReady hw api (is_checked difftest s) time)
        (load_file file s.img_file arrays) _ (Post-true (load_file file s.img_file arrays))
        (λ loaded _.
          init_difftest-IsReady (is_checked difftest s) time _ refl refl refl refl
            no_events-IsClear)

  -- A batch run does not go on for ever: when out of reset each instruction of the hardware takes at
  -- most `bound` + 1 cycles, or the simulation finishes, that many rounds for each of the 2^64 - 1
  -- instructions asked for are enough for the loop to stop, by a failed assertion, with no
  -- instruction to go, or with the simulation finished.
  pub run_batch-Stops :
      (bound : ℕ) (commits : Commits hw bound) (difftest : Bool) (file : List ℕ → Option (List ℕ))
      (time : ℕ) (s : Settings) (rounds : ℕ) (m : Npc D R)
      → (2 ^ 64 - 1) * suc bound ≤ rounds
      → Post (λ (n', m'). Stops hw n' m') (run_batch hw api difftest file time s rounds m)
  unfolding run_batch
  run_batch-Stops bound commits difftest file time s rounds m enough =
      Post-bind (IsReady hw api (is_checked difftest s) time) (λ (n', m'). Stops hw n' m')
        (start_npc hw api difftest file time s m) _ (start_npc-IsReady difftest file time s m)
        (λ ready is_ready.
          cpu_exec-Stops hw api bound commits (is_checked difftest s) rounds (2 ^ 64 - 1) ready
            is_ready.reset_pin enough)
