-- ===== src/Npc/Perf.antt =====
-- The counters of npc/csrc/main.cpp: `npc_perf_event`, `npc_perf_commit`, and the sum of the
-- categories that `print_perf_stats` compares.
pub mod Decoded
use ysyxworkbench.Prelude.{
  ℕ, zero, suc, ◌+◌, Bool, true, false, not, ◌||◌, List, [], ◌∷◌, ◌==◌, if◌then◌else◌, u32, u64,
  slt32,
}
use ysyxworkbench.Memory.{store}

-- PERF_CAT_NR and PERF_CAT_OTHER
abbrev pub perf_cat_nr : ℕ
perf_cat_nr = 8

abbrev pub perf_cat_other : ℕ
perf_cat_other = 7

pub record Events : Type 0 where
  pub cat_count : ℕ → ℕ
  pub cat_cycles : ℕ → ℕ
  pub ifu_fetch : ℕ
  pub lsu_load_data : ℕ
  pub lsu_store_done : ℕ
  pub exu_done : ℕ
  pub icache_hit : ℕ
  pub icache_miss : ℕ
  pub ifu_wait_req : ℕ
  pub ifu_wait_rsp : ℕ
  pub ifu_wait_lsu_ld : ℕ
  pub ifu_wait_lsu_st : ℕ
  pub lsu_load_lat_sum : ℕ
  pub lsu_store_lat_sum : ℕ
  pub lsu_load_lat_count : ℕ
  pub lsu_store_lat_count : ℕ
  pub icache_miss_lat_sum : ℕ
  pub icache_miss_lat_count : ℕ

-- `perf_cycles` and `perf_insts`, which the hardware's calls do not change, and `boot_time`
pub record Perf : Type 0 where
  pub cycles : ℕ
  pub insts : ℕ
  pub boot_time : ℕ
  pub events : Events

abbrev pub no_events : Events
no_events = record {
  cat_count = λ i. 0;
  cat_cycles = λ i. 0;
  ifu_fetch = 0;
  lsu_load_data = 0;
  lsu_store_done = 0;
  exu_done = 0;
  icache_hit = 0;
  icache_miss = 0;
  ifu_wait_req = 0;
  ifu_wait_rsp = 0;
  ifu_wait_lsu_ld = 0;
  ifu_wait_lsu_st = 0;
  lsu_load_lat_sum = 0;
  lsu_store_lat_sum = 0;
  lsu_load_lat_count = 0;
  lsu_store_lat_count = 0;
  icache_miss_lat_sum = 0;
  icache_miss_lat_count = 0;
}

-- `time` is what `get_time_internal` gives.
unfoldable pub reset_perf_stats : ℕ → Perf
reset_perf_stats time = record { cycles = 0; insts = 0; boot_time = time; events = no_events }

-- The numbers are those of the PERF_EVT constants; others are ignored.
unfoldable pub npc_perf_event : ℕ → ℕ → Events → Events
npc_perf_event event data_word e =
    if event == 0
    then record e { ifu_fetch = u64 (e.ifu_fetch + 1) }
    else if event == 1
    then record e { lsu_load_data = u64 (e.lsu_load_data + 1) }
    else if event == 2
    then record e { lsu_store_done = u64 (e.lsu_store_done + 1) }
    else if event == 3
    then record e { exu_done = u64 (e.exu_done + 1) }
    else if event == 4
    then record e { icache_hit = u64 (e.icache_hit + 1) }
    else if event == 5
    then record e { icache_miss = u64 (e.icache_miss + 1) }
    else if event == 10
    then record e { ifu_wait_req = u64 (e.ifu_wait_req + 1) }
    else if event == 11
    then record e { ifu_wait_rsp = u64 (e.ifu_wait_rsp + 1) }
    else if event == 12
    then record e { ifu_wait_lsu_ld = u64 (e.ifu_wait_lsu_ld + 1) }
    else if event == 13
    then record e { ifu_wait_lsu_st = u64 (e.ifu_wait_lsu_st + 1) }
    else if event == 20
    then record e {
      lsu_load_lat_sum = u64 (e.lsu_load_lat_sum + u32 data_word);
      lsu_load_lat_count = u64 (e.lsu_load_lat_count + 1);
    }
    else if event == 21
    then record e {
      lsu_store_lat_sum = u64 (e.lsu_store_lat_sum + u32 data_word);
      lsu_store_lat_count = u64 (e.lsu_store_lat_count + 1);
    }
    else if event == 22
    then record e {
      icache_miss_lat_sum = u64 (e.icache_miss_lat_sum + u32 data_word);
      icache_miss_lat_count = u64 (e.icache_miss_lat_count + 1);
    }
    else e

-- A category outside the array counts as PERF_CAT_OTHER.
unfoldable pub npc_perf_commit : ℕ → ℕ → Events → Events
npc_perf_commit category cycles e =
    let c =
      if slt32 category 0 || not (slt32 category perf_cat_nr) then perf_cat_other else category in
    record e {
      cat_count = store e.cat_count c (u64 (e.cat_count c + 1));
      cat_cycles = store e.cat_cycles c (u64 (e.cat_cycles c + u32 cycles));
    }

-- The loop over the categories in `print_perf_stats`.
unfoldable pub sum_from : ℕ → ℕ → (ℕ → ℕ) → ℕ → ℕ
sum_from zero i counts acc = acc
sum_from (suc left) i counts acc = sum_from left (suc i) counts (u64 (acc + counts i))

unfoldable pub decoded_insts : Events → ℕ
unfolding sum_from
decoded_insts e = sum_from perf_cat_nr 0 e.cat_count 0
