-- ===== src/Tests/Device.antt =====
-- The maps of nemu/src/device/io/mmio.c with one device of 16 bytes, the key queue, and the
-- differential test against a reference that only counts.
use ysyxworkbench.Prelude.{
  ℕ, ◌+◌, ◌%◌, ◌^◌, ◌<◌, ◌≤◌, ◌≡◌, refl, Bool, false, none, some, Result, ok, fault, assertion,
  ◌>>=◌, [], ◌∷◌, length, get_elem?, arith, List,
}
use ysyxworkbench.Device.Sdcard.{Card, send_command, write_data, read_data}
use ysyxworkbench.Device.Sdcard.Blocks.{Words, read_data-write_data}
use ysyxworkbench.Memory.{in_pmem, host_write}
use ysyxworkbench.Device.Map.{
  IoMap, Io, Mmio, nr_map_max, add_mmio_map, map_read, map_write, mmio_read, mmio_write,
  fetch_mmio_map, find_mapid_by_addr, find_from, map_inside, check_bound, invoke_callback,
  overlaps_any,
}
use ysyxworkbench.Device.Layout.{
  skipping, add_mmio_map-IsLaidOut, mmio_read_at, mmio_unmapped, mmio_read-mmio_write,
}
use ysyxworkbench.Device.Apart.{IsLaidOut, Inside}
use ysyxworkbench.Device.Ports.{rtc_io_handler}

abbrev no_handler : ℕ → ℕ → ℕ → Bool → Io (Unit {0}) → Result (Io (Unit {0}))
no_handler c offset len is_write io = ok io

abbrev io_start : Io (Unit {0})
io_start = record {
  io_space = λ i. 0;
  p_space = 0;
  dev = tt;
  skip = record { is_skip_ref = false; skip_dut_nr_inst = 0 };
}

abbrev no_maps : Mmio ℕ (Unit {0})
no_maps = record { maps = []; io = io_start }

abbrev serial : IoMap ℕ
serial = record { name = "serial"; low = 0xa00003f8; high = 0xa0000407; space = 0; callback = none }

abbrev one_map : Mmio ℕ (Unit {0})
one_map = record { maps = serial ∷ []; io = io_start }

add_runs : add_mmio_map "serial" 0xa00003f8 0 16 none no_maps ≡ ok one_map
unfolding add_mmio_map in_pmem overlaps_any
add_runs = refl

one_map-IsLaidOut : IsLaidOut one_map.maps
unfolding in_pmem
one_map-IsLaidOut = (omega arith, refl, refl, tt, tt)

add_mmio_map-IsLaidOut_example :
    IsLaidOut one_map.maps
    × (length one_map.maps ≤ nr_map_max)
    × (16 ≤ 0x8000000 → (a : ℕ) → 0xa00003f8 ≤ a → a < 0xa00003f8 + 16 → in_pmem a ≡ false)
add_mmio_map-IsLaidOut_example =
    add_mmio_map-IsLaidOut "serial" 0xa00003f8 0 16 none no_maps one_map tt (omega arith)
      (omega arith) add_runs

mmio_read_at_example : mmio_read no_handler 0xa00003fc 4 one_map ≡ (do
  (v, io') ← map_read no_handler 0xa00003fc 4 (some serial) (skipping no_handler one_map.io)
  ok (v, record one_map { io = io' }))
mmio_read_at_example =
    mmio_read_at no_handler one_map 0 0xa00003fc 4 serial one_map-IsLaidOut refl
      (omega arith, omega arith)

no_maps_empty :
    (i : ℕ) (map : IoMap ℕ) → get_elem? no_maps.maps i ≡ some map → ¬ (Inside map 0xa0000000)
no_maps_empty i map e h = cc

mmio_unmapped_example :
    (mmio_read no_handler 0xa0000000 4 no_maps ≡ fault assertion)
    × (mmio_write no_handler 0xa0000000 4 1 no_maps ≡ fault assertion)
mmio_unmapped_example = mmio_unmapped no_handler no_maps 0xa0000000 4 1 no_maps_empty

abbrev after : Result (Mmio ℕ (Unit {0})) → Mmio ℕ (Unit {0})
after (ok m) = m
after (fault f) = no_maps

abbrev one_map_written : Mmio ℕ (Unit {0})
one_map_written = after (mmio_write no_handler 0xa00003fc 4 0x55aa one_map)

write_runs : mmio_write no_handler 0xa00003fc 4 0x55aa one_map ≡ ok one_map_written
unfolding mmio_write map_write fetch_mmio_map find_mapid_by_addr find_from map_inside check_bound
    invoke_callback host_write
write_runs = refl

mmio_read-mmio_write_example :
    (mmio_read no_handler 0xa00003fc 4 one_map_written ≡ ok (0x55aa % 256 ^ 4, one_map_written))
    × (one_map_written.maps ≡ one_map.maps)
    × (one_map_written.io.dev ≡ one_map.io.dev)
mmio_read-mmio_write_example =
    mmio_read-mmio_write no_handler one_map one_map_written 0 0xa00003fc 4 0x55aa serial
      one_map-IsLaidOut refl (omega arith, omega arith) refl write_runs

abbrev clock : Io ℕ
clock = record {
  io_space = λ i. 0;
  p_space = 8;
  dev = 0x1_2345_6789;
  skip = record { is_skip_ref = false; skip_dut_nr_inst = 0 };
}

abbrev latched : Result (Io ℕ) → Io ℕ
latched (ok io) = io
latched (fault f) = clock

abbrev clock_read : Io ℕ
clock_read = latched (rtc_io_handler 0 4 4 false clock)

latch_runs : rtc_io_handler 0 4 4 false clock ≡ ok clock_read
unfolding rtc_io_handler host_write
latch_runs = refl

-- A card whose file is shorter than the place where the words go.
abbrev card : Card
card = record {
  fp = some (record { bytes = λ i. i; size = 100; pos = 7 });
  base = λ i. 0;
  blkcnt = 0;
  blk_addr = 0;
  addr = 0;
  write_cmd = false;
  read_ext_csd = false;
}

abbrev two_words : List ℕ
two_words = 0x11223344 ∷ 0xdeadbeef ∷ []

two_words-Words : Words two_words
unfolding Words
two_words-Words = (omega arith, (omega arith, tt))

read_data-write_data_example :
    (c' : Card) × ((send_command 25 2 card >>= λ c₁. write_data two_words c₁ >>= λ c₂.
    send_command 18 2 c₂ >>= λ c₃. read_data (length two_words) c₃)
      ≡ ok (two_words, c'))
read_data-write_data_example =
    read_data-write_data 2 two_words card (record { bytes = λ i. i; size = 100; pos = 7 }) refl refl
      two_words-Words
