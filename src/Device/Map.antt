-- ===== src/Device/Map.antt =====
-- The I/O space and its maps: nemu/src/device/io/map.c, nemu/src/device/io/mmio.c and
-- nemu/include/device/map.h. A callback is a value of the parameter `C`, and `handle` is what the
-- device's handler does; NULL is `none`.
use Prim.Native.String.{String}
use ysyxworkbench.Prelude.{
  ℕ, suc, ◌+◌, ◌-◌, ◌*◌, ◌^◌, Bool, true, false, ◌&&◌, ◌||◌, not, Option, none, some, Result, ok,
  fault, assertion, assert, ◌>>=◌, ◌>>◌, List, [], ◌∷◌, ◌++◌, ltb, leb, if◌then◌else◌, bit_and,
  sub32, length, get_elem?,
}
use ysyxworkbench.Memory.{host_read, host_write, in_pmem}
use ysyxworkbench.Difftest.Skip.{Skip, difftest_skip_ref}

abbrev pub io_space_max : ℕ
io_space_max = 32 * 1024 * 1024

abbrev pub nr_map_max : ℕ
nr_map_max = 16

-- `IOMap`. `space` is an index into `io_space`.
pub record IoMap (C : Type 0) : Type 0 where
  pub name : String
  pub low : ℕ
  pub high : ℕ
  pub space : ℕ
  pub callback : Option C

-- `io_space`, `p_space` (as an index), the variables of the devices, and those of dut.c.
pub record Io (S : Type 0) : Type 0 where
  pub io_space : ℕ → ℕ
  pub p_space : ℕ
  pub dev : S
  pub skip : Skip

-- `maps[0 .. nr_map)` of mmio.c, and the rest.
pub record Mmio (C S : Type 0) : Type 0 where
  pub maps : List (IoMap C)
  pub io : Io S

-- `PAGE_SIZE` is 4096; `size` is a positive `int`, the sum an `unsigned long`.
unfoldable pub new_space : {S : Type 0} → ℕ → Io S → Result (ℕ × Io S)
new_space size io = do
  let p = io.p_space
  let size' = bit_and (size + (4096 - 1)) (2 ^ 64 - 4096)
  assert (ltb (p + size') io_space_max)
  ok (p, record io { p_space = p + size' })

unfoldable pub map_inside : {C : Type 0} → IoMap C → ℕ → Bool
map_inside map addr = leb map.low addr && leb addr map.high

-- The loop of `find_mapid_by_addr`, from index `i` on.
unfoldable pub find_from : {C : Type 0} → List (IoMap C) → ℕ → ℕ → Option ℕ
unfolding map_inside
find_from [] i addr = none
find_from (map ∷ maps) i addr = if map_inside map addr then some i else find_from maps (suc i) addr

-- -1 is `none`.
unfoldable pub find_mapid_by_addr : {C : Type 0} → List (IoMap C) → ℕ → Skip → Option ℕ × Skip
find_mapid_by_addr maps addr skip = elim (find_from maps 0 addr) [
  | some i ↦ (some i, difftest_skip_ref skip)
  | none ↦ (none, skip)
]

unfoldable pub check_bound : {C : Type 0} → Option (IoMap C) → ℕ → Result (IoMap C)
check_bound none addr = fault assertion
check_bound (some map) addr =
    if leb addr map.high && leb map.low addr then ok map else fault assertion

module _ {C S : Type 0} (handle : C → ℕ → ℕ → Bool → Io S → Result (Io S)) where
  unfoldable pub invoke_callback : Option C → ℕ → ℕ → Bool → Io S → Result (Io S)
  invoke_callback none offset len is_write io = ok io
  invoke_callback (some c) offset len is_write io = handle c offset len is_write io

  unfoldable pub map_read : ℕ → ℕ → Option (IoMap C) → Io S → Result (ℕ × Io S)
  map_read addr len map? io = do
    assert (leb 1 len && leb len 8)
    map ← check_bound map? addr
    let offset = sub32 addr map.low
    io' ← invoke_callback map.callback offset len false io
    ret ← host_read io'.io_space io_space_max (map.space + offset) len
    ok (ret, io')

  unfoldable pub map_write : ℕ → ℕ → ℕ → Option (IoMap C) → Io S → Result (Io S)
  map_write addr len word map? io = do
    assert (leb 1 len && leb len 8)
    map ← check_bound map? addr
    let offset = sub32 addr map.low
    bytes ← host_write io.io_space io_space_max (map.space + offset) len word
    invoke_callback map.callback offset len true (record io { io_space = bytes })

-- `fetch_mmio_map`: NULL is `none`.
unfoldable pub fetch_mmio_map : {C S : Type 0} → ℕ → Mmio C S → Option (IoMap C) × Mmio C S
fetch_mmio_map addr m =
    let (mapid, skip') = find_mapid_by_addr m.maps addr m.io.skip in
    let m' = record m { io = record (m.io) { skip = skip' } } in
    elim mapid [ none ↦ (none, m') | some i ↦ (get_elem? m.maps i, m') ]

-- The loop over the maps in `add_mmio_map`: some map meets [left, right].
unfoldable pub overlaps_any : {C : Type 0} → List (IoMap C) → ℕ → ℕ → Bool
overlaps_any [] left right = false
overlaps_any (map ∷ maps) left right =
    (leb left map.high && leb map.low right) || overlaps_any maps left right

-- `report_mmio_overlap` panics. `addr + len - 1` is a 32-bit sum.
unfoldable pub add_mmio_map :
    {C S : Type 0} → String → ℕ → ℕ → ℕ → Option C → Mmio C S → Result (Mmio C S)
add_mmio_map {C} name addr space len callback m = do
  assert (ltb (length m.maps) nr_map_max)
  let left = addr
  let right = sub32 (addr + len) 1
  assert (not (in_pmem left || in_pmem right))
  assert (not (overlaps_any m.maps left right))
  let map : IoMap C = record {
    name = name;
    low = addr;
    high = right;
    space = space;
    callback = callback;
  }
  ok (record m { maps = m.maps ++ map ∷ [] })

module _ {C S : Type 0} (handle : C → ℕ → ℕ → Bool → Io S → Result (Io S)) where
  unfoldable pub mmio_read : ℕ → ℕ → Mmio C S → Result (ℕ × Mmio C S)
  mmio_read addr len m = do
    let (map?, m') = fetch_mmio_map addr m
    (ret, io') ← map_read handle addr len map? m'.io
    ok (ret, record m' { io = io' })

  unfoldable pub mmio_write : ℕ → ℕ → ℕ → Mmio C S → Result (Mmio C S)
  mmio_write addr len word m = do
    let (map?, m') = fetch_mmio_map addr m
    io' ← map_write handle addr len word map? m'.io
    ok (record m' { io = io' })
