-- ===== src/Device/PortIo.antt =====
-- Port I/O: nemu/src/device/io/port-io.c. Its table of maps is one of its own.
use Prim.Native.String.{String}
use ysyxworkbench.Prelude.{
  ℕ, ◌+◌, Bool, true, false, Option, none, some, Result, ok, assert, ◌>>=◌, ◌>>◌, [], ◌∷◌, ◌++◌,
  ltb, leb, sub32, u32, length,
}
use ysyxworkbench.Device.Map.{IoMap, Io, Mmio, nr_map_max, fetch_mmio_map, map_read, map_write}

abbrev pub port_io_space_max : ℕ
port_io_space_max = 65535

-- `addr + len` is a sum of words.
unfoldable pub add_pio_map :
    {C S : Type 0} → String → ℕ → ℕ → ℕ → Option C → Mmio C S → Result (Mmio C S)
add_pio_map {C} name addr space len callback m = do
  assert (ltb (length m.maps) nr_map_max)
  assert (leb (u32 (addr + len)) port_io_space_max)
  let map : IoMap C = record {
    name = name;
    low = addr;
    high = sub32 (addr + len) 1;
    space = space;
    callback = callback;
  }
  ok (record m { maps = m.maps ++ map ∷ [] })

abbrev pub is_found : {C : Type 0} → Option (IoMap C) → Bool
is_found none = false
is_found (some map) = true

module _ {C S : Type 0} (handle : C → ℕ → ℕ → Bool → Io S → Result (Io S)) where
  unfoldable pub pio_read : ℕ → ℕ → Mmio C S → Result (ℕ × Mmio C S)
  unfolding fetch_mmio_map map_read
  pio_read addr len m = do
    assert (ltb (sub32 (addr + len) 1) port_io_space_max)
    let (map?, m') = fetch_mmio_map addr m
    assert (is_found map?)
    (ret, io') ← map_read handle addr len map? m'.io
    ok (ret, record m' { io = io' })

  unfoldable pub pio_write : ℕ → ℕ → ℕ → Mmio C S → Result (Mmio C S)
  unfolding fetch_mmio_map map_write
  pio_write addr len word m = do
    assert (ltb (sub32 (addr + len) 1) port_io_space_max)
    let (map?, m') = fetch_mmio_map addr m
    assert (is_found map?)
    io' ← map_write handle addr len word map? m'.io
    ok (record m' { io = io' })
