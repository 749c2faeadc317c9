-- ===== src/Device/Layout.antt =====
-- The maps of mmio.c: no two share an address, and a lookup finds the one that holds an address.
use Prim.Native.String.{String}
use ysyxworkbench.Prelude.{
  ℕ, zero, suc, ◌+◌, ◌%◌, ◌^◌, ◌≤◌, ◌<◌, ◌≡◌, ◌⊎◌, inl, inr, refl, Bool, false, Option, none, some,
  Result, ok, fault, assertion, ◌>>=◌, List, [], ◌∷◌, ◌++◌, arith, length, get_elem?, length-append,
  sub32, Bool-cases, Result-cases,
}
use ysyxworkbench.Memory.{pmem, size, in_pmem, host_write}
use ysyxworkbench.Memory.Access.{host_read-host_write}
use ysyxworkbench.Difftest.Skip.{difftest_skip_ref}
use ysyxworkbench.Device.Map.{
  IoMap, Io, Mmio, nr_map_max, io_space_max, map_inside, find_from, find_mapid_by_addr, check_bound,
  invoke_callback, map_read, map_write, fetch_mmio_map, overlaps_any, add_mmio_map, mmio_read,
  mmio_write,
}
use ysyxworkbench.Device.Apart.{
  Inside, AllApart, IsLaidOut, overlaps_any-AllApart, IsLaidOut-append,
}

-- What a call of `add_mmio_map` that returns has checked and done.
record Added {C S : Type 0} (new : IoMap C) (m m' : Mmio C S) : Type 0 where
  room : length m.maps < nr_map_max
  low_outside : in_pmem new.low ≡ false
  high_outside : in_pmem new.high ≡ false
  apart : overlaps_any m.maps new.low new.high ≡ false
  result : m' ≡ record m { maps = m.maps ++ new ∷ [] }

abbrev pub new_map : {C : Type 0} → String → ℕ → ℕ → ℕ → Option C → IoMap C
new_map name addr space len callback = record {
  name = name;
  low = addr;
  high = sub32 (addr + len) 1;
  space = space;
  callback = callback;
}

add_mmio_map-Added :
    {C S : Type 0} (name : String) (addr space len : ℕ) (callback : Option C) (m m' : Mmio C S)
    → add_mmio_map name addr space len callback m ≡ ok m'
    → Added (new_map name addr space len callback) m m'
unfolding add_mmio_map
add_mmio_map-Added name addr space len callback m m' e = ground arith

Outside_of_AllApart :
    {C : Type 0} (left right : ℕ) (maps : List (IoMap C)) (i addr : ℕ) (map : IoMap C)
    → AllApart left right maps
    → get_elem? maps i ≡ some map
    → Inside map addr
    → (addr < left) ⊎ (right < addr)
Outside_of_AllApart left right [] i addr map apart e h = cc
Outside_of_AllApart left right (m ∷ maps) zero addr map apart e h = ground arith
Outside_of_AllApart left right (m ∷ maps) (suc i) addr map (a, apart) e h =
    Outside_of_AllApart left right maps i addr map apart e h

-- A region of at least one byte that lies below 2 ^ 32 is added without spoiling the layout: no two
-- maps share an address, and both ends of each are outside pmem. The table never holds more than
-- its 16 entries. When the new region is no longer than pmem, none of its addresses is in pmem.
pub add_mmio_map-IsLaidOut :
    {C S : Type 0} (name : String) (addr space len : ℕ) (callback : Option C) (m m' : Mmio C S)
    → IsLaidOut m.maps
    → 0 < len
    → addr + len ≤ 2 ^ 32
    → add_mmio_map name addr space len callback m ≡ ok m'
    → IsLaidOut m'.maps
      × (length m'.maps ≤ nr_map_max)
      × (len ≤ size pmem → (a : ℕ) → addr ≤ a → a < addr + len → in_pmem a ≡ false)
unfolding in_pmem
add_mmio_map-IsLaidOut name addr space len callback m m' laid pos fits e =
    let new = new_map name addr space len callback in
    let done = add_mmio_map-Added name addr space len callback m m' e in
    let apart = overlaps_any-AllApart m.maps new.low new.high done.apart in
    let low = done.low_outside in
    let high = done.high_outside in
    rw done.result (
      IsLaidOut-append m.maps new laid apart (omega arith) low high,
      omega (arith, length-append {0} m.maps (new ∷ []), done.room),
      λ short a from below. ground (arith, low, high),
    )

find_from-Inside :
    {C : Type 0} (maps : List (IoMap C)) (k i addr : ℕ) (map : IoMap C)
    → IsLaidOut maps
    → get_elem? maps i ≡ some map
    → Inside map addr
    → find_from maps k addr ≡ some (k + i)
unfolding find_from
find_from-Inside [] k i addr map laid e h = cc
find_from-Inside (m ∷ maps) k zero addr map laid e h = ground arith
find_from-Inside (m ∷ maps) k (suc i) addr map (le, l, r, apart, laid) e h =
    let rest = find_from-Inside maps (suc k) i addr map laid e h in
    let out = Outside_of_AllApart m.low m.high maps i addr map apart e h in
    ground (arith, rest, out)

find_from-none :
    {C : Type 0} (maps : List (IoMap C)) (k addr : ℕ)
    → ((i : ℕ) (map : IoMap C) → get_elem? maps i ≡ some map → ¬ (Inside map addr))
    → find_from maps k addr ≡ none
unfolding find_from
find_from-none [] k addr h = refl
find_from-none (m ∷ maps) k addr h = elim (Bool-cases (map_inside m addr)) [
  | inl inside ↦ absurd (h 0 m refl (ground arith))
  | inr outside ↦ rw outside (find_from-none maps (suc k) addr (λ i map e. h (suc i) map e))
]

module _ {C S : Type 0} (handle : C → ℕ → ℕ → Bool → Io S → Result (Io S)) where
  -- The state that a found map leaves: the reference will skip the instruction.
  abbrev pub skipping : Io S → Io S
  skipping io = record io { skip = difftest_skip_ref io.skip }

  -- With the maps laid out, an access at an address of map `i` is an access to that map, and makes
  -- the differential test skip the instruction.
  pub mmio_read_at :
      (m : Mmio C S) (i addr len : ℕ) (map : IoMap C)
      → IsLaidOut m.maps
      → get_elem? m.maps i ≡ some map
      → Inside map addr
      → mmio_read handle addr len m ≡ (do
        (v, io') ← map_read handle addr len (some map) (skipping m.io)
        ok (v, record m { io = io' }))
  unfolding mmio_read fetch_mmio_map find_mapid_by_addr
  mmio_read_at m i addr len map laid e h =
      ground (arith, find_from-Inside m.maps 0 i addr map laid e h)

  pub mmio_write_at :
      (m : Mmio C S) (i addr len word : ℕ) (map : IoMap C)
      → IsLaidOut m.maps
      → get_elem? m.maps i ≡ some map
      → Inside map addr
      → mmio_write handle addr len word m ≡ (do
        io' ← map_write handle addr len word (some map) (skipping m.io)
        ok (record m { io = io' }))
  unfolding mmio_write fetch_mmio_map find_mapid_by_addr
  mmio_write_at m i addr len word map laid e h =
      ground (arith, find_from-Inside m.maps 0 i addr map laid e h)

  -- An access at an address of no map stops with the assertion of `check_bound`.
  pub mmio_unmapped :
      (m : Mmio C S) (addr len word : ℕ)
      → ((i : ℕ) (map : IoMap C) → get_elem? m.maps i ≡ some map → ¬ (Inside map addr))
      → (mmio_read handle addr len m ≡ fault assertion)
        × (mmio_write handle addr len word m ≡ fault assertion)
  unfolding mmio_read mmio_write fetch_mmio_map find_mapid_by_addr map_read map_write check_bound
  mmio_unmapped m addr len word out = ground (arith, find_from-none m.maps 0 addr out)

  map_read-map_write :
      (io io' : Io S) (addr len word : ℕ) (map : IoMap C)
      → map.callback ≡ none
      → map_write handle addr len word (some map) io ≡ ok io'
      → (map_read handle addr len (some map) io' ≡ ok (word % 256 ^ len, io'))
        × (io'.dev ≡ io.dev)
        × (io'.skip ≡ io.skip)
  unfolding map_read map_write check_bound invoke_callback
  map_read-map_write io io' addr len word map silent w =
      let at = map.space + sub32 addr map.low in
      elim (Result-cases (host_write io.io_space io_space_max at len word)) [
        | inl (bytes, q) ↦
            ground (arith, host_read-host_write io.io_space bytes io_space_max at len word q)
        | inr (f, q) ↦ ground arith
      ]

  -- With the maps laid out, what is written inside a map without a callback is read back at the same
  -- address and length, up to the low `len` bytes; the read changes nothing, and the write changes
  -- neither the maps nor the state of the devices.
  pub mmio_read-mmio_write :
      (m m' : Mmio C S) (i addr len word : ℕ) (map : IoMap C)
      → IsLaidOut m.maps
      → get_elem? m.maps i ≡ some map
      → Inside map addr
      → map.callback ≡ none
      → mmio_write handle addr len word m ≡ ok m'
      → (mmio_read handle addr len m' ≡ ok (word % 256 ^ len, m'))
        × (m'.maps ≡ m.maps)
        × (m'.io.dev ≡ m.io.dev)
  unfolding difftest_skip_ref
  mmio_read-mmio_write m m' i addr len word map laid e h silent w =
      elim (Result-cases (map_write handle addr len word (some map) (skipping m.io))) [
        | inl (io', q) ↦
            let back = map_read-map_write (skipping m.io) io' addr len word map silent q in
            ground (
              arith,
              mmio_write_at m i addr len word map laid e h,
              mmio_read_at (record m { io = io' }) i addr len map laid e h,
              back,
            )
        | inr (f, q) ↦ ground (arith, mmio_write_at m i addr len word map laid e h)
      ]
