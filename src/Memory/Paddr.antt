-- ===== src/Memory/Paddr.antt =====
-- Address translation and the physical accesses of paddr.c, with the devices behind a bus.
use ysyxworkbench.Prelude.{
  ℕ, ◌+◌, ◌-◌, Bool, ◌&&◌, ◌||◌, Option, none, some, Result, ok, fault, assertion, ◌>>=◌, ltb,
  sub32, if◌then◌else◌,
}
use ysyxworkbench.Memory.Host.{
  Region, pmem, mrom, sram, flash, base, size, Mem, HostAddr, same_region, put, host_read,
  host_write,
}

unfoldable pub in_range : ℕ → ℕ → ℕ → Bool
in_range addr base' size' = ltb (sub32 addr base') size'

unfoldable pub in_pmem : ℕ → Bool
in_pmem addr = ltb (sub32 addr (base pmem)) (size pmem)

unfoldable pub in_mrom : ℕ → Bool
unfolding in_range
in_mrom addr = in_range addr (base mrom) (size mrom)

unfoldable pub in_sram : ℕ → Bool
unfolding in_range
in_sram addr = in_range addr (base sram) (size sram)

unfoldable pub in_flash : ℕ → Bool
unfolding in_range
in_flash addr = in_range addr (base flash) (size flash)

abbrev pub pointer : Region → ℕ → Result HostAddr
pointer r addr = ok (record { region = r; offset = addr - base r })

unfoldable pub guest_to_host : ℕ → Result HostAddr
unfolding in_pmem in_mrom in_sram in_flash
guest_to_host paddr =
    if in_pmem paddr
    then pointer pmem paddr
    else if in_mrom paddr
    then pointer mrom paddr
    else if in_sram paddr
    then pointer sram paddr
    else if in_flash paddr
    then pointer flash paddr
    else fault assertion

-- `haddr >= a && haddr < a + size` for the array `a`: the arrays do not overlap.
abbrev pub points_into : HostAddr → Region → Bool
points_into h r = same_region h.region r && ltb h.offset (size r)

unfoldable pub host_to_guest : HostAddr → Result ℕ
host_to_guest h =
    if points_into h pmem
    then ok (h.offset + base pmem)
    else if points_into h mrom
    then ok (h.offset + base mrom)
    else if points_into h sram
    then ok (h.offset + base sram)
    else if points_into h flash
    then ok (h.offset + base flash)
    else fault assertion

unfoldable pub pmem_read : Mem → ℕ → ℕ → Result ℕ
pmem_read m addr len = do
  h ← guest_to_host addr
  host_read (m h.region) (size h.region) h.offset len

unfoldable pub pmem_write : Mem → ℕ → ℕ → ℕ → Result Mem
pmem_write m addr len data' = do
  h ← guest_to_host addr
  array ← host_write (m h.region) (size h.region) h.offset len data'
  ok (put m h.region array)

-- What paddr.c uses of nemu/src/device/io/mmio.c: `mmio_read` and `mmio_write` on a state of the
-- devices.
pub record Bus (S : Type 0) : Type 0 where
  pub mmio_read : ℕ → ℕ → S → Result (ℕ × S)
  pub mmio_write : ℕ → ℕ → ℕ → S → Result S

-- The memory and the devices.
pub record Store (S : Type 0) : Type 0 where
  pub mem : Mem
  pub io : S

-- `device` is `none` where CONFIG_DEVICE is off: there an access outside the memory panics in
-- `out_of_bound`.
module _ {S : Type 0} (device : Option (Bus S)) where
  unfoldable pub paddr_read : ℕ → ℕ → Store S → Result (ℕ × Store S)
  paddr_read addr len st =
      if in_pmem addr || in_mrom addr || in_sram addr || in_flash addr
      then (do v ← pmem_read st.mem addr len; ok (v, st))
      else elim device [
        | some bus ↦ (do (v, io') ← bus.mmio_read addr len st.io; ok (v, record st { io = io' }))
        | none ↦ fault assertion
      ]

  unfoldable pub paddr_write : ℕ → ℕ → ℕ → Store S → Result (Store S)
  paddr_write addr len data' st =
      if in_pmem addr || in_sram addr
      then (do m ← pmem_write st.mem addr len data'; ok (record st { mem = m }))
      else elim device [
        | some bus ↦ (do io' ← bus.mmio_write addr len data' st.io; ok (record st { io = io' }))
        | none ↦ fault assertion
      ]

  -- vaddr.c: the virtual addresses are the physical ones.
  unfoldable pub vaddr_ifetch : ℕ → ℕ → Store S → Result (ℕ × Store S)
  vaddr_ifetch addr len st = paddr_read addr len st

  unfoldable pub vaddr_read : ℕ → ℕ → Store S → Result (ℕ × Store S)
  vaddr_read addr len st = paddr_read addr len st

  unfoldable pub vaddr_write : ℕ → ℕ → ℕ → Store S → Result (Store S)
  vaddr_write addr len data' st = paddr_write addr len data' st
