-- ===== src/Npc/Memory.antt =====
-- The arrays of npc/csrc/main.cpp that the hardware reads by DPI calls: `mrom_read`, `flash_read`,
-- `pmem_read`, `pmem_write`, and how they are filled.
pub mod Pattern
pub mod Image
pub mod Writes
use ysyxworkbench.Prelude.{
  ℕ, zero, suc, ◌+◌, ◌-◌, ◌*◌, ◌/◌, ◌%◌, ◌^◌, Bool, true, false, not, ◌&&◌, Option, none, some,
  Result, ok, assert, defined, ◌>>=◌, ◌>>◌, List, [], ◌∷◌, ltb, leb, ◌==◌, if◌then◌else◌, length,
  u32, bit_xor,
}
use ysyxworkbench.Memory.{store, byte_of}

abbrev pub mrom_base : ℕ
mrom_base = 0x20000000

abbrev pub mrom_size : ℕ
mrom_size = 0x1000

abbrev pub sram_base : ℕ
sram_base = 0x0f000000

abbrev pub sram_size : ℕ
sram_size = 0x2000

abbrev pub flash_base : ℕ
flash_base = 0x30000000

abbrev pub flash_size : ℕ
flash_size = 0x1000000

-- `mrom`, `sram`, `flash`, `img_size_loaded`, `flash_boot` and `is_skip_ref`
pub record Arrays : Type 0 where
  pub mrom : ℕ → ℕ
  pub sram : ℕ → ℕ
  pub flash : ℕ → ℕ
  pub img_size_loaded : ℕ
  pub flash_boot : Bool
  pub is_skip_ref : Bool

-- `*(uint32_t *)(array + at)` on a little-endian host
abbrev pub word : (ℕ → ℕ) → ℕ → ℕ
word array at = array at + 256 * array (at + 1) + 65536 * array (at + 2) + 16777216 * array (at + 3)

-- `memcpy` of a word into an array
abbrev pub put_word : (ℕ → ℕ) → ℕ → ℕ → ℕ → ℕ
put_word array at v =
    store
      (store (store (store array at (byte_of v 0)) (at + 1) (byte_of v 1)) (at + 2) (byte_of v 2))
      (at + 3) (byte_of v 3)

unfoldable pub npc_reset_pc : Arrays → ℕ
npc_reset_pc m = if m.flash_boot then flash_base else mrom_base

-- Only the first byte's address is tested. Outside, the word is 0.
unfoldable pub mrom_read : ℕ → Arrays → Result ℕ
mrom_read addr m =
    let uaddr = u32 addr in
    let offset = uaddr - mrom_base in
    if leb mrom_base uaddr && ltb uaddr (mrom_base + mrom_size)
    then (do defined (leb (offset + 4) mrom_size); ok (word m.mrom offset))
    else ok 0

-- The address is relative to the flash; the sum has the 64 bits of `size_t`.
unfoldable pub flash_read : ℕ → Arrays → ℕ
flash_read addr m =
    let uaddr = u32 addr in if leb (uaddr + 4) flash_size then word m.flash uaddr else 0

abbrev pub in_sram : ℕ → Bool
in_sram uaddr = leb sram_base uaddr && leb (uaddr + 4) (sram_base + sram_size)

unfoldable pub pmem_read : ℕ → Arrays → ℕ × Arrays
pmem_read raddr m =
    let uaddr = u32 raddr in
    if in_sram uaddr
    then (word m.sram (uaddr - sram_base), m)
    else (0, record m { is_skip_ref = true })

-- The loop of `pmem_write`, from byte `i` on.
unfoldable pub write_masked : ℕ → ℕ → (ℕ → ℕ) → ℕ → ℕ → ℕ → ℕ → ℕ
write_masked zero i sram offset wdata wmask = sram
write_masked (suc left) i sram offset wdata wmask =
    write_masked left (suc i)
      (if wmask / 2 ^ i % 2 == 1 then store sram (offset + i) (byte_of wdata i) else sram) offset
      wdata wmask

unfoldable pub pmem_write : ℕ → ℕ → ℕ → Arrays → Arrays
pmem_write waddr wdata wmask m =
    let uaddr = u32 waddr in
    if in_sram uaddr
    then record m { sram = write_masked 4 0 m.sram (uaddr - sram_base) wdata wmask }
    else record m { is_skip_ref = true }

-- The values that the debugger's `x` prints.
unfoldable pub scan_memory : ℕ → ℕ → Arrays → Result (List ℕ × Arrays)
scan_memory zero addr m = ok ([], m)
scan_memory (suc n) addr m = do
  let in_mrom = leb mrom_base addr && leb (addr + 4) (mrom_base + mrom_size)
  let (val, m') = if in_mrom then (word m.mrom (addr - mrom_base), m) else pmem_read addr m
  (vals, m'') ← scan_memory n (u32 (addr + 4)) m'
  ok (val ∷ vals, m'')

-- `addr & ~0x3u`, and a word that depends on it
unfoldable pub flash_pattern : ℕ → ℕ
flash_pattern addr =
    let word_addr = addr - addr % 4 in
    bit_xor (bit_xor 0x5a000000 (u32 (word_addr * 0x01010101))) (u32 (word_addr * 2 ^ 8))

-- The loop of `init_flash`, with `left` words to write.
unfoldable pub fill_pattern : ℕ → ℕ → (ℕ → ℕ) → ℕ → ℕ
fill_pattern zero addr flash = flash
fill_pattern (suc left) addr flash =
    fill_pattern left (addr + 4) (put_word flash addr (flash_pattern addr))

unfoldable pub init_flash : Arrays → Arrays
init_flash m = record m { flash = fill_pattern (0x1000 / 4) 0 (λ i. 0xff) }

-- The bytes of a file at the head of an array
unfoldable pub copy_bytes : List ℕ → ℕ → (ℕ → ℕ) → ℕ → ℕ
copy_bytes [] at array = array
copy_bytes (b ∷ bytes) at array = copy_bytes bytes (suc at) (store array at b)

-- `fread(dest, size, 1, fp)` reads no item of a file of no bytes. `none` stands for no file.
unfoldable pub load_img : Option (List ℕ) → Arrays → Result Arrays
load_img none m = ok (
    if m.flash_boot
    then record m { flash = put_word m.flash 0 0x6f; img_size_loaded = 4 }
    else record m { mrom = put_word m.mrom 0 0x6f; img_size_loaded = 4 })
load_img (some image) m = do
  assert (leb (length image) (if m.flash_boot then flash_size else mrom_size))
  assert (not (length image == 0))
  ok (
      if m.flash_boot
      then record m { flash = copy_bytes image 0 m.flash; img_size_loaded = length image }
      else record m { mrom = copy_bytes image 0 m.mrom; img_size_loaded = length image })
