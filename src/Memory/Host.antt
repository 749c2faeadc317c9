-- ===== src/Memory/Host.antt =====
-- The four arrays of paddr.c, pointers into them, and the accesses of host.h.
use ysyxworkbench.Prelude.{
  ℕ, ◌+◌, ◌*◌, ◌/◌, ◌%◌, ◌^◌, Bool, true, false, Result, ok, fault, undefined, assertion, leb, ◌==◌,
  if◌then◌else◌,
}

-- `pmem`, `mrom`, `sram` and `flash`
pub data Region : Type 0 where
  pmem mrom sram flash : Region

-- CONFIG_MBASE, MROM_BASE, SRAM_BASE, FLASH_BASE
abbrev pub base : Region → ℕ
base pmem = 0x80000000
base mrom = 0x20000000
base sram = 0x0f000000
base flash = 0x30000000

-- CONFIG_MSIZE, MROM_SIZE, SRAM_SIZE, FLASH_SIZE
abbrev pub size : Region → ℕ
size pmem = 0x8000000
size mrom = 0x1000
size sram = 0x2000
size flash = 0x1000000

-- The bytes of each array, by index.
abbrev pub Mem : Type 0
Mem = Region → ℕ → ℕ

-- A `uint8_t *` into one of the arrays.
pub record HostAddr : Type 0 where
  pub region : Region
  pub offset : ℕ

abbrev pub same_region : Region → Region → Bool
same_region pmem pmem = true
same_region mrom mrom = true
same_region sram sram = true
same_region flash flash = true
same_region _ _ = false

abbrev pub put : Mem → Region → (ℕ → ℕ) → Mem
put m r bytes r' = if same_region r r' then bytes else m r'

-- The access covers bytes of an array of `n` bytes only.
abbrev pub in_array : ℕ → ℕ → ℕ → Bool
in_array n at len = leb (at + len) n

-- `host_read(array + at, len)`, for an array of `n` bytes. Bytes are in the little-endian order of
-- the host, and the default of CONFIG_RT_CHECK is on.
unfoldable pub host_read : (ℕ → ℕ) → ℕ → ℕ → ℕ → Result ℕ
host_read array n at len =
    if len == 1
    then (if in_array n at 1 then ok (array at) else fault undefined)
    else if len == 2
    then (if in_array n at 2 then ok (array at + 256 * array (at + 1)) else fault undefined)
    else if len == 4
    then (if in_array n at 4
        then ok
            (array at + 256 * array (at + 1) + 65536 * array (at + 2) + 16777216 * array (at + 3))
        else fault undefined)
    else fault assertion

abbrev pub store : (ℕ → ℕ) → ℕ → ℕ → ℕ → ℕ
store array i v j = if i == j then v else array j

-- Byte `i` of a word.
abbrev pub byte_of : ℕ → ℕ → ℕ
byte_of word i = word / 256 ^ i % 256

-- `host_write(array + at, len, word)`
unfoldable pub host_write : (ℕ → ℕ) → ℕ → ℕ → ℕ → ℕ → Result (ℕ → ℕ)
host_write array n at len word =
    if len == 1
    then (if in_array n at 1 then ok one else fault undefined)
    else if len == 2
    then (if in_array n at 2 then ok two else fault undefined)
    else if len == 4
    then (if in_array n at 4
        then ok (store (store two (at + 2) (byte_of word 2)) (at + 3) (byte_of word 3))
        else fault undefined)
    else fault assertion
  where
    one : ℕ → ℕ
    one = store array at (byte_of word 0)

    two : ℕ → ℕ
    two = store one (at + 1) (byte_of word 1)
