-- ===== src/Soc/Boot.antt =====
-- The copy loops of abstract-machine/am/src/riscv/ysyxsoc/trm.c. The memory is a function of bytes.
pub mod Copied
pub mod Loaded
use ysyxworkbench.Prelude.{
  ℕ, zero, suc, ◌+◌, ◌-◌, ◌%◌, ◌^◌, Bool, true, false, ◌&&◌, ltb, leb, ◌==◌, if◌then◌else◌, u32,
  bit_and, bit_or,
}
use ysyxworkbench.Memory.{store}

-- `*(uint32_t *)dst = *(uint32_t *)src`, four bytes that are read before they are written
unfoldable pub copy_word : ℕ → ℕ → (ℕ → ℕ) → ℕ → ℕ
copy_word dst src mem =
    store
      (store (store (store mem dst (mem src)) (dst + 1) (mem (src + 1))) (dst + 2) (mem (src + 2)))
      (dst + 3) (mem (src + 3))

-- The first loop of `fsbl_copy_image`, with at most `fuel` rounds: `dst`, `src` and the memory.
unfoldable pub copy_words : ℕ → ℕ → ℕ → ℕ → (ℕ → ℕ) → ℕ × ℕ × (ℕ → ℕ)
copy_words zero dst src end mem = (dst, src, mem)
copy_words (suc fuel) dst src end mem =
    let rest = copy_words fuel (dst + 4) (src + 4) end (copy_word dst src mem) in
    if bit_and (bit_or (bit_or dst src) end) 3 == 0 && leb (u32 (src + 4)) end
    then rest
    else (dst, src, mem)

-- The second loop.
unfoldable pub copy_rest : ℕ → ℕ → ℕ → ℕ → (ℕ → ℕ) → ℕ → ℕ
copy_rest zero dst src end mem = mem
copy_rest (suc fuel) dst src end mem =
    let rest = copy_rest fuel (dst + 1) (src + 1) end (store mem dst (mem src)) in
    if ltb src end then rest else mem

-- `fsbl_copy_image`, and `ssbl_copy_image`, which is the same.
unfoldable pub fsbl_copy_image : ℕ → ℕ → ℕ → (ℕ → ℕ) → ℕ → ℕ
fsbl_copy_image dst src end mem =
    let (dst', src', mem') = copy_words (end - src) dst src end mem in
    copy_rest (end - src') dst' src' end mem'

-- `copy_data`, which stops at the end of the destination.
unfoldable pub copy_data : ℕ → ℕ → ℕ → ℕ → (ℕ → ℕ) → ℕ → ℕ
copy_data zero src dst end mem = mem
copy_data (suc fuel) src dst end mem =
    let rest = copy_data fuel (src + 1) (dst + 1) end (store mem dst (mem src)) in
    if ltb dst end then rest else mem

-- `clear_bss`
unfoldable pub clear_bss : ℕ → ℕ → ℕ → (ℕ → ℕ) → ℕ → ℕ
clear_bss zero p end mem = mem
clear_bss (suc fuel) p end mem =
    let rest = clear_bss fuel (p + 1) end (store mem p 0) in if ltb p end then rest else mem

-- `_trm_init` and `_ssbl_init` for a program in the psram or the sdram, up to its start: the second
-- loader is copied by the first, and the program by the second.
unfoldable pub load_by_stages : ℕ → ℕ → ℕ → ℕ → ℕ → ℕ → ℕ → ℕ → (ℕ → ℕ) → ℕ → ℕ
load_by_stages ssbl ssbl_load ssbl_end ram ram_load ram_end bss_start bss_end mem =
    clear_bss (bss_end - bss_start) bss_start bss_end
      (fsbl_copy_image ram ram_load ram_end (fsbl_copy_image ssbl ssbl_load ssbl_end mem))
