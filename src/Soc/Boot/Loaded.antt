-- ===== src/Soc/Boot/Loaded.antt =====
-- The memory after both loaders of abstract-machine/am/src/riscv/ysyxsoc/trm.c.
use ysyxworkbench.Prelude.{
  ℕ, zero, suc, ◌+◌, ◌-◌, ◌^◌, ◌≤◌, ◌<◌, ◌≡◌, ◌∙◌, true, ◌&&◌, ◌⊎◌, inl, inr, ltb, leb,
  if◌then◌else◌, arith,
}
use ysyxworkbench.Memory.{store}
use ysyxworkbench.Klib.Copy.{moved}
use ysyxworkbench.Soc.Boot.{fsbl_copy_image, clear_bss, load_by_stages}
use ysyxworkbench.Soc.Boot.Copied.{Forward, fsbl_copy_image-moved}

clear_bss-cleared :
    (n p end : ℕ) (mem : ℕ → ℕ) (a : ℕ)
    → end ≡ p + n
    → clear_bss n p end mem a ≡ (if leb p a && ltb a end then 0 else mem a)
unfolding clear_bss
clear_bss-cleared zero p end mem a e = ground arith
clear_bss-cleared (suc n) p end mem a e =
    let goes : ltb p end ≡ true = ground arith in
    let rest = clear_bss-cleared n (p + 1) end (store mem p 0) a (omega arith) in
    rw goes (ground (arith, rest))

moved_inside :
    (dst src n : ℕ) (mem : ℕ → ℕ) (i : ℕ) → i < n → moved dst src n mem (dst + i) ≡ mem (src + i)
unfolding moved
moved_inside dst src n mem i below = grind arith

moved_outside :
    (dst src n : ℕ) (mem : ℕ → ℕ) (a : ℕ)
    → (dst + n ≤ a) ⊎ (a < dst)
    → moved dst src n mem a ≡ mem a
unfolding moved
moved_outside dst src n mem a (inl behind) = ground arith
moved_outside dst src n mem a (inr before) = ground arith

image_apart :
    {stop start from end : ℕ} (i : ℕ)
    → (stop ≤ from) ⊎ (end ≤ start)
    → i < end - from
    → (stop ≤ from + i) ⊎ (from + i < start)
image_apart i (inl behind) below = inl (omega arith)
image_apart i (inr before) below = inr (omega arith)

-- Where the linker puts the blocks: `ssbl` is the second loader, `ram` the program.
pub record IsLinked (ssbl ssbl_load ssbl_end ram ram_load ram_end bss_start bss_end : ℕ)
    : Type 0 where
  pub ssbl_ordered : ssbl_load ≤ ssbl_end
  pub ram_ordered : ram_load ≤ ram_end
  pub bss_ordered : bss_start ≤ bss_end
  pub ssbl_fits : ssbl_end + 4 < 2 ^ 32
  pub ram_fits : ram_end + 4 < 2 ^ 32
  pub ssbl_forward : Forward ssbl ssbl_load ssbl_end
  pub ram_forward : Forward ram ram_load ram_end
  pub image_kept : (ssbl + (ssbl_end - ssbl_load) ≤ ram_load) ⊎ (ram_end ≤ ssbl)
  pub bss_behind : ram + (ram_end - ram_load) ≤ bss_start

-- After both loaders, each byte of the program is in the ram as it was in the flash, and the bss is
-- zero, when the blocks lie as the record says: no copy runs over what it has yet to read, the second
-- loader does not overlap the image of the program, and the bss is behind the program.
pub load_by_stages-loaded :
    (ssbl ssbl_load ssbl_end ram ram_load ram_end bss_start bss_end : ℕ) (mem : ℕ → ℕ)
    → IsLinked ssbl ssbl_load ssbl_end ram ram_load ram_end bss_start bss_end
    → ((i : ℕ)
        → i < ram_end - ram_load
        → load_by_stages ssbl ssbl_load ssbl_end ram ram_load ram_end bss_start bss_end mem
            (ram + i)
          ≡ mem (ram_load + i))
      × ((a : ℕ)
          → bss_start ≤ a
          → a < bss_end
          → load_by_stages ssbl ssbl_load ssbl_end ram ram_load ram_end bss_start bss_end mem a ≡ 0)
unfolding load_by_stages
load_by_stages-loaded ssbl ssbl_load ssbl_end ram ram_load ram_end bss_start bss_end mem linked =
    let staged = fsbl_copy_image ssbl ssbl_load ssbl_end mem in
    let loaded = fsbl_copy_image ram ram_load ram_end staged in
    let bss_ordered = linked.bss_ordered in
    let bss_behind = linked.bss_behind in
    let cleared : (a : ℕ) → _ =
      λ a. clear_bss-cleared (bss_end - bss_start) bss_start bss_end loaded a (omega arith) in
    (
      λ i below.
          let outside = cleared (ram + i) in
          let apart : clear_bss (bss_end - bss_start) bss_start bss_end loaded (ram + i)
              ≡ loaded (ram + i) =
            ground (arith, outside) in
          apart
          ∙ fsbl_copy_image-moved ram ram_load ram_end staged (ram + i) linked.ram_ordered
              linked.ram_fits linked.ram_forward
          ∙ moved_inside ram ram_load (ram_end - ram_load) staged i below
          ∙ fsbl_copy_image-moved ssbl ssbl_load ssbl_end mem (ram_load + i) linked.ssbl_ordered
              linked.ssbl_fits linked.ssbl_forward
          ∙ moved_outside ssbl ssbl_load (ssbl_end - ssbl_load) mem (ram_load + i)
              (image_apart i linked.image_kept below),
      λ a above below. let inside = cleared a in ground (arith, inside),
    )
