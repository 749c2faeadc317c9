-- ===== src/Soc/Screen.antt =====
-- Drawing in abstract-machine/am/src/riscv/ysyxsoc/ioe.c: `__am_gpu_fbdraw`. The frame buffer is a
-- function of words, and each `int` is its bit pattern.
pub mod Wrapped
pub mod Drawn
use ysyxworkbench.Prelude.{
  ℕ, zero, suc, ◌+◌, ◌*◌, ◌^◌, Bool, true, false, not, ◌||◌, Option, none, some, Result, ok,
  defined, ◌>>=◌, ◌>>◌, ltb, leb, if◌then◌else◌, u32, slt32, ◌==◌,
}
use ysyxworkbench.Memory.{store}

abbrev pub vga_width : ℕ
vga_width = 640

abbrev pub vga_height : ℕ
vga_height = 480

-- `AM_GPU_FBDRAW_T`; the pixels are `none` where they are NULL.
pub record Draw : Type 0 where
  pub x : ℕ
  pub y : ℕ
  pub pixels : Option (ℕ → ℕ)
  pub w : ℕ
  pub h : ℕ

abbrev pub is_outside : ℕ → ℕ → Bool
is_outside dst limit = slt32 dst 0 || not (slt32 dst limit)

-- `a + n` is an `int`, for an `int` `n` that is not negative; else the sum is undefined.
abbrev pub sum_fits : ℕ → ℕ → Bool
sum_fits a n = leb (2 ^ 31) a || ltb (a + n) (2 ^ 31)

-- The loop over `x`, with `left` rounds to go.
unfoldable pub draw_row : ℕ → ℕ → ℕ → ℕ → Draw → (ℕ → ℕ) → (ℕ → ℕ) → Result (ℕ → ℕ)
draw_row zero x dst_y y ctl pixels fb = ok fb
draw_row (suc left) x dst_y y ctl pixels fb = do
  defined (sum_fits ctl.x x)
  let dst_x = u32 (ctl.x + x)
  fb' ← if is_outside dst_x vga_width then ok fb else (do
    defined (ltb (y * ctl.w + x) (2 ^ 31))
    ok (store fb (dst_y * vga_width + dst_x) (pixels (u32 (y * ctl.w + x)))))
  draw_row left (suc x) dst_y y ctl pixels fb'

-- The loop over `y`.
unfoldable pub draw_rows : ℕ → ℕ → Draw → (ℕ → ℕ) → (ℕ → ℕ) → Result (ℕ → ℕ)
unfolding draw_row
draw_rows zero y ctl pixels fb = ok fb
draw_rows (suc left) y ctl pixels fb = do
  defined (sum_fits ctl.y y)
  let dst_y = u32 (ctl.y + y)
  fb' ← if is_outside dst_y vga_height then ok fb else draw_row ctl.w 0 dst_y y ctl pixels fb
  draw_rows left (suc y) ctl pixels fb'

unfoldable pub am_gpu_fbdraw : Draw → (ℕ → ℕ) → Result (ℕ → ℕ)
unfolding draw_rows
am_gpu_fbdraw ctl fb = elim ctl.pixels [
  | none ↦ ok fb
  | some pixels ↦
      if not (slt32 0 ctl.w) || not (slt32 0 ctl.h) then ok fb else draw_rows ctl.h 0 ctl pixels fb
]
