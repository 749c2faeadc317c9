-- ===== src/Soc/Screen/Drawn.antt =====
-- What `__am_gpu_fbdraw` of abstract-machine/am/src/riscv/ysyxsoc/ioe.c puts on the screen.
use ysyxworkbench.Prelude.{
  ℕ, zero, suc, ◌+◌, ◌-◌, ok, true, Option, none, refl, Post, Post-weaken, ◌*◌, ◌^◌, ◌≤◌, ◌<◌, ◌≡◌,
  ap, ◌∙◌, Bool, false, not, ◌&&◌, ◌||◌, some, ltb, leb, ◌==◌, if◌then◌else◌, u32, sub32, slt32,
  arith,
}
use native.Mathlib.Decide.{ℕ_discrete}
use ysyxworkbench.Memory.{store}
use ysyxworkbench.Soc.Screen.{
  vga_width, vga_height, Draw, is_outside, sum_fits, draw_rows, am_gpu_fbdraw,
}
use ysyxworkbench.Soc.Screen.Wrapped.{
  wrapped_row, wrapped_rows, draw_rows-wrapped_rows, draw_rows-returns,
}

is_outside-eq : (d limit : ℕ) → d < 2 ^ 32 → limit ≤ 1000 → is_outside d limit ≡ not (ltb d limit)
is_outside-eq d limit small below = ground arith

-- One store of the inner loop, seen at `px`, `py`.
plot :
    (d dst_y v px py : ℕ) (fb : ℕ → ℕ)
    → px < 640
    → d < 2 ^ 32
    → (if is_outside d vga_width then fb else store fb (dst_y * vga_width + d) v) (py * 640 + px)
      ≡ (if py == dst_y && px == d then v else fb (py * 640 + px))
plot d dst_y v px py fb inside word = rw (is_outside-eq d 640 word (omega arith)) (grind arith)

same_place :
    (left_edge x t px : ℕ)
    → x < 2 ^ 32
    → t < 2 ^ 32
    → u32 (left_edge + t) ≡ px
    → (px == u32 (left_edge + x)) ≡ (t == x)
same_place left_edge x t px small word place = grind arith

-- The round at `x`, then those behind it
row_step :
    (x left t : ℕ) (row : Bool) (pixel : ℕ → ℕ) (old : ℕ)
    → (if row && (leb (suc x) t && ltb t (suc x + left))
        then pixel t
        else (if row && (t == x) then pixel x else old))
      ≡ (if row && (leb x t && ltb t (x + suc left)) then pixel t else old)
row_step x left t row pixel old = elim (ℕ_discrete t x) [
  | yes e ↦ rw e (ground arith)
  | no other ↦ ground arith
]

-- The word at `px`, `py` after the rounds from `x` on; `t` is the column of the picture there.
wrapped_row-drawn :
    (left x dst_y y px py t : ℕ) (ctl : Draw) (pixels fb : ℕ → ℕ)
    → px < 640
    → x + left < 2 ^ 32
    → t < 2 ^ 32
    → u32 (ctl.x + t) ≡ px
    → wrapped_row left x dst_y y ctl pixels fb (py * 640 + px) ≡ (
        if py == dst_y && (leb x t && ltb t (x + left))
        then pixels (u32 (y * ctl.w + t))
        else fb (py * 640 + px))
unfolding wrapped_row
wrapped_row-drawn zero x dst_y y px py t ctl pixels fb inside fits word place = ground arith
wrapped_row-drawn (suc left) x dst_y y px py t ctl pixels fb inside fits word place =
    let v = pixels (u32 (y * ctl.w + x)) in
    let d = u32 (ctl.x + x) in
    let fb' = if is_outside d vga_width then fb else store fb (dst_y * vga_width + d) v in
    wrapped_row-drawn left (suc x) dst_y y px py t ctl pixels fb' inside (omega arith) word place
    ∙ ap
        (λ (new : ℕ).
          if py == dst_y && (leb (suc x) t && ltb t (suc x + left))
          then pixels (u32 (y * ctl.w + t))
          else new)
        (plot d dst_y v px py fb inside (omega arith)
          ∙ ap (λ (here : Bool). if py == dst_y && here then v else fb (py * 640 + px))
              (same_place ctl.x x t px (omega arith) word place))
    ∙ row_step x left t (py == dst_y) (λ at. pixels (u32 (y * ctl.w + at))) (fb (py * 640 + px))

-- A row of the picture that is off the screen is not drawn.
row_drawn :
    (dst_y y px py t : ℕ) (ctl : Draw) (pixels fb : ℕ → ℕ)
    → px < 640
    → py < 480
    → ctl.w < 2 ^ 32
    → t < 2 ^ 32
    → dst_y < 2 ^ 32
    → u32 (ctl.x + t) ≡ px
    → (if is_outside dst_y vga_height then fb else wrapped_row ctl.w 0 dst_y y ctl pixels fb)
        (py * 640 + px)
      ≡ (if ltb t ctl.w && (py == dst_y) then pixels (u32 (y * ctl.w + t)) else fb (py * 640 + px))
row_drawn dst_y y px py t ctl pixels fb inside_x inside_y fits word word_y place =
    let row =
      wrapped_row-drawn ctl.w 0 dst_y y px py t ctl pixels fb inside_x (omega arith) word place in
    rw (is_outside-eq dst_y 480 word_y (omega arith)) (ground (arith, row))

wrapped_rows-drawn :
    (left y px py t s : ℕ) (ctl : Draw) (pixels fb : ℕ → ℕ)
    → px < 640
    → py < 480
    → ctl.w < 2 ^ 32
    → y + left < 2 ^ 32
    → t < 2 ^ 32
    → s < 2 ^ 32
    → u32 (ctl.x + t) ≡ px
    → u32 (ctl.y + s) ≡ py
    → wrapped_rows left y ctl pixels fb (py * 640 + px) ≡ (
        if ltb t ctl.w && (leb y s && ltb s (y + left))
        then pixels (u32 (s * ctl.w + t))
        else fb (py * 640 + px))
unfolding wrapped_rows
wrapped_rows-drawn zero y px py t s ctl pixels fb in_x in_y fits fits_y word_t word_s at_x at_y =
    ground arith
wrapped_rows-drawn (suc left) y px py t s ctl pixels fb in_x in_y fits fits_y word_t word_s at_x
      at_y =
    let dst_y = u32 (ctl.y + y) in
    let v = pixels (u32 (y * ctl.w + t)) in
    let fb' =
      if is_outside dst_y vga_height then fb else wrapped_row ctl.w 0 dst_y y ctl pixels fb in
    wrapped_rows-drawn left (suc y) px py t s ctl pixels fb' in_x in_y fits (omega arith) word_t
      word_s at_x at_y
    ∙ ap
        (λ (new : ℕ).
          if ltb t ctl.w && (leb (suc y) s && ltb s (suc y + left))
          then pixels (u32 (s * ctl.w + t))
          else new)
        (row_drawn dst_y y px py t ctl pixels fb in_x in_y fits word_t (omega arith) at_x
          ∙ ap (λ (here : Bool). if ltb t ctl.w && here then v else fb (py * 640 + px))
              (same_place ctl.y y s py (omega arith) word_s at_y))
    ∙ row_step y left s (ltb t ctl.w) (λ at. pixels (u32 (at * ctl.w + t))) (fb (py * 640 + px))

-- With pixels and a positive width and height the loops run.
am_gpu_fbdraw-draw_rows :
    (ctl : Draw) (pixels fb : ℕ → ℕ)
    → ctl.pixels ≡ some pixels
    → 0 < ctl.w
    → 0 < ctl.h
    → ctl.w < 2 ^ 31
    → ctl.h < 2 ^ 31
    → am_gpu_fbdraw ctl fb ≡ draw_rows ctl.h 0 ctl pixels fb
unfolding am_gpu_fbdraw
am_gpu_fbdraw-draw_rows ctl pixels fb given some_w some_h w h =
    let empty = not (slt32 0 ctl.w) || not (slt32 0 ctl.h) in
    let positive : empty ≡ false = ground arith in
    ap
      (λ (p : Option (ℕ → ℕ)). elim p [
        | none ↦ ok fb
        | some q ↦ if empty then ok fb else draw_rows ctl.h 0 ctl q fb
      ])
      given
    ∙ rw positive refl

-- `__am_gpu_fbdraw` with pixels and a positive width and height, where it returns, draws exactly the
-- visible part of the picture: a word of the screen is the picture's where its column and row, counted
-- from the picture's corner modulo 2^32, lie in the picture, so also for corners left of or above the
-- screen, and it is the old one elsewhere. It does return, with no overflow of an `int`, when the last
-- column and the last row of the picture have places below 2^31 and the picture has at most 2^31
-- words.
pub am_gpu_fbdraw-drawn :
    (ctl : Draw) (pixels fb : ℕ → ℕ) (px py : ℕ)
    → ctl.pixels ≡ some pixels
    → ctl.x < 2 ^ 32
    → ctl.y < 2 ^ 32
    → 0 < ctl.w
    → 0 < ctl.h
    → ctl.w < 2 ^ 31
    → ctl.h < 2 ^ 31
    → px < 640
    → py < 480
    → Post
        (λ fb'. fb' (py * 640 + px) ≡ (
          if ltb (sub32 px ctl.x) ctl.w && ltb (sub32 py ctl.y) ctl.h
          then pixels (u32 (sub32 py ctl.y * ctl.w + sub32 px ctl.x))
          else fb (py * 640 + px)))
        (am_gpu_fbdraw ctl fb)
      × (sum_fits ctl.x (ctl.w - 1) ≡ true
          → sum_fits ctl.y (ctl.h - 1) ≡ true
          → ctl.h * ctl.w ≤ 2 ^ 31
          → (fb' : ℕ → ℕ) × (am_gpu_fbdraw ctl fb ≡ ok fb'))
am_gpu_fbdraw-drawn ctl pixels fb px py given x y some_w some_h w h in_x in_y =
    let drawn =
      wrapped_rows-drawn ctl.h 0 px py (sub32 px ctl.x) (sub32 py ctl.y) ctl pixels fb in_x in_y
        (omega arith) (omega arith) (omega arith) (omega arith) (omega arith) (omega arith) in
    let runs = am_gpu_fbdraw-draw_rows ctl pixels fb given some_w some_h w h in
    let seen : ℕ =
      if ltb (sub32 px ctl.x) ctl.w && ltb (sub32 py ctl.y) ctl.h
      then pixels (u32 (sub32 py ctl.y * ctl.w + sub32 px ctl.x))
      else fb (py * 640 + px) in
    let same : wrapped_rows ctl.h 0 ctl pixels fb (py * 640 + px) ≡ seen = ground (arith, drawn) in
    (
      rw runs (
          Post-weaken (λ fb'. fb' ≡ wrapped_rows ctl.h 0 ctl pixels fb)
            (λ fb'. fb' (py * 640 + px) ≡ seen) (draw_rows ctl.h 0 ctl pixels fb)
            (draw_rows-wrapped_rows ctl pixels ctl.h 0 fb)
            (λ fb' e. ap (λ (f : ℕ → ℕ). f (py * 640 + px)) e ∙ same)),
      λ columns rows picture. (
        wrapped_rows ctl.h 0 ctl pixels fb,
        runs
            ∙ (draw_rows-returns ctl pixels (λ t below. ground (arith, columns))
                (λ t below. ground (arith, rows)) picture ctl.h 0 fb (omega arith)),
      ),
    )
