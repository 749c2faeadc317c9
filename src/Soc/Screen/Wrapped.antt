-- ===== src/Soc/Screen/Wrapped.antt =====
-- `__am_gpu_fbdraw` of abstract-machine/am/src/riscv/ysyxsoc/ioe.c without its tests for overflow: each
-- sum wraps around. Where the code returns, it has drawn this.
use native.Mathlib.Nat.{mul-le-mul}
use ysyxworkbench.Prelude.{
  ℕ, zero, suc, ◌+◌, ◌*◌, ◌^◌, ◌≤◌, ◌<◌, ◌≡◌, refl, Bool, true, false, Result, ok, defined, ◌>>◌,
  Post, Post-bind, Post-true, Post-weaken, ap, ◌∙◌, ltb, if◌then◌else◌, u32, arith,
}
use ysyxworkbench.Memory.{store}
use ysyxworkbench.Soc.Screen.{
  vga_width, vga_height, Draw, is_outside, sum_fits, draw_row, draw_rows,
}

unfoldable pub wrapped_row : ℕ → ℕ → ℕ → ℕ → Draw → (ℕ → ℕ) → (ℕ → ℕ) → ℕ → ℕ
wrapped_row zero x dst_y y ctl pixels fb = fb
wrapped_row (suc left) x dst_y y ctl pixels fb =
    let dst_x = u32 (ctl.x + x) in
    wrapped_row left (suc x) dst_y y ctl pixels (
      if is_outside dst_x vga_width
      then fb
      else store fb (dst_y * vga_width + dst_x) (pixels (u32 (y * ctl.w + x))))

unfoldable pub wrapped_rows : ℕ → ℕ → Draw → (ℕ → ℕ) → (ℕ → ℕ) → ℕ → ℕ
unfolding wrapped_row
wrapped_rows zero y ctl pixels fb = fb
wrapped_rows (suc left) y ctl pixels fb =
    let dst_y = u32 (ctl.y + y) in
    wrapped_rows left (suc y) ctl pixels
      (if is_outside dst_y vga_height then fb else wrapped_row ctl.w 0 dst_y y ctl pixels fb)

-- One store, or one row, where it is not off the screen
if-Post :
    (outside : Bool) (fb new : ℕ → ℕ) (r : Result (ℕ → ℕ))
    → Post (λ fb'. fb' ≡ new) r
    → Post (λ fb'. fb' ≡ (if outside then fb else new)) (if outside then ok fb else r)
if-Post true fb new r h = refl
if-Post false fb new r h = h

defined-Post : (b : Bool) (new : ℕ → ℕ) → Post (λ fb'. fb' ≡ new) (do defined b; ok new)
defined-Post true new = refl
defined-Post false new = tt

if-ok :
    (outside : Bool) (fb new : ℕ → ℕ) (r : Result (ℕ → ℕ))
    → (outside ≡ false → r ≡ ok new)
    → (if outside then ok fb else r) ≡ ok (if outside then fb else new)
if-ok true fb new r h = refl
if-ok false fb new r h = h refl

module _ (ctl : Draw) (pixels : ℕ → ℕ) where
  draw_row-wrapped_row :
      (left x dst_y y : ℕ) (fb : ℕ → ℕ)
      → Post
          (λ fb'. fb' ≡ wrapped_row left x dst_y y ctl pixels fb)
          (draw_row left x dst_y y ctl pixels fb)
  unfolding draw_row wrapped_row
  draw_row-wrapped_row zero x dst_y y fb = refl
  draw_row-wrapped_row (suc left) x dst_y y fb =
      let Q : (ℕ → ℕ) → Type 0 = λ fb'. fb' ≡ wrapped_row (suc left) x dst_y y ctl pixels fb in
      let outside = is_outside (u32 (ctl.x + x)) vga_width in
      let new = store fb (dst_y * vga_width + u32 (ctl.x + x)) (pixels (u32 (y * ctl.w + x))) in
      let fits = ltb (y * ctl.w + x) (2 ^ 31) in
      Post-bind (λ _. Unit {0}) Q (defined (sum_fits ctl.x x)) _ (Post-true _)
        (λ _ _.
          Post-bind (λ fb'. fb' ≡ (if outside then fb else new)) Q
            (if outside then ok fb else (do defined fits; ok new)) _
            (if-Post outside fb new (do defined fits; ok new) (defined-Post fits new))
            (λ fb' e.
              Post-weaken (λ fb''. fb'' ≡ wrapped_row left (suc x) dst_y y ctl pixels fb') Q
                (draw_row left (suc x) dst_y y ctl pixels fb')
                (draw_row-wrapped_row left (suc x) dst_y y fb')
                (λ fb'' h. h ∙ ap (wrapped_row left (suc x) dst_y y ctl pixels) e)))

  pub draw_rows-wrapped_rows :
      (left y : ℕ) (fb : ℕ → ℕ)
      → Post (λ fb'. fb' ≡ wrapped_rows left y ctl pixels fb) (draw_rows left y ctl pixels fb)
  unfolding draw_rows wrapped_rows
  draw_rows-wrapped_rows zero y fb = refl
  draw_rows-wrapped_rows (suc left) y fb =
      let Q : (ℕ → ℕ) → Type 0 = λ fb'. fb' ≡ wrapped_rows (suc left) y ctl pixels fb in
      let dst_y = u32 (ctl.y + y) in
      let outside = is_outside dst_y vga_height in
      let row = draw_row ctl.w 0 dst_y y ctl pixels fb in
      let new = wrapped_row ctl.w 0 dst_y y ctl pixels fb in
      Post-bind (λ _. Unit {0}) Q (defined (sum_fits ctl.y y)) _ (Post-true _)
        (λ _ _.
          Post-bind (λ fb'. fb' ≡ (if outside then fb else new)) Q (if outside then ok fb else row)
            _ (if-Post outside fb new row (draw_row-wrapped_row ctl.w 0 dst_y y fb))
            (λ fb' e.
              Post-weaken (λ fb''. fb'' ≡ wrapped_rows left (suc y) ctl pixels fb') Q
                (draw_rows left (suc y) ctl pixels fb') (draw_rows-wrapped_rows left (suc y) fb')
                (λ fb'' h. h ∙ ap (wrapped_rows left (suc y) ctl pixels) e)))

  -- Nothing overflows.
  module _ (columns : (t : ℕ) → t < ctl.w → sum_fits ctl.x t ≡ true)
      (rows : (t : ℕ) → t < ctl.h → sum_fits ctl.y t ≡ true)
      (picture : ctl.h * ctl.w ≤ 2 ^ 31) where
    draw_row-returns :
        (left x dst_y y : ℕ) (fb : ℕ → ℕ)
        → x + left ≤ ctl.w
        → y < ctl.h
        → draw_row left x dst_y y ctl pixels fb ≡ ok (wrapped_row left x dst_y y ctl pixels fb)
    unfolding draw_row wrapped_row
    draw_row-returns zero x dst_y y fb inside below = refl
    draw_row-returns (suc left) x dst_y y fb inside below =
        let outside = is_outside (u32 (ctl.x + x)) vga_width in
        let new = store fb (dst_y * vga_width + u32 (ctl.x + x)) (pixels (u32 (y * ctl.w + x))) in
        let whole : suc y * ctl.w ≤ ctl.h * ctl.w = mul-le-mul below (omega arith) in
        let fits : ltb (y * ctl.w + x) (2 ^ 31) ≡ true = ground (arith, whole, picture) in
        let step =
          if-ok outside fb new (do defined (ltb (y * ctl.w + x) (2 ^ 31)); ok new)
            (λ _. rw fits refl) in
        rw (columns x (omega arith)) (
          rw step (
            draw_row-returns left (suc x) dst_y y (if outside then fb else new) (omega arith)
              below))

    pub draw_rows-returns :
        (left y : ℕ) (fb : ℕ → ℕ)
        → y + left ≤ ctl.h
        → draw_rows left y ctl pixels fb ≡ ok (wrapped_rows left y ctl pixels fb)
    unfolding draw_rows wrapped_rows
    draw_rows-returns zero y fb inside = refl
    draw_rows-returns (suc left) y fb inside =
        let dst_y = u32 (ctl.y + y) in
        let outside = is_outside dst_y vga_height in
        let new = wrapped_row ctl.w 0 dst_y y ctl pixels fb in
        let step =
          if-ok outside fb new (draw_row ctl.w 0 dst_y y ctl pixels fb)
            (λ _. draw_row-returns ctl.w 0 dst_y y fb (omega arith) (omega arith)) in
        rw (rows y (omega arith))
          (rw step (draw_rows-returns left (suc y) (if outside then fb else new) (omega arith)))
