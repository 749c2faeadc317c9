-- ===== src/Monitor/Watchpoint/Add.antt =====
-- What `add_watchpoint` does, given what `expr` returns.
use ysyxworkbench.Prelude.{ℕ, ◌≡◌, refl, ap, Bool, true, false, some, Result, ok, List, ◌∷◌, take}
use ysyxworkbench.Monitor.Watchpoint.{Wp, Pool, put_wp, new_wp, free_wp, add_watchpoint}
use ysyxworkbench.Monitor.Watchpoint.Lists.{IsPool, free_wp_head, new_wp-IsPool, put_wp_same}
use ysyxworkbench.Monitor.Watchpoint.Links.{IsPool-SameLinks, put_wp-SameLinks}

module _ {S : Type 0} (expr : List ℕ → S → Result (ℕ × Bool × S)) where
  -- The new watchpoint with its text and value.
  abbrev filled_pool : Pool → ℕ → List ℕ → ℕ → Pool
  filled_pool p w text v = record p {
    wp_pool = put_wp p.wp_pool w (record (p.wp_pool w) { expr = take 127 text; old_val = v });
  }

  add_succeeds :
      (p p1 : Pool) (text : List ℕ) (w v : ℕ) (s s' : S)
      → new_wp p ≡ ok (w, p1)
      → expr text s ≡ ok (v, true, s')
      → add_watchpoint expr text p s ≡ ok (true, filled_pool p1 w text v, s')
  unfolding add_watchpoint
  add_succeeds p p1 text w v s s' takes value = rw (takes, value) refl

  add_fails :
      (p p1 p3 : Pool) (text : List ℕ) (w v : ℕ) (s s' : S)
      → new_wp p ≡ ok (w, p1)
      → expr text s ≡ ok (v, false, s')
      → free_wp (filled_pool p1 w text v) (some w) ≡ ok p3
      → add_watchpoint expr text p s ≡ ok (false, p3, s')
  unfolding add_watchpoint
  add_fails p p1 p3 text w v s s' takes value frees = rw (takes, value) (rw frees refl)

  filled-IsPool :
      (p : Pool) (text : List ℕ) (w v : ℕ) (used free : List ℕ)
      → IsPool p used free
      → IsPool (filled_pool p w text v) used free
  filled-IsPool p text w v used free h =
      IsPool-SameLinks p (filled_pool p w text v).wp_pool used free
        (put_wp-SameLinks p.wp_pool w (record (p.wp_pool w) { expr = take 127 text; old_val = v })
          refl refl)
        h

  -- When a watchpoint is free and `expr` returns a value and a flag, `add_watchpoint` returns the
  -- flag. If it is set, the first free watchpoint is now the newest in use, with the first 127 bytes
  -- of the text and the value; if not, the lists are as before.
  pub add_watchpoint-IsPool :
      (p : Pool) (text : List ℕ) (w v : ℕ) (success : Bool) (s s' : S) (used free : List ℕ)
      → IsPool p used (w ∷ free)
      → expr text s ≡ ok (v, success, s')
      → (p' : Pool) × (add_watchpoint expr text p s ≡ ok (success, p', s'))
        × (success ≡ true
            → IsPool p' (w ∷ used) free
              × ((p'.wp_pool w).expr ≡ take 127 text)
              × ((p'.wp_pool w).old_val ≡ v))
        × (success ≡ false → IsPool p' used (w ∷ free))
  add_watchpoint-IsPool p text w v true s s' used free h value =
      let (p1, takes, h1, _, _) = new_wp-IsPool p w used free h in
      let written =
        put_wp_same p1.wp_pool w (record (p1.wp_pool w) { expr = take 127 text; old_val = v }) in
      (
        filled_pool p1 w text v,
        add_succeeds p p1 text w v s s' takes value,
        λ _. (
          filled-IsPool p1 text w v (w ∷ used) free h1,
          ap (λ (x : Wp). x.expr) written,
          ap (λ (x : Wp). x.old_val) written,
        ),
        λ e. cc,
      )
  add_watchpoint-IsPool p text w v false s s' used free h value =
      let (p1, takes, h1, _, _) = new_wp-IsPool p w used free h in
      let (p3, frees, h3) =
        free_wp_head (filled_pool p1 w text v) w used free
          (filled-IsPool p1 text w v (w ∷ used) free h1) in
      (p3, add_fails p p1 p3 text w v s s' takes value frees, λ e. cc, λ _. h3)
