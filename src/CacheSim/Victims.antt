-- ===== src/CacheSim/Victims.antt =====
-- An access to a set of npc/tools/cachesim/cachesim.cpp ends under every policy and keeps the number
-- of lines.
use ysyxworkbench.Prelude.{
  ℕ, ◌-◌, ◌≤◌, ◌<◌, ◌≡◌, refl, ◌∙◌, Bool, true, false, some, ok, List, [], ◌∷◌, length, set, codes,
  same_text, arith, Bool-cases, inl, inr, length-set, get_elem?_below, get_elem?-lt,
}
use ysyxworkbench.CacheSim.{
  Options, Line, find_hit, find_invalid, at, write, choose_victim, refresh, access_set,
}
use ysyxworkbench.CacheSim.Lines.{find_hit-cases, find_invalid-cases, oldest-Way}
use ysyxworkbench.CacheSim.Written.{Way-found}

-- `std::uniform_int_distribution` draws from 0 to its bound.
abbrev pub Draws : {R : Type 0} → (R → ℕ → ℕ × R) → Type 0
Draws {R} draw = (rng : R) (n : ℕ) → (draw rng n).0 ≤ n

-- The write of a line within the set.
write_within :
    (lines : List Line) (i : ℕ) (l : Line)
    → i < length lines
    → (write lines i l ≡ ok (set lines i l)) × (length (set lines i l) ≡ length lines)
write_within lines i l h =
    let (old, there) = get_elem?_below i lines h in (rw (write, there) refl, length-set lines i l)

module _ {D R : Type 0} (draw : R → ℕ → ℕ × R) (draws : Draws draw) (opt : Options D)
    (some_way : 0 < opt.ways) where
  choose_victim_within :
      (lines : List Line) (rng : R)
      → length lines ≡ opt.ways
      → (i : ℕ) × (rng' : R) × (choose_victim draw opt lines rng ≡ ok (i, rng'))
        × (i < length lines)
  unfolding choose_victim
  choose_victim_within [] rng size = absurd (omega arith)
  choose_victim_within (l ∷ ls) rng size = elim (find_invalid-cases 0 (l ∷ ls)) [
    | inr w ↦ (
      w.index,
      rng,
      rw (choose_victim, Way-found _ (find_invalid 0 (l ∷ ls)) (l ∷ ls) w) refl,
      get_elem?-lt w.index (l ∷ ls) w.line w.stands,
    )
    | inl (full, _) ↦ elim (Bool-cases (same_text opt.repl (codes "random"))) [
      | inl random ↦ (
        (draw rng (opt.ways - 1)).0,
        (draw rng (opt.ways - 1)).1,
        rw (choose_victim, full, random) refl,
        omega (arith, draws rng (opt.ways - 1), size, some_way),
      )
      | inr other ↦
          let (v, is_oldest, w) = oldest-Way l ls in
          let found = Way-found _ (some v) (l ∷ ls) w in
          let e : v ≡ w.index = cc in
          (
            v,
            rng,
            rw (choose_victim, full, other, is_oldest) refl,
            omega (arith, e, get_elem?-lt w.index (l ∷ ls) w.line w.stands),
          )
    ]
  ]

  refresh_within :
      (now i : ℕ) (lines : List Line)
      → i < length lines
      → (lines' : List Line) × (refresh opt now i lines ≡ ok lines')
        × (length lines' ≡ length lines)
  unfolding refresh
  refresh_within now i lines h = elim (Bool-cases (same_text opt.repl (codes "lru"))) [
    | inl lru ↦
        let (old, there) = get_elem?_below i lines h in
        let l : Line = record old { age = now } in
        (set lines i l, rw (refresh, lru, at, write, there) refl, length-set lines i l)
    | inr other ↦ (lines, rw (refresh, other) refl, refl)
  ]

  pub access_set_within :
      (tag now : ℕ) (lines : List Line) (rng : R)
      → length lines ≡ opt.ways
      → (hit : Bool) × (lines' : List Line) × (rng' : R) × (access_set draw opt tag now lines rng
          ≡ ok (hit, lines', rng'))
        × (length lines' ≡ opt.ways)
  unfolding access_set
  access_set_within tag now lines rng size = elim (find_hit-cases tag 0 lines) [
    | inl (miss, new) ↦
        let (i, rng', chosen, inside) = choose_victim_within lines rng size in
        let l : Line = record { valid = true; tag = tag; age = now } in
        let (written, size') = write_within lines i l inside in
        (false, set lines i l, rng', rw (access_set, miss, chosen, written) refl, size' ∙ size)
    | inr w ↦
        let (lines', written, size') =
          refresh_within now w.index lines (get_elem?-lt w.index lines w.line w.stands) in
        (
          true,
          lines',
          rng,
          rw (access_set, Way-found _ (find_hit tag 0 lines) lines w, written) refl,
          size' ∙ size,
        )
  ]
