-- ===== src/Am/Audio/Ring.antt =====
-- The sound buffer as a ring: bytes from a head on, around the end of the buffer.
use native.Mathlib.Nat.{mod_self, mod-eq_of_lt}
use ysyxworkbench.Prelude.{
  ℕ, zero, suc, ◌+◌, ◌%◌, ◌≤◌, ◌<◌, ◌≡◌, ◌⊎◌, refl, ap, ◌∙◌, inl, inr, true, false, ok, List, [],
  ◌∷◌, ◌++◌, length, take, drop, ◌==◌, Bool-cases, ==_iff, ltb, arith,
}
use ysyxworkbench.Memory.{store}
use ysyxworkbench.Device.Map.{io_space_max}
use ysyxworkbench.Device.Ports.{play_from}

-- `t` is `n` places behind `head` in a ring of `size` places.
abbrev pub Place : ℕ → ℕ → ℕ → ℕ → Type 0
Place size head n t = (t ≡ head + n) ⊎ (t + size ≡ head + n)

pub next_place :
    (size t : ℕ)
    → t < size
    → (suc t < size) × ((t + 1) % size ≡ suc t) ⊎ (suc t ≡ size) × ((t + 1) % size ≡ 0)
next_place size t small = elim (Bool-cases (t + 1 == size)) [
  | inl end ↦
      inr (ground arith, ap (λ (m : ℕ). m % size) ((==_iff (t + 1) size).0 end) ∙ mod_self size)
  | inr inside ↦
      let less : t + 1 < size = ground (arith, inside) in
      inl (omega arith, mod-eq_of_lt less ∙ omega arith)
]

pub Place-next :
    (size head n t : ℕ)
    → head < size
    → Place size head (suc n) t
    → t < size
    → ((head + 1) % size < size) × Place size ((head + 1) % size) n t
Place-next size head n t small place below = ground (arith, next_place size head small)

pub Place-suc :
    (size head n t : ℕ)
    → head < size
    → Place size head n t
    → t < size
    → n < size
    → ((t + 1) % size < size) × Place size head (n + 1) ((t + 1) % size)
Place-suc size head n t small place below room = ground (arith, next_place size t below)

-- From `head` on, in `array` from `sbuf`, stand the bytes of the list.
abbrev pub Held : ℕ → ℕ → (ℕ → ℕ) → ℕ → List ℕ → Type 0
Held size sbuf array head [] = Unit
Held size sbuf array head (x ∷ q) =
    (array (sbuf + head) ≡ x) × Held size sbuf array ((head + 1) % size) q

module _ (size sbuf : ℕ) where
  -- A byte behind the last one, in a ring that is not full.
  pub Held-snoc :
      (array : ℕ → ℕ) (head t x : ℕ) (q : List ℕ)
      → head < size
      → t < size
      → Place size head (length q) t
      → length q < size
      → Held size sbuf array head q
      → Held size sbuf (store array (sbuf + t) x) head (q ++ x ∷ [])
  Held-snoc array head t x [] small below place room held = (ground arith, tt)
  Held-snoc array head t x (y ∷ q) small below place room (here, held) =
      let (small', place') = Place-next size head (length q) t small place below in
      (
        ground (arith, here),
        Held-snoc array ((head + 1) % size) t x q small' below place' (omega arith) held,
      )

  -- A change outside the buffer.
  pub Held-outside :
      (array array' : ℕ → ℕ) (head : ℕ) (q : List ℕ)
      → head < size
      → ((i : ℕ) → i < size → array' (sbuf + i) ≡ array (sbuf + i))
      → Held size sbuf array head q
      → Held size sbuf array' head q
  Held-outside array array' head [] small same held = tt
  Held-outside array array' head (x ∷ q) small same (here, held) =
      let small' : (head + 1) % size < size = ground (arith, next_place size head small) in
      (same head small ∙ here, Held-outside array array' ((head + 1) % size) q small' same held)

  -- What the callback finds: the first `n` bytes; the others stay.
  pub play_from-Held :
      (array : ℕ → ℕ) (n head t : ℕ) (q : List ℕ)
      → head < size
      → t < size
      → Place size head (length q) t
      → n ≤ length q
      → sbuf + size ≤ io_space_max
      → Held size sbuf array head q
      → (head' : ℕ) × (play_from n size array sbuf head ≡ ok (take n q, head'))
        × (head' < size)
        × Place size head' (length (drop n q)) t
        × Held size sbuf array head' (drop n q)
  unfolding play_from
  play_from-Held array zero head t q small below place few fits held =
      (head, refl, small, place, held)
  play_from-Held array (suc n) head t [] small below place few fits held = absurd (omega arith)
  play_from-Held array (suc n) head t (x ∷ q) small below place few fits (here, held) =
      let (small', place') = Place-next size head (length q) t small place below in
      let (head', plays, in_ring, placed, stays) =
        play_from-Held array n ((head + 1) % size) t q small' below place' (omega arith) fits
          held in
      let some : (size == 0) ≡ false = ground arith in
      let inside : ltb (sbuf + head) io_space_max ≡ true = ground arith in
      (head', rw (some, inside, plays, here) refl, in_ring, placed, stays)
