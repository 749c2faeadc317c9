-- ===== src/Device/Apart.antt =====
-- Maps that share no address.
use ysyxworkbench.Prelude.{ℕ, ◌≤◌, ◌<◌, ◌≡◌, ◌⊎◌, false, List, [], ◌∷◌, ◌++◌, arith}
use ysyxworkbench.Memory.{in_pmem}
use ysyxworkbench.Device.Map.{IoMap, overlaps_any}

module _ {C : Type 0} where
  abbrev pub Inside : IoMap C → ℕ → Type 0
  Inside map addr = (map.low ≤ addr) × (addr ≤ map.high)

  abbrev pub AllApart : ℕ → ℕ → List (IoMap C) → Type 0
  AllApart left right [] = Unit {0}
  AllApart left right (map ∷ maps) =
      ((right < map.low) ⊎ (map.high < left)) × AllApart left right maps

  -- Every map holds an address, has its ends outside pmem, and shares no address with another map.
  abbrev pub IsLaidOut : List (IoMap C) → Type 0
  IsLaidOut [] = Unit {0}
  IsLaidOut (map ∷ maps) =
      (map.low ≤ map.high)
      × (in_pmem map.low ≡ false)
      × (in_pmem map.high ≡ false)
      × AllApart map.low map.high maps
      × IsLaidOut maps

pub overlaps_any-AllApart :
    {C : Type 0} (maps : List (IoMap C)) (left right : ℕ)
    → overlaps_any maps left right ≡ false
    → AllApart left right maps
unfolding overlaps_any
overlaps_any-AllApart [] left right h = tt
overlaps_any-AllApart (map ∷ maps) left right h =
    ground (arith, overlaps_any-AllApart maps left right)

AllApart-append :
    {C : Type 0} (maps : List (IoMap C)) (new : IoMap C) (left right : ℕ)
    → AllApart left right maps
    → (right < new.low) ⊎ (new.high < left)
    → AllApart left right (maps ++ new ∷ [])
AllApart-append [] new left right h e = (e, tt)
AllApart-append (map ∷ maps) new left right (h, hs) e =
    (h, AllApart-append maps new left right hs e)

pub IsLaidOut-append :
    {C : Type 0} (maps : List (IoMap C)) (new : IoMap C)
    → IsLaidOut maps
    → AllApart new.low new.high maps
    → new.low ≤ new.high
    → in_pmem new.low ≡ false
    → in_pmem new.high ≡ false
    → IsLaidOut (maps ++ new ∷ [])
IsLaidOut-append [] new h apart le l r = (le, l, r, tt, tt)
IsLaidOut-append (map ∷ maps) new (p, q, s, t, h) (a, as') le l r = (
  p,
  q,
  s,
  AllApart-append maps new map.low map.high t (omega arith),
  IsLaidOut-append maps new h as' le l r,
)
