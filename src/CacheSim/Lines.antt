-- ===== src/CacheSim/Lines.antt =====
-- What the loops of `access_cache` (npc/tools/cachesim/cachesim.cpp) find in the lines of a set.
use ysyxworkbench.Prelude.{
  ℕ, zero, suc, ◌+◌, ◌≤◌, ◌≡◌, ◌⊎◌, refl, ◌∙◌, Bool, true, false, ◌&&◌, Option, none, some, ok,
  List, [], ◌∷◌, ltb, ◌==◌, if◌then◌else◌, length, get_elem?, arith, Bool-cases, inl, inr,
}
use ysyxworkbench.CacheSim.{Line, find_hit, find_invalid, oldest_from, oldest}

abbrev pub holds : ℕ → Line → Bool
holds t l = l.valid && l.tag == t

-- The age of the line with the tag.
unfoldable pub age_of : ℕ → List Line → Option ℕ
age_of t [] = none
age_of t (l ∷ ls) = if holds t l then some l.age else age_of t ls

unfoldable pub valid_count : List Line → ℕ
valid_count [] = 0
valid_count (l ∷ ls) = (if l.valid then 1 else 0) + valid_count ls

-- No tag is valid twice.
abbrev pub IsDistinct : List Line → Type 0
IsDistinct [] = Unit {0}
IsDistinct (l ∷ ls) = (l.valid ≡ true → age_of l.tag ls ≡ none) × IsDistinct ls

-- A place of the set.
pub record Way (P : Line → Type 0) (found : Option ℕ) (way : ℕ) (ls : List Line) : Type 0 where
  pub index : ℕ
  pub line : Line
  pub is : found ≡ some (way + index)
  pub stands : get_elem? ls index ≡ some line
  pub fits : P line

Way-suc :
    (P : Line → Type 0) (found : Option ℕ) (way : ℕ) (l : Line) (ls : List Line)
    → Way P found (suc way) ls
    → Way P found way (l ∷ ls)
Way-suc P found way l ls w = record {
  index = suc w.index;
  line = w.line;
  is = w.is ∙ shift way w.index;
  stands = w.stands;
  fits = w.fits;
}
  where
    shift : (n i : ℕ) → some (suc n + i) ≡ some (n + suc i)
    shift n i = ground arith

Way-here :
    (P : Line → Type 0) (way : ℕ) (l : Line) (ls : List Line) → P l → Way P (some way) way (l ∷ ls)
Way-here P way l ls h = record { index = 0; line = l; is = ground arith; stands = refl; fits = h }

Way-weaken :
    (P Q : Line → Type 0) (found : Option ℕ) (way : ℕ) (ls : List Line)
    → ((l : Line) → P l → Q l)
    → Way P found way ls
    → Way Q found way ls
Way-weaken P Q found way ls h w = record {
  index = w.index;
  line = w.line;
  is = w.is;
  stands = w.stands;
  fits = h w.line w.fits;
}

Way-eq :
    (P : Line → Type 0) (found found' : Option ℕ) (way : ℕ) (ls : List Line)
    → found' ≡ found
    → Way P found way ls
    → Way P found' way ls
Way-eq P found found' way ls e w = record {
  index = w.index;
  line = w.line;
  is = e ∙ w.is;
  stands = w.stands;
  fits = w.fits;
}

-- The line that a hit finds.
abbrev pub Hit : ℕ → Option ℕ → Line → Type 0
Hit t age l = (l.valid ≡ true) × (l.tag ≡ t) × (age ≡ some l.age)

pub find_hit-cases :
    (t way : ℕ) (ls : List Line)
    → ((find_hit t way ls ≡ none) × (age_of t ls ≡ none))
      ⊎ Way (Hit t (age_of t ls)) (find_hit t way ls) way ls
unfolding find_hit age_of
find_hit-cases t way [] = inl (refl, refl)
find_hit-cases t way (l ∷ ls) = elim (Bool-cases (holds t l)) [
  | inl here ↦ inr (rw here (Way-here (Hit t (some l.age)) way l ls (ground (arith, here))))
  | inr other ↦ elim (find_hit-cases t (suc way) ls) [
    | inl (out, out') ↦ inl (rw (other, out) refl, rw (other, out') refl)
    | inr w ↦ inr (rw (other) (Way-suc (Hit t (age_of t ls)) (find_hit t (suc way) ls) way l ls w))
  ]
]

pub find_invalid-cases :
    (way : ℕ) (ls : List Line)
    → ((find_invalid way ls ≡ none) × (valid_count ls ≡ length ls))
      ⊎ Way (λ l. l.valid ≡ false) (find_invalid way ls) way ls
unfolding find_invalid valid_count
find_invalid-cases way [] = inl (refl, refl)
find_invalid-cases way (l ∷ ls) = elim (Bool-cases l.valid) [
  | inl yes_valid ↦ elim (find_invalid-cases (suc way) ls) [
    | inl (out, full) ↦ inl (rw (yes_valid, out) refl, rw yes_valid (omega (arith, full)))
    | inr w ↦ inr (
        Way-eq (λ l'. l'.valid ≡ false) (find_invalid (suc way) ls) _ way (l ∷ ls)
          (rw yes_valid refl)
          (Way-suc (λ l'. l'.valid ≡ false) (find_invalid (suc way) ls) way l ls w))
  ]
  | inr open_line ↦ inr (
      Way-eq (λ l'. l'.valid ≡ false) (some way) _ way (l ∷ ls) (rw open_line refl)
        (Way-here (λ l'. l'.valid ≡ false) way l ls open_line))
]

pub valid_count-le : (ls : List Line) → valid_count ls ≤ length ls
unfolding valid_count
valid_count-le [] = omega arith
valid_count-le (l ∷ ls) = ground (arith, valid_count-le ls)

-- No line is older than `age`.
abbrev pub AllFrom : ℕ → List Line → Type 0
AllFrom age [] = Unit {0}
AllFrom age (l ∷ ls) = (age ≤ l.age) × AllFrom age ls

AllFrom-le : (a b : ℕ) (ls : List Line) → b ≤ a → AllFrom a ls → AllFrom b ls
AllFrom-le a b [] h k = tt
AllFrom-le a b (l ∷ ls) h (here, rest) = (omega arith, AllFrom-le a b ls h rest)

oldest_from-cases :
    (way best victim : ℕ) (ls : List Line)
    → ((oldest_from way best victim ls ≡ victim) × AllFrom best ls)
      ⊎ Way (λ l. (l.age ≤ best) × AllFrom l.age ls) (some (oldest_from way best victim ls)) way ls
unfolding oldest_from
oldest_from-cases way best victim [] = inl (refl, tt)
oldest_from-cases way best victim (l ∷ ls) = elim (Bool-cases (ltb l.age best)) [
  | inl older ↦ elim (oldest_from-cases (suc way) l.age way ls) [
    | inl (e, least) ↦ inr (
        rw older (
          rw e (
            Way-here (λ l'. (l'.age ≤ best) × AllFrom l'.age (l ∷ ls)) way l ls
              (ground arith, (omega arith, least)))))
    | inr w ↦ inr (
        rw older (
          Way-weaken (λ l'. (l'.age ≤ l.age) × AllFrom l'.age ls)
            (λ l'. (l'.age ≤ best) × AllFrom l'.age (l ∷ ls)) _ way (l ∷ ls)
            (λ l' h. (ground (arith, h.0), (h.0, h.1)))
            (Way-suc _ (some (oldest_from (suc way) l.age way ls)) way l ls w)))
  ]
  | inr younger ↦ elim (oldest_from-cases (suc way) best victim ls) [
    | inl (e, least) ↦ inl (rw younger e, (ground arith, least))
    | inr w ↦ inr (
        rw younger (
          Way-weaken (λ l'. (l'.age ≤ best) × AllFrom l'.age ls)
            (λ l'. (l'.age ≤ best) × AllFrom l'.age (l ∷ ls)) _ way (l ∷ ls)
            (λ l' h. (h.0, (ground (arith, h.0), h.1)))
            (Way-suc _ (some (oldest_from (suc way) best victim ls)) way l ls w)))
  ]
]

-- In a set with lines, the victim of fifo and lru is a line that is no younger than another.
pub oldest-Way :
    (l : Line) (ls : List Line)
    → (v : ℕ) × (oldest (l ∷ ls) ≡ ok v) × Way (λ l'. AllFrom l'.age (l ∷ ls)) (some v) 0 (l ∷ ls)
unfolding oldest
oldest-Way l ls = (
  oldest_from 1 l.age 0 ls,
  refl,
  elim (oldest_from-cases 1 l.age 0 ls) [
    | inl (e, least) ↦ rw e (Way-here (λ l'. AllFrom l'.age (l ∷ ls)) 0 l ls (omega arith, least))
    | inr w ↦
        Way-weaken (λ l'. (l'.age ≤ l.age) × AllFrom l'.age ls) (λ l'. AllFrom l'.age (l ∷ ls)) _ 0
          (l ∷ ls) (λ l' h. h) (Way-suc _ (some (oldest_from 1 l.age 0 ls)) 0 l ls w)
  ],
)

pub AllFrom-age_of :
    (age t a : ℕ) (ls : List Line) → AllFrom age ls → age_of t ls ≡ some a → age ≤ a
unfolding age_of
AllFrom-age_of age t a [] h e = cc
AllFrom-age_of age t a (l ∷ ls) (here, rest) e = ground (arith, AllFrom-age_of age t a ls rest)

-- A valid line of the set is the one with its tag.
pub age_of-line :
    (i : ℕ) (l : Line) (ls : List Line)
    → IsDistinct ls
    → get_elem? ls i ≡ some l
    → l.valid ≡ true
    → age_of l.tag ls ≡ some l.age
unfolding age_of
age_of-line i l [] d e v = cc
age_of-line zero l (x ∷ ls) d e v = ground arith
age_of-line (suc i) l (x ∷ ls) (apart, d) e v = ground (arith, age_of-line i l ls d e v, apart)
