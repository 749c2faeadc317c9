-- ===== src/CacheSim/Written.antt =====
-- What a write of one line of a set changes (npc/tools/cachesim/cachesim.cpp).
use ysyxworkbench.Prelude.{
  ℕ, zero, suc, ◌+◌, ◌<◌, ◌≡◌, ◌⊎◌, refl, ◌∙◌, true, false, Option, none, some, List, [], ◌∷◌, ◌==◌,
  if◌then◌else◌, length, get_elem?, set, replicate, arith, Bool-cases, inl, inr,
}
use ysyxworkbench.CacheSim.{Line}
use ysyxworkbench.CacheSim.Lines.{
  holds, age_of, valid_count, IsDistinct, Way, valid_count-le, age_of-line,
}

-- The tag stands nowhere but in the line `l`.
abbrev pub IsFree : ℕ → Line → List Line → Type 0
IsFree t l ls = (age_of t ls ≡ none) ⊎ ((l.valid ≡ true) × (l.tag ≡ t))

-- The set after a write of a valid line with a free tag in place of `old`.
module _ (new old : Line) (valid : new.valid ≡ true) where
  IsFree-tail :
      (i : ℕ) (x : Line) (ls : List Line)
      → IsDistinct (x ∷ ls)
      → get_elem? ls i ≡ some old
      → IsFree new.tag old (x ∷ ls)
      → (holds new.tag x ≡ false) × IsFree new.tag old ls
  unfolding age_of
  IsFree-tail i x ls (apart, d) e (inl h) = (ground arith, inl (ground arith))
  IsFree-tail i x ls (apart, d) e (inr (v, same)) =
      (ground (arith, age_of-line i old ls d e v, apart), inr (v, same))

  pub age_of-set :
      (i : ℕ) (ls : List Line) (t : ℕ)
      → IsDistinct ls
      → get_elem? ls i ≡ some old
      → IsFree new.tag old ls
      → age_of t (set ls i new)
        ≡ (if t == new.tag then some new.age else if holds t old then none else age_of t ls)
  unfolding age_of
  age_of-set i [] t d e f = cc
  age_of-set zero (x ∷ ls) t (apart, d) e (inl f) = ground arith
  age_of-set zero (x ∷ ls) t (apart, d) e (inr f) = ground (arith, apart)
  age_of-set (suc i) (x ∷ ls) t (apart, d) e f =
      let (other, f') = IsFree-tail i x ls (apart, d) e f in
      ground (arith, age_of-set i ls t d e f', age_of-line i old ls d e, apart)

  pub set-IsDistinct :
      (i : ℕ) (ls : List Line)
      → IsDistinct ls
      → get_elem? ls i ≡ some old
      → IsFree new.tag old ls
      → IsDistinct (set ls i new)
  unfolding age_of
  set-IsDistinct i [] d e f = tt
  set-IsDistinct zero (x ∷ ls) (apart, d) e (inl f) = (λ v. ground arith, d)
  set-IsDistinct zero (x ∷ ls) (apart, d) e (inr f) = (λ v. ground (arith, apart), d)
  set-IsDistinct (suc i) (x ∷ ls) (apart, d) e f =
      let (other, f') = IsFree-tail i x ls (apart, d) e f in
      (λ v. ground (arith, age_of-set i ls x.tag d e f', apart), set-IsDistinct i ls d e f')

  pub valid_count-set :
      (i : ℕ) (ls : List Line)
      → get_elem? ls i ≡ some old
      → valid_count (set ls i new) ≡ valid_count ls + (if old.valid then 0 else 1)
  unfolding valid_count
  valid_count-set i [] e = cc
  valid_count-set zero (x ∷ ls) e = ground arith
  valid_count-set (suc i) (x ∷ ls) e = ground (arith, valid_count-set i ls e)

pub age_of_empty : (t n : ℕ) (l : Line) → l.valid ≡ false → age_of t (replicate n l) ≡ none
unfolding age_of
age_of_empty t zero l h = refl
age_of_empty t (suc n) l h = ground (arith, age_of_empty t n l)

pub empty-IsDistinct : (n : ℕ) (l : Line) → l.valid ≡ false → IsDistinct (replicate n l)
empty-IsDistinct zero l h = tt
empty-IsDistinct (suc n) l h = (λ v. cc, empty-IsDistinct n l h)

pub valid_count_empty : (n : ℕ) (l : Line) → l.valid ≡ false → valid_count (replicate n l) ≡ 0
unfolding valid_count
valid_count_empty zero l h = refl
valid_count_empty (suc n) l h = ground (arith, valid_count_empty n l)

pub valid_count_spare :
    (i : ℕ) (l : Line) (ls : List Line)
    → get_elem? ls i ≡ some l
    → l.valid ≡ false
    → valid_count ls < length ls
unfolding valid_count
valid_count_spare i l [] e v = cc
valid_count_spare zero l (x ∷ ls) e v = ground (arith, valid_count-le ls)
valid_count_spare (suc i) l (x ∷ ls) e v = ground (arith, valid_count_spare i l ls e v)

pub all_valid :
    (i : ℕ) (l : Line) (ls : List Line)
    → valid_count ls ≡ length ls
    → get_elem? ls i ≡ some l
    → l.valid ≡ true
all_valid i l ls full e = elim (Bool-cases l.valid) [
  | inl v ↦ v
  | inr v ↦ absurd (omega (arith, full, valid_count_spare i l ls e v))
]

pub Way-found :
    (P : Line → Type 0) (found : Option ℕ) (ls : List Line) (w : Way P found 0 ls)
    → found ≡ some w.index
Way-found P found ls w = w.is ∙ ground arith
