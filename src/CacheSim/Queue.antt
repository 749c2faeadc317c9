-- ===== src/CacheSim/Queue.antt =====
-- What the replacement policies of npc/tools/cachesim/cachesim.cpp promise: a set as the list of the
-- tags in it, the last one to be evicted first.
use ysyxworkbench.Prelude.{
  ℕ, zero, suc, ◌+◌, ◌≤◌, ◌<◌, ◌≡◌, ◌⊎◌, refl, ap, ◌∙◌, Bool, true, false, ◌||◌, Option, none, some,
  List, [], ◌∷◌, map, ◌==◌, if◌then◌else◌, length, take, arith, Bool-cases, inl, inr,
}

unfoldable pub contains : ℕ → List ℕ → Bool
contains t [] = false
contains t (u ∷ q) = u == t || contains t q

unfoldable pub remove : ℕ → List ℕ → List ℕ
remove t [] = []
remove t (u ∷ q) = if u == t then q else u ∷ remove t q

-- The most recently used tag first, and never more than `ways`.
abbrev pub lru_step : ℕ → ℕ → List ℕ → List ℕ
lru_step ways t q = take ways (t ∷ remove t q)

-- The tag that came last first; a tag that is there stays where it is.
abbrev pub fifo_step : ℕ → ℕ → List ℕ → List ℕ
fifo_step ways t q = if contains t q then q else take ways (t ∷ q)

-- Tags with the time of their last use, or of their coming: the entries behind such a list.
abbrev pub Entries : Type 0
Entries = List (ℕ × ℕ)

abbrev pub tags : Entries → List ℕ
tags = map (λ e. e.0)

unfoldable pub age_in : ℕ → Entries → Option ℕ
age_in t [] = none
age_in t ((u, a) ∷ q) = if u == t then some a else age_in t q

unfoldable pub remove_entry : ℕ → Entries → Entries
remove_entry t [] = []
remove_entry t ((u, a) ∷ q) = if u == t then q else (u, a) ∷ remove_entry t q

-- Different tags, with times that fall, all before `bound`.
abbrev pub IsOrdered : ℕ → Entries → Type 0
IsOrdered bound [] = Unit {0}
IsOrdered bound ((t, a) ∷ q) = (a < bound) × (age_in t q ≡ none) × IsOrdered a q

pub IsOrdered-mono : {b c : ℕ} (q : Entries) → b ≤ c → IsOrdered b q → IsOrdered c q
IsOrdered-mono [] h o = tt
IsOrdered-mono ((t, a) ∷ q) h (young, new, rest) = (omega arith, new, rest)

pub age_in-lt : (b t a : ℕ) (q : Entries) → IsOrdered b q → age_in t q ≡ some a → a < b
unfolding age_in
age_in-lt b t a [] o h = cc
age_in-lt b t a ((u, a') ∷ q) (young, new, rest) h = ground (arith, age_in-lt a' t a q rest)

pub contains-tags :
    (t : ℕ) (q : Entries)
    → ((contains t (tags q) ≡ false) × (age_in t q ≡ none))
      ⊎ ((a : ℕ) × (contains t (tags q) ≡ true) × (age_in t q ≡ some a))
unfolding contains age_in
contains-tags t [] = inl (refl, refl)
contains-tags t ((u, a) ∷ q) = elim (Bool-cases (u == t)) [
  | inl same ↦ inr (a, rw same refl, rw same refl)
  | inr other ↦ elim (contains-tags t q) [
    | inl (out, out') ↦ inl (rw (other, out) refl, rw (other, out') refl)
    | inr (a', is_in, is_in') ↦ inr (a', rw (other, is_in) refl, rw (other, is_in') refl)
  ]
]

pub tags-remove_entry : (t : ℕ) (q : Entries) → tags (remove_entry t q) ≡ remove t (tags q)
unfolding remove remove_entry
tags-remove_entry t [] = refl
tags-remove_entry t ((u, a) ∷ q) = ground (arith, tags-remove_entry t q)

pub tags-take : (n : ℕ) (q : Entries) → tags (take n q) ≡ take n (tags q)
tags-take zero q = refl
tags-take (suc n) [] = refl
tags-take (suc n) ((t, a) ∷ q) = ground (arith, tags-take n q)

pub length-tags : (q : Entries) → length (tags q) ≡ length q
length-tags [] = refl
length-tags (e ∷ q) = omega (arith, length-tags q)

pub age_in-remove :
    (b t t' : ℕ) (q : Entries)
    → IsOrdered b q
    → age_in t' (remove_entry t q) ≡ (if t' == t then none else age_in t' q)
unfolding age_in remove_entry
age_in-remove b t t' [] o = ground arith
age_in-remove b t t' ((u, a) ∷ q) (young, new, rest) = elim (Bool-cases (u == t)) [
  | inl same ↦
      let e : u ≡ t = ground arith in
      let absent : age_in t q ≡ none = rw (← e) new in
      elim (Bool-cases (t' == t)) [
        | inl here ↦
            let e' : t' ≡ t = ground arith in
            rw (remove_entry, same, here) (ap (λ (n : ℕ). age_in n q) e' ∙ absent)
        | inr apart ↦
            let past : (u == t') ≡ false = ground arith in rw (remove_entry, same, apart, past) refl
      ]
  | inr other ↦ ground (arith, other, age_in-remove a t t' q rest)
]

pub remove-IsOrdered : (b t : ℕ) (q : Entries) → IsOrdered b q → IsOrdered b (remove_entry t q)
unfolding age_in remove_entry
remove-IsOrdered b t [] o = tt
remove-IsOrdered b t ((u, a) ∷ q) (young, new, rest) = elim (Bool-cases (u == t)) [
  | inl same ↦ rw (remove_entry, same) (IsOrdered-mono q (omega arith) rest)
  | inr other ↦
      rw (remove_entry, other)
        (young, ground (arith, age_in-remove a t u q rest), remove-IsOrdered a t q rest)
]

pub remove_absent : (t : ℕ) (q : Entries) → age_in t q ≡ none → remove_entry t q ≡ q
unfolding age_in remove_entry
remove_absent t [] h = refl
remove_absent t ((u, a) ∷ q) h = ground (arith, remove_absent t q)

pub length-remove :
    (b t a : ℕ) (q : Entries)
    → IsOrdered b q
    → age_in t q ≡ some a
    → length (remove_entry t q) + 1 ≡ length q
unfolding age_in remove_entry
length-remove b t a [] o h = cc
length-remove b t a ((u, a') ∷ q) (young, new, rest) h = elim (Bool-cases (u == t)) [
  | inl same ↦ rw (remove_entry, same) (omega arith)
  | inr other ↦ rw (remove_entry, other) (omega (arith, length-remove a' t a q rest (ground arith)))
]

pub take_all {ℓ} : {A : Type ℓ} (n : ℕ) (q : List A) → length q ≤ n → take n q ≡ q
take_all zero [] h = refl
take_all zero (e ∷ q) h = absurd (omega arith)
take_all (suc n) [] h = refl
take_all (suc n) (e ∷ q) h = ground (arith, take_all n q)

age_in-take-none : (t n : ℕ) (q : Entries) → age_in t q ≡ none → age_in t (take n q) ≡ none
unfolding age_in
age_in-take-none t zero q h = refl
age_in-take-none t (suc n) [] h = refl
age_in-take-none t (suc n) ((u, a) ∷ q) h = ground (arith, age_in-take-none t n q)

pub take-IsOrdered : (b n : ℕ) (q : Entries) → IsOrdered b q → IsOrdered b (take n q)
take-IsOrdered b zero q o = tt
take-IsOrdered b (suc n) [] o = tt
take-IsOrdered b (suc n) ((t, a) ∷ q) (young, new, rest) =
    (young, age_in-take-none t n q new, take-IsOrdered a n q rest)

-- The last entry is the oldest, and `take` without it drops its tag and no other.
pub record Last (n : ℕ) (q : Entries) (t a : ℕ) : Type 0 where
  pub there : age_in t q ≡ some a
  pub least : (t' a' : ℕ) → age_in t' q ≡ some a' → a ≤ a'
  pub alone : (t' : ℕ) → age_in t' q ≡ some a → t' ≡ t
  pub left : (t' : ℕ) → age_in t' (take n q) ≡ (if t' == t then none else age_in t' q)

Last-one : (t a : ℕ) → Last zero ((t, a) ∷ []) t a
unfolding age_in
Last-one t a = record {
  there = ground arith;
  least = λ t' a' h. ground arith;
  alone = λ t' h. ground arith;
  left = λ t'. ground arith;
}

Last-more :
    (b n u a' t a : ℕ) (q : Entries)
    → IsOrdered b ((u, a') ∷ q)
    → Last n q t a
    → Last (suc n) ((u, a') ∷ q) t a
unfolding age_in
Last-more b n u a' t a q (young, new, rest) l =
    let older = age_in-lt a' t a q rest l.there in
    let apart : (u == t) ≡ false = ground (arith, l.there) in
    record {
      there = rw apart l.there;
      least = λ t' x h. ground (arith, l.least t' x);
      alone = λ t' h. ground (arith, l.alone t');
      left = λ t'. ground (arith, l.left t');
    }

pub entry_at_end :
    (b n : ℕ) (q : Entries) → IsOrdered b q → length q ≡ suc n → (t : ℕ) × (a : ℕ) × Last n q t a
entry_at_end b n [] o h = absurd (omega arith)
entry_at_end b zero ((t, a) ∷ []) o h = (t, a, Last-one t a)
entry_at_end b zero (e ∷ e' ∷ q) o h = absurd (omega arith)
entry_at_end b (suc n) ((u, a') ∷ q) o h =
    let (t, a, l) = entry_at_end a' n q o.2 (omega arith) in (t, a, Last-more b n u a' t a q o l)
