-- ===== src/CacheSim/Tracked.antt =====
-- The lines of a set of npc/tools/cachesim/cachesim.cpp that hold the entries of a list of Queue.antt,
-- and what a write to one of them does to that.
use ysyxworkbench.Prelude.{
  ℕ, zero, suc, ◌+◌, ◌≤◌, ◌<◌, ◌≡◌, refl, sym, ap, ◌∙◌, true, false, none, some, List, ◌∷◌, ◌==◌,
  if◌then◌else◌, length, get_elem?, set, take, arith, inl, inr, length-set, length-take,
}
use ysyxworkbench.CacheSim.{Line}
use ysyxworkbench.CacheSim.Queue.{
  contains, Entries, tags, age_in, remove_entry, IsOrdered, IsOrdered-mono, contains-tags,
  age_in-remove, remove-IsOrdered, length-remove, take_all, take-IsOrdered, entry_at_end,
}
use ysyxworkbench.CacheSim.Lines.{
  holds, age_of, valid_count, IsDistinct, valid_count-le, AllFrom, AllFrom-age_of, age_of-line,
}
use ysyxworkbench.CacheSim.Written.{
  IsFree, age_of-set, set-IsDistinct, valid_count-set, valid_count_spare,
}

-- The lines of a set of `ways` lines hold the entries, all made before time `bound`.
pub record Tracks (ways bound : ℕ) (lines : List Line) (q : Entries) : Type 0 where
  pub size : length lines ≡ ways
  pub same : (t : ℕ) → age_of t lines ≡ age_in t q
  pub distinct : IsDistinct lines
  pub ordered : IsOrdered bound q
  pub counted : length q ≡ valid_count lines

-- The line that an access writes.
abbrev pub line_at : ℕ → ℕ → Line
line_at tag now = record { valid = true; tag = tag; age = now }

module _ {ways bound : ℕ} {lines : List Line} {q : Entries} (h : Tracks ways bound lines q)
    (tag now : ℕ) (later : bound ≤ now) where
  -- The entry of the tag that is there has the line's age.
  entry_of :
      (i : ℕ) (old : Line)
      → get_elem? lines i ≡ some old
      → old.valid ≡ true
      → age_in old.tag q ≡ some old.age
  entry_of i old e v = sym (h.same old.tag) ∙ age_of-line i old lines h.distinct e v

  -- The write of the new line over `old`, where the entries `rest` are those left of the others.
  Tracks-written :
      (i : ℕ) (old : Line) (rest : Entries)
      → get_elem? lines i ≡ some old
      → IsFree tag old lines
      → ((t : ℕ) → (t == tag) ≡ false → age_in t rest ≡ (if holds t old then none else age_in t q))
      → age_in tag rest ≡ none
      → IsOrdered bound rest
      → length rest + 1 ≡ length q + (if old.valid then 0 else 1)
      → Tracks ways (suc now) (set lines i (line_at tag now)) ((tag, now) ∷ rest)
  unfolding age_in
  Tracks-written i old rest e free others new ordered count =
      let l = line_at tag now in
      record {
        size = length-set lines i l ∙ h.size;
        same = λ t.
            ground (arith, age_of-set l old refl i lines t h.distinct e free, h.same t, others t);
        distinct = set-IsDistinct l old refl i lines h.distinct e free;
        ordered = (omega arith, new, IsOrdered-mono rest later ordered);
        counted = omega (arith, count, h.counted, valid_count-set l old refl i lines e);
      }

  -- A hit under lru: the line gets the new age.
  pub Tracks-touch :
      (i : ℕ) (old : Line)
      → get_elem? lines i ≡ some old
      → old.valid ≡ true
      → old.tag ≡ tag
      → Tracks ways
          (suc now)
          (set lines i (line_at tag now))
          (take ways ((tag, now) ∷ remove_entry tag q))
  Tracks-touch i old e v is_tag =
      let there : age_in tag q ≡ some old.age =
        ap (λ (t : ℕ). age_in t q) (sym is_tag) ∙ entry_of i old e v in
      let less = length-remove bound tag old.age q h.ordered there in
      let fits =
        take_all ways ((tag, now) ∷ remove_entry tag q)
          (omega (arith, less, h.counted, h.size, valid_count-le lines)) in
      rw fits (
        Tracks-written i old (remove_entry tag q) e (inr (v, is_tag))
          (λ t other. ground (arith, age_in-remove bound tag t q h.ordered))
          (ground (arith, age_in-remove bound tag tag q h.ordered))
          (remove-IsOrdered bound tag q h.ordered) (ground (arith, less, v)))

  -- A miss with a line to spare.
  pub Tracks-fill :
      (i : ℕ) (old : Line)
      → get_elem? lines i ≡ some old
      → old.valid ≡ false
      → age_of tag lines ≡ none
      → Tracks ways (suc now) (set lines i (line_at tag now)) (take ways ((tag, now) ∷ q))
  Tracks-fill i old e v new =
      let fits =
        take_all ways ((tag, now) ∷ q)
          (omega (arith, h.counted, h.size, valid_count_spare i old lines e v)) in
      rw fits (
        Tracks-written i old q e (inl new) (λ t other. ground (arith, v)) (sym (h.same tag) ∙ new)
          h.ordered (ground (arith, v)))

  -- A miss in a full set: the oldest line goes.
  pub Tracks-evict :
      (i : ℕ) (old : Line)
      → get_elem? lines i ≡ some old
      → AllFrom old.age lines
      → age_of tag lines ≡ none
      → old.valid ≡ true
      → (n : ℕ) → length q ≡ suc n
      → ways ≡ suc n
      → Tracks ways (suc now) (set lines i (line_at tag now)) (take ways ((tag, now) ∷ q))
  Tracks-evict i old e least new v n full some_way =
      let (t, a, l) = entry_at_end bound n q h.ordered full in
      let here = entry_of i old e v in
      let oldest_line : old.age ≤ a = AllFrom-age_of old.age t a lines least (h.same t ∙ l.there) in
      let oldest_entry : a ≤ old.age = l.least old.tag old.age here in
      let e_age : old.age ≡ a = omega arith in
      let e_tag : old.tag ≡ t = l.alone old.tag (here ∙ ap some e_age) in
      let kept : take ways ((tag, now) ∷ q) ≡ (tag, now) ∷ take n q =
        ap (λ (k : ℕ). take k ((tag, now) ∷ q)) some_way in
      rw kept (
        Tracks-written i old (take n q) e (inl new)
          (λ t' other. ground (arith, l.left t', e_tag, v))
          (ground (arith, l.left tag, h.same tag, new)) (take-IsOrdered bound n q h.ordered)
          (ground (arith, v, length-take {0} n q)))

pub some_inj : {a b : ℕ} → some a ≡ some b → a ≡ b
some_inj h = cc

pub positive : (n : ℕ) → 0 < n → (k : ℕ) × (n ≡ suc k)
positive zero h = absurd (omega arith)
positive (suc k) h = (k, refl)

pub contains_absent : (t : ℕ) (q : Entries) → age_in t q ≡ none → contains t (tags q) ≡ false
contains_absent t q h = elim (contains-tags t q) [ inl (e, e') ↦ e | inr (a, e, e') ↦ cc ]

pub contains_there : (t a : ℕ) (q : Entries) → age_in t q ≡ some a → contains t (tags q) ≡ true
contains_there t a q h = elim (contains-tags t q) [ inl (e, e') ↦ cc | inr (a', e, e') ↦ e ]

pub Tracks-mono :
    {ways b c : ℕ} {lines : List Line} {q : Entries}
    → Tracks ways b lines q
    → b ≤ c
    → Tracks ways c lines q
Tracks-mono {q = q} h le = record {
  size = h.size;
  same = h.same;
  distinct = h.distinct;
  ordered = IsOrdered-mono q le h.ordered;
  counted = h.counted;
}
