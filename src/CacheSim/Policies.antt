-- ===== src/CacheSim/Policies.antt =====
-- One access to a set of npc/tools/cachesim/cachesim.cpp, against the lists of Queue.antt.
use ysyxworkbench.Prelude.{
  ℕ, suc, ◌≤◌, ◌<◌, ◌≡◌, refl, sym, ap, ◌∙◌, Bool, true, false, none, some, Result, ok, ◌>>=◌, List,
  [], ◌∷◌, if◌then◌else◌, length, get_elem?, set, take, codes, same_text, arith, inl, inr,
}
use ysyxworkbench.CacheSim.{
  Options, Line, find_hit, find_invalid, write, at, choose_victim, refresh, access_set,
}
use ysyxworkbench.CacheSim.Queue.{
  contains, lru_step, fifo_step, Entries, tags, age_in, remove_entry, tags-remove_entry, tags-take,
  remove_absent,
}
use ysyxworkbench.CacheSim.Lines.{
  age_of, valid_count, find_hit-cases, find_invalid-cases, oldest-Way,
}
use ysyxworkbench.CacheSim.Written.{all_valid, Way-found}
use ysyxworkbench.CacheSim.Tracked.{
  Tracks, line_at, Tracks-touch, Tracks-fill, Tracks-evict, some_inj, positive, contains_absent,
  contains_there, Tracks-mono,
}

-- What `access_set` returns, with the entries `q'` after it.
abbrev pub Accessed :
    {D R : Type 0} (draw : R → ℕ → ℕ × R) (opt : Options D)
    → ℕ
    → Bool
    → ℕ
    → List Line
    → R
    → Entries
    → Type 0
Accessed draw opt tag hit now lines rng q' =
    (lines' : List Line) × (access_set draw opt tag now lines rng ≡ ok (hit, lines', rng))
    × Tracks opt.ways (suc now) lines' q'

-- An access to a set, for a policy that does not draw.
module _ {D : Type 0} {R : Type 0} (draw : R → ℕ → ℕ × R) (opt : Options D)
    (ordered : same_text opt.repl (codes "random") ≡ false) where
  -- A miss writes the victim's line.
  access_set_writes :
      (tag now : ℕ) (lines : List Line) (rng : R) (i : ℕ) (old : Line)
      → find_hit tag 0 lines ≡ none
      → choose_victim draw opt lines rng ≡ ok (i, rng)
      → get_elem? lines i ≡ some old
      → access_set draw opt tag now lines rng ≡ ok (false, set lines i (line_at tag now), rng)
  unfolding access_set
  access_set_writes tag now lines rng i old miss choice there =
      rw (access_set, miss, choice, write, there) refl

  -- A hit under lru writes the line that it finds.
  access_set_touches :
      (tag now : ℕ) (lines : List Line) (rng : R) (i : ℕ) (old : Line)
      → find_hit tag 0 lines ≡ some i
      → same_text opt.repl (codes "lru") ≡ true
      → get_elem? lines i ≡ some old
      → old.valid ≡ true
      → old.tag ≡ tag
      → access_set draw opt tag now lines rng ≡ ok (true, set lines i (line_at tag now), rng)
  unfolding access_set refresh
  access_set_touches tag now lines rng i old hit lru there v is_tag =
      let touched : record old { age = now } ≡ line_at tag now = ground arith in
      rw (access_set, hit, refresh, lru, at, write, there)
        (let done : Line → Result (Bool × List Line × R) = λ l. ok (true, set lines i l, rng) in
          ap done touched)

  access_set_full :
      {bound : ℕ} {lines : List Line} {q : Entries} (tag now : ℕ) (rng : R)
      → Tracks opt.ways bound lines q
      → bound ≤ now
      → 0 < opt.ways
      → find_hit tag 0 lines ≡ none
      → age_of tag lines ≡ none
      → find_invalid 0 lines ≡ none
      → valid_count lines ≡ length lines
      → Accessed draw opt tag false now lines rng (take opt.ways ((tag, now) ∷ q))
  unfolding access_set choose_victim
  access_set_full {lines = []} tag now rng h later some_way miss new none_open full =
      absurd (omega (arith, h.size, some_way))
  access_set_full {lines = l ∷ ls} {q = q} tag now rng h later some_way miss new none_open full =
      let (v, is_oldest, w) = oldest-Way l ls in
      let (n, e) = positive opt.ways some_way in
      let done : ℕ → Result (ℕ × R) = λ i. ok (i, rng) in
      let place : v ≡ w.index = some_inj (Way-found _ (some v) (l ∷ ls) w) in
      (
        set (l ∷ ls) w.index (line_at tag now),
        access_set_writes tag now (l ∷ ls) rng w.index w.line miss
            (rw (choose_victim, none_open, ordered)
              (ap (λ (r : Result ℕ). r >>= λ (i : ℕ). done i) is_oldest ∙ ap done place))
            w.stands,
        Tracks-evict h tag now later w.index w.line w.stands w.fits new
            (all_valid w.index w.line (l ∷ ls) full w.stands) n
            (omega (arith, e, full, h.size, h.counted)) e,
      )

  access_set_miss :
      {bound : ℕ} {lines : List Line} {q : Entries} (tag now : ℕ) (rng : R)
      → Tracks opt.ways bound lines q
      → bound ≤ now
      → 0 < opt.ways
      → find_hit tag 0 lines ≡ none
      → age_of tag lines ≡ none
      → Accessed draw opt tag false now lines rng (take opt.ways ((tag, now) ∷ q))
  unfolding access_set choose_victim
  access_set_miss {bound = bound} {lines = lines} {q = q} tag now rng h later some_way miss new =
      elim (find_invalid-cases 0 lines) [
        | inr w ↦ (
          set lines w.index (line_at tag now),
          access_set_writes tag now lines rng w.index w.line miss
              (rw (choose_victim, Way-found _ (find_invalid 0 lines) lines w) refl) w.stands,
          Tracks-fill h tag now later w.index w.line w.stands w.fits new,
        )
        | inl (none_open, full) ↦
            access_set_full tag now rng h later some_way miss new none_open full
      ]

  -- Under lru.
  access_set_lru :
      {bound : ℕ} {lines : List Line} {q : Entries} (tag now : ℕ) (rng : R)
      → same_text opt.repl (codes "lru") ≡ true
      → Tracks opt.ways bound lines q
      → bound ≤ now
      → 0 < opt.ways
      → Accessed draw opt tag
          (contains tag (tags q))
          now
          lines
          rng
          (take opt.ways ((tag, now) ∷ remove_entry tag q))
  unfolding access_set refresh
  access_set_lru {lines = lines} {q = q} tag now rng lru h later some_way =
      elim (find_hit-cases tag 0 lines) [
        | inl (miss, new) ↦
            let absent : age_in tag q ≡ none = sym (h.same tag) ∙ new in
            rw (contains_absent tag q absent, remove_absent tag q absent)
              (access_set_miss tag now rng h later some_way miss new)
        | inr w ↦
            let there : age_in tag q ≡ some w.line.age = sym (h.same tag) ∙ w.fits.2 in
            (
              set lines w.index (line_at tag now),
              rw (contains_there tag w.line.age q there) (
                  access_set_touches tag now lines rng w.index w.line
                    (Way-found _ (find_hit tag 0 lines) lines w) lru w.stands w.fits.0 w.fits.1),
              Tracks-touch h tag now later w.index w.line w.stands w.fits.0 w.fits.1,
            )
      ]

  -- Under fifo, and any policy that is neither lru nor random.
  access_set_fifo :
      {bound : ℕ} {lines : List Line} {q : Entries} (tag now : ℕ) (rng : R)
      → same_text opt.repl (codes "lru") ≡ false
      → Tracks opt.ways bound lines q
      → bound ≤ now
      → 0 < opt.ways
      → Accessed draw opt tag
          (contains tag (tags q))
          now
          lines
          rng
          (if contains tag (tags q) then q else take opt.ways ((tag, now) ∷ q))
  unfolding access_set refresh
  access_set_fifo {lines = lines} {q = q} tag now rng fifo h later some_way =
      elim (find_hit-cases tag 0 lines) [
        | inl (miss, new) ↦
            let absent : age_in tag q ≡ none = sym (h.same tag) ∙ new in
            rw (contains_absent tag q absent)
              (access_set_miss tag now rng h later some_way miss new)
        | inr w ↦
            let there : age_in tag q ≡ some w.line.age = sym (h.same tag) ∙ w.fits.2 in
            rw (contains_there tag w.line.age q there) (
              lines,
              rw (access_set, w.is, refresh, fifo) refl,
              Tracks-mono h (omega (arith, later)),
            )
      ]

-- `access_set` does to the set what `step` does to the list of its tags.
abbrev pub Follows :
    {D R : Type 0} (draw : R → ℕ → ℕ × R) (opt : Options D) → (ℕ → ℕ → List ℕ → List ℕ) → Type 0
Follows {R = R} draw opt step =
    (bound : ℕ) (lines : List Line) (q : Entries) (tag now : ℕ) (rng : R)
    → Tracks opt.ways bound lines q
    → bound ≤ now
    → 0 < opt.ways
    → (q' : Entries) × Accessed draw opt tag (contains tag (tags q)) now lines rng q'
      × (tags q' ≡ step opt.ways tag (tags q))

pub lru-Follows :
    {D R : Type 0} (draw : R → ℕ → ℕ × R) (opt : Options D)
    → same_text opt.repl (codes "random") ≡ false
    → same_text opt.repl (codes "lru") ≡ true
    → Follows draw opt lru_step
lru-Follows draw opt ordered lru bound lines q tag now rng h later some_way = (
  take opt.ways ((tag, now) ∷ remove_entry tag q),
  access_set_lru draw opt ordered tag now rng lru h later some_way,
  tags-take opt.ways ((tag, now) ∷ remove_entry tag q)
      ∙ ap (λ (ts : List ℕ). take opt.ways (tag ∷ ts)) (tags-remove_entry tag q),
)

pub fifo-Follows :
    {D R : Type 0} (draw : R → ℕ → ℕ × R) (opt : Options D)
    → same_text opt.repl (codes "random") ≡ false
    → same_text opt.repl (codes "lru") ≡ false
    → Follows draw opt fifo_step
fifo-Follows draw opt ordered fifo bound lines q tag now rng h later some_way = (
  if contains tag (tags q) then q else take opt.ways ((tag, now) ∷ q),
  access_set_fifo draw opt ordered tag now rng fifo h later some_way,
  tags-if (contains tag (tags q)) q (take opt.ways ((tag, now) ∷ q))
      ∙ ap (λ (ts : List ℕ). if contains tag (tags q) then tags q else ts)
          (tags-take opt.ways ((tag, now) ∷ q)),
)
  where
    tags-if :
        (b : Bool) (x y : Entries) → tags (if b then x else y) ≡ (if b then tags x else tags y)
    tags-if true x y = refl
    tags-if false x y = refl
