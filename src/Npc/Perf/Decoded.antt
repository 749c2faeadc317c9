-- ===== src/Npc/Perf/Decoded.antt =====
-- The sum of the categories of npc/csrc/main.cpp is the number of commits.
use ysyxworkbench.Prelude.{
  ℕ, suc, ◌+◌, ◌^◌, ◌≤◌, ◌<◌, ◌≡◌, ◌∙◌, not, ◌||◌, List, [], ◌∷◌, if◌then◌else◌, length, u64, slt32,
  arith,
}
use ysyxworkbench.Memory.{store}
use ysyxworkbench.Npc.Perf.{
  Events, perf_cat_nr, perf_cat_other, no_events, npc_perf_commit, decoded_insts,
}

-- The commits of a run: the category and the cycles of each.
unfoldable commit_all : List (ℕ × ℕ) → Events → Events
commit_all [] e = e
commit_all ((category, cycles) ∷ commits) e = commit_all commits (npc_perf_commit category cycles e)

-- The sum of the eight categories, without the wrap.
abbrev total : (ℕ → ℕ) → ℕ
total f = f 0 + f 1 + f 2 + f 3 + f 4 + f 5 + f 6 + f 7

decoded_insts-total :
    (e : Events) → total e.cat_count < 2 ^ 64 → decoded_insts e ≡ total e.cat_count
unfolding decoded_insts
decoded_insts-total e small = omega arith

abbrev category_of : ℕ → ℕ
category_of category =
    if slt32 category 0 || not (slt32 category perf_cat_nr) then perf_cat_other else category

category_of-lt : (category : ℕ) → category < 2 ^ 32 → category_of category < 8
category_of-lt category h = ground arith

total-store : (f : ℕ → ℕ) (c v : ℕ) → c < 8 → total (store f c v) + f c ≡ total f + v
total-store f c v h = ground arith

below-total : (f : ℕ → ℕ) (c : ℕ) → c < 8 → f c ≤ total f
below-total f c h = ground arith

npc_perf_commit-total :
    (category cycles : ℕ) (e : Events)
    → category < 2 ^ 32
    → suc (total e.cat_count) < 2 ^ 64
    → total (npc_perf_commit category cycles e).cat_count ≡ suc (total e.cat_count)
unfolding npc_perf_commit
npc_perf_commit-total category cycles e fits small =
    let c = category_of category in
    let s = total-store e.cat_count c (u64 (e.cat_count c + 1)) (category_of-lt category fits) in
    let below = below-total e.cat_count c (category_of-lt category fits) in omega (arith, s, below)

-- Each category is a word of the DPI call.
unfoldable pub Words : List (ℕ × ℕ) → Type 0
Words [] = Unit
Words ((category, cycles) ∷ commits) = (category < 2 ^ 32) × Words commits

commit_all-total :
    (commits : List (ℕ × ℕ)) (e : Events)
    → Words commits
    → total e.cat_count + length commits < 2 ^ 64
    → total (commit_all commits e).cat_count ≡ total e.cat_count + length commits
unfolding commit_all Words
commit_all-total [] e fits small = omega arith
commit_all-total ((category, cycles) ∷ commits) e (fit, fits) small =
    let step = npc_perf_commit-total category cycles e fit (omega arith) in
    let rest =
      commit_all-total commits (npc_perf_commit category cycles e) fits (omega (arith, step)) in
    omega (arith, step, rest)

-- The sum of the categories that `print_perf_stats` compares with the instructions is the number of
-- calls of `npc_perf_commit` since the counters were cleared, whatever the categories, each a word of
-- 32 bits. There are fewer than 2^64 calls.
decoded_insts-commit_all :
    (commits : List (ℕ × ℕ))
    → Words commits
    → length commits < 2 ^ 64
    → decoded_insts (commit_all commits no_events) ≡ length commits
decoded_insts-commit_all commits fits small =
    let t = commit_all-total commits no_events fits (omega arith) in
    decoded_insts-total (commit_all commits no_events) (omega (arith, t)) ∙ omega (arith, t)
