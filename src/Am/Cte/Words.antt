-- ===== src/Am/Cte/Words.antt =====
-- The words of a context, and the registers that POP reads from it.
use ysyxworkbench.Prelude.{
  ℕ, zero, suc, ◌+◌, ◌≤◌, ◌<◌, ◌≡◌, ◌⊎◌, refl, ap, inl, inr, true, false, ◌==◌, arith, Bool-cases,
  ==_iff, sym, ◌∙◌,
}
use ysyxworkbench.Am.Cte.{is_saved, word_at, store_word, push_regs, pop_regs, clear_words}

word_at-apart : (base m n : ℕ) → m < 64 → n < 64 → word_at base m ≡ word_at base n → m ≡ n
word_at-apart base m n p q e = omega arith

-- A word is read back, and a write leaves the other words.
pub store_word_same :
    (base n v : ℕ) (words : ℕ → ℕ) → store_word (word_at base n) v words (word_at base n) ≡ v
unfolding store_word
store_word_same base n v words = ground arith

pub store_word_other :
    (base m n v : ℕ) (words : ℕ → ℕ)
    → m < 64
    → n < 64
    → (m == n) ≡ false
    → store_word (word_at base n) v words (word_at base m) ≡ words (word_at base m)
unfolding store_word
store_word_other base m n v words p q d = ground (arith, word_at-apart base n m q p)

push_regs_above :
    (k m sp : ℕ) (gpr words : ℕ → ℕ)
    → k ≤ m
    → m < 64
    → push_regs k gpr sp words (word_at sp m) ≡ words (word_at sp m)
unfolding push_regs
push_regs_above zero m sp gpr words h small = refl
push_regs_above (suc k) m sp gpr words h small = ground (
  arith,
  push_regs_above k m sp gpr words (omega arith) small,
  store_word_other sp m k (gpr k) (push_regs k gpr sp words) small (omega arith) (ground arith),
)

pub push_regs_saved :
    (k m sp : ℕ) (gpr words : ℕ → ℕ)
    → m < k
    → k < 64
    → is_saved m ≡ true
    → push_regs k gpr sp words (word_at sp m) ≡ gpr m
unfolding push_regs
push_regs_saved zero m sp gpr words h small saved = ground arith
push_regs_saved (suc k) m sp gpr words h small saved = elim (Bool-cases (m == k)) [
  | inl same ↦
      let e = (==_iff m k).0 same in
      rw e
        (rw (ap is_saved (sym e) ∙ saved) (store_word_same sp k (gpr k) (push_regs k gpr sp words)))
  | inr other ↦ ground (
    arith,
    push_regs_saved k m sp gpr words (ground arith) (omega arith) saved,
    store_word_other sp m k (gpr k) (push_regs k gpr sp words) (omega arith) (omega arith) other,
  )
]

-- The registers that POP leaves alone, and those that it reads.
pub pop_regs_other :
    (k m sp : ℕ) (words gpr : ℕ → ℕ)
    → (k ≤ m) ⊎ (is_saved m ≡ false)
    → pop_regs k words sp gpr m ≡ gpr m
unfolding pop_regs
pop_regs_other zero m sp words gpr h = refl
pop_regs_other (suc k) m sp words gpr (inl above) =
    ground (arith, pop_regs_other k m sp words gpr (inl (omega arith)))
pop_regs_other (suc k) m sp words gpr (inr kept) = elim (Bool-cases (k == m)) [
  | inl same ↦
      rw (ap is_saved ((==_iff k m).0 same) ∙ kept) (pop_regs_other k m sp words gpr (inr kept))
  | inr other ↦ ground (arith, pop_regs_other k m sp words gpr (inr kept))
]

pub pop_regs_saved :
    (k m sp : ℕ) (words gpr : ℕ → ℕ)
    → m < k
    → is_saved m ≡ true
    → pop_regs k words sp gpr m ≡ words (word_at sp m)
unfolding pop_regs
pop_regs_saved zero m sp words gpr h saved = ground arith
pop_regs_saved (suc k) m sp words gpr h saved = elim (Bool-cases (k == m)) [
  | inl same ↦
      rw (ap is_saved ((==_iff k m).0 same) ∙ saved)
        (rw same (ap (λ (i : ℕ). words (word_at sp i)) ((==_iff k m).0 same)))
  | inr other ↦ ground (arith, pop_regs_saved k m sp words gpr (ground arith) saved)
]

pub clear_words_zero : (k m c : ℕ) (words : ℕ → ℕ) → m < k → clear_words k c words (word_at c m) ≡ 0
unfolding clear_words store_word
clear_words_zero zero m c words h = ground arith
clear_words_zero (suc k) m c words h = elim (Bool-cases (k == m)) [
  | inl same ↦ ground arith
  | inr other ↦ ground (arith, clear_words_zero k m c words (ground arith))
]

pub saved_ne : (n : ℕ) → is_saved n ≡ true → (2 == n) ≡ false
saved_ne n h = ground arith

-- The three words behind `n` registers.
abbrev pub with_csrs : ℕ → ℕ → ℕ → ℕ → ℕ → (ℕ → ℕ) → ℕ → ℕ
with_csrs sp n cause status epc words =
    store_word (word_at sp (n + 2)) epc
      (store_word (word_at sp (n + 1)) status (store_word (word_at sp n) cause words))

pub with_csrs-read :
    (sp n cause status epc : ℕ) (words : ℕ → ℕ)
    → n < 60
    → let words' = with_csrs sp n cause status epc words in
      (words' (word_at sp n) ≡ cause)
      × (words' (word_at sp (n + 1)) ≡ status)
      × (words' (word_at sp (n + 2)) ≡ epc)
unfolding store_word
with_csrs-read sp n cause status epc words small = ground arith

pub with_csrs-below :
    (sp n m cause status epc : ℕ) (words : ℕ → ℕ)
    → n < 60
    → m < n
    → with_csrs sp n cause status epc words (word_at sp m) ≡ words (word_at sp m)
unfolding store_word
with_csrs-below sp n m cause status epc words small below = ground arith
