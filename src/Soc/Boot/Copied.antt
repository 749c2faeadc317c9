-- ===== src/Soc/Boot/Copied.antt =====
-- What the copy loops of abstract-machine/am/src/riscv/ysyxsoc/trm.c leave in the memory.
use ysyxworkbench.Prelude.{
  ℕ, zero, suc, ◌+◌, ◌-◌, ◌^◌, ◌≤◌, ◌<◌, ◌≡◌, refl, sym, ap, ◌∙◌, true, ◌&&◌, ◌⊎◌, inl, inr,
  Bool-cases, if_cases, ltb, ltb→lt, leb, ◌==◌, u32, bit_and, bit_or, arith,
}
use mathlib.Core.Path.{subst}
use ysyxworkbench.Memory.{store}
use ysyxworkbench.Klib.Copy.{moved}
use ysyxworkbench.Soc.Boot.{copy_word, copy_words, copy_rest, fsbl_copy_image, copy_data}

-- The destination is the lower block, or the blocks do not overlap.
unfoldable pub Forward : ℕ → ℕ → ℕ → Type 0
Forward dst src end = (dst ≤ src) ⊎ (end ≤ dst)

byte_step :
    (dst src n : ℕ) (mem : ℕ → ℕ) (a : ℕ)
    → Forward dst src (src + suc n)
    → moved (dst + 1) (src + 1) n (store mem dst (mem src)) a ≡ moved dst src (suc n) mem a
unfolding moved Forward
byte_step dst src n mem a (inl h) = grind arith
byte_step dst src n mem a (inr h) = grind arith

copy_word_outside :
    (dst src : ℕ) (mem : ℕ → ℕ) (b : ℕ)
    → (b < dst) ⊎ (dst + 4 ≤ b)
    → copy_word dst src mem b ≡ mem b
unfolding copy_word
copy_word_outside dst src mem b (inl h) = ground arith
copy_word_outside dst src mem b (inr h) = ground arith

copy_word_inside :
    (dst src : ℕ) (mem : ℕ → ℕ) (b : ℕ)
    → dst ≤ b
    → b < dst + 4
    → copy_word dst src mem b ≡ mem (src + (b - dst))
unfolding copy_word
copy_word_inside dst src mem b above below = grind arith

-- The bytes that a round has yet to read are not the ones that it has written.
unread :
    (dst src n a : ℕ)
    → a < dst + 4 + n
    → dst + 4 ≤ a
    → Forward dst src (src + (n + 4))
    → (src + 4 + (a - (dst + 4)) < dst) ⊎ (dst + 4 ≤ src + 4 + (a - (dst + 4)))
unfolding Forward
unread dst src n a below above (inl h) = inr (omega arith)
unread dst src n a below above (inr h) = inl (omega arith)

Forward-step : (k dst src end : ℕ) → Forward dst src end → Forward (dst + k) (src + k) end
unfolding Forward
Forward-step k dst src end (inl h) = inl (omega arith)
Forward-step k dst src end (inr h) = inr (omega arith)

word_step :
    (dst src n : ℕ) (mem : ℕ → ℕ) (a : ℕ)
    → Forward dst src (src + (n + 4))
    → moved (dst + 4) (src + 4) n (copy_word dst src mem) a ≡ moved dst src (n + 4) mem a
unfolding moved Forward
word_step dst src n mem a forward = elim (Bool-cases (ltb a dst)) [
  | inl low ↦
      let same = copy_word_outside dst src mem a (inl (ground arith)) in ground (arith, same)
  | inr high ↦ elim (Bool-cases (ltb a (dst + 4))) [
    | inl inside ↦
        let here = copy_word_inside dst src mem a (ground arith) (ground arith) in
        ground (arith, here)
    | inr beyond ↦
        let own = copy_word_outside dst src mem a (inr (ground arith)) in
        elim (Bool-cases (ltb a (dst + 4 + n))) [
          | inl behind ↦
              let read = copy_word_outside dst src mem (src + 4 + (a - (dst + 4))) (
                unread dst src n a (omega (arith, ltb→lt a (dst + 4 + n) behind)) (ground arith)
                  forward) in
              ground (arith, read)
          | inr outside ↦ ground (arith, own)
        ]
  ]
]

copy_rest-moved :
    (n dst src end : ℕ) (mem : ℕ → ℕ) (a : ℕ)
    → end ≡ src + n
    → Forward dst src end
    → copy_rest n dst src end mem a ≡ moved dst src n mem a
unfolding copy_rest moved Forward
copy_rest-moved zero dst src end mem a e forward = grind arith
copy_rest-moved (suc n) dst src end mem a e forward =
    let goes : ltb src end ≡ true = ground arith in
    rw goes (
      copy_rest-moved n (dst + 1) (src + 1) end (store mem dst (mem src)) a (omega arith)
        (Forward-step 1 dst src end forward)
      ∙ byte_step dst src n mem a (subst (Forward dst src) e forward))

-- What is left to copy between the pointers gives the memory that was wanted at the start.
IsHalfway : ℕ → (ℕ → ℕ) → ℕ × ℕ × (ℕ → ℕ) → Type 0
IsHalfway end wanted (dst, src, mem) =
    (src ≤ end) × Forward dst src end × ((a : ℕ) → moved dst src (end - src) mem a ≡ wanted a)

IsHalfway-step :
    (dst src end : ℕ) (mem wanted : ℕ → ℕ)
    → src + 4 ≤ end
    → IsHalfway end wanted (dst, src, mem)
    → IsHalfway end wanted (dst + 4, src + 4, copy_word dst src mem)
unfolding IsHalfway
IsHalfway-step dst src end mem wanted room (ordered, forward, same) =
    let left : end ≡ src + (end - (src + 4) + 4) = omega arith in
    let count : end - src ≡ end - (src + 4) + 4 = omega arith in
    (
      room,
      Forward-step 4 dst src end forward,
      λ a.
          word_step dst src (end - (src + 4)) mem a (subst (Forward dst src) left forward)
          ∙ ap (λ n. moved dst src n mem a) (sym count)
          ∙ same a,
    )

copy_words-IsHalfway :
    (fuel dst src end : ℕ) (mem wanted : ℕ → ℕ)
    → end + 4 < 2 ^ 32
    → IsHalfway end wanted (dst, src, mem)
    → IsHalfway end wanted (copy_words fuel dst src end mem)
unfolding copy_words IsHalfway
copy_words-IsHalfway zero dst src end mem wanted fits half = half
copy_words-IsHalfway (suc fuel) dst src end mem wanted fits half =
    if_cases (IsHalfway end wanted)
      (bit_and (bit_or (bit_or dst src) end) 3 == 0 && leb (u32 (src + 4)) end)
      (copy_words fuel (dst + 4) (src + 4) end (copy_word dst src mem)) (dst, src, mem)
      (λ goes.
        copy_words-IsHalfway fuel (dst + 4) (src + 4) end (copy_word dst src mem) wanted fits (
          IsHalfway-step dst src end mem wanted (let ordered = half.0 in ground (arith, ordered))
            half))
      (λ stops. half)

-- `fsbl_copy_image` puts the block from `src` to `end` at `dst` and changes no other byte, whether
-- the pointers are aligned or not, when the blocks do not overlap or the destination is the lower one
-- and the end is more than four bytes below 2^32.
pub fsbl_copy_image-moved :
    (dst src end : ℕ) (mem : ℕ → ℕ) (a : ℕ)
    → src ≤ end
    → end + 4 < 2 ^ 32
    → Forward dst src end
    → fsbl_copy_image dst src end mem a ≡ moved dst src (end - src) mem a
unfolding fsbl_copy_image IsHalfway
fsbl_copy_image-moved dst src end mem a ordered fits forward =
    let (ordered', forward', same) =
      copy_words-IsHalfway (end - src) dst src end mem (moved dst src (end - src) mem) fits
        (ordered, forward, λ b. refl) in
    copy_rest-moved _ _ _ end _ a (omega (arith, ordered')) forward' ∙ same a

-- `copy_data` gives what `fsbl_copy_image` gives, for as many bytes as the destination has.
copy_data-moved :
    (n src dst end : ℕ) (mem : ℕ → ℕ) (a : ℕ)
    → end ≡ dst + n
    → Forward dst src (src + n)
    → copy_data n src dst end mem a ≡ moved dst src n mem a
unfolding copy_data moved
copy_data-moved zero src dst end mem a e forward = grind arith
copy_data-moved (suc n) src dst end mem a e forward =
    let goes : ltb dst end ≡ true = ground arith in
    let left : src + suc n ≡ src + 1 + n = omega arith in
    rw goes (
      copy_data-moved n (src + 1) (dst + 1) end (store mem dst (mem src)) a (omega arith)
        (subst (Forward (dst + 1) (src + 1)) left (Forward-step 1 dst src (src + suc n) forward))
      ∙ byte_step dst src n mem a forward)
