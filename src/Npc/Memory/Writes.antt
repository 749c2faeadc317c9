-- ===== src/Npc/Memory/Writes.antt =====
-- Masked writes to the sram of npc/csrc/main.cpp, and the fault of `mrom_read`.
use ysyxworkbench.Prelude.{
  ℕ, zero, suc, ◌+◌, ◌-◌, ◌/◌, ◌%◌, ◌^◌, ◌<◌, ◌≡◌, refl, ap, ◌∙◌, Bool, true, false, ◌&&◌, fault,
  undefined, leb, ltb, ◌==◌, if◌then◌else◌, u32, arith, Bool-cases, inl, inr,
}
use native.Mathlib.Decide.{ℕ_discrete}
use ysyxworkbench.Memory.{store, byte_of}
use ysyxworkbench.Npc.Memory.{
  Arrays, sram_base, mrom_base, mrom_size, word, in_sram, write_masked, pmem_read, pmem_write,
  mrom_read,
}

-- The byte of the mask.
abbrev pub masked : ℕ → ℕ → Bool
masked wmask i = wmask / 2 ^ i % 2 == 1

-- Byte `j` of the word after the write: the written one where the mask has bit `j`.
abbrev pub merged : (ℕ → ℕ) → ℕ → ℕ → ℕ → ℕ → ℕ
merged sram offset wdata wmask j = if masked wmask j then byte_of wdata j else sram (offset + j)

abbrev pub in_run : ℕ → ℕ → ℕ → ℕ → Bool
in_run left i offset at = leb (offset + i) at && ltb at (offset + i + left)

-- One round of the loop.
abbrev round : (ℕ → ℕ) → ℕ → ℕ → ℕ → ℕ → ℕ → ℕ
round sram offset wdata wmask i =
    if masked wmask i then store sram (offset + i) (byte_of wdata i) else sram

round-store :
    (sram : ℕ → ℕ) (offset wdata wmask i at : ℕ)
    → round sram offset wdata wmask i at
      ≡ (if at == offset + i then merged sram offset wdata wmask i else sram at)
round-store sram offset wdata wmask i at = elim (Bool-cases (masked wmask i)) [
  | inl on ↦ rw on (ground arith)
  | inr off ↦
      rw off
        (elim (ℕ_discrete at (offset + i)) [ yes e ↦ rw e (ground arith) | no ne ↦ ground arith ])
]

-- A run of bytes, of which `r` has the first one.
run_step :
    (r sram : ℕ → ℕ) (on : ℕ → Bool) (b : ℕ → ℕ) (left i offset at : ℕ)
    → ((x : ℕ)
        → r x ≡ (if x == offset + i then (if on i then b i else sram (offset + i)) else sram x))
    → (if in_run left (suc i) offset at
        then (if on (at - offset) then b (at - offset) else r (offset + (at - offset)))
        else r at)
      ≡ (if in_run (suc left) i offset at
          then (if on (at - offset) then b (at - offset) else sram (offset + (at - offset)))
          else sram at)
run_step r sram on b left i offset at h = elim (ℕ_discrete at (offset + i)) [
  | yes e ↦
      let e' : at - offset ≡ i = omega arith in
      let past : in_run left (suc i) offset at ≡ false = ground arith in
      let is_in : in_run (suc left) i offset at ≡ true = ground arith in
      let first : (at == offset + i) ≡ true = ground arith in rw (past, is_in, e', h at, first) refl
  | no ne ↦ elim (Bool-cases (in_run left (suc i) offset at)) [
    | inl is_in ↦
        let is_in' : in_run (suc left) i offset at ≡ true = ground arith in
        let e' : offset + (at - offset) ≡ at = ground arith in
        let other : (at == offset + i) ≡ false = ground arith in
        rw (is_in, is_in', e', h at, other) refl
    | inr out ↦
        let out' : in_run (suc left) i offset at ≡ false = ground arith in
        let other : (at == offset + i) ≡ false = ground arith in rw (out, out', h at, other) refl
  ]
]

write_masked-merged :
    (left i : ℕ) (sram : ℕ → ℕ) (offset wdata wmask at : ℕ)
    → write_masked left i sram offset wdata wmask at
      ≡ (if in_run left i offset at then merged sram offset wdata wmask (at - offset) else sram at)
unfolding write_masked
write_masked-merged zero i sram offset wdata wmask at = ground arith
write_masked-merged (suc left) i sram offset wdata wmask at =
    write_masked-merged left (suc i) (round sram offset wdata wmask i) offset wdata wmask at
    ∙ run_step (round sram offset wdata wmask i) sram (masked wmask) (byte_of wdata) left i offset
        at (round-store sram offset wdata wmask i)

written_byte :
    (sram : ℕ → ℕ) (offset wdata wmask j at : ℕ)
    → j < 4
    → at ≡ offset + j
    → write_masked 4 0 sram offset wdata wmask at ≡ merged sram offset wdata wmask j
written_byte sram offset wdata wmask j at small place =
    let is_in : in_run 4 0 offset at ≡ true = ground arith in
    let e : at - offset ≡ j = omega arith in
    write_masked-merged 4 0 sram offset wdata wmask at ∙ rw (is_in, e) refl

word_of_bytes :
    (f g : ℕ → ℕ) (at : ℕ)
    → ((j : ℕ) (i : ℕ) → j < 4 → i ≡ at + j → f i ≡ g j)
    → word f at ≡ word g 0
word_of_bytes f g at h = omega (
  arith,
  h 0 at (omega arith) (omega arith),
  h 1 (at + 1) (omega arith) refl,
  h 2 (at + 2) (omega arith) refl,
  h 3 (at + 3) (omega arith) refl,
)

-- A read of a word in the sram after a masked write of the same word: each byte is the written one
-- where the mask has its bit, and the old one elsewhere. Nothing else of the arrays changes.
pub pmem_read-pmem_write :
    (addr wdata wmask : ℕ) (m : Arrays)
    → in_sram (u32 addr) ≡ true
    → (m' : Arrays) × (pmem_write addr wdata wmask m ≡ m')
      × (pmem_read addr m' ≡ (word (merged m.sram (u32 addr - sram_base) wdata wmask) 0, m'))
      × ((at : ℕ) → in_run 4 0 (u32 addr - sram_base) at ≡ false → m'.sram at ≡ m.sram at)
      × (record m' { sram = m.sram } ≡ m)
unfolding pmem_write pmem_read
pmem_read-pmem_write addr wdata wmask m inside =
    let offset = u32 addr - sram_base in
    let read : ℕ → ℕ × Arrays =
      λ v. (v, record m { sram = write_masked 4 0 m.sram offset wdata wmask }) in
    (
      record m { sram = write_masked 4 0 m.sram offset wdata wmask },
      rw inside refl,
      (let same =
            word_of_bytes (write_masked 4 0 m.sram offset wdata wmask)
              (merged m.sram offset wdata wmask) offset
              (λ j i small place. written_byte m.sram offset wdata wmask j i small place) in
          rw inside (ap (λ (v : ℕ). read v) same)),
      λ at out. write_masked-merged 4 0 m.sram offset wdata wmask at ∙ rw out refl,
      refl,
    )

-- A word that starts in the last three bytes of the mrom passes the test of `mrom_read`, and the read
-- runs beyond the array.
mrom_read_straddling :
    (offset : ℕ) (m : Arrays)
    → mrom_size < offset + 4
    → offset < mrom_size
    → mrom_read (mrom_base + offset) m ≡ fault undefined
unfolding mrom_read
mrom_read_straddling offset m beyond inside = ground arith
