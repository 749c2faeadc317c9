-- ===== src/Npc/Memory/Image.antt =====
-- What stands in the mrom and the flash of npc/csrc/main.cpp after `init_flash` and `load_img`.
use native.Mathlib.Decide.{ℕ_discrete}
use ysyxworkbench.Prelude.{
  ℕ, zero, suc, ◌+◌, ◌-◌, ◌≤◌, ◌<◌, ◌≡◌, refl, ap, ◌∙◌, Bool, true, false, not, ◌&&◌, some, Result,
  ok, fault, assertion, List, [], ◌∷◌, length, get_or, leb, ltb, ◌==◌, if◌then◌else◌, u32, arith,
  Bool-cases, inl, inr,
}
use ysyxworkbench.Memory.{store, byte_of}
use ysyxworkbench.Npc.Memory.{
  Arrays, mrom_base, mrom_size, flash_base, flash_size, word, put_word, npc_reset_pc, mrom_read,
  flash_read, copy_bytes, load_img,
}

abbrev pub inside : ℕ → ℕ → ℕ → Bool
inside at n i = leb at i && ltb i (at + n)

copy_step :
    (b : ℕ) (bytes : List ℕ) (at : ℕ) (array : ℕ → ℕ) (i : ℕ)
    → (if inside (suc at) (length bytes) i then get_or bytes (i - suc at) 0 else store array at b i)
      ≡ (if inside at (suc (length bytes)) i then get_or (b ∷ bytes) (i - at) 0 else array i)
copy_step b bytes at array i = elim (ℕ_discrete i at) [
  | yes e ↦
      let past : inside (suc at) (length bytes) i ≡ false = ground arith in
      let is_in : inside at (suc (length bytes)) i ≡ true = ground arith in
      let e' : i - at ≡ 0 = omega arith in
      let here : (at == i) ≡ true = ground arith in rw (past, is_in, e', here) refl
  | no ne ↦ elim (Bool-cases (inside (suc at) (length bytes) i)) [
    | inl is_in ↦
        let is_in' : inside at (suc (length bytes)) i ≡ true = ground arith in
        let e' : i - at ≡ suc (i - suc at) = ground arith in rw (is_in, is_in', e') refl
    | inr out ↦
        let out' : inside at (suc (length bytes)) i ≡ false = ground arith in
        let other : (at == i) ≡ false = ground arith in rw (out, out', other) refl
  ]
]

put_word_byte :
    (array : ℕ → ℕ) (at v k i : ℕ) → k < 4 → i ≡ at + k → put_word array at v i ≡ byte_of v k
put_word_byte array at v zero i small e = ground arith
put_word_byte array at v (suc zero) i small e = ground arith
put_word_byte array at v (suc (suc zero)) i small e = ground arith
put_word_byte array at v (suc (suc (suc zero))) i small e = ground arith
put_word_byte array at v (suc (suc (suc (suc k)))) i small e = absurd (omega arith)

pub put_word_at :
    (array : ℕ → ℕ) (at v i : ℕ)
    → put_word array at v i ≡ (if inside at 4 i then byte_of v (i - at) else array i)
put_word_at array at v i = elim (Bool-cases (inside at 4 i)) [
  | inl is_in ↦ rw is_in (put_word_byte array at v (i - at) i (ground arith) (ground arith))
  | inr out ↦ rw out (ground arith)
]

copy_bytes_at :
    (bytes : List ℕ) (at : ℕ) (array : ℕ → ℕ) (i : ℕ)
    → copy_bytes bytes at array i
      ≡ (if inside at (length bytes) i then get_or bytes (i - at) 0 else array i)
unfolding copy_bytes
copy_bytes_at [] at array i = ground arith
copy_bytes_at (b ∷ bytes) at array i =
    copy_bytes_at bytes (suc at) (store array at b) i ∙ copy_step b bytes at array i

-- Byte `i` of the image.
abbrev pub image_at : List ℕ → ℕ → ℕ
image_at image i = get_or image i 0

word_of_image :
    (array : ℕ → ℕ) (image : List ℕ) (offset : ℕ)
    → offset + 4 ≤ length image
    → word (copy_bytes image 0 array) offset ≡ word (image_at image) offset
word_of_image array image offset within = omega (
  arith,
  byte offset (omega arith),
  byte (offset + 1) (omega arith),
  byte (offset + 2) (omega arith),
  byte (offset + 3) (omega arith),
)
  where
    byte : (i : ℕ) → i < length image → copy_bytes image 0 array i ≡ image_at image i
    byte i h = copy_bytes_at image 0 array i ∙ ground arith

mrom_read-word :
    (offset : ℕ) (m : Arrays)
    → offset + 4 ≤ mrom_size
    → mrom_read (mrom_base + offset) m ≡ ok (word m.mrom offset)
unfolding mrom_read
mrom_read-word offset m within =
    let e : u32 (mrom_base + offset) ≡ mrom_base + offset = omega arith in
    let e' : mrom_base + offset - mrom_base ≡ offset = omega arith in
    let lo : leb mrom_base (mrom_base + offset) ≡ true = ground arith in
    let hi : ltb (mrom_base + offset) (mrom_base + mrom_size) ≡ true = ground arith in
    let all : leb (offset + 4) mrom_size ≡ true = ground arith in rw (e, lo, hi, e', all) refl

pub flash_read-word :
    (offset : ℕ) (m : Arrays) → offset + 4 ≤ flash_size → flash_read offset m ≡ word m.flash offset
unfolding flash_read
flash_read-word offset m within =
    let e : u32 offset ≡ offset = omega arith in
    let all : leb (offset + 4) flash_size ≡ true = ground arith in rw (e, all) refl

-- Without `--flash-boot`, an image of at least one byte that fits the mrom is accepted, and then a word
-- that lies in the image is read at its offset from `npc_reset_pc`, where the processor starts.
pub mrom_read-load_img :
    (image : List ℕ) (m : Arrays)
    → m.flash_boot ≡ false
    → 0 < length image
    → length image ≤ mrom_size
    → (m' : Arrays) × (load_img (some image) m ≡ ok m')
      × ((offset : ℕ)
          → offset + 4 ≤ length image
          → mrom_read (npc_reset_pc m' + offset) m' ≡ ok (word (image_at image) offset))
unfolding load_img npc_reset_pc
mrom_read-load_img image m from_mrom some_byte fits =
    let read : ℕ → Result ℕ = λ v. ok v in
    (
      record m { mrom = copy_bytes image 0 m.mrom; img_size_loaded = length image },
      ground arith,
      λ offset within.
          let m' : Arrays = record m {
            mrom = copy_bytes image 0 m.mrom;
            img_size_loaded = length image;
          } in
          let start : npc_reset_pc m' ≡ mrom_base = ground arith in
          ap (λ (a : ℕ). mrom_read (a + offset) m') start
          ∙ mrom_read-word offset m' (omega arith)
          ∙ ap (λ (v : ℕ). read v) (word_of_image m.mrom image offset within),
    )

-- The same for the flash with `--flash-boot`, where `flash_read` takes the offset.
flash_read-load_img :
    (image : List ℕ) (m : Arrays)
    → m.flash_boot ≡ true
    → 0 < length image
    → length image ≤ flash_size
    → (m' : Arrays) × (load_img (some image) m ≡ ok m')
      × (npc_reset_pc m' ≡ flash_base)
      × ((offset : ℕ)
          → offset + 4 ≤ length image
          → flash_read offset m' ≡ word (image_at image) offset)
unfolding load_img npc_reset_pc
flash_read-load_img image m from_flash some_byte fits = (
  record m { flash = copy_bytes image 0 m.flash; img_size_loaded = length image },
  ground arith,
  ground arith,
  λ offset within.
      flash_read-word offset
        (record m { flash = copy_bytes image 0 m.flash; img_size_loaded = length image })
        (omega arith)
      ∙ word_of_image m.flash image offset within,
)

-- An image of no bytes, or one larger than the medium, fails an assertion.
load_img_refused :
    (image : List ℕ) (m : Arrays)
    → (not (length image == 0)
        && leb (length image) (if m.flash_boot then flash_size else mrom_size))
      ≡ false
    → load_img (some image) m ≡ fault assertion
unfolding load_img
load_img_refused image m h = ground arith
