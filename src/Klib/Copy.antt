-- ===== src/Klib/Copy.antt =====
-- What the functions of String.antt that copy and compare blocks do.
use ysyxworkbench.Prelude.{
  ℕ, zero, suc, ◌+◌, ◌-◌, ◌≤◌, ◌≡◌, ◌∙◌, ◌&&◌, ◌⊎◌, inl, inr, Bool-cases, arith, ltb, leb,
  if◌then◌else◌, u8,
}
use ysyxworkbench.Klib.String.{Bytes, set_byte, memset, copy_up, copy_down, memmove, memcpy}

-- The memory after the `n` bytes at `src`, as they are in `m`, have been put at `dst`.
unfoldable pub moved : ℕ → ℕ → ℕ → Bytes → Bytes
moved dst src n m a = if leb dst a && ltb a (dst + n) then m (src + (a - dst)) else m a

pub up_step :
    (d s n : ℕ) (m : Bytes) (a : ℕ)
    → (d ≤ s) ⊎ (s + suc n ≤ d)
    → moved (suc d) (suc s) n (set_byte m d (m s)) a ≡ moved d s (suc n) m a
unfolding moved
up_step d s n m a (inl h) = grind arith
up_step d s n m a (inr h) = grind arith

down_step :
    (d s n : ℕ) (m : Bytes) (a : ℕ)
    → s ≤ d
    → moved d s n (set_byte m (d + n) (m (s + n))) a ≡ moved d s (suc n) m a
unfolding moved
down_step d s n m a h = grind arith

copy_up-moved :
    (d s n : ℕ) (m : Bytes) (a : ℕ) → (d ≤ s) ⊎ (s + n ≤ d) → copy_up d s n m a ≡ moved d s n m a
unfolding copy_up moved
copy_up-moved d s zero m a apart = ground arith
copy_up-moved d s (suc n) m a apart =
    copy_up-moved (suc d) (suc s) n (set_byte m d (m s)) a (ground (arith, apart))
    ∙ up_step d s n m a apart

copy_down-moved : (d s n : ℕ) (m : Bytes) (a : ℕ) → s ≤ d → copy_down d s n m a ≡ moved d s n m a
unfolding copy_down moved
copy_down-moved d s zero m a h = ground arith
copy_down-moved d s (suc n) m a h =
    copy_down-moved d s n (set_byte m (d + n) (m (s + n))) a h ∙ down_step d s n m a h

-- `memmove` puts the source block at the destination, whichever way the two blocks overlap, and
-- changes no other byte.
pub memmove-moved :
    (dst src n : ℕ) (m : Bytes) (a : ℕ) → memmove dst src n m a ≡ moved dst src n m a
unfolding memmove
memmove-moved dst src n m a = elim (Bool-cases (ltb dst src)) [
  | inl below ↦ rw below (copy_up-moved dst src n m a (inl (ground arith)))
  | inr above ↦ rw above (copy_down-moved dst src n m a (ground arith))
]

-- When the blocks do not overlap or the destination is the lower one, `memcpy` puts the source
-- block at the destination and changes no other byte.
memcpy-moved :
    (out src n : ℕ) (m : Bytes) (a : ℕ)
    → (out ≤ src) ⊎ (src + n ≤ out)
    → memcpy out src n m a ≡ moved out src n m a
unfolding memcpy
memcpy-moved out src n m a apart = copy_up-moved out src n m a apart

-- `memset` sets the bytes of the block to the low byte of `c`, and changes no other byte.
pub memset-filled :
    (p c n : ℕ) (m : Bytes) (a : ℕ)
    → memset p c n m a ≡ (if leb p a && ltb a (p + n) then u8 c else m a)
unfolding memset
memset-filled p c zero m a = ground arith
memset-filled p c (suc n) m a = ground (arith, memset-filled (suc p) c n (set_byte m p (u8 c)) a)
