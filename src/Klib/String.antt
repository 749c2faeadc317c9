-- ===== src/Klib/String.antt =====
-- abstract-machine/klib/src/string.c on a flat memory of bytes: a pointer is an address, and an
-- access outside the caller's objects is not noticed. The loops that run to a NUL have fuel.
use ysyxworkbench.Prelude.{
  ℕ, zero, suc, ◌+◌, ◌&&◌, not, Result, ok, fault, no_fuel, ◌>>=◌, ◌==◌, ltb, if◌then◌else◌, u8,
  sub32,
}

abbrev pub Bytes : Type 0
Bytes = ℕ → ℕ

abbrev pub set_byte : Bytes → ℕ → ℕ → Bytes
set_byte m p v a = if p == a then v else m a

-- `while (s[len] != '\0') len++;`
unfoldable pub strlen_from : ℕ → Bytes → ℕ → ℕ → Result ℕ
strlen_from zero m s len = fault no_fuel
strlen_from (suc k) m s len =
    let rest = strlen_from k m s (suc len) in if m (s + len) == 0 then ok len else rest

unfoldable pub strlen : ℕ → Bytes → ℕ → Result ℕ
unfolding strlen_from
strlen fuel m s = strlen_from fuel m s 0

-- The loop and the last store of `strcpy` and, with another `dst`, of `strcat`.
unfoldable pub strcpy_from : ℕ → ℕ → ℕ → ℕ → Bytes → Result Bytes
strcpy_from zero dst src i m = fault no_fuel
strcpy_from (suc k) dst src i m =
    let rest = strcpy_from k dst src (suc i) (set_byte m (dst + i) (m (src + i))) in
    if m (src + i) == 0 then ok (set_byte m (dst + i) 0) else rest

unfoldable pub strcpy : ℕ → ℕ → ℕ → Bytes → Result Bytes
unfolding strcpy_from
strcpy fuel dst src m = strcpy_from fuel dst src 0 m

unfoldable pub strcat : ℕ → ℕ → ℕ → Bytes → Result Bytes
unfolding strlen strcpy_from
strcat fuel dst src m = do dst_len ← strlen fuel m dst; strcpy_from fuel (dst + dst_len) src 0 m

-- The second loop of `strncpy`: `left` bytes from index `i` on become 0.
unfoldable pub fill_zero : ℕ → ℕ → ℕ → Bytes → Bytes
fill_zero zero dst i m = m
fill_zero (suc left) dst i m = fill_zero left dst (suc i) (set_byte m (dst + i) 0)

-- The first loop, with `left` bytes to go, and then the second one.
unfoldable pub strncpy_from : ℕ → ℕ → ℕ → ℕ → Bytes → Bytes
unfolding fill_zero
strncpy_from zero dst src i m = m
strncpy_from (suc left) dst src i m =
    let rest = strncpy_from left dst src (suc i) (set_byte m (dst + i) (m (src + i))) in
    if m (src + i) == 0 then fill_zero (suc left) dst i m else rest

unfoldable pub strncpy : ℕ → ℕ → ℕ → Bytes → Bytes
unfolding strncpy_from
strncpy dst src n m = strncpy_from n dst src 0 m

-- The difference of two bytes as an `int`, kept as its bit pattern.
unfoldable pub strcmp : ℕ → Bytes → ℕ → ℕ → Result ℕ
strcmp zero m s1 s2 = fault no_fuel
strcmp (suc k) m s1 s2 =
    let rest = strcmp k m (suc s1) (suc s2) in
    if not (m s1 == 0) && (m s1 == m s2) then rest else ok (sub32 (m s1) (m s2))

-- The loop of `strncmp` with `n` to go; the bytes at the final pointers are compared.
unfoldable pub strncmp_from : ℕ → Bytes → ℕ → ℕ → ℕ
strncmp_from zero m s1 s2 = sub32 (m s1) (m s2)
strncmp_from (suc n) m s1 s2 =
    let rest = strncmp_from n m (suc s1) (suc s2) in
    if not (m s1 == 0) && (m s1 == m s2) then rest else sub32 (m s1) (m s2)

unfoldable pub strncmp : Bytes → ℕ → ℕ → ℕ → ℕ
unfolding strncmp_from
strncmp m s1 s2 n = if n == 0 then 0 else strncmp_from n m s1 s2

unfoldable pub memset : ℕ → ℕ → ℕ → Bytes → Bytes
memset p c zero m = m
memset p c (suc n) m = memset (suc p) c n (set_byte m p (u8 c))

-- `while (n--) *d++ = *s++;`
unfoldable pub copy_up : ℕ → ℕ → ℕ → Bytes → Bytes
copy_up d s zero m = m
copy_up d s (suc n) m = copy_up (suc d) (suc s) n (set_byte m d (m s))

-- `while (n--) *--d = *--s;`, from the ends of the two blocks
unfoldable pub copy_down : ℕ → ℕ → ℕ → Bytes → Bytes
copy_down d s zero m = m
copy_down d s (suc n) m = copy_down d s n (set_byte m (d + n) (m (s + n)))

unfoldable pub memmove : ℕ → ℕ → ℕ → Bytes → Bytes
unfolding copy_up copy_down
memmove dst src n m = if ltb dst src then copy_up dst src n m else copy_down dst src n m

unfoldable pub memcpy : ℕ → ℕ → ℕ → Bytes → Bytes
unfolding copy_up
memcpy out src n m = copy_up out src n m

unfoldable pub memcmp : Bytes → ℕ → ℕ → ℕ → ℕ
memcmp m p1 p2 zero = 0
memcmp m p1 p2 (suc n) =
    let rest = memcmp m (suc p1) (suc p2) n in if m p1 == m p2 then rest else sub32 (m p1) (m p2)
