-- ===== src/Memory/Access.antt =====
-- What an access to the memory returns, and when it is defined.
use ysyxworkbench.Prelude.{
  ℕ, ◌+◌, ◌%◌, ◌^◌, ◌≤◌, ◌<◌, ◌≡◌, refl, ◌⊎◌, Bool, true, ◌||◌, Option, ok, fault, undefined, arith,
  Result-cases, inl, inr,
}
use ysyxworkbench.Memory.Host.{
  Region, pmem, mrom, sram, flash, in_array, same_region, base, size, Mem, HostAddr, host_read,
  host_write,
}
use ysyxworkbench.Memory.Paddr.{
  Bus, Store, guest_to_host, in_pmem, in_mrom, in_sram, in_flash, pmem_read, pmem_write, paddr_read,
  paddr_write,
}

abbrev pub IsLen : ℕ → Type 0
IsLen len = (len ≡ 1) ⊎ (len ≡ 2) ⊎ (len ≡ 4)

-- The arrays hold bytes.
abbrev pub IsBytes : Mem → Type 0
IsBytes m = (r : Region) (i : ℕ) → m r i < 256

pub host_read-host_write :
    (array array' : ℕ → ℕ) (n at len word : ℕ)
    → host_write array n at len word ≡ ok array'
    → host_read array' n at len ≡ ok (word % 256 ^ len)
unfolding host_write host_read
host_read-host_write array array' n at len word e = ground arith

-- A write of a word inside the array succeeds.
pub host_write-runs :
    (array : ℕ → ℕ) (n at word : ℕ)
    → at + 4 ≤ n
    → (bytes : ℕ → ℕ) × (host_write array n at 4 word ≡ ok bytes)
unfolding host_write
host_write-runs array n at word fits = elim (Result-cases (host_write array n at 4 word)) [
  | inl found ↦ found
  | inr (why, e) ↦ absurd (ground arith)
]

pub same_region_self : (r : Region) → same_region r r ≡ true
same_region_self pmem = refl
same_region_self mrom = refl
same_region_self sram = refl
same_region_self flash = refl

abbrev pub in_ram : ℕ → Bool
in_ram a = in_pmem a || in_sram a

abbrev pub in_memory : ℕ → Bool
in_memory a = in_pmem a || in_mrom a || in_sram a || in_flash a

-- An address of the memory has a place in one of the arrays, and an aligned access fits there.
to_host_of_in_memory :
    (a len : ℕ)
    → a < 2 ^ 32
    → IsLen len
    → a % len ≡ 0
    → in_memory a ≡ true
    → (h : HostAddr) × (guest_to_host a ≡ ok h) × (in_array (size h.region) h.offset len ≡ true)
unfolding guest_to_host
to_host_of_in_memory a len lt l al r = elim (Result-cases (guest_to_host a)) [
  | inl (h, e) ↦ (h, e, ground arith)
  | inr (f, e) ↦ ground arith
]

pub host_read_total :
    (array : ℕ → ℕ) (n at len : ℕ)
    → IsLen len
    → in_array n at len ≡ true
    → (v : ℕ) × (host_read array n at len ≡ ok v)
unfolding host_read
host_read_total array n at len l r = elim (Result-cases (host_read array n at len)) [
  | inl (v, e) ↦ (v, e)
  | inr (f, e) ↦ ground arith
]

pub host_read-lt :
    (array : ℕ → ℕ) (n at len v : ℕ)
    → ((i : ℕ) → array i < 256)
    → host_read array n at len ≡ ok v
    → v < 256 ^ len
unfolding host_read
host_read-lt array n at len v b e = ground (arith, b at, b (at + 1), b (at + 2), b (at + 3))

pub host_read-lt-word :
    (array : ℕ → ℕ) (n at len v : ℕ)
    → ((i : ℕ) → array i < 256)
    → host_read array n at len ≡ ok v
    → v < 2 ^ 32
unfolding host_read
host_read-lt-word array n at len v b e = ground (arith, b at, b (at + 1), b (at + 2), b (at + 3))

module _ {S : Type 0} (device : Option (Bus S)) where
  -- After a write of `len` bytes to pmem or sram that succeeds, a read of the same `len` bytes
  -- succeeds, gives the low `len` bytes of the value written, and changes nothing. The devices are
  -- not touched by the write.
  pub paddr_read-paddr_write :
      (a len d : ℕ) (st st' : Store S)
      → in_ram a ≡ true
      → paddr_write device a len d st ≡ ok st'
      → (paddr_read device a len st' ≡ ok (d % 256 ^ len, st')) × (st'.io ≡ st.io)
  unfolding paddr_read paddr_write pmem_read pmem_write
  paddr_read-paddr_write a len d st st' r e = elim (Result-cases (guest_to_host a)) [
    | inl (h, p) ↦
        elim (Result-cases (host_write (st.mem h.region) (size h.region) h.offset len d)) [
          | inl (array, q) ↦ ground (
            arith,
            host_read-host_write (st.mem h.region) array (size h.region) h.offset len d q,
            same_region_self h.region,
          )
          | inr (f, q) ↦ ground arith
        ]
    | inr (f, p) ↦ ground arith
  ]

  -- In pmem, mrom, sram and flash a read of one, two or four bytes at a multiple of its length
  -- succeeds, gives a value that fits the length, and changes nothing.
  paddr_read_aligned :
      (a len : ℕ) (st : Store S)
      → a < 2 ^ 32
      → IsLen len
      → a % len ≡ 0
      → IsBytes st.mem
      → in_memory a ≡ true
      → (v : ℕ) × (paddr_read device a len st ≡ ok (v, st)) × (v < 256 ^ len)
  unfolding paddr_read pmem_read
  paddr_read_aligned a len st lt l al bytes r =
      let (h, e, fits) = to_host_of_in_memory a len lt l al r in
      let (v, e') = host_read_total (st.mem h.region) (size h.region) h.offset len l fits in
      (
        v,
        ground arith,
        host_read-lt (st.mem h.region) (size h.region) h.offset len v (bytes h.region) e',
      )

  -- An access of two or four bytes that starts inside pmem, mrom, sram or flash and ends beyond that
  -- array is not caught by the range test of `paddr_read`: it reads outside the array.
  pub paddr_read_straddling :
      (r : Region) (a len : ℕ) (st : Store S)
      → IsLen len
      → base r ≤ a
      → a < base r + size r
      → base r + size r < a + len
      → paddr_read device a len st ≡ fault undefined
  unfolding paddr_read pmem_read host_read guest_to_host
  paddr_read_straddling pmem a len st l p q s = ground arith
  paddr_read_straddling mrom a len st l p q s = ground arith
  paddr_read_straddling sram a len st l p q s = ground arith
  paddr_read_straddling flash a len st l p q s = ground arith
