-- ===== src/Memory/Frame.antt =====
-- What a write to the memory leaves alone.
use ysyxworkbench.Prelude.{
  ℕ, ◌+◌, ◌^◌, ◌≤◌, ◌<◌, ◌≡◌, ◌⊎◌, true, false, Option, ok, arith, Result-cases, Bool-cases,
  Option-cases, inl, inr, ◌>>=◌,
}
use ysyxworkbench.Memory.Host.{
  Region, pmem, mrom, sram, flash, same_region, put, mrom, flash, base, size, Mem, HostAddr,
  host_read, host_write,
}
use ysyxworkbench.Memory.Paddr.{
  Bus, Store, guest_to_host, in_pmem, in_sram, pmem_read, pmem_write, paddr_read, paddr_write,
}
use ysyxworkbench.Memory.Access.{in_memory, in_ram, IsBytes}

pub host_write_outside :
    (array array' : ℕ → ℕ) (n at len word i : ℕ)
    → host_write array n at len word ≡ ok array'
    → (i < at) ⊎ (at + len ≤ i)
    → array' i ≡ array i
unfolding host_write
host_write_outside array array' n at len word i e out = ground arith

pub host_read-host_write_apart :
    (array array' : ℕ → ℕ) (n at at' len len' word : ℕ)
    → host_write array n at len word ≡ ok array'
    → (at + len ≤ at') ⊎ (at' + len' ≤ at)
    → host_read array' n at' len' ≡ host_read array n at' len'
unfolding host_read
host_read-host_write_apart array array' n at at' len len' word e apart =
    let same = λ (i : ℕ). host_write_outside array array' n at len word i e in
    ground (arith, same at', same (at' + 1), same (at' + 2), same (at' + 3))

pub host_write-bytes :
    (array array' : ℕ → ℕ) (n at len word : ℕ)
    → ((i : ℕ) → array i < 256)
    → host_write array n at len word ≡ ok array'
    → (i : ℕ) → array' i < 256
unfolding host_write
host_write-bytes array array' n at len word b e i = ground (arith, b i)

-- Two accesses that share no byte of an array.
abbrev Apart : HostAddr → ℕ → HostAddr → ℕ → Type 0
Apart h len h' len' =
    (same_region h.region h'.region ≡ false)
    ⊎ (same_region h.region h'.region ≡ true)
      × ((h.offset + len ≤ h'.offset) ⊎ (h'.offset + len' ≤ h.offset))

-- The arrays after a write at `h`.
abbrev Written : Mem → HostAddr → ℕ → ℕ → Mem → Type 0
Written m h len d m' =
    (array : ℕ → ℕ) × (host_write (m h.region) (size h.region) h.offset len d ≡ ok array)
    × (m' ≡ put m h.region array)

-- Guest addresses apart are apart on the host.
guest-Apart :
    (a b len len' : ℕ) (h h' : HostAddr)
    → a < 2 ^ 32
    → b < 2 ^ 32
    → guest_to_host a ≡ ok h
    → guest_to_host b ≡ ok h'
    → (a + len ≤ b) ⊎ (b + len' ≤ a)
    → Apart h len h' len'
unfolding guest_to_host
guest-Apart a b len len' h h' la lb ea eb out = ground arith

read_same_region :
    (m : Mem) (array : ℕ → ℕ) (r r' : Region) (at len : ℕ)
    → same_region r r' ≡ true
    → host_read array (size r) at len ≡ host_read (m r) (size r) at len
    → host_read (put m r array r') (size r') at len ≡ host_read (m r') (size r') at len
read_same_region m array pmem pmem at len e h = h
read_same_region m array mrom mrom at len e h = h
read_same_region m array sram sram at len e h = h
read_same_region m array flash flash at len e h = h
read_same_region m array _ _ at len e h = cc

read-Apart :
    (m m' : Mem) (h h' : HostAddr) (len len' d : ℕ)
    → Written m h len d m'
    → Apart h len h' len'
    → host_read (m' h'.region) (size h'.region) h'.offset len'
      ≡ host_read (m h'.region) (size h'.region) h'.offset len'
read-Apart m m' h h' len len' d (array, w, e) (inl other) = rw (e, other)
read-Apart m m' h h' len len' d (array, w, e) (inr (same, apart)) = rw e (
    read_same_region m array h.region h'.region h'.offset len' same (
      host_read-host_write_apart (m h.region) array (size h.region) h.offset h'.offset len len' d w
        apart))

Written-IsBytes :
    (m m' : Mem) (h : HostAddr) (len d : ℕ) → Written m h len d m' → IsBytes m → IsBytes m'
Written-IsBytes m m' h len d (array, w, e) b r i = ground (
  arith,
  b r i,
  host_write-bytes (m h.region) array (size h.region) h.offset len d (b h.region) w i,
)

module _ {S : Type 0} (device : Option (Bus S)) where
  by_device :
      (a len d : ℕ) (st st' : Store S)
      → in_ram a ≡ false
      → paddr_write device a len d st ≡ ok st'
      → st'.mem ≡ st.mem
  unfolding paddr_write
  by_device a len d st st' io e = elim (Option-cases device) [
    | inl off ↦ ground arith
    | inr (bus, on) ↦ elim (Result-cases (bus.mmio_write a len d st.io)) [
      | inl (io', r) ↦ ground arith
      | inr (f, r) ↦ ground arith
    ]
  ]

  -- A write that succeeds either leaves the arrays alone or is one write into an array.
  written :
      (a len d : ℕ) (st st' : Store S)
      → paddr_write device a len d st ≡ ok st'
      → (st'.mem ≡ st.mem)
        ⊎ ((h : HostAddr) × (guest_to_host a ≡ ok h)
            × Written st.mem h len d st'.mem
            × (in_ram a ≡ true))
  unfolding paddr_write pmem_write
  written a len d st st' e = elim (Bool-cases (in_ram a)) [
    | inr io ↦ inl (by_device a len d st st' io e)
    | inl ram ↦ elim (Result-cases (guest_to_host a)) [
      | inl (h, p) ↦
          elim (Result-cases (host_write (st.mem h.region) (size h.region) h.offset len d)) [
            | inl (array, q) ↦ inr (h, p, (array, q, ground arith), ram)
            | inr (f, q) ↦ ground arith
          ]
      | inr (f, p) ↦ ground arith
    ]
  ]

  -- A write to pmem or sram does not change what a read elsewhere in the memory returns: a read of
  -- `len'` bytes at `b` that shares no byte with the `len` bytes written at `a` gives the same
  -- value, or the same fault, before and after the write.
  pub paddr_read-paddr_write_apart :
      (a b len len' d : ℕ) (st st' : Store S)
      → a < 2 ^ 32
      → b < 2 ^ 32
      → in_ram a ≡ true
      → in_memory b ≡ true
      → (a + len ≤ b) ⊎ (b + len' ≤ a)
      → paddr_write device a len d st ≡ ok st'
      → paddr_read device b len' st' ≡ (do (v, _) ← paddr_read device b len' st; ok (v, st'))
  unfolding paddr_read pmem_read
  paddr_read-paddr_write_apart a b len len' d st st' la lb ra rb out e =
      elim (written a len d st st' e) [
        | inl same ↦ ground arith
        | inr (h, p, w, _) ↦ elim (Result-cases (guest_to_host b)) [
          | inl (h', p') ↦ ground (
            arith,
            read-Apart st.mem st'.mem h h' len len' d w
                (guest-Apart a b len len' h h' la lb p p' out),
          )
          | inr (f, p') ↦ ground arith
        ]
      ]

  -- The memory keeps its bytes: each stays below 256, whatever is written and wherever.
  pub paddr_write-IsBytes :
      (a len d : ℕ) (st st' : Store S)
      → IsBytes st.mem
      → paddr_write device a len d st ≡ ok st'
      → IsBytes st'.mem
  paddr_write-IsBytes a len d st st' b e = elim (written a len d st st' e) [
    | inl same ↦ rw same b
    | inr (h, p, q, _) ↦ Written-IsBytes st.mem st'.mem h len d q b
  ]

  -- A write that starts in mrom or flash changes no byte of any array, whatever its length and
  -- whether the devices take it or not.
  paddr_write_rom :
      (r : Region) (a len d : ℕ) (st st' : Store S)
      → (r ≡ mrom) ⊎ (r ≡ flash)
      → base r ≤ a
      → a < base r + size r
      → paddr_write device a len d st ≡ ok st'
      → st'.mem ≡ st.mem
  unfolding in_pmem in_sram
  paddr_write_rom r a len d st st' rom p q e = elim (written a len d st st' e) [
    | inl same ↦ same
    | inr (h, p', q', ram) ↦ ground arith
  ]
