-- ===== src/Memory/Translate.antt =====
-- The translation between guest and host addresses.
use ysyxworkbench.Prelude.{ℕ, ◌^◌, ◌<◌, ◌≡◌, ◌↔◌, ok, arith}
use ysyxworkbench.Memory.Host.{HostAddr}
use ysyxworkbench.Memory.Paddr.{guest_to_host, host_to_guest}

to_guest_of_to_host :
    (a : ℕ) (h : HostAddr) → a < 2 ^ 32 → guest_to_host a ≡ ok h → host_to_guest h ≡ ok a
unfolding guest_to_host host_to_guest
to_guest_of_to_host a h lt e = ground arith

to_host_of_to_guest : (a : ℕ) (h : HostAddr) → host_to_guest h ≡ ok a → guest_to_host a ≡ ok h
unfolding guest_to_host host_to_guest
to_host_of_to_guest a h e = ground arith

-- For a 32-bit guest address `a` and a host pointer `h`: `guest_to_host` gives `h` for `a` exactly
-- when `host_to_guest` gives `a` for `h`.
guest_to_host_iff :
    (a : ℕ) (h : HostAddr) → a < 2 ^ 32 → (guest_to_host a ≡ ok h) ↔ (host_to_guest h ≡ ok a)
guest_to_host_iff a h lt = (to_guest_of_to_host a h lt, to_host_of_to_guest a h)
