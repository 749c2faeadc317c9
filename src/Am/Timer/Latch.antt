-- ===== src/Am/Timer/Latch.antt =====
-- What one read of the clock returns, and what it leaves in the registers.
use ysyxworkbench.Prelude.{ℕ, ◌+◌, ◌*◌, ◌/◌, ◌%◌, ◌^◌, ◌<◌, ◌≤◌, ◌≡◌, refl, false, ok, arith, u32}
use ysyxworkbench.Memory.Access.{host_write-runs}
use ysyxworkbench.Device.Map.{Io, map_read, check_bound, invoke_callback, io_space_max}
use ysyxworkbench.Device.Ports.{rtc_io_handler, get_word, set_word}
use ysyxworkbench.Device.Playback.{rtc_io_handler-words}
use ysyxworkbench.Am.Timer.{Clock, rtc_addr, inl_rtc}

module _ (base : ℕ) (now : ℕ → ℕ) (fits : base + 8 ≤ io_space_max) where
  rtc_io_handler-runs : (io : Io ℕ) → (io' : Io ℕ) × (rtc_io_handler base 4 4 false io ≡ ok io')
  unfolding rtc_io_handler set_word
  rtc_io_handler-runs io =
      let (bytes0, write0) =
        host_write-runs io.io_space io_space_max (base + 4 * 0) (u32 io.dev) (omega arith) in
      let (bytes1, write1) =
        host_write-runs bytes0 io_space_max (base + 4 * 1) (u32 (io.dev / 2 ^ 32)) (omega arith) in
      (record io { io_space = bytes1 }, rw (write0, write1) refl)

  pub inl_rtc-high :
      (c : Clock)
      → now c.reads < 2 ^ 64
      → (c' : Clock) × (inl_rtc base now (rtc_addr + 4) c ≡ ok (now c.reads / 2 ^ 32, c'))
        × (c'.reads ≡ c.reads + 1)
        × (get_word base 0 c'.io ≡ ok (now c.reads % 2 ^ 32))
  unfolding inl_rtc map_read check_bound invoke_callback get_word
  inl_rtc-high c small =
      let io = record (c.io) { dev = now c.reads } in
      let (io', runs) = rtc_io_handler-runs io in
      let (low, high) = rtc_io_handler-words base 4 io io' runs in
      let whole : u32 (now c.reads / 2 ^ 32) ≡ now c.reads / 2 ^ 32 = omega arith in
      (record { io = io'; reads = c.reads + 1 }, rw (runs, high, whole) refl, refl, low)

  pub inl_rtc-low :
      (c : Clock) (low : ℕ)
      → get_word base 0 c.io ≡ ok low
      → (c' : Clock) × (inl_rtc base now rtc_addr c ≡ ok (low, c')) × (c'.reads ≡ c.reads + 1)
  unfolding inl_rtc map_read check_bound invoke_callback rtc_io_handler get_word
  inl_rtc-low c low e =
      (record { io = record (c.io) { dev = now c.reads }; reads = c.reads + 1 }, rw e refl, refl)
