-- ===== src/Device/Ports.antt =====
-- The handlers of the serial port, the clock, the screen's registers and the sound buffer:
-- nemu/src/device/serial.c, timer.c, vga.c and audio.c. `base` is the index of a device's registers
-- in `io_space`.
use ysyxworkbench.Prelude.{
  ℕ, zero, suc, ◌+◌, ◌-◌, ◌*◌, ◌/◌, ◌%◌, ◌^◌, Bool, true, false, not, ◌&&◌, ◌||◌, Result, ok,
  assert, defined, ◌>>=◌, ◌>>◌, List, [], ◌∷◌, ◌++◌, ltb, ◌==◌, if◌then◌else◌, u32, sub32,
}
use ysyxworkbench.Memory.{host_read, host_write}
use ysyxworkbench.Device.Map.{Io, io_space_max}

-- `base[i]` of an array of `uint32_t` registers.
unfoldable pub get_word : {S : Type 0} → ℕ → ℕ → Io S → Result ℕ
get_word base i io = host_read io.io_space io_space_max (base + 4 * i) 4

unfoldable pub set_word : {S : Type 0} → ℕ → ℕ → ℕ → Io S → Result (Io S)
set_word base i word io = do
  bytes ← host_write io.io_space io_space_max (base + 4 * i) 4 word
  ok (record io { io_space = bytes })

-- `dev` is what has been put out, latest first.
unfoldable pub serial_io_handler : ℕ → ℕ → ℕ → Bool → Io (List ℕ) → Result (Io (List ℕ))
serial_io_handler base offset len is_write io = do
  assert (len == 1)
  assert (offset == 0)
  assert is_write
  ok (record io { dev = io.io_space base ∷ io.dev })

-- `dev` is the time that `get_time` gives, a `uint64_t`.
unfoldable pub rtc_io_handler : ℕ → ℕ → ℕ → Bool → Io ℕ → Result (Io ℕ)
unfolding set_word
rtc_io_handler base offset len is_write io = do
  assert (offset == 0 || offset == 4)
  elim (not is_write && offset == 4) [
    | true ↦ set_word base 0 (u32 io.dev) io >>= set_word base 1 (u32 (io.dev / 2 ^ 32))
    | false ↦ ok io
  ]

-- With CONFIG_VGA_SHOW_SCREEN; `dev` counts the calls of `update_screen`.
unfoldable pub vga_update_screen : ℕ → Io ℕ → Result (Io ℕ)
unfolding get_word set_word
vga_update_screen base io = do
  sync ← get_word base 1 io
  elim (sync == 0) [ true ↦ ok io | false ↦ set_word base 1 0 (record io { dev = io.dev + 1 }) ]

-- `head`, and the places of the registers and of `sbuf`.
pub record Audio : Type 0 where
  pub audio_base : ℕ
  pub sbuf : ℕ
  pub head : ℕ

abbrev pub reg_sbuf_size : ℕ
reg_sbuf_size = 3

abbrev pub reg_count : ℕ
reg_count = 5

-- The loop of `audio_play_callback`: the bytes copied, and the new head. The head is reduced modulo
-- the register for the size, which the guest can write.
unfoldable pub play_from : ℕ → ℕ → (ℕ → ℕ) → ℕ → ℕ → Result (List ℕ × ℕ)
play_from zero size io_space sbuf head = ok ([], head)
play_from (suc left) size io_space sbuf head = do
  defined (not (size == 0))
  defined (ltb (sbuf + head) io_space_max)
  (stream, last) ← play_from left size io_space sbuf ((head + 1) % size)
  ok (io_space (sbuf + head) ∷ stream, last)

abbrev pub zeros : ℕ → List ℕ
zeros zero = []
zeros (suc n) = 0 ∷ zeros n

-- `len` is not negative. The bytes of the stream.
unfoldable pub audio_play_callback : ℕ → Io Audio → Result (List ℕ × Io Audio)
unfolding get_word set_word play_from
audio_play_callback len io = do
  let audio = io.dev
  count ← get_word audio.audio_base reg_count io
  size ← get_word audio.audio_base reg_sbuf_size io
  let nread = if ltb count len then count else len
  (stream, head') ← play_from nread size io.io_space audio.sbuf audio.head
  let io' : Io Audio = record io { dev = record audio { head = head' } }
  io'' ← set_word audio.audio_base reg_count (sub32 count nread) io'
  ok (stream ++ zeros (len - nread), io'')
