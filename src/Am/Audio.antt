-- ===== src/Am/Audio.antt =====
-- The guest's sound driver, abstract-machine/am/src/platform/nemu/ioe/audio.c, over the registers and
-- the sound buffer of nemu/src/device/audio.c. `Fifo` is about the driver and the callback of the
-- device in turns, `Race` about a callback inside `__am_audio_play`.
pub mod Ring
pub mod Buffer
pub mod Callback
pub mod Fifo
pub mod Race
use ysyxworkbench.Prelude.{
  ℕ, ◌+◌, ◌%◌, Bool, true, false, not, Option, none, some, Result, ok, ◌>>=◌, ◌>>◌, List, [], ◌∷◌,
  ◌==◌, leb, defined, length, u32, sub32,
}
use ysyxworkbench.Memory.{host_write}
use ysyxworkbench.Device.Map.{Io, io_space_max}
use ysyxworkbench.Device.Ports.{Audio, get_word, set_word, reg_sbuf_size, reg_count}

-- The io space with the device's `head`, and the driver's `tail`.
pub record Sound : Type 0 where
  pub io : Io Audio
  pub tail : ℕ

abbrev pub reg_freq : ℕ
reg_freq = 0

abbrev pub reg_channels : ℕ
reg_channels = 1

abbrev pub reg_samples : ℕ
reg_samples = 2

abbrev pub reg_init : ℕ
reg_init = 4

unfoldable pub am_audio_init : Sound → Sound
am_audio_init s = record s { tail = 0 }

-- `inl` of a register of the device
unfoldable pub in_reg : ℕ → Sound → Result ℕ
unfolding get_word
in_reg i s = get_word s.io.dev.audio_base i s.io

unfoldable pub out_reg : ℕ → ℕ → Sound → Result Sound
unfolding set_word
out_reg i word s = do io ← set_word s.io.dev.audio_base i word s.io; ok (record s { io = io })

-- `bufsize`; `present` is true.
unfoldable pub am_audio_config : Sound → Result ℕ
unfolding in_reg
am_audio_config s = in_reg reg_sbuf_size s

unfoldable pub am_audio_ctrl : ℕ → ℕ → ℕ → Sound → Result Sound
unfolding out_reg
am_audio_ctrl freq channels samples s = do
  s1 ← out_reg reg_freq freq s
  s2 ← out_reg reg_channels channels s1
  s3 ← out_reg reg_samples samples s2
  out_reg reg_init 1 s3

-- `count`
unfoldable pub am_audio_status : Sound → Result ℕ
unfolding in_reg
am_audio_status s = in_reg reg_count s

-- The test of the loop that waits: `len` is compared as a `uint32_t`.
unfoldable pub has_room : ℕ → Sound → Result Bool
unfolding in_reg
has_room len s = do
  bufsize ← in_reg reg_sbuf_size s
  count ← in_reg reg_count s
  ok (leb len (sub32 bufsize count))

-- The loop that copies, with `bufsize` as it was read at the start.
unfoldable pub put_bytes : ℕ → List ℕ → Sound → Result Sound
put_bytes bufsize [] s = ok s
put_bytes bufsize (x ∷ rest) s = do
  bytes ← host_write s.io.io_space io_space_max (s.io.dev.sbuf + s.tail) 1 x
  defined (not (bufsize == 0))
  put_bytes bufsize rest
      (record { io = record (s.io) { io_space = bytes }; tail = u32 (s.tail + 1) % bufsize })

-- `__am_audio_play` behind its wait, up to the read of the count.
unfoldable pub play_bytes : List ℕ → Sound → Result (ℕ × Sound)
unfolding in_reg put_bytes
play_bytes buf s = do
  bufsize ← in_reg reg_sbuf_size s
  s' ← put_bytes bufsize buf s
  curr_count ← in_reg reg_count s'
  ok (curr_count, s')

-- `none`: the test of the wait fails, and the driver goes on waiting.
unfoldable pub am_audio_play : List ℕ → Sound → Result (Option Sound)
unfolding has_room play_bytes out_reg
am_audio_play buf s = do
  ready ← has_room (length buf) s
  elim ready [
    | true ↦ play_bytes buf s >>= λ (curr_count, s').
        out_reg reg_count (u32 (curr_count + length buf)) s' >>= λ s''. ok (some s'')
    | false ↦ ok none
  ]
