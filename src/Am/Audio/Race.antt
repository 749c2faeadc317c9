-- ===== src/Am/Audio/Race.antt =====
-- A callback between the read and the write of the count in `__am_audio_play`.
use ysyxworkbench.Prelude.{
  ℕ, ◌+◌, ◌-◌, ◌^◌, ◌<◌, ◌≡◌, refl, ap, ◌∙◌, true, ok, List, ◌++◌, length, take, drop, u32, Result,
  ◌>>=◌, arith,
}
use ysyxworkbench.Device.Ports.{get_word, reg_sbuf_size, reg_count, zeros, audio_play_callback}
use ysyxworkbench.Am.Audio.{Sound, play_bytes, has_room, in_reg, out_reg}
use ysyxworkbench.Am.Audio.Buffer.{Buffer, AllBytes, put_bytes-Buffer, set_count-Buffer}
use ysyxworkbench.Am.Audio.Callback.{audio_play_callback-Buffer}
use ysyxworkbench.Am.Audio.Fifo.{IsSound, has_room-le}

-- `__am_audio_play` of `buf` with a callback for `len` bytes after the read of the count.
abbrev pub interrupted : List ℕ → ℕ → Sound → Result (List ℕ × Sound)
interrupted buf len s = do
  (curr_count, s1) ← play_bytes buf s
  (stream, io) ← audio_play_callback len s1.io
  s2 ← out_reg reg_count (u32 (curr_count + length buf)) (record s1 { io = io })
  ok (stream, s2)

-- With `q` in the buffer and room for `buf`, a callback for `len` bytes that comes between the read
-- and the write of the count gives the oldest bytes of `q`, with zeros behind when there are too few,
-- and leaves the rest of `q` and `buf` in the buffer. Yet the count then is that of `q` and `buf`:
-- it is too high by the bytes that the callback took.
pub interrupted-count :
    (size len : ℕ) (buf : List ℕ) (s : Sound) (q : List ℕ)
    → IsSound size s q
    → AllBytes buf
    → has_room (length buf) s ≡ ok true
    → (s' : Sound) × (interrupted buf len s ≡ ok (take len q ++ zeros (len - length q), s'))
      × Buffer size s' (drop len q ++ buf)
      × (get_word s'.io.dev.audio_base reg_count s'.io ≡ ok (length q + length buf))
unfolding play_bytes in_reg out_reg
interrupted-count size len buf s q is bytes ready =
    let room = has_room-le size (length buf) s q is ready in
    let (s1, puts, b1, same_regs) = put_bytes-Buffer size buf s q is.buffer bytes room in
    let counted = same_regs reg_count (omega arith) ∙ is.count_reg in
    let (io, calls, b2, size_reg, count_reg) =
      audio_play_callback-Buffer size len s1 q buf b1
        (same_regs reg_sbuf_size (omega arith) ∙ is.size_reg) counted in
    let fits : length q + length buf < 2 ^ 32 = omega (arith, is.buffer.small) in
    let (io', writes, b3, same_dev, size_reg', count_reg') =
      set_count-Buffer size (u32 (length q + length buf)) (record s1 { io = io })
        (drop len q ++ buf) b2 (omega arith) size_reg in
    (
      record s1 { io = io' },
      rw (is.size_reg, puts, counted, calls, writes) refl,
      b3,
      count_reg' ∙ ap ok (omega arith),
    )
