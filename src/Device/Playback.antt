-- ===== src/Device/Playback.antt =====
-- What the sound callback gives, and what the clock shows.
use ysyxworkbench.Prelude.{
  ℕ, zero, suc, ◌+◌, ◌-◌, ◌*◌, ◌/◌, ◌%◌, ◌^◌, ◌≡◌, refl, ap, ◌∙◌, false, not, >>=-eq-ok, inr, ok,
  defined, List, ltb, ◌==◌, if◌then◌else◌, length, length-append, u32, sub32, Post, Post-bind,
  Post-true, arith,
}
use ysyxworkbench.Memory.{host_read, host_write}
use ysyxworkbench.Memory.Access.{host_read-host_write}
use ysyxworkbench.Memory.Frame.{host_read-host_write_apart}
use ysyxworkbench.Device.Map.{Io, io_space_max}
use ysyxworkbench.Device.Ports.{
  Audio, reg_count, reg_sbuf_size, get_word, set_word, play_from, zeros, audio_play_callback,
  rtc_io_handler,
}

zeros-length : (n : ℕ) → length (zeros n) ≡ n
zeros-length zero = refl
zeros-length (suc n) = ap suc (zeros-length n)

play_from-length :
    (left size : ℕ) (io_space : ℕ → ℕ) (sbuf head : ℕ)
    → Post (λ (r : List ℕ × ℕ). length r.0 ≡ left) (play_from left size io_space sbuf head)
unfolding play_from
play_from-length zero size io_space sbuf head = refl
play_from-length (suc left) size io_space sbuf head =
    let Q : List ℕ × ℕ → Type 0 = λ r. length r.0 ≡ suc left in
    Post-bind (λ _. Unit {0}) Q (defined (not (size == 0))) _ (Post-true _)
      (λ _ _.
        Post-bind (λ _. Unit {0}) Q (defined (ltb (sbuf + head) io_space_max)) _ (Post-true _)
          (λ _ _.
            Post-bind (λ (r : List ℕ × ℕ). length r.0 ≡ left) Q
              (play_from left size io_space sbuf ((head + 1) % size)) _
              (play_from-length left size io_space sbuf ((head + 1) % size)) (λ r e. ap suc e)))

-- The sound callback fills the whole stream: when it returns, it has given `len` bytes.
audio_play_callback-length :
    (len : ℕ) (io : Io Audio)
    → Post (λ (r : List ℕ × Io Audio). length r.0 ≡ len) (audio_play_callback len io)
unfolding audio_play_callback
audio_play_callback-length len io =
    let Q : List ℕ × Io Audio → Type 0 = λ r. length r.0 ≡ len in
    let audio = io.dev in
    Post-bind (λ _. Unit {0}) Q (get_word audio.audio_base reg_count io) _ (Post-true _)
      (λ count _.
        Post-bind (λ _. Unit {0}) Q (get_word audio.audio_base reg_sbuf_size io) _ (Post-true _)
          (λ size _.
            let nread = if ltb count len then count else len in
            Post-bind (λ (r : List ℕ × ℕ). length r.0 ≡ nread) Q
              (play_from nread size io.io_space audio.sbuf audio.head) _
              (play_from-length nread size io.io_space audio.sbuf audio.head)
              (λ r e.
                let io' : Io Audio = record io { dev = record audio { head = r.1 } } in
                Post-bind (λ _. Unit {0}) Q
                  (set_word audio.audio_base reg_count (sub32 count nread) io') _ (Post-true _)
                  (λ _ _.
                    length-append {0} r.0 (zeros (len - nread)) ∙ whole count (length r.0) e))))
  where
    whole :
        (count n : ℕ)
        → n ≡ (if ltb count len then count else len)
        → n + length (zeros (len - (if ltb count len then count else len))) ≡ len
    whole count n e = ground (arith, zeros-length (len - (if ltb count len then count else len)))

set_word-written :
    {S : Type 0} (base i word : ℕ) (io io' : Io S)
    → set_word base i word io ≡ ok io'
    → (bytes : ℕ → ℕ) × (host_write io.io_space io_space_max (base + 4 * i) 4 word ≡ ok bytes)
      × (io' ≡ record io { io_space = bytes })
unfolding set_word
set_word-written base i word io io' e =
    let (bytes, write, made) =
      >>=-eq-ok (host_write io.io_space io_space_max (base + 4 * i) 4 word) _ e in
    (bytes, write, ground (arith, made))

-- A read at offset 4 of the clock latches the low and the high word of the time.
pub rtc_io_handler-words :
    (base len : ℕ) (io io' : Io ℕ)
    → rtc_io_handler base 4 len false io ≡ ok io'
    → (get_word base 0 io' ≡ ok (u32 io.dev)) × (get_word base 1 io' ≡ ok (u32 (io.dev / 2 ^ 32)))
unfolding rtc_io_handler get_word set_word
rtc_io_handler-words base len io io' e =
    let (io1, first, second) =
      >>=-eq-ok (set_word base 0 (u32 io.dev) io) (set_word base 1 (u32 (io.dev / 2 ^ 32))) e in
    let (bytes0, write0, made0) = set_word-written base 0 (u32 io.dev) io io1 first in
    let (bytes1, write1, made1) = set_word-written base 1 (u32 (io.dev / 2 ^ 32)) io1 io' second in
    (
      ap (λ (s : Io ℕ). host_read s.io_space io_space_max (base + 4 * 0) 4) made1
          ∙ host_read-host_write_apart io1.io_space bytes1 io_space_max (base + 4 * 1)
              (base + 4 * 0) 4 4 (u32 (io.dev / 2 ^ 32)) write1 (inr (omega arith))
          ∙ ap (λ (s : Io ℕ). host_read s.io_space io_space_max (base + 4 * 0) 4) made0
          ∙ host_read-host_write io.io_space bytes0 io_space_max (base + 4 * 0) 4 (u32 io.dev)
              write0
          ∙ ap ok (omega arith),
      ap (λ (s : Io ℕ). host_read s.io_space io_space_max (base + 4 * 1) 4) made1
          ∙ host_read-host_write io1.io_space bytes1 io_space_max (base + 4 * 1) 4
              (u32 (io.dev / 2 ^ 32)) write1
          ∙ ap ok (omega arith),
    )
