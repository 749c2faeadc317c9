-- ===== src/Am/Audio/Callback.antt =====
-- The callback and the bytes in the sound buffer.
use ysyxworkbench.Prelude.{
  ℕ, zero, suc, ◌-◌, ◌^◌, ◌≤◌, ◌<◌, ◌≡◌, refl, ap, sym, ◌∙◌, inl, inr, ok, List, [], ◌∷◌, ◌++◌,
  length, take, drop, Bool-cases, arith, if◌then◌else◌, ltb, sub32, length-append, length-drop,
}
use ysyxworkbench.Device.Map.{Io}
use ysyxworkbench.Device.Ports.{
  Audio, get_word, reg_sbuf_size, reg_count, zeros, audio_play_callback,
}
use ysyxworkbench.Am.Audio.{Sound}
use ysyxworkbench.Am.Audio.Ring.{play_from-Held}
use ysyxworkbench.Am.Audio.Buffer.{Buffer, set_count-Buffer}

-- How many bytes the callback takes.
abbrev taken : ℕ → ℕ → ℕ
taken len count = if ltb count len then count else len

take_all : (n : ℕ) (q : List ℕ) → length q ≤ n → (take n q ≡ q) × (drop n q ≡ [])
take_all zero [] h = (refl, refl)
take_all zero (x ∷ q) h = absurd (omega arith)
take_all (suc n) [] h = (refl, refl)
take_all (suc n) (x ∷ q) h =
    let (all, nothing) = take_all n q (omega arith) in (ap (λ (r : List ℕ). x ∷ r) all, nothing)

take-append_left :
    (n : ℕ) (q rest : List ℕ)
    → n ≤ length q
    → (take n (q ++ rest) ≡ take n q) × (drop n (q ++ rest) ≡ drop n q ++ rest)
take-append_left zero q rest few = (refl, refl)
take-append_left (suc n) [] rest few = absurd (omega arith)
take-append_left (suc n) (x ∷ q) rest few =
    let (takes, drops) = take-append_left n q rest (omega arith) in
    (ap (λ (r : List ℕ). x ∷ r) takes, drops)

taken_all :
    (len : ℕ) (q : List ℕ)
    → (taken len (length q) ≤ length q)
      × (take (taken len (length q)) q ≡ take len q)
      × (drop (taken len (length q)) q ≡ drop len q)
      × (len - taken len (length q) ≡ len - length q)
taken_all len q = elim (Bool-cases (ltb (length q) len)) [
  | inl more ↦
      let (all, nothing) = take_all len q (ground arith) in
      let (all', nothing') = take_all (length q) q (omega arith) in
      rw more (omega arith, all' ∙ sym all, nothing' ∙ sym nothing, omega arith)
  | inr fewer ↦ rw fewer (ground arith, refl, refl, ground arith)
]

-- The buffer holds `q` and then `rest`, and the count is that of `q`. The callback takes the oldest
-- bytes of `q`, with zeros behind when there are too few, and counts the others.
pub audio_play_callback-Buffer :
    (size len : ℕ) (s : Sound) (q rest : List ℕ)
    → Buffer size s (q ++ rest)
    → get_word s.io.dev.audio_base reg_sbuf_size s.io ≡ ok size
    → get_word s.io.dev.audio_base reg_count s.io ≡ ok (length q)
    → (io : Io Audio) × (audio_play_callback len s.io
        ≡ ok (take len q ++ zeros (len - length q), io))
      × Buffer size (record s { io = io }) (drop len q ++ rest)
      × (get_word io.dev.audio_base reg_sbuf_size io ≡ ok size)
      × (get_word io.dev.audio_base reg_count io ≡ ok (length (drop len q)))
unfolding audio_play_callback get_word
audio_play_callback-Buffer size len s q rest b size_reg count_reg =
    let n = taken len (length q) in
    let (few, takes, drops, less) = taken_all len q in
    let (from_left, keeps) = take-append_left n q rest few in
    let fewer : n ≤ length (q ++ rest) = omega (arith, length-append q rest) in
    let (head', plays, in_ring, placed', held') =
      play_from-Held size s.io.dev.sbuf s.io.io_space n s.io.dev.head s.tail (q ++ rest)
        b.head_inside b.tail_inside b.placed fewer b.fits b.held in
    let s1 : Sound = record s { io = record (s.io) { dev = record (s.io.dev) { head = head' } } } in
    let b1 : Buffer size s1 (drop n (q ++ rest)) = record {
      apart = b.apart;
      fits = b.fits;
      small = b.small;
      head_inside = in_ring;
      tail_inside = b.tail_inside;
      room = omega (arith, b.room, length-drop n (q ++ rest));
      placed = placed';
      held = held';
    } in
    let (io, writes, b2, same_dev, size_reg', count_reg') =
      set_count-Buffer size (sub32 (length q) n) s1 (drop n (q ++ rest)) b1 (omega arith)
        size_reg in
    let whole : length q ≤ size = omega (arith, b.room, length-append q rest) in
    (
      io,
      rw (size_reg, count_reg, plays, writes, from_left, takes, less) refl,
      rw (← drops, ← keeps) b2,
      size_reg',
      count_reg' ∙ ap ok (left n few whole b.small ∙ ap length drops),
    )
  where
    left :
        (n : ℕ)
        → n ≤ length q
        → length q ≤ size
        → size < 2 ^ 32
        → sub32 (length q) n ≡ length (drop n q)
    left n few room small = omega (arith, length-drop n q)
