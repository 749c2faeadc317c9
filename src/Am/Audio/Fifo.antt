-- ===== src/Am/Audio/Fifo.antt =====
-- The driver and the callback of the device in turns: a first-in first-out queue of bytes.
use ysyxworkbench.Prelude.{
  ℕ, zero, suc, ◌+◌, ◌-◌, ◌^◌, ◌≤◌, ◌<◌, ◌≡◌, refl, Bool, true, false, Option, none, some,
  >>=-eq-ok, ◌>>=◌, u32, ap, sym, ◌∙◌, true, ok, List, [], ◌∷◌, ◌++◌, length, take, drop, arith,
  leb, u32, sub32, length-append, Post-eq_ok, take-append-drop,
}
use mathlib.Core.List.{append-nil, append_assoc}
use ysyxworkbench.Device.Map.{Io}
use ysyxworkbench.Device.Ports.{
  Audio, get_word, reg_sbuf_size, reg_count, zeros, audio_play_callback,
}
use ysyxworkbench.Am.Audio.{Sound, play_bytes, am_audio_play, has_room, in_reg, out_reg}
use ysyxworkbench.Am.Audio.Callback.{audio_play_callback-Buffer}
use ysyxworkbench.Am.Audio.Buffer.{Buffer, AllBytes, put_bytes-Buffer, set_count-Buffer}

-- The buffer and its registers hold `q`, the oldest byte first.
pub record IsSound (size : ℕ) (s : Sound) (q : List ℕ) : Type 0 where
  pub buffer : Buffer size s q
  pub size_reg : get_word s.io.dev.audio_base reg_sbuf_size s.io ≡ ok size
  pub count_reg : get_word s.io.dev.audio_base reg_count s.io ≡ ok (length q)

pub has_room-le :
    (size len : ℕ) (s : Sound) (q : List ℕ)
    → IsSound size s q
    → has_room len s ≡ ok true
    → length q + len ≤ size
unfolding has_room in_reg
has_room-le size len s q is e =
    let fits : ok (leb len (sub32 size (length q))) ≡ ok true =
      rw (is.size_reg, is.count_reg) at e in
    ground (arith, is.buffer.small, is.buffer.room)

-- `__am_audio_play`, when its wait is over.
pub am_audio_play-snoc :
    (size : ℕ) (buf : List ℕ) (s : Sound) (q : List ℕ)
    → IsSound size s q
    → AllBytes buf
    → has_room (length buf) s ≡ ok true
    → (s' : Sound) × (am_audio_play buf s ≡ ok (some s')) × IsSound size s' (q ++ buf)
unfolding am_audio_play play_bytes in_reg out_reg
am_audio_play-snoc size buf s q is bytes ready =
    let room = has_room-le size (length buf) s q is ready in
    let (s1, puts, b1, same_regs) = put_bytes-Buffer size buf s q is.buffer bytes room in
    let size_reg = same_regs reg_sbuf_size (omega arith) ∙ is.size_reg in
    let count_reg = same_regs reg_count (omega arith) ∙ is.count_reg in
    let small : length q + length buf < 2 ^ 32 = omega (arith, is.buffer.small) in
    let (io, writes, b2, same_dev, size_reg', count_reg') =
      set_count-Buffer size (u32 (length q + length buf)) s1 (q ++ buf) b1 (omega arith) size_reg in
    (
      record s1 { io = io },
      rw ready (rw (is.size_reg, puts, count_reg, writes) refl),
      record {
        buffer = b2;
        size_reg = size_reg';
        count_reg = count_reg' ∙ ap ok (omega (arith, length-append q buf));
      },
    )

-- `__am_audio_play` leaves its wait only when there is room.
am_audio_play-ready :
    (buf : List ℕ) (s s' : Sound)
    → am_audio_play buf s ≡ ok (some s')
    → has_room (length buf) s ≡ ok true
unfolding am_audio_play
am_audio_play-ready buf s s' plays =
    let (ready, tests, ends) = >>=-eq-ok (has_room (length buf) s) _ plays in
    tests ∙ ap ok (left_wait ready ends)
  where
    left_wait :
        (ready : Bool)
        → elim ready [
          | true ↦ play_bytes buf s >>= λ (curr_count, s1).
              out_reg reg_count (u32 (curr_count + length buf)) s1 >>= λ s2. ok (some s2)
          | false ↦ ok none
        ]
          ≡ ok (some s')
        → ready ≡ true
    left_wait true e = refl
    left_wait false e = cc

-- The callback takes the oldest bytes, and zeros when there are too few.
pub audio_play_callback-take :
    (size len : ℕ) (s : Sound) (q : List ℕ)
    → IsSound size s q
    → (io : Io Audio) × (audio_play_callback len s.io
        ≡ ok (take len q ++ zeros (len - length q), io))
      × IsSound size (record s { io = io }) (drop len q)
audio_play_callback-take size len s q is =
    let (io, calls, b, size_reg, count_reg) =
      audio_play_callback-Buffer size len s q [] (rw append-nil is.buffer) is.size_reg
        is.count_reg in
    (io, calls, record { buffer = rw append-nil at b; size_reg = size_reg; count_reg = count_reg })

take-whole : (q zs : List ℕ) → take (length q) (q ++ zs) ≡ q
take-whole [] zs = refl
take-whole (x ∷ q) zs = ap (λ (r : List ℕ). x ∷ r) (take-whole q zs)

take-none : (n : ℕ) → take {A = ℕ} n [] ≡ []
take-none zero = refl
take-none (suc n) = refl

padded :
    (len k : ℕ) (q : List ℕ)
    → k ≡ len - length q
    → take (length q) (take len q ++ zeros k) ≡ take len q
padded zero k q e = let nothing : k ≡ 0 = omega arith in rw (nothing, take-none (length q)) refl
padded (suc len) k [] e = refl
padded (suc len) k (x ∷ q) e = ap (λ (r : List ℕ). x ∷ r) (padded len k q (omega arith))

-- The bytes of the stream that are not padding.
take-stream :
    (len : ℕ) (q : List ℕ) → take (length q) (take len q ++ zeros (len - length q)) ≡ take len q
take-stream len q = padded len (len - length q) q refl

-- What the driver and the callback do in turns: the bytes played so far, and those that the
-- callback has taken from the buffer.
pub data Turns (start : Sound) : List ℕ → List ℕ → Sound → Type 0 where
  begin : Turns start [] [] start
  play :
      (played given buf : List ℕ) (s s' : Sound)
      → Turns start played given s
      → AllBytes buf
      → am_audio_play buf s ≡ ok (some s')
      → Turns start (played ++ buf) given s'
  callback :
      (played given stream : List ℕ) (len count : ℕ) (s : Sound) (io : Io Audio)
      → Turns start played given s
      → get_word s.io.dev.audio_base reg_count s.io ≡ ok count
      → audio_play_callback len s.io ≡ ok (stream, io)
      → Turns start played (given ++ take count stream) (record s { io = io })

-- `P` holds of the value, if there is one.
abbrev OnSome : {A : Type 0} → (A → Type 0) → Option A → Type 0
OnSome P none = Unit
OnSome P (some a) = P a

-- In every run that starts from an empty buffer, with its size and its count in the registers, in
-- which the driver plays bytes when its wait for room is over and the callback comes between two
-- calls of the driver, the bytes that the callback took and those in the buffer are the bytes
-- played, in their order: none is lost, doubled or overwritten.
pub Turns-fifo :
    (size : ℕ) (start s : Sound) (played given : List ℕ)
    → IsSound size start []
    → Turns start played given s
    → (q : List ℕ) × IsSound size s q × (played ≡ given ++ q)
Turns-fifo size start s _ _ is begin = ([], is, refl)
Turns-fifo size start s _ _ is (play before given buf s0 s' run bytes plays) =
    let (q, is0, all) = Turns-fifo size start s0 before given is run in
    let (s1, plays', is1) =
      am_audio_play-snoc size buf s0 q is0 bytes (am_audio_play-ready buf s0 s' plays) in
    (
      q ++ buf,
      Post-eq_ok (OnSome (λ s2. IsSound size s2 (q ++ buf))) (am_audio_play buf s0) (rw plays' is1)
          plays,
      rw all (append_assoc given q buf),
    )
Turns-fifo size start s _ _ is (callback played before stream len count s0 io run counts calls) =
    let (q, is0, all) = Turns-fifo size start s0 played before is run in
    let (io', calls', is1) = audio_play_callback-take size len s0 q is0 in
    let same : count ≡ length q =
      Post-eq_ok (λ (c : ℕ). c ≡ length q) (get_word s0.io.dev.audio_base reg_count s0.io)
        (rw is0.count_reg refl) counts in
    let After : List ℕ × Io Audio → Type 0 = λ r.
      IsSound size (record s0 { io = r.1 }) (drop len q) × (take (length q) r.0 ≡ take len q) in
    let (is2, gives) =
      Post-eq_ok After (audio_play_callback len s0.io) (rw calls' (is1, take-stream len q)) calls in
    (
      drop len q,
      is2,
      rw (same, gives, append_assoc before (take len q) (drop len q))
          (all ∙ ap (λ (r : List ℕ). before ++ r) (sym (take-append-drop len q))),
    )
