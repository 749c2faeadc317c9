-- ===== src/Am/Audio/Buffer.antt =====
-- The registers and the sound buffer hold a queue of bytes: what the driver's loop and a write of a
-- register do to it.
use ysyxworkbench.Prelude.{
  ℕ, ◌+◌, ◌*◌, ◌%◌, ◌^◌, ◌≤◌, ◌<◌, ◌≡◌, refl, ap, ◌∙◌, inr, false, ok, List, [], ◌∷◌, ◌++◌, length,
  ◌==◌, arith, u32, length-append,
}
use mathlib.Core.List.{append-nil, append_assoc}
use ysyxworkbench.Memory.{store, byte_of, host_write}
use ysyxworkbench.Memory.Access.{host_read-host_write, host_write-runs}
use ysyxworkbench.Memory.Frame.{host_read-host_write_apart, host_write_outside}
use ysyxworkbench.Device.Map.{Io, io_space_max}
use ysyxworkbench.Device.Ports.{Audio, get_word, set_word, reg_sbuf_size, reg_count}
use ysyxworkbench.Am.Audio.{Sound, put_bytes}
use ysyxworkbench.Am.Audio.Ring.{Place, Held, Held-snoc, Held-outside, Place-suc}

-- The buffer of `size` bytes holds `q`, from the device's head to the driver's tail.
pub record Buffer (size : ℕ) (s : Sound) (q : List ℕ) : Type 0 where
  pub apart : s.io.dev.audio_base + 24 ≤ s.io.dev.sbuf
  pub fits : s.io.dev.sbuf + size ≤ io_space_max
  pub small : size < 2 ^ 32
  pub head_inside : s.io.dev.head < size
  pub tail_inside : s.tail < size
  pub room : length q ≤ size
  pub placed : Place size s.io.dev.head (length q) s.tail
  pub held : Held size s.io.dev.sbuf s.io.io_space s.io.dev.head q

abbrev pub SameRegs : Sound → Sound → Type 0
SameRegs s s' =
    (i : ℕ) → i < 6 → get_word s'.io.dev.audio_base i s'.io ≡ get_word s.io.dev.audio_base i s.io

-- Numbers that a `uint8_t` can have.
abbrev pub AllBytes : List ℕ → Type 0
AllBytes [] = Unit
AllBytes (x ∷ buf) = (x < 256) × AllBytes buf

-- One byte of the loop, in a buffer that is not full.
abbrev put_one : ℕ → ℕ → Sound → Sound
put_one size x s = record {
  io = record (s.io) { io_space = store s.io.io_space (s.io.dev.sbuf + s.tail) (byte_of x 0) };
  tail = u32 (s.tail + 1) % size;
}

write_one :
    (array : ℕ → ℕ) (at x : ℕ)
    → at < io_space_max
    → host_write array io_space_max at 1 x ≡ ok (store array at (byte_of x 0))
unfolding host_write
write_one array at x small = ground arith

put_one-Buffer :
    (size x : ℕ) (s : Sound) (q : List ℕ)
    → Buffer size s q
    → x < 256
    → length q < size
    → Buffer size (put_one size x s) (q ++ x ∷ []) × SameRegs s (put_one size x s)
unfolding get_word
put_one-Buffer size x s q b is_byte room =
    let at = s.io.dev.sbuf + s.tail in
    let inside : at < io_space_max = omega (arith, b.fits, b.tail_inside) in
    let written = write_one s.io.io_space at x inside in
    let same_byte : byte_of x 0 ≡ x = omega arith in
    let whole : u32 (s.tail + 1) ≡ s.tail + 1 = omega (arith, b.small, b.tail_inside) in
    let (tail_inside', placed') =
      Place-suc size s.io.dev.head (length q) s.tail b.head_inside b.placed b.tail_inside room in
    (
      record {
        apart = b.apart;
        fits = b.fits;
        small = b.small;
        head_inside = b.head_inside;
        tail_inside = rw whole tail_inside';
        room = omega (arith, length-append q (x ∷ []));
        placed = rw (whole, length-append q (x ∷ [])) placed';
        held = rw same_byte (
            Held-snoc size s.io.dev.sbuf s.io.io_space s.io.dev.head s.tail x q b.head_inside
              b.tail_inside b.placed room b.held);
      },
      λ i few.
          host_read-host_write_apart s.io.io_space (store s.io.io_space at (byte_of x 0))
            io_space_max at (s.io.dev.audio_base + 4 * i) 1 4 x written
            (inr (omega (arith, b.apart))),
    )

pub put_bytes-Buffer :
    (size : ℕ) (buf : List ℕ) (s : Sound) (q : List ℕ)
    → Buffer size s q
    → AllBytes buf
    → length q + length buf ≤ size
    → (s' : Sound) × (put_bytes size buf s ≡ ok s') × Buffer size s' (q ++ buf) × SameRegs s s'
unfolding put_bytes
put_bytes-Buffer size [] s q b bytes room = (s, refl, rw append-nil b, λ i few. refl)
put_bytes-Buffer size (x ∷ buf) s q b (is_byte, bytes) room =
    let (b1, same_regs) = put_one-Buffer size x s q b is_byte (omega arith) in
    let (s', runs, b', same_regs') =
      put_bytes-Buffer size buf (put_one size x s) (q ++ x ∷ []) b1 bytes
        (omega (arith, length-append q (x ∷ []))) in
    let inside : s.io.dev.sbuf + s.tail < io_space_max = omega (arith, b.fits, b.tail_inside) in
    let some : (size == 0) ≡ false = ground (arith, b.head_inside) in
    (
      s',
      rw (write_one s.io.io_space (s.io.dev.sbuf + s.tail) x inside, some) runs,
      rw (← append_assoc q (x ∷ []) buf) b',
      λ i few. same_regs' i few ∙ same_regs i few,
    )

-- A write of the count leaves the size and the buffer alone.
pub set_count-Buffer :
    (size count : ℕ) (s : Sound) (q : List ℕ)
    → Buffer size s q
    → count < 2 ^ 32
    → get_word s.io.dev.audio_base reg_sbuf_size s.io ≡ ok size
    → (io : Io Audio) × (set_word s.io.dev.audio_base reg_count count s.io ≡ ok io)
      × Buffer size (record s { io = io }) q
      × (io.dev ≡ s.io.dev)
      × (get_word io.dev.audio_base reg_sbuf_size io ≡ ok size)
      × (get_word io.dev.audio_base reg_count io ≡ ok count)
unfolding set_word get_word
set_count-Buffer size count s q b small size_reg =
    let base = s.io.dev.audio_base in
    let (bytes, write) =
      host_write-runs s.io.io_space io_space_max (base + 4 * reg_count) count
        (omega (arith, b.apart, b.fits)) in
    (
      record (s.io) { io_space = bytes },
      rw write refl,
      record {
        apart = b.apart;
        fits = b.fits;
        small = b.small;
        head_inside = b.head_inside;
        tail_inside = b.tail_inside;
        room = b.room;
        placed = b.placed;
        held =
            Held-outside size s.io.dev.sbuf s.io.io_space bytes s.io.dev.head q b.head_inside
              (λ i inside.
                host_write_outside s.io.io_space bytes io_space_max (base + 4 * reg_count) 4 count
                  (s.io.dev.sbuf + i) write (inr (omega (arith, b.apart))))
              b.held;
      },
      refl,
      host_read-host_write_apart s.io.io_space bytes io_space_max (base + 4 * reg_count)
            (base + 4 * reg_sbuf_size) 4 4 count write (inr (omega arith))
          ∙ size_reg,
      host_read-host_write s.io.io_space bytes io_space_max (base + 4 * reg_count) 4 count write
          ∙ ap ok (omega arith),
    )
