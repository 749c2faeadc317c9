-- ===== src/Am/Input/Reads.antt =====
-- What one read of the guest makes of the oldest number in the key queue.
use ysyxworkbench.Prelude.{
  ℕ, ◌+◌, ◌*◌, ◌^◌, ◌<◌, ◌≤◌, ◌≡◌, refl, ap, ◌∙◌, Bool, true, false, not, ok, arith, ◌==◌, bit_or,
  bit_and, List, [], ◌∷◌, if◌then◌else◌,
}
use ysyxworkbench.Prelude.Bits.{or-zero, or_fields_low, and_high_field, and_keep_low}
use ysyxworkbench.Memory.{host_read}
use ysyxworkbench.Memory.Access.{host_write-runs, host_read-host_write}
use ysyxworkbench.Device.Map.{Io, io_space_max, map_read, check_bound, invoke_callback}
use ysyxworkbench.Device.Keyboard.{KeyQueue, keydown_mask, key_dequeue, i8042_data_io_handler}
use ysyxworkbench.Device.Keyboard.Queue.{IsQueue, key_dequeue-front, key_dequeue_empty}
use ysyxworkbench.Am.Input.{am_input_keybrd}

-- A key of the guest: `keydown` and `keycode`.
abbrev pub AmKey : Type 0
AmKey = Bool × ℕ

-- The number that `send_key` puts into the queue.
abbrev pub encode : AmKey → ℕ
encode (down, code) = bit_or code (if down then keydown_mask else 0)

encode_lem :
    (down : Bool) (code : ℕ)
    → code < 2 ^ 15
    → encode (down, code) ≡ (if down then 1 else 0) * 2 ^ 15 + code
encode_lem true code small = or_fields_low 15 1 code small
encode_lem false code small = or-zero code ∙ omega arith

decode_encode :
    (down : Bool) (code : ℕ)
    → code < 2 ^ 15
    → (not (bit_and (encode (down, code)) 0x8000 == 0) ≡ down)
      × (bit_and (encode (down, code)) 0xffff_7fff ≡ code)
decode_encode true code small =
    rw
      (
        encode_lem true code small,
        and_high_field 15 1 code 1 small,
        and_keep_low 15 1 code 0x1fffe small,
      )
      (refl, omega arith)
decode_encode false code small =
    rw
      (
        encode_lem false code small,
        and_high_field 15 0 code 1 small,
        and_keep_low 15 0 code 0x1fffe small,
      )
      (refl, omega arith)

encode-lt : (down : Bool) (code : ℕ) → code < 2 ^ 15 → encode (down, code) < 2 ^ 32
encode-lt true code small = omega (arith, encode_lem true code small)
encode-lt false code small = omega (arith, encode_lem false code small)

module _ (base : ℕ) (fits : base + 4 ≤ io_space_max) where
  -- A read gives what `key_dequeue` does.
  am_input_keybrd-dequeue :
      (io : Io KeyQueue) (q : KeyQueue) (down : Bool) (code key : ℕ)
      → key_dequeue io.dev ≡ (key, q)
      → key < 2 ^ 32
      → (not (bit_and key 0x8000 == 0) ≡ down) × (bit_and key 0xffff_7fff ≡ code)
      → (io' : Io KeyQueue) × (am_input_keybrd base io ≡ ok ((down, code), io')) × (io'.dev ≡ q)
  unfolding am_input_keybrd map_read check_bound invoke_callback i8042_data_io_handler key_dequeue
  am_input_keybrd-dequeue io q down code key takes small (is_down, is_code) =
      let (bytes, write) = host_write-runs io.io_space io_space_max base key fits in
      let read : host_read bytes io_space_max (base + 0) 4 ≡ ok key =
        ap (λ (at : ℕ). host_read bytes io_space_max at 4) (omega arith)
        ∙ host_read-host_write io.io_space bytes io_space_max base 4 key write
        ∙ ap ok (omega arith) in
      (
        record io { io_space = bytes; dev = q },
        rw (takes, write, read, is_down, is_code) refl,
        refl,
      )

  -- One read takes the oldest key.
  pub am_input_keybrd-front :
      (io : Io KeyQueue) (down : Bool) (code : ℕ) (xs : List ℕ)
      → code < 2 ^ 15
      → IsQueue io.dev (encode (down, code) ∷ xs)
      → (io' : Io KeyQueue) × (am_input_keybrd base io ≡ ok ((down, code), io'))
        × IsQueue io'.dev xs
  am_input_keybrd-front io down code xs small queue =
      let (q, takes, rest) = key_dequeue-front io.dev (encode (down, code)) xs queue in
      let (io', reads, left) =
        am_input_keybrd-dequeue io q down code (encode (down, code)) takes
          (encode-lt down code small) (decode_encode down code small) in
      (io', reads, rw left rest)

  pub am_input_keybrd_empty :
      (io : Io KeyQueue)
      → IsQueue io.dev []
      → (io' : Io KeyQueue) × (am_input_keybrd base io ≡ ok ((false, 0), io')) × IsQueue io'.dev []
  am_input_keybrd_empty io queue =
      let (io', reads, left) =
        am_input_keybrd-dequeue io io.dev false 0 0 (key_dequeue_empty io.dev queue) (omega arith)
          (refl, refl) in
      (io', reads, rw left queue)
