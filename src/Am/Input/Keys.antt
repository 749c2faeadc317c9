-- ===== src/Am/Input/Keys.antt =====
-- Keys that the host's keyboard sends and the guest reads.
use ysyxworkbench.Prelude.{
  ℕ, zero, suc, ◌+◌, ◌^◌, ◌<◌, ◌≤◌, ◌≡◌, refl, ap, ◌∙◌, inl, inr, Bool, true, false, Result, ok,
  arith, ◌==◌, Bool-cases, if_cases, ◌>>=◌, List, [], ◌∷◌, ◌++◌, length, map, length-append,
  if◌then◌else◌,
}
use mathlib.Core.List.{append-nil, append_assoc}
use ysyxworkbench.Device.Map.{Io, io_space_max}
use ysyxworkbench.Device.Keyboard.{KeyQueue, key_queue_len, send_key, key_enqueue}
use ysyxworkbench.Device.Keyboard.Queue.{IsQueue, key_enqueue-snoc}
use ysyxworkbench.Am.Input.{am_input_keybrd}
use ysyxworkbench.Am.Input.Reads.{AmKey, encode, am_input_keybrd-front, am_input_keybrd_empty}

-- Keys that SDL reports: a scancode, and whether the key goes down.
abbrev pub send_keys : (ℕ → ℕ) → List (ℕ × Bool) → KeyQueue → Result KeyQueue
send_keys keymap [] q = ok q
send_keys keymap ((scancode, down) ∷ events) q = do
  q' ← send_key keymap true scancode down q
  send_keys keymap events q'

-- `n` reads of the guest
abbrev pub read_keys : ℕ → ℕ → Io KeyQueue → Result (List AmKey × Io KeyQueue)
read_keys base zero io = ok ([], io)
read_keys base (suc n) io = do
  (key, io1) ← am_input_keybrd base io
  (keys, io2) ← read_keys base n io1
  ok (key ∷ keys, io2)

-- What the guest is to see of them: the keys that the keymap has.
abbrev pub mapped : (ℕ → ℕ) → List (ℕ × Bool) → List AmKey
mapped keymap [] = []
mapped keymap ((scancode, down) ∷ events) =
    let keys = mapped keymap events in
    if keymap scancode == 0 then keys else (down, keymap scancode) ∷ keys

module _ (keymap : ℕ → ℕ) where
  mapped_skip :
      (scancode : ℕ) (down : Bool) (events : List (ℕ × Bool)) (q : KeyQueue)
      → (keymap scancode == 0) ≡ true
      → (mapped keymap ((scancode, down) ∷ events) ≡ mapped keymap events)
        × (send_key keymap true scancode down q ≡ ok q)
  unfolding send_key
  mapped_skip scancode down events q none_mapped = rw none_mapped (refl, refl)

  mapped_key :
      (scancode : ℕ) (down : Bool) (events : List (ℕ × Bool)) (q : KeyQueue)
      → (keymap scancode == 0) ≡ false
      → (mapped keymap ((scancode, down) ∷ events) ≡ (down, keymap scancode) ∷ mapped keymap events)
        × (send_key keymap true scancode down q ≡ key_enqueue (encode (down, keymap scancode)) q)
  unfolding send_key
  mapped_key scancode down events q is_mapped = rw is_mapped (refl, refl)

  send_keys-cons :
      (scancode : ℕ) (down : Bool) (events : List (ℕ × Bool)) (q q1 q' : KeyQueue)
      → send_key keymap true scancode down q ≡ ok q1
      → send_keys keymap events q1 ≡ ok q'
      → send_keys keymap ((scancode, down) ∷ events) q ≡ ok q'
  send_keys-cons scancode down events q q1 q' first others = rw first others

  -- A queue takes the keys that the keymap has, if they fit.
  send_keys-IsQueue :
      (events : List (ℕ × Bool)) (q : KeyQueue) (xs : List ℕ)
      → IsQueue q xs
      → length xs + length (mapped keymap events) < key_queue_len
      → (q' : KeyQueue) × (send_keys keymap events q ≡ ok q')
        × IsQueue q' (xs ++ map encode (mapped keymap events))
  send_keys-IsQueue [] q xs queue room = (q, refl, rw append-nil queue)
  send_keys-IsQueue ((scancode, down) ∷ events) q xs queue room =
      elim (Bool-cases (keymap scancode == 0)) [
        | inl none_mapped ↦
            let (same, skips) = mapped_skip scancode down events q none_mapped in
            let (q', sends, queue') =
              send_keys-IsQueue events q xs queue (omega (arith, ap length same)) in
            (q', send_keys-cons scancode down events q q q' skips sends, rw same queue')
        | inr is_mapped ↦
            let key = encode (down, keymap scancode) in
            let (longer, enqueues) = mapped_key scancode down events q is_mapped in
            let (q1, enqueued, queue1) =
              key_enqueue-snoc q xs key queue (omega (arith, ap length longer)) in
            let (q', sends, queue') =
              send_keys-IsQueue events q1 (xs ++ key ∷ []) queue1
                (omega (arith, ap length longer, length-append xs (key ∷ []))) in
            (
              q',
              send_keys-cons scancode down events q q1 q' (enqueues ∙ enqueued) sends,
              rw (longer, ← append_assoc xs (key ∷ []) (map encode (mapped keymap events))) queue',
            )
      ]

-- Reading all the keys of a queue.
abbrev AllCodes : List AmKey → Type 0
AllCodes [] = Unit
AllCodes ((down, code) ∷ keys) = (code < 2 ^ 15) × AllCodes keys

mapped-AllCodes :
    (keymap : ℕ → ℕ) (events : List (ℕ × Bool))
    → ((scancode : ℕ) → keymap scancode < 2 ^ 15)
    → AllCodes (mapped keymap events)
mapped-AllCodes keymap [] small = tt
mapped-AllCodes keymap ((scancode, down) ∷ events) small =
    if_cases AllCodes (keymap scancode == 0) (mapped keymap events) _
      (λ none_mapped. mapped-AllCodes keymap events small)
      (λ is_mapped. (small scancode, mapped-AllCodes keymap events small))

read_keys-all :
    (base : ℕ) (keys : List AmKey) (io : Io KeyQueue)
    → base + 4 ≤ io_space_max
    → AllCodes keys
    → IsQueue io.dev (map encode keys)
    → (io' : Io KeyQueue) × (read_keys base (length keys) io ≡ ok (keys, io')) × IsQueue io'.dev []
read_keys-all base [] io fits codes queue = (io, refl, queue)
read_keys-all base ((down, code) ∷ keys) io fits (small, codes) queue =
    let (io1, reads, queue1) =
      am_input_keybrd-front base fits io down code (map encode keys) small queue in
    let (io2, others, queue2) = read_keys-all base keys io1 fits codes queue1 in
    (io2, rw (reads, others) refl, queue2)

-- The keyboard's register is inside `io_space`, the keymap gives numbers below 2^15, and at most
-- 1023 of the events are of keys that it has. Then sending them to an empty queue succeeds, as
-- many reads of the guest as there are such events give these keys in their order, down or up as
-- they were sent, and one more read gives no key.
pub read_keys-send_keys :
    (base : ℕ) (keymap : ℕ → ℕ) (events : List (ℕ × Bool)) (io : Io KeyQueue)
    → base + 4 ≤ io_space_max
    → ((scancode : ℕ) → keymap scancode < 2 ^ 15)
    → IsQueue io.dev []
    → length (mapped keymap events) < key_queue_len
    → (q : KeyQueue) × (io1 : Io KeyQueue) × (io2 : Io KeyQueue) × (send_keys keymap events io.dev
        ≡ ok q)
      × (read_keys base (length (mapped keymap events)) (record io { dev = q })
          ≡ ok (mapped keymap events, io1))
      × (am_input_keybrd base io1 ≡ ok ((false, 0), io2))
read_keys-send_keys base keymap events io fits small empty room =
    let (q, sends, queue) = send_keys-IsQueue keymap events io.dev [] empty (omega arith) in
    let (io1, reads, queue1) =
      read_keys-all base (mapped keymap events) (record io { dev = q }) fits
        (mapped-AllCodes keymap events small) queue in
    let (io2, last, queue2) = am_input_keybrd_empty base fits io1 queue1 in
    (q, io1, io2, sends, reads, last)
