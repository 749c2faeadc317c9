-- ===== src/Device/Keyboard.antt =====
-- The keyboard: nemu/src/device/keyboard.c. The scancodes are SDL's: `keymap` is a parameter.
pub mod Queue
use ysyxworkbench.Prelude.{
  ℕ, ◌+◌, ◌%◌, Bool, true, false, not, ◌&&◌, Result, ok, assert, ◌>>=◌, ◌>>◌, ◌==◌, if◌then◌else◌,
  bit_or,
}
use ysyxworkbench.Memory.{host_write}
use ysyxworkbench.Device.Map.{Io, io_space_max}

abbrev pub key_queue_len : ℕ
key_queue_len = 1024

abbrev pub keydown_mask : ℕ
keydown_mask = 0x8000

abbrev pub key_none : ℕ
key_none = 0

-- `key_queue`, `key_f` and `key_r`
pub record KeyQueue : Type 0 where
  pub key_queue : ℕ → ℕ
  pub key_f : ℕ
  pub key_r : ℕ

abbrev pub put_key : (ℕ → ℕ) → ℕ → ℕ → ℕ → ℕ
put_key queue i key j = if i == j then key else queue j

unfoldable pub key_enqueue : ℕ → KeyQueue → Result KeyQueue
key_enqueue am_scancode q = do
  let r' = (q.key_r + 1) % key_queue_len
  assert (not (r' == q.key_f))
  ok (record { key_queue = put_key q.key_queue q.key_r am_scancode; key_f = q.key_f; key_r = r' })

unfoldable pub key_dequeue : KeyQueue → ℕ × KeyQueue
key_dequeue q =
    if not (q.key_f == q.key_r)
    then (q.key_queue q.key_f, record q { key_f = (q.key_f + 1) % key_queue_len })
    else (key_none, q)

unfoldable pub send_key : (ℕ → ℕ) → Bool → ℕ → Bool → KeyQueue → Result KeyQueue
unfolding key_enqueue
send_key keymap running scancode is_keydown q =
    if running && not (keymap scancode == key_none)
    then key_enqueue (bit_or (keymap scancode) (if is_keydown then keydown_mask else 0)) q
    else ok q

-- `i8042_data_io_handler`; `base` is the index of `i8042_data_port_base` in `io_space`.
unfoldable pub i8042_data_io_handler : ℕ → ℕ → ℕ → Bool → Io KeyQueue → Result (Io KeyQueue)
unfolding key_dequeue
i8042_data_io_handler base offset len is_write io = do
  assert (not is_write)
  assert (offset == 0)
  let (key, q) = key_dequeue io.dev
  bytes ← host_write io.io_space io_space_max base 4 key
  ok (record io { io_space = bytes; dev = q })
