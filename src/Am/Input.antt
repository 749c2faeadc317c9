-- ===== src/Am/Input.antt =====
-- The guest's keyboard, abstract-machine/am/src/platform/nemu/ioe/input.c, over the map of
-- nemu/src/device/keyboard.c, and the one of abstract-machine/am/src/riscv/npc/input.c. `Keys` is
-- about keys sent and keys read.
pub mod Reads
pub mod Keys
use ysyxworkbench.Prelude.{ℕ, ◌+◌, Bool, false, not, some, Result, ok, ◌>>=◌, ◌==◌, bit_and}
use ysyxworkbench.Device.Map.{IoMap, Io, map_read}
use ysyxworkbench.Device.Keyboard.{KeyQueue, i8042_data_io_handler}

abbrev pub kbd_addr : ℕ
kbd_addr = 0xa0000060

-- The map that `init_i8042` adds.
abbrev pub i8042 : ℕ → IoMap (Unit {0})
i8042 base = record {
  name = "keyboard";
  low = kbd_addr;
  high = kbd_addr + 3;
  space = base;
  callback = some tt;
}

-- `keydown` and `keycode`; the registers are at `base` in `io_space`.
unfoldable pub am_input_keybrd : ℕ → Io KeyQueue → Result ((Bool × ℕ) × Io KeyQueue)
am_input_keybrd base io = do
  (k, io') ← map_read (λ device. i8042_data_io_handler base) kbd_addr 4 (some (i8042 base)) io
  ok ((not (bit_and k 0x8000 == 0), bit_and k 0xffff_7fff), io')

unfoldable pub npc_input_keybrd : Bool × ℕ
npc_input_keybrd = (false, 0)
