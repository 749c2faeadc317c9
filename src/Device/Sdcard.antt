-- ===== src/Device/Sdcard.antt =====
-- The SD card: nemu/src/device/sdcard.c, with the commands of nemu/src/device/mmc.h. The file is its
-- bytes, its size and the position.
pub mod Blocks
use ysyxworkbench.Prelude.{
  ℕ, zero, suc, ◌+◌, ◌-◌, ◌*◌, ◌/◌, ◌%◌, ◌^◌, max, Bool, true, false, not, ◌&&◌, ◌||◌, Option, none,
  some, Result, ok, fault, assertion, ◌>>=◌, List, [], ◌∷◌, ltb, leb, ◌==◌, if◌then◌else◌, u32,
  bit_and, bit_or,
}
use ysyxworkbench.Memory.{store, byte_of}

abbrev pub memory_size : ℕ
memory_size = 16 * 1024 * 1024 * 1024

abbrev pub read_bl_len : ℕ
read_bl_len = 15

-- NR_BLOCK / MULT - 1
abbrev pub c_size : ℕ
c_size = memory_size / 2 ^ read_bl_len / 2 ^ 9 - 1

-- The numbers of the registers
abbrev pub sdcmd : ℕ
sdcmd = 0

abbrev pub sdarg : ℕ
sdarg = 1

abbrev pub sdrsp : ℕ
sdrsp = 4

abbrev pub sddata : ℕ
sddata = 16

pub record File : Type 0 where
  pub bytes : ℕ → ℕ
  pub size : ℕ
  pub pos : ℕ

-- The static variables; `base` has a word for each register.
pub record Card : Type 0 where
  pub fp : Option File
  pub base : ℕ → ℕ
  pub blkcnt : ℕ
  pub blk_addr : ℕ
  pub addr : ℕ
  pub write_cmd : Bool
  pub read_ext_csd : Bool

-- `fread(&word, 4, 1, fp)`: behind the end of the file the bytes of the word stay.
unfoldable pub read_byte : File → ℕ → ℕ → ℕ
read_byte f old i = if ltb (f.pos + i) f.size then f.bytes (f.pos + i) else byte_of old i

unfoldable pub fread_word : ℕ → File → ℕ × File
unfolding read_byte
fread_word old f = (
  read_byte f old 0
      + 256 * read_byte f old 1
      + 65536 * read_byte f old 2
      + 16777216 * read_byte f old 3,
  record f { pos = if leb (f.pos + 4) f.size then f.pos + 4 else max f.pos f.size },
)

-- `fwrite(&word, 4, 1, fp)`: a gap behind the old end is filled with zeros.
unfoldable pub fwrite_word : ℕ → File → File
fwrite_word word f =
    let filled = λ (i : ℕ). if leb f.size i && ltb i f.pos then 0 else f.bytes i in
    record f {
      bytes =
          store
            (store (store (store filled f.pos (byte_of word 0)) (f.pos + 1) (byte_of word 1))
              (f.pos + 2) (byte_of word 2))
            (f.pos + 3) (byte_of word 3);
      size = max f.size (f.pos + 4);
      pos = f.pos + 4;
    }

unfoldable pub seek : ℕ → Option File → Option File
seek at none = none
seek at (some f) = some (record f { pos = at })

unfoldable pub prepare_rw : Bool → Card → Card
unfolding seek
prepare_rw is_write c =
    let arg = c.base sdarg in
    record c { blk_addr = arg; addr = 0; fp = seek (arg * 2 ^ 9) c.fp; write_cmd = is_write }

abbrev pub respond : ℕ → ℕ → ℕ → ℕ → (ℕ → ℕ) → ℕ → ℕ
respond r0 r1 r2 r3 base =
    store (store (store (store base sdrsp r0) (sdrsp + 1) r1) (sdrsp + 2) r2) (sdrsp + 3) r3

-- The commands that change nothing: GO_IDLE_STATE, 52, SLEEP_AWAKE, APP_CMD, SET_RELATIVE_ADDR,
-- SELECT_CARD and STOP_TRANSMISSION
abbrev pub is_ignored : ℕ → Bool
is_ignored cmd = cmd == 0 || cmd == 52 || cmd == 5 || cmd == 55 || cmd == 3 || cmd == 7 || cmd == 12

unfoldable pub sdcard_handle_cmd : ℕ → Card → Result Card
unfolding prepare_rw
sdcard_handle_cmd cmd c =
    if is_ignored cmd
    then ok c
    else if cmd == 1
    then ok (record c { base = store c.base sdrsp 0x80ff8000 })
    else if cmd == 2
    then ok (record c { base = respond 1 0 0 0x15000000 c.base })
    else if cmd == 9
    then ok (record c {
      base =
          respond 0x92404001 (bit_or 0x124b97e3 (c_size % 4 * 2 ^ 30))
            (bit_or (bit_or 0x0f508000 (c_size / 4)) (read_bl_len * 2 ^ 16)) 0x9026012a c.base;
    })
    else if cmd == 8
    then ok (record c { read_ext_csd = true; addr = 0 })
    else if cmd == 23
    then ok (record c { blkcnt = c.base sdarg % 2 ^ 16 })
    else if cmd == 18
    then ok (prepare_rw false c)
    else if cmd == 25
    then ok (prepare_rw true c)
    else if cmd == 13
    then ok (record c { base = respond 0x900 0 0 0 c.base })
    else fault assertion

-- A word of the register EXT_CSD
unfoldable pub ext_csd : ℕ → ℕ
ext_csd addr = if addr == 192 then 2 else if addr == 212 then memory_size / 512 else 0

-- The case SDDATA.
unfoldable pub transfer : Card → Card
unfolding ext_csd fread_word fwrite_word
transfer c =
    let next = u32 (c.addr + 4) in
    if c.read_ext_csd
    then record c {
      base = store c.base sddata (ext_csd c.addr);
      read_ext_csd = not (c.addr == 512 - 4);
      addr = next;
    }
    else elim c.fp [
      | none ↦ record c { addr = next }
      | some f ↦
          if c.write_cmd
          then record c { fp = some (fwrite_word (c.base sddata) f); addr = next }
          else (let (word, f') = fread_word (c.base sddata) f in
              record c { base = store c.base sddata word; fp = some f'; addr = next })
    ]

unfoldable pub sdcard_io_handler : ℕ → Card → Result Card
unfolding sdcard_handle_cmd transfer
sdcard_io_handler offset c =
    let idx = offset / 4 in
    if idx == sdcmd
    then sdcard_handle_cmd (c.base sdcmd % 2 ^ 6) c
    else if idx == sdarg || (leb sdrsp idx && leb idx (sdrsp + 3))
    then ok c
    else if idx == sddata
    then ok (transfer c)
    else fault assertion

-- The guest's accesses of a word: a write stores and calls the handler, a read calls it first.
unfoldable pub write_register : ℕ → ℕ → Card → Result Card
unfolding sdcard_io_handler
write_register idx word c = sdcard_io_handler (4 * idx) (record c { base = store c.base idx word })

unfoldable pub read_register : ℕ → Card → Result (ℕ × Card)
unfolding sdcard_io_handler
read_register idx c = sdcard_io_handler (4 * idx) c >>= λ c'. ok (c'.base idx, c')

-- A driver's transfers
unfoldable pub write_data : List ℕ → Card → Result Card
write_data [] c = ok c
write_data (w ∷ ws) c = write_register sddata w c >>= λ c'. write_data ws c'

unfoldable pub read_data : ℕ → Card → Result (List ℕ × Card)
read_data zero c = ok ([], c)
read_data (suc n) c =
    read_register sddata c >>= λ (w, c'). read_data n c' >>= λ (ws, c''). ok (w ∷ ws, c'')

unfoldable pub send_command : ℕ → ℕ → Card → Result Card
send_command cmd arg c = write_register sdarg arg c >>= λ c'. write_register sdcmd cmd c'
