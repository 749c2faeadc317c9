-- ===== src/Device/Sdcard/Blocks.antt =====
-- Words that are written to the card of nemu/src/device/sdcard.c and read again.
use ysyxworkbench.Prelude.{
  ℕ, ◌+◌, ◌*◌, ◌^◌, ◌≤◌, ◌<◌, ◌≡◌, refl, ap, ap₂, ◌∙◌, Bool, true, false, Option, some, Result, ok,
  ◌>>=◌, List, [], ◌∷◌, length, u32, arith,
}
use ysyxworkbench.Memory.{store, byte_of}
use ysyxworkbench.Device.Sdcard.{
  File, Card, sdcmd, sdarg, sddata, read_byte, fread_word, fwrite_word, seek, prepare_rw,
  sdcard_handle_cmd, transfer, sdcard_io_handler, write_register, read_register, write_data,
  read_data, send_command,
}

-- The words stand in the file from `at` on.
Stored : List ℕ → ℕ → File → Type 0
Stored [] at f = Unit {0}
Stored (w ∷ ws) at f =
    (at + 4 ≤ f.size) × ((i : ℕ) → i < 4 → f.bytes (at + i) ≡ byte_of w i) × Stored ws (at + 4) f

-- The words of the CPU have 32 bits.
unfoldable pub Words : List ℕ → Type 0
Words [] = Unit {0}
Words (w ∷ ws) = (w < 2 ^ 32) × Words ws

-- `g` has all that `f` has below its position.
record IsLater (f g : File) : Type 0 where
  grown : f.size ≤ g.size
  kept : (i : ℕ) → i < f.pos → i < f.size → g.bytes i ≡ f.bytes i

put_words : List ℕ → File → File
put_words [] f = f
put_words (w ∷ ws) f = put_words ws (fwrite_word w f)

fwrite_word-IsLater : (w : ℕ) (f g : File) → IsLater (fwrite_word w f) g → IsLater f g
unfolding fwrite_word
fwrite_word-IsLater w f g later =
    let grown = later.grown in
    record {
      grown = omega (arith, grown);
      kept = λ i below inside. later.kept i (omega arith) (omega arith) ∙ ground arith;
    }

put_words-IsLater : (ws : List ℕ) (f : File) → IsLater f (put_words ws f)
unfolding put_words
put_words-IsLater [] f = record { grown = omega arith; kept = λ i below inside. refl }
put_words-IsLater (w ∷ ws) f =
    fwrite_word-IsLater w f (put_words ws (fwrite_word w f))
      (put_words-IsLater ws (fwrite_word w f))

written_byte :
    (w : ℕ) (f : File) (i : ℕ) → i < 4 → (fwrite_word w f).bytes (f.pos + i) ≡ byte_of w i
unfolding fwrite_word
written_byte w f i below = grind arith

put_words-Stored : (ws : List ℕ) (f : File) → Stored ws f.pos (put_words ws f)
unfolding put_words Stored fwrite_word
put_words-Stored [] f = tt
put_words-Stored (w ∷ ws) f =
    let later = put_words-IsLater ws (fwrite_word w f) in
    let grown = later.grown in
    (
      omega (arith, grown),
      λ i below.
          later.kept (f.pos + i) (omega (arith, below)) (omega (arith, below))
          ∙ written_byte w f i below,
      put_words-Stored ws (fwrite_word w f),
    )

Stored-moved :
    (ws : List ℕ) (at p : ℕ) (f : File) → Stored ws at f → Stored ws at (record f { pos = p })
unfolding Stored
Stored-moved [] at p f stored = tt
Stored-moved (w ∷ ws) at p f (room, same, later) = (room, same, Stored-moved ws (at + 4) p f later)

stored_byte :
    (old w i : ℕ) (f : File)
    → f.pos + i < f.size
    → f.bytes (f.pos + i) ≡ byte_of w i
    → read_byte f old i ≡ byte_of w i
unfolding read_byte
stored_byte old w i f inside same = ground (arith, same)

fread_word-Stored :
    (old w : ℕ) (ws : List ℕ) (f : File)
    → w < 2 ^ 32
    → Stored (w ∷ ws) f.pos f
    → fread_word old f ≡ (w, record f { pos = f.pos + 4 })
unfolding fread_word Stored
fread_word-Stored old w ws f word (room, same, later) =
    let b0 = stored_byte old w 0 f (omega (arith, room)) (same 0 (omega arith)) in
    let b1 = stored_byte old w 1 f (omega (arith, room)) (same 1 (omega arith)) in
    let b2 = stored_byte old w 2 f (omega (arith, room)) (same 2 (omega arith)) in
    let b3 = stored_byte old w 3 f (omega (arith, room)) (same 3 (omega arith)) in
    ap₂ (λ (v p : ℕ). (v, record f { pos = p })) (omega (arith, word, b0, b1, b2, b3))
      (ground (arith, room))

-- A card between the transfers of words
abbrev moving : Bool → File → (ℕ → ℕ) → ℕ → ℕ → ℕ → Card
moving is_write f base blkcnt blk_addr addr = record {
  fp = some f;
  base = base;
  blkcnt = blkcnt;
  blk_addr = blk_addr;
  addr = addr;
  write_cmd = is_write;
  read_ext_csd = false;
}

write_data-put_words :
    (ws : List ℕ) (f : File) (base : ℕ → ℕ) (blkcnt blk_addr addr : ℕ)
    → (base' : ℕ → ℕ) × (addr' : ℕ) × (write_data ws (moving true f base blkcnt blk_addr addr)
        ≡ ok (moving true (put_words ws f) base' blkcnt blk_addr addr'))
unfolding write_data put_words write_register sdcard_io_handler transfer
write_data-put_words [] f base blkcnt blk_addr addr = (base, addr, refl)
write_data-put_words (w ∷ ws) f base blkcnt blk_addr addr =
    write_data-put_words ws (fwrite_word w f) (store base sddata w) blkcnt blk_addr (u32 (addr + 4))

read_register-Stored :
    (w : ℕ) (ws : List ℕ) (f : File) (base : ℕ → ℕ) (blkcnt blk_addr addr : ℕ)
    → w < 2 ^ 32
    → Stored (w ∷ ws) f.pos f
    → read_register sddata (moving false f base blkcnt blk_addr addr)
      ≡ ok (
        w,
        moving false
            (record f { pos = f.pos + 4 })
            (store base sddata w)
            blkcnt
            blk_addr
            (u32 (addr + 4)),
      )
unfolding read_register sdcard_io_handler transfer fread_word
read_register-Stored w ws f base blkcnt blk_addr addr word stored =
    ap
      (λ (r : ℕ × File).
        ok (r.0, moving false r.1 (store base sddata r.0) blkcnt blk_addr (u32 (addr + 4))))
      (fread_word-Stored (base sddata) w ws f word stored)

read_data-Stored :
    (ws : List ℕ) (f : File) (base : ℕ → ℕ) (blkcnt blk_addr addr : ℕ)
    → Words ws
    → Stored ws f.pos f
    → (c : Card) × (read_data (length ws) (moving false f base blkcnt blk_addr addr) ≡ ok (ws, c))
unfolding read_data Words Stored
read_data-Stored [] f base blkcnt blk_addr addr words stored =
    (moving false f base blkcnt blk_addr addr, refl)
read_data-Stored (w ∷ ws) f base blkcnt blk_addr addr (word, words) stored =
    let (c, rest) =
      read_data-Stored ws (record f { pos = f.pos + 4 }) (store base sddata w) blkcnt blk_addr
        (u32 (addr + 4)) words (Stored-moved ws (f.pos + 4) (f.pos + 4) f stored.2) in
    (
      c,
      ap
            (λ (r : Result (ℕ × Card)).
              r >>= λ (v, c'). read_data (length ws) c' >>= λ (vs, c''). ok (v ∷ vs, c''))
            (read_register-Stored w ws f base blkcnt blk_addr addr word stored)
          ∙ ap (λ (r : Result (List ℕ × Card)). r >>= λ (vs, c''). ok (w ∷ vs, c'')) rest,
    )

write_command :
    (a : ℕ) (c : Card) (f : File)
    → c.fp ≡ some f
    → c.read_ext_csd ≡ false
    → send_command 25 a c
      ≡ ok (
          moving true
            (record f { pos = a * 2 ^ 9 })
            (store (store c.base sdarg a) sdcmd 25)
            c.blkcnt
            a
            0)
unfolding send_command write_register sdcard_io_handler sdcard_handle_cmd prepare_rw seek
write_command a c f image no_csd =
    ap₂
      (λ (fp : Option File) (csd : Bool). ok (
        prepare_rw true
          (record c { fp = fp; read_ext_csd = csd; base = store (store c.base sdarg a) sdcmd 25 })))
      image no_csd

read_command :
    (a : ℕ) (f : File) (base : ℕ → ℕ) (blkcnt blk_addr addr : ℕ)
    → send_command 18 a (moving true f base blkcnt blk_addr addr)
      ≡ ok (
          moving false
            (record f { pos = a * 2 ^ 9 })
            (store (store base sdarg a) sdcmd 18)
            blkcnt
            a
            0)
unfolding send_command write_register sdcard_io_handler sdcard_handle_cmd prepare_rw seek
read_command a f base blkcnt blk_addr addr = refl

-- After the command to write blocks at `a`, the words that are written come back after the command to
-- read blocks at `a`, however many they are and whatever the file held, when there is an image and no
-- EXT_CSD is being read.
pub read_data-write_data :
    (a : ℕ) (ws : List ℕ) (c : Card) (f : File)
    → c.fp ≡ some f
    → c.read_ext_csd ≡ false
    → Words ws
    → (c' : Card) × ((send_command 25 a c >>= λ c₁.
          write_data ws c₁ >>= λ c₂. send_command 18 a c₂ >>= λ c₃. read_data (length ws) c₃)
        ≡ ok (ws, c'))
read_data-write_data a ws c f image no_csd words =
    let start : File = record f { pos = a * 2 ^ 9 } in
    let (base, addr, written) =
      write_data-put_words ws start (store (store c.base sdarg a) sdcmd 25) c.blkcnt a 0 in
    let stored = put_words-Stored ws start in
    let (c', back) =
      read_data-Stored ws (record (put_words ws start) { pos = a * 2 ^ 9 })
        (store (store base sdarg a) sdcmd 18) c.blkcnt a 0 words
        (Stored-moved ws (a * 2 ^ 9) (a * 2 ^ 9) (put_words ws start) stored) in
    (
      c',
      ap
            (λ (r : Result Card). r >>= λ c₁.
              write_data ws c₁ >>= λ c₂. send_command 18 a c₂ >>= λ c₃. read_data (length ws) c₃)
            (write_command a c f image no_csd)
          ∙ ap
              (λ (r : Result Card).
                r >>= λ c₂. send_command 18 a c₂ >>= λ c₃. read_data (length ws) c₃)
              written
          ∙ ap (λ (r : Result Card). r >>= λ c₃. read_data (length ws) c₃)
              (read_command a (put_words ws start) base c.blkcnt a addr)
          ∙ back,
    )
