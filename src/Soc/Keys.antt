-- ===== src/Soc/Keys.antt =====
-- The keys of abstract-machine/am/include/amdev.h and the two tables of
-- abstract-machine/am/src/riscv/ysyxsoc/ioe.c: `key_from_char` and `key_from_ps2`.
use ysyxworkbench.Prelude.{ℕ, Bool, List, [], ◌∷◌, ◌==◌, if◌then◌else◌}

-- AM_KEY_NONE and AM_KEYS
pub data Key : Type 0 where
  key_none key_escape key_f1 key_f2 key_f3 key_f4 key_f5 key_f6 key_f7 key_f8 key_f9 key_f10 key_f11
        key_f12 key_grave key_1 key_2 key_3 key_4 key_5 key_6 key_7 key_8 key_9 key_0 key_minus
        key_equals key_backspace key_tab key_q key_w key_e key_r key_t key_y key_u key_i key_o key_p
        key_leftbracket key_rightbracket key_backslash key_capslock key_a key_s key_d key_f key_g
        key_h key_j key_k key_l key_semicolon key_apostrophe key_return key_lshift key_z key_x key_c
        key_v key_b key_n key_m key_comma key_period key_slash key_rshift key_lctrl key_application
        key_lalt key_space key_ralt key_rctrl key_up key_down key_left key_right key_insert
        key_delete key_home key_end key_pageup key_pagedown :
      Key

-- A `switch` over codes
unfoldable pub select : List (ℕ × Key) → ℕ → Key
select [] code = key_none
select ((c, key) ∷ table) code = if code == c then key else select table code

abbrev char_keys : List (ℕ × Key)
char_keys =
    (0x1b, key_escape)
    ∷ (0xd, key_return)
    ∷ (0xa, key_return)
    ∷ (0x8, key_backspace)
    ∷ (0x7f, key_backspace)
    ∷ (0x9, key_tab)
    ∷ (0x20, key_space)
    ∷ (0x60, key_grave)
    ∷ (0x2d, key_minus)
    ∷ (0x3d, key_equals)
    ∷ (0x5b, key_leftbracket)
    ∷ (0x5d, key_rightbracket)
    ∷ (0x5c, key_backslash)
    ∷ (0x3b, key_semicolon)
    ∷ (0x27, key_apostrophe)
    ∷ (0x2c, key_comma)
    ∷ (0x2e, key_period)
    ∷ (0x2f, key_slash)
    ∷ (0x30, key_0)
    ∷ (0x31, key_1)
    ∷ (0x32, key_2)
    ∷ (0x33, key_3)
    ∷ (0x34, key_4)
    ∷ (0x35, key_5)
    ∷ (0x36, key_6)
    ∷ (0x37, key_7)
    ∷ (0x38, key_8)
    ∷ (0x39, key_9)
    ∷ (0x61, key_a)
    ∷ (0x41, key_a)
    ∷ (0x62, key_b)
    ∷ (0x42, key_b)
    ∷ (0x63, key_c)
    ∷ (0x43, key_c)
    ∷ (0x64, key_d)
    ∷ (0x44, key_d)
    ∷ (0x65, key_e)
    ∷ (0x45, key_e)
    ∷ (0x66, key_f)
    ∷ (0x46, key_f)
    ∷ (0x67, key_g)
    ∷ (0x47, key_g)
    ∷ (0x68, key_h)
    ∷ (0x48, key_h)
    ∷ (0x69, key_i)
    ∷ (0x49, key_i)
    ∷ (0x6a, key_j)
    ∷ (0x4a, key_j)
    ∷ (0x6b, key_k)
    ∷ (0x4b, key_k)
    ∷ (0x6c, key_l)
    ∷ (0x4c, key_l)
    ∷ (0x6d, key_m)
    ∷ (0x4d, key_m)
    ∷ (0x6e, key_n)
    ∷ (0x4e, key_n)
    ∷ (0x6f, key_o)
    ∷ (0x4f, key_o)
    ∷ (0x70, key_p)
    ∷ (0x50, key_p)
    ∷ (0x71, key_q)
    ∷ (0x51, key_q)
    ∷ (0x72, key_r)
    ∷ (0x52, key_r)
    ∷ (0x73, key_s)
    ∷ (0x53, key_s)
    ∷ (0x74, key_t)
    ∷ (0x54, key_t)
    ∷ (0x75, key_u)
    ∷ (0x55, key_u)
    ∷ (0x76, key_v)
    ∷ (0x56, key_v)
    ∷ (0x77, key_w)
    ∷ (0x57, key_w)
    ∷ (0x78, key_x)
    ∷ (0x58, key_x)
    ∷ (0x79, key_y)
    ∷ (0x59, key_y)
    ∷ (0x7a, key_z)
    ∷ (0x5a, key_z)
    ∷ []

abbrev extended_keys : List (ℕ × Key)
extended_keys =
    (0x11, key_ralt)
    ∷ (0x14, key_rctrl)
    ∷ (0x1f, key_application)
    ∷ (0x6b, key_left)
    ∷ (0x69, key_end)
    ∷ (0x6c, key_home)
    ∷ (0x70, key_insert)
    ∷ (0x71, key_delete)
    ∷ (0x72, key_down)
    ∷ (0x74, key_right)
    ∷ (0x75, key_up)
    ∷ (0x7a, key_pagedown)
    ∷ (0x7d, key_pageup)
    ∷ []

abbrev plain_keys : List (ℕ × Key)
plain_keys =
    (0x76, key_escape)
    ∷ (0x05, key_f1)
    ∷ (0x06, key_f2)
    ∷ (0x04, key_f3)
    ∷ (0x0c, key_f4)
    ∷ (0x03, key_f5)
    ∷ (0x0b, key_f6)
    ∷ (0x83, key_f7)
    ∷ (0x0a, key_f8)
    ∷ (0x01, key_f9)
    ∷ (0x09, key_f10)
    ∷ (0x78, key_f11)
    ∷ (0x07, key_f12)
    ∷ (0x0e, key_grave)
    ∷ (0x16, key_1)
    ∷ (0x1e, key_2)
    ∷ (0x26, key_3)
    ∷ (0x25, key_4)
    ∷ (0x2e, key_5)
    ∷ (0x36, key_6)
    ∷ (0x3d, key_7)
    ∷ (0x3e, key_8)
    ∷ (0x46, key_9)
    ∷ (0x45, key_0)
    ∷ (0x4e, key_minus)
    ∷ (0x55, key_equals)
    ∷ (0x66, key_backspace)
    ∷ (0x0d, key_tab)
    ∷ (0x15, key_q)
    ∷ (0x1d, key_w)
    ∷ (0x24, key_e)
    ∷ (0x2d, key_r)
    ∷ (0x2c, key_t)
    ∷ (0x35, key_y)
    ∷ (0x3c, key_u)
    ∷ (0x43, key_i)
    ∷ (0x44, key_o)
    ∷ (0x4d, key_p)
    ∷ (0x54, key_leftbracket)
    ∷ (0x5b, key_rightbracket)
    ∷ (0x5d, key_backslash)
    ∷ (0x58, key_capslock)
    ∷ (0x1c, key_a)
    ∷ (0x1b, key_s)
    ∷ (0x23, key_d)
    ∷ (0x2b, key_f)
    ∷ (0x34, key_g)
    ∷ (0x33, key_h)
    ∷ (0x3b, key_j)
    ∷ (0x42, key_k)
    ∷ (0x4b, key_l)
    ∷ (0x4c, key_semicolon)
    ∷ (0x52, key_apostrophe)
    ∷ (0x5a, key_return)
    ∷ (0x12, key_lshift)
    ∷ (0x1a, key_z)
    ∷ (0x22, key_x)
    ∷ (0x21, key_c)
    ∷ (0x2a, key_v)
    ∷ (0x32, key_b)
    ∷ (0x31, key_n)
    ∷ (0x3a, key_m)
    ∷ (0x41, key_comma)
    ∷ (0x49, key_period)
    ∷ (0x4a, key_slash)
    ∷ (0x59, key_rshift)
    ∷ (0x14, key_lctrl)
    ∷ (0x11, key_lalt)
    ∷ (0x29, key_space)
    ∷ []

unfoldable pub key_from_char : ℕ → Key
key_from_char ch = select char_keys ch

unfoldable pub key_from_ps2 : ℕ → Bool → Key
key_from_ps2 scancode extended = select (if extended then extended_keys else plain_keys) scancode
