-- ===== src/Ftrace/Defs.antt =====
-- The symbol table, `print_ftrace`, and the loop of `init_ftrace` that fills the table. Reading the
-- ELF file is not modelled: the loop is given the symbols with their names looked up.
use Prim.Native.String.{String}
use ysyxworkbench.Prelude.{
  ℕ, ◌+◌, ◌-◌, ◌*◌, Bool, true, false, ◌&&◌, ◌||◌, List, [], ◌∷◌, ◌++◌, leb, ltb, ◌==◌,
  if◌then◌else◌, u32, length,
}

pub record SymbolEntry : Type 0 where
  pub name : String
  pub addr : ℕ
  pub size : ℕ

-- What is printed: the pc, the width of the indent, and the function found at the target.
pub data Line : Type 0 where
  call_line : ℕ → ℕ → String → ℕ → Line
  ret_line : ℕ → ℕ → String → Line

-- `symbol_table[0 .. symbol_cnt)`, `call_depth`, and the lines printed so far, latest first.
-- `call_depth` is an `int` that is never negative between calls.
pub record Ftrace : Type 0 where
  pub symbols : List SymbolEntry
  pub call_depth : ℕ
  pub lines : List Line

abbrev pub max_symb : ℕ
max_symb = 128

-- A symbol of the ELF file: `ELF32_ST_TYPE(st_info)`, the name at `st_name` cut to 63 bytes,
-- `st_value` and `st_size`.
pub record ElfSym : Type 0 where
  pub type : ℕ
  pub name : String
  pub value : ℕ
  pub size : ℕ

-- STT_FUNC
abbrev pub stt_func : ℕ
stt_func = 2

-- The loop over the symbols; it breaks at the first function that finds the table full.
unfoldable pub load_symbols : List ElfSym → List SymbolEntry → List SymbolEntry
load_symbols [] table = table
load_symbols (s ∷ ss) table =
    let skipped = load_symbols ss table in
    let added =
      load_symbols ss (table ++ record { name = s.name; addr = s.value; size = s.size } ∷ []) in
    if s.type == stt_func then (if leb max_symb (length table) then table else added) else skipped

-- `dnpc >= addr && dnpc < addr + size`, with the sum a 32-bit one.
unfoldable pub in_symbol : SymbolEntry → ℕ → Bool
in_symbol s dnpc = leb s.addr dnpc && ltb dnpc (u32 (s.addr + s.size))

unfoldable pub func_name : List SymbolEntry → ℕ → String
unfolding in_symbol
func_name [] dnpc = "???"
func_name (s ∷ ss) dnpc = if in_symbol s dnpc then s.name else func_name ss dnpc

unfoldable pub print_ftrace : ℕ → ℕ → Bool → Ftrace → Ftrace
print_ftrace pc dnpc is_call t =
    if length t.symbols == 0
    then t
    else if is_call
    then record t {
      call_depth = t.call_depth + 1;
      lines = call_line pc (t.call_depth * 2) (func_name t.symbols dnpc) dnpc ∷ t.lines;
    }
    else record t {
      call_depth = t.call_depth - 1;
      lines = ret_line pc ((t.call_depth - 1) * 2) (func_name t.symbols dnpc) ∷ t.lines;
    }

-- `check_ftrace` of nemu/src/isa/riscv32/inst.c
unfoldable pub check_ftrace : ℕ → ℕ → ℕ → ℕ → Bool → Ftrace → Ftrace
check_ftrace pc dnpc rd rs1 is_jalr t =
    let is_call = rd == 1 || rd == 5 in
    let is_ret = is_jalr && rd == 0 && (rs1 == 1 || rs1 == 5) in
    if is_call
    then print_ftrace pc dnpc true t
    else if is_ret
    then print_ftrace pc dnpc false t
    else t
