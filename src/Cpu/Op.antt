-- ===== src/Cpu/Op.antt =====
-- The instructions that `decode_exec` of nemu/src/isa/riscv32/inst.c knows, in the order of its
-- patterns, and which of them a word is.
use ysyxworkbench.Prelude.{ℕ, List, [], ◌∷◌, Result, ok, fault, assertion, ◌>>=◌, if◌then◌else◌}
use ysyxworkbench.Cpu.Pattern.{instpat}
use ysyxworkbench.Prelude.{codes}
use ysyxworkbench.Cpu.Operand.{InstType, type_i, type_u, type_s, type_j, type_r, type_b, type_n}

pub data Op : Type 0 where
  ebreak ecall mret csrrw csrrs addi slti sltiu : Op
  xori ori andi slli srli srai mul mulh : Op
  mulhu mulhsu div divu rem remu add sub : Op
  sll slt sltu xor srl sra or and : Op
  lb lh lw lbu lhu sb sh sw : Op
  beq bne blt bge bltu bgeu lui auipc : Op
  jal jalr inv : Op

pub record Rule : Type 0 where
  pub pattern : List ℕ
  pub op : Op
  pub type : InstType

abbrev rule : List ℕ → Op → InstType → Rule
rule pattern op type = record { pattern = pattern; op = op; type = type }

-- The first three arguments of each INSTPAT.
abbrev pub inst_table : List Rule
inst_table =
    rule (codes "0000000 00001 00000 000 00000 11100 11") ebreak type_n
    ∷ rule (codes "0000000 00000 00000 000 00000 11100 11") ecall type_n
    ∷ rule (codes "0011000 00010 00000 000 00000 11100 11") mret type_n
    ∷ rule (codes "??????? ????? ????? 001 ????? 11100 11") csrrw type_i
    ∷ rule (codes "??????? ????? ????? 010 ????? 11100 11") csrrs type_i
    ∷ rule (codes "??????? ????? ????? 000 ????? 00100 11") addi type_i
    ∷ rule (codes "??????? ????? ????? 010 ????? 00100 11") slti type_i
    ∷ rule (codes "??????? ????? ????? 011 ????? 00100 11") sltiu type_i
    ∷ rule (codes "??????? ????? ????? 100 ????? 00100 11") xori type_i
    ∷ rule (codes "??????? ????? ????? 110 ????? 00100 11") ori type_i
    ∷ rule (codes "??????? ????? ????? 111 ????? 00100 11") andi type_i
    ∷ rule (codes "0000000 ????? ????? 001 ????? 00100 11") slli type_i
    ∷ rule (codes "0000000 ????? ????? 101 ????? 00100 11") srli type_i
    ∷ rule (codes "0100000 ????? ????? 101 ????? 00100 11") srai type_i
    ∷ rule (codes "0000001 ????? ????? 000 ????? 01100 11") mul type_r
    ∷ rule (codes "0000001 ????? ????? 001 ????? 01100 11") mulh type_r
    ∷ rule (codes "0000001 ????? ????? 011 ????? 01100 11") mulhu type_r
    ∷ rule (codes "0000001 ????? ????? 010 ????? 01100 11") mulhsu type_r
    ∷ rule (codes "0000001 ????? ????? 100 ????? 01100 11") div type_r
    ∷ rule (codes "0000001 ????? ????? 101 ????? 01100 11") divu type_r
    ∷ rule (codes "0000001 ????? ????? 110 ????? 01100 11") rem type_r
    ∷ rule (codes "0000001 ????? ????? 111 ????? 01100 11") remu type_r
    ∷ rule (codes "0000000 ????? ????? 000 ????? 01100 11") add type_r
    ∷ rule (codes "0100000 ????? ????? 000 ????? 01100 11") sub type_r
    ∷ rule (codes "0000000 ????? ????? 001 ????? 01100 11") sll type_r
    ∷ rule (codes "0000000 ????? ????? 010 ????? 01100 11") slt type_r
    ∷ rule (codes "0000000 ????? ????? 011 ????? 01100 11") sltu type_r
    ∷ rule (codes "0000000 ????? ????? 100 ????? 01100 11") xor type_r
    ∷ rule (codes "0000000 ????? ????? 101 ????? 01100 11") srl type_r
    ∷ rule (codes "0100000 ????? ????? 101 ????? 01100 11") sra type_r
    ∷ rule (codes "0000000 ????? ????? 110 ????? 01100 11") or type_r
    ∷ rule (codes "0000000 ????? ????? 111 ????? 01100 11") and type_r
    ∷ rule (codes "??????? ????? ????? 000 ????? 00000 11") lb type_i
    ∷ rule (codes "??????? ????? ????? 001 ????? 00000 11") lh type_i
    ∷ rule (codes "??????? ????? ????? 010 ????? 00000 11") lw type_i
    ∷ rule (codes "??????? ????? ????? 100 ????? 00000 11") lbu type_i
    ∷ rule (codes "??????? ????? ????? 101 ????? 00000 11") lhu type_i
    ∷ rule (codes "??????? ????? ????? 000 ????? 01000 11") sb type_s
    ∷ rule (codes "??????? ????? ????? 001 ????? 01000 11") sh type_s
    ∷ rule (codes "??????? ????? ????? 010 ????? 01000 11") sw type_s
    ∷ rule (codes "??????? ????? ????? 000 ????? 11000 11") beq type_b
    ∷ rule (codes "??????? ????? ????? 001 ????? 11000 11") bne type_b
    ∷ rule (codes "??????? ????? ????? 100 ????? 11000 11") blt type_b
    ∷ rule (codes "??????? ????? ????? 101 ????? 11000 11") bge type_b
    ∷ rule (codes "??????? ????? ????? 110 ????? 11000 11") bltu type_b
    ∷ rule (codes "??????? ????? ????? 111 ????? 11000 11") bgeu type_b
    ∷ rule (codes "??????? ????? ????? ??? ????? 01101 11") lui type_u
    ∷ rule (codes "??????? ????? ????? ??? ????? 00101 11") auipc type_u
    ∷ rule (codes "??????? ????? ????? ??? ????? 11011 11") jal type_j
    ∷ rule (codes "??????? ????? ????? 000 ????? 11001 11") jalr type_i
    ∷ rule (codes "??????? ????? ????? ??? ????? ????? ??") inv type_n
    ∷ []

-- The first rule whose pattern matches, as the INSTPATs are tried.
unfoldable pub find_rule : List Rule → ℕ → Result Rule
unfolding instpat
find_rule [] inst = fault assertion
find_rule (r ∷ rs) inst = do
  let rest = find_rule rs inst
  matched ← instpat r.pattern inst
  if matched then ok r else rest

unfoldable pub decode : ℕ → Result Rule
unfolding find_rule
decode inst = find_rule inst_table inst
