-- ===== src/Disassembler.antt =====
-- src/main.cpp, `disassemble_one`: the text of one instruction, as the bytes that are printed.
pub mod Lines
pub mod Mnemonics
pub mod Operands
pub mod Texts
pub mod RoundTrip
use retro_vm.Prelude.{ℕ, List, [], ◌∷◌, ◌++◌, Option, none, some}
use retro_vm.Isa.{
  Opcode, op_halt, op_load, op_store, op_add, op_sub, op_mul, op_div, op_jump, op_jnz, op_in,
  op_rand, op_li, opcode?, decode_op, decode_dst, decode_src, decode_imm,
}
use retro_vm.Memory.{Memory, mem_load_u32}
use retro_vm.Text.{Str}
use retro_vm.Text.Numerals.{codes}
use retro_vm.Text.Printed.{printed, padded}

-- `R%u` and `0x%x`.
abbrev pub reg_text : ℕ → Str
reg_text r = b'R' ∷ printed 10 r

abbrev pub imm_text : ℕ → Str
imm_text imm = b'0' ∷ b'x' ∷ printed 16 imm

-- The mnemonic with the blanks behind it, and the two operands.
abbrev pub reg_reg_text : Str → ℕ → ℕ → Str
reg_reg_text name dst src = name ++ (reg_text dst ++ (codes ", " ++ reg_text src))

abbrev pub reg_imm_text : Str → ℕ → ℕ → Str
reg_imm_text name dst imm = name ++ (reg_text dst ++ (codes ", " ++ imm_text imm))

abbrev pub reg_cell_text : Str → ℕ → ℕ → Str
reg_cell_text name dst imm = name ++ (reg_text dst ++ (codes ", [" ++ (imm_text imm ++ codes "]")))

-- The cases of the switch.
unfoldable pub opcode_text : Opcode → ℕ → ℕ → ℕ → Str
opcode_text op_halt dst src imm = codes "HALT"
opcode_text op_load dst src imm = reg_cell_text (codes "LOAD  ") dst imm
opcode_text op_store dst src imm = reg_cell_text (codes "STORE ") dst imm
opcode_text op_add dst src imm = reg_reg_text (codes "ADD   ") dst src
opcode_text op_sub dst src imm = reg_reg_text (codes "SUB   ") dst src
opcode_text op_mul dst src imm = reg_reg_text (codes "MUL   ") dst src
opcode_text op_div dst src imm = reg_reg_text (codes "DIV   ") dst src
opcode_text op_jump dst src imm = codes "JUMP  " ++ imm_text imm
opcode_text op_jnz dst src imm = reg_imm_text (codes "JNZ   ") dst imm
opcode_text op_in dst src imm = codes "IN    " ++ reg_text dst
opcode_text op_rand dst src imm = codes "RAND  " ++ reg_text dst
opcode_text op_li dst src imm = reg_imm_text (codes "LI    ") dst imm

-- The text of a word, `default` of the switch included.
unfoldable pub word_text : ℕ → Str
unfolding opcode_text
word_text instr = elim (opcode? (decode_op instr)) [
  | none ↦
      codes "???  opcode 0x" ++ (padded 2 (printed 16 (decode_op instr)) ++ codes " (unrecognized)")
  | some o ↦ opcode_text o (decode_dst instr) (decode_src instr) (decode_imm instr)
]

unfoldable pub disassemble_one : Memory → ℕ → Str
unfolding word_text
disassemble_one m pc = word_text (mem_load_u32 m pc)
