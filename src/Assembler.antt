-- ===== src/Assembler.antt =====
-- src/assembler.cpp, `assemble_file`: from the bytes of a source file to the words and the bytes of
-- the program. The messages are left out, and so are the failures to open a file.
pub mod Words
pub mod Image
use retro_vm.Prelude.{
  ℕ, zero, suc, ◌+◌, ◌^◌, List, [], ◌∷◌, ◌++◌, map, Option, none, some, bit_and, if◌then◌else◌,
}
use retro_vm.Word.{u8, shr}
use retro_vm.Isa.{
  Opcode, op_halt, op_load, op_store, op_add, op_sub, op_mul, op_div, op_jump, op_jnz, op_in,
  op_rand, op_li, op_code, encode,
}
use retro_vm.Trace.{same_bytes}
use retro_vm.Text.{
  Str, is_space, to_upper, is_empty, pop_front, strip_comma, trim, strip_comment, word_of,
  after_word, split_lines, parse_reg, parse_imm,
}

-- `kOpcodes`.
abbrev pub mnemonics : List (Str × Opcode)
mnemonics =
    (b'H' ∷ b'A' ∷ b'L' ∷ b'T' ∷ [], op_halt)
    ∷ (b'L' ∷ b'O' ∷ b'A' ∷ b'D' ∷ [], op_load)
    ∷ (b'S' ∷ b'T' ∷ b'O' ∷ b'R' ∷ b'E' ∷ [], op_store)
    ∷ (b'A' ∷ b'D' ∷ b'D' ∷ [], op_add)
    ∷ (b'S' ∷ b'U' ∷ b'B' ∷ [], op_sub)
    ∷ (b'M' ∷ b'U' ∷ b'L' ∷ [], op_mul)
    ∷ (b'D' ∷ b'I' ∷ b'V' ∷ [], op_div)
    ∷ (b'J' ∷ b'U' ∷ b'M' ∷ b'P' ∷ [], op_jump)
    ∷ (b'J' ∷ b'N' ∷ b'Z' ∷ [], op_jnz)
    ∷ (b'I' ∷ b'N' ∷ [], op_in)
    ∷ (b'R' ∷ b'A' ∷ b'N' ∷ b'D' ∷ [], op_rand)
    ∷ (b'L' ∷ b'I' ∷ [], op_li)
    ∷ []

-- `kOpcodes.find`.
unfoldable pub find_opcode : List (Str × Opcode) → Str → Option Opcode
find_opcode [] s = none
find_opcode ((name, o) ∷ rest) s = if same_bytes name s then some o else find_opcode rest s

pub data AsmError : Type 0 where
  unknown_opcode bad_register bad_immediate : AsmError

-- `dst`, `src_reg` and `imm` of a line.
pub data Operands : Type 0 where
  operands : ℕ → ℕ → ℕ → Operands
  rejected : AsmError → Operands

abbrev pub with_reg : Str → (ℕ → Operands) → Operands
with_reg s k = elim (parse_reg s) [ none ↦ rejected bad_register | some n ↦ k n ]

abbrev pub with_imm : Str → (ℕ → Operands) → Operands
with_imm s k = elim (parse_imm s) [ none ↦ rejected bad_immediate | some n ↦ k n ]

-- The switch over the opcode.
unfoldable pub read_operands : Opcode → Str → Str → Operands
read_operands op_halt a b = operands 0 0 0
read_operands op_in a b = with_reg a (λ d. operands d 0 0)
read_operands op_rand a b = with_reg a (λ d. operands d 0 0)
read_operands op_add a b = with_reg a (λ d. with_reg b (λ s. operands d s 0))
read_operands op_sub a b = with_reg a (λ d. with_reg b (λ s. operands d s 0))
read_operands op_mul a b = with_reg a (λ d. with_reg b (λ s. operands d s 0))
read_operands op_div a b = with_reg a (λ d. with_reg b (λ s. operands d s 0))
read_operands op_load a b = with_reg a (λ d. with_imm b (λ i. operands d 0 i))
read_operands op_store a b = with_reg a (λ d. with_imm b (λ i. operands d 0 i))
read_operands op_jump a b = with_imm a (λ i. operands 0 0 i)
read_operands op_jnz a b = with_reg a (λ d. with_imm b (λ i. operands d 0 i))
read_operands op_li a b = with_reg a (λ d. with_imm b (λ i. operands d 0 i))

pub data AsmLine : Type 0 where
  blank : AsmLine
  word : ℕ → AsmLine
  bad_line : AsmError → AsmLine

abbrev pub encoded : Opcode → Operands → AsmLine
encoded o (operands d s i) = word (encode (op_code o) d s i)
encoded o (rejected e) = bad_line e

-- `iss >> op_s >> a_s >> b_s`.
abbrev pub first_word : Str → Str
first_word line = word_of (pop_front is_space line)

abbrev pub second_word : Str → Str
second_word line = word_of (pop_front is_space (after_word (pop_front is_space line)))

abbrev pub third_word : Str → Str
third_word line =
    word_of
      (pop_front is_space (after_word (pop_front is_space (after_word (pop_front is_space line)))))

-- A line that is not empty: the opcode in capitals, and the operands without their commas.
unfoldable pub assemble_words : Str → AsmLine
assemble_words line = elim (find_opcode mnemonics (map to_upper (first_word line))) [
  | none ↦ bad_line unknown_opcode
  | some o ↦
      encoded o (read_operands o (strip_comma (second_word line)) (strip_comma (third_word line)))
]

-- The body of the loop over the lines.
unfoldable pub assemble_line : Str → AsmLine
assemble_line raw =
    let line = trim (strip_comment raw) in if is_empty line then blank else assemble_words line

pub data Listing : Type 0 where
  listing : List ℕ → Listing
  bad_listing : ℕ → AsmError → Listing

abbrev pub put_first : ℕ → Listing → Listing
put_first w (listing ws) = listing (w ∷ ws)
put_first w (bad_listing n e) = bad_listing n e

-- The loop, from line `lineno` on. The first bad line ends it.
unfoldable pub assemble_lines : ℕ → List Str → Listing
assemble_lines lineno [] = listing []
assemble_lines lineno (raw ∷ raws) =
    let rest = assemble_lines (suc lineno) raws in
    elim (assemble_line raw) [
      | blank ↦ rest
      | word w ↦ put_first w rest
      | bad_line e ↦ bad_listing lineno e
    ]

-- The bytes of one instruction in the file.
unfoldable pub put_word : ℕ → List ℕ
put_word inst =
    u8 (bit_and inst 0xFF)
    ∷ u8 (bit_and (shr inst 8) 0xFF)
    ∷ u8 (bit_and (shr inst 16) 0xFF)
    ∷ u8 (bit_and (shr inst 24) 0xFF)
    ∷ []

unfoldable pub put_words : List ℕ → List ℕ
put_words [] = []
put_words (w ∷ ws) = put_word w ++ put_words ws

pub data Assembled : Type 0 where
  assembled : List ℕ → List ℕ → Assembled
  asm_failed : ℕ → AsmError → Assembled

-- `assembled` has `out_instrs` and the output file.
unfoldable pub assemble_file : Str → Assembled
assemble_file source = elim (assemble_lines 1 (split_lines source)) [
  | listing ws ↦ assembled ws (put_words ws)
  | bad_listing n e ↦ asm_failed n e
]
