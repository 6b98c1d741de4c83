-- ===== src/Tests/Assembling.antt =====
-- A small source file, assembled and loaded.
use retro_vm.Prelude.{ℕ, ◌≡◌, ◌*◌, refl, List, [], ◌∷◌, map, some}
use retro_vm.Isa.{Opcode, opcode?, encode, decode_op}
use retro_vm.Memory.{zeroed, mem_load_u32}
use retro_vm.Machine.{Vm, copy_in, new_vm, load_program}
use retro_vm.Text.{
  Str, to_upper, pop_back, pop_front, strip_comma, trim, strip_comment, word_of, after_word,
  split_lines, scan, atoi, prefixed, digits, strtoul, parse_reg, parse_imm,
}
use retro_vm.Assembler.{
  mnemonics, find_opcode, first_word, second_word, third_word, read_operands, word, assembled,
  assemble_words, assemble_line, assemble_lines, put_word, put_words, assemble_file,
}
use retro_vm.Assembler.Words.{Decodes, assemble_words-Decodes}
use retro_vm.Assembler.Image.{fetch-assemble_file}

-- "li r1, 0x2A ; x", "" and "HALT"
abbrev li_line : Str
li_line = b'l' ∷ b'i' ∷ 32 ∷ b'r' ∷ b'1' ∷ b',' ∷ 32 ∷ b'0' ∷ b'x' ∷ b'2' ∷ b'A' ∷ []

abbrev source : Str
source =
    b'l' ∷ b'i' ∷ 32 ∷ b'r' ∷ b'1' ∷ b',' ∷ 32 ∷ b'0' ∷ b'x' ∷ b'2' ∷ b'A' ∷ 32 ∷ b';' ∷ b'x' ∷ 10
    ∷ 10 ∷ b'H' ∷ b'A' ∷ b'L' ∷ b'T' ∷ []

li_word : assemble_words li_line ≡ word 0x2C80002A
unfolding assemble_words find_opcode read_operands pop_back pop_front strip_comma word_of after_word
    scan atoi prefixed digits strtoul parse_reg parse_imm encode
li_word = refl

abbrev listed : List ℕ
listed = 0x2C80002A ∷ 0 ∷ []

abbrev output : List ℕ
output = 0x2A ∷ 0 ∷ 0x80 ∷ 0x2C ∷ 0 ∷ 0 ∷ 0 ∷ 0 ∷ []

assembles : assemble_file source ≡ assembled listed output
unfolding assemble_file split_lines assemble_lines assemble_line trim strip_comment assemble_words
    find_opcode read_operands pop_back pop_front strip_comma word_of after_word scan atoi prefixed
    digits strtoul parse_reg parse_imm encode put_words put_word
assembles = refl

-- Rabc is taken for R0.
sloppy_register : parse_reg (b'R' ∷ b'a' ∷ b'b' ∷ b'c' ∷ []) ≡ some 0
unfolding parse_reg atoi scan pop_front
sloppy_register = refl

assemble_words-Decodes_example :
    (o : Opcode) × (find_opcode mnemonics (map to_upper (first_word li_line)) ≡ some o)
    × Decodes 0x2C80002A o
        (read_operands o (strip_comma (second_word li_line)) (strip_comma (third_word li_line)))
assemble_words-Decodes_example = assemble_words-Decodes li_line 0x2C80002A li_word

abbrev booted : Vm
booted = record new_vm { mem = copy_in zeroed output }

boots : load_program new_vm output ≡ some booted
unfolding load_program new_vm
boots = refl

fetch-assemble_file_example :
    (mem_load_u32 booted.mem (0 * 4) ≡ 0x2C80002A)
    × ((o : Opcode) × (opcode? (decode_op 0x2C80002A) ≡ some o))
fetch-assemble_file_example =
    fetch-assemble_file source listed output 0 0x2C80002A booted assembles boots refl
