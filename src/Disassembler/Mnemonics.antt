-- ===== src/Disassembler/Mnemonics.antt =====
-- src/main.cpp and src/assembler.cpp: the mnemonics that are printed, as the assembler reads them.
use retro_vm.Prelude.{refl}
use retro_vm.Isa.{
  op_load, op_store, op_add, op_sub, op_mul, op_div, op_jump, op_jnz, op_in, op_rand, op_li,
}
use retro_vm.Text.{pop_front, word_of, after_word}
use retro_vm.Text.Numerals.{codes}
use retro_vm.Assembler.{find_opcode}
use retro_vm.Disassembler.Lines.{Names}

pub add-Names : Names (codes "ADD   ") op_add b'R'
unfolding find_opcode word_of after_word pop_front
add-Names = record {
  known = λ rest. refl;
  behind = λ rest. refl;
  starts = λ rest. (refl, refl);
  uncommented = (refl, (refl, (refl, (refl, (refl, (refl, tt))))));
}

pub sub-Names : Names (codes "SUB   ") op_sub b'R'
unfolding find_opcode word_of after_word pop_front
sub-Names = record {
  known = λ rest. refl;
  behind = λ rest. refl;
  starts = λ rest. (refl, refl);
  uncommented = (refl, (refl, (refl, (refl, (refl, (refl, tt))))));
}

pub mul-Names : Names (codes "MUL   ") op_mul b'R'
unfolding find_opcode word_of after_word pop_front
mul-Names = record {
  known = λ rest. refl;
  behind = λ rest. refl;
  starts = λ rest. (refl, refl);
  uncommented = (refl, (refl, (refl, (refl, (refl, (refl, tt))))));
}

pub div-Names : Names (codes "DIV   ") op_div b'R'
unfolding find_opcode word_of after_word pop_front
div-Names = record {
  known = λ rest. refl;
  behind = λ rest. refl;
  starts = λ rest. (refl, refl);
  uncommented = (refl, (refl, (refl, (refl, (refl, (refl, tt))))));
}

pub load-Names : Names (codes "LOAD  ") op_load b'R'
unfolding find_opcode word_of after_word pop_front
load-Names = record {
  known = λ rest. refl;
  behind = λ rest. refl;
  starts = λ rest. (refl, refl);
  uncommented = (refl, (refl, (refl, (refl, (refl, (refl, tt))))));
}

pub store-Names : Names (codes "STORE ") op_store b'R'
unfolding find_opcode word_of after_word pop_front
store-Names = record {
  known = λ rest. refl;
  behind = λ rest. refl;
  starts = λ rest. (refl, refl);
  uncommented = (refl, (refl, (refl, (refl, (refl, (refl, tt))))));
}

pub jnz-Names : Names (codes "JNZ   ") op_jnz b'R'
unfolding find_opcode word_of after_word pop_front
jnz-Names = record {
  known = λ rest. refl;
  behind = λ rest. refl;
  starts = λ rest. (refl, refl);
  uncommented = (refl, (refl, (refl, (refl, (refl, (refl, tt))))));
}

pub li-Names : Names (codes "LI    ") op_li b'R'
unfolding find_opcode word_of after_word pop_front
li-Names = record {
  known = λ rest. refl;
  behind = λ rest. refl;
  starts = λ rest. (refl, refl);
  uncommented = (refl, (refl, (refl, (refl, (refl, (refl, tt))))));
}

pub in-Names : Names (codes "IN    ") op_in b'R'
unfolding find_opcode word_of after_word pop_front
in-Names = record {
  known = λ rest. refl;
  behind = λ rest. refl;
  starts = λ rest. (refl, refl);
  uncommented = (refl, (refl, (refl, (refl, (refl, (refl, tt))))));
}

pub rand-Names : Names (codes "RAND  ") op_rand b'R'
unfolding find_opcode word_of after_word pop_front
rand-Names = record {
  known = λ rest. refl;
  behind = λ rest. refl;
  starts = λ rest. (refl, refl);
  uncommented = (refl, (refl, (refl, (refl, (refl, (refl, tt))))));
}

pub jump-Names : Names (codes "JUMP  ") op_jump b'0'
unfolding find_opcode word_of after_word pop_front
jump-Names = record {
  known = λ rest. refl;
  behind = λ rest. refl;
  starts = λ rest. (refl, refl);
  uncommented = (refl, (refl, (refl, (refl, (refl, (refl, tt))))));
}
