-- ===== src/Disassembler/Texts.antt =====
-- src/main.cpp and src/assembler.cpp: the text of each instruction, assembled.
use retro_vm.Prelude.{
  ℕ, ◌^◌, ◌<◌, ◌≡◌, refl, sym, ap, ◌∙◌, [], ◌∷◌, ◌++◌, none, some, All-append, ◌==◌, ◌||◌,
  if◌then◌else◌,
}
use retro_vm.Isa.{
  Opcode, op_halt, op_load, op_store, op_add, op_sub, op_mul, op_div, op_jump, op_jnz, op_in,
  op_rand, op_li, op_code, encode,
}
use retro_vm.Text.{
  Str, pop_front, pop_back, word_of, after_word, trim, strip_comment, strip_comma, parse_imm,
  strtoul, digits,
}
use retro_vm.Text.Numerals.{codes}
use retro_vm.Text.Printed.{printed}
use retro_vm.Assembler.{
  find_opcode, Operands, operands, rejected, bad_register, bad_immediate, with_reg, with_imm,
  read_operands, AsmLine, word, bad_line, encoded, assemble_words, assemble_line,
}
use retro_vm.Disassembler.{reg_text, imm_text, opcode_text}
use retro_vm.Disassembler.Lines.{Plain, Names, one_operand, two_operands}
use retro_vm.Disassembler.Mnemonics.{
  add-Names, sub-Names, mul-Names, div-Names, load-Names, store-Names, jnz-Names, li-Names,
  in-Names, rand-Names, jump-Names,
}
use retro_vm.Disassembler.Operands.{
  decimal-Plain, hex-Plain, parse_reg-reg_text, parse_imm-imm_text,
}

halt-text : assemble_line (codes "HALT") ≡ word (encode 0 0 0 0)
unfolding assemble_line assemble_words trim strip_comment pop_back pop_front strip_comma word_of
    after_word find_opcode read_operands
halt-text = refl

with_reg-reg_text : (r : ℕ) (k : ℕ → Operands) → r < 8 → with_reg (reg_text r) k ≡ k r
with_reg-reg_text r k h =
    λ i. elim (parse_reg-reg_text r h i) [ none ↦ rejected bad_register | some n ↦ k n ]

with_imm-imm_text : (n : ℕ) (k : ℕ → Operands) → n < 2 ^ 20 → with_imm (imm_text n) k ≡ k n
with_imm-imm_text n k h =
    λ i. elim (parse_imm-imm_text n h i) [ none ↦ rejected bad_immediate | some n ↦ k n ]

no_imm : (x : Str) (k : ℕ → Operands) → with_imm (b'[' ∷ x) k ≡ rejected bad_immediate
unfolding parse_imm strtoul digits pop_front
no_imm x k = refl

-- The fields that an instruction has no use for are zero.
abbrev pub Canonical : Opcode → ℕ → ℕ → ℕ → Type 0
Canonical op_halt d s i = (d ≡ 0) × (s ≡ 0) × (i ≡ 0)
Canonical op_load d s i = s ≡ 0
Canonical op_store d s i = s ≡ 0
Canonical op_add d s i = i ≡ 0
Canonical op_sub d s i = i ≡ 0
Canonical op_mul d s i = i ≡ 0
Canonical op_div d s i = i ≡ 0
Canonical op_jump d s i = (d ≡ 0) × (s ≡ 0)
Canonical op_jnz d s i = s ≡ 0
Canonical op_in d s i = (s ≡ 0) × (i ≡ 0)
Canonical op_rand d s i = (s ≡ 0) × (i ≡ 0)
Canonical op_li d s i = s ≡ 0

-- What the assembler makes of the text of an instruction: the operand of a load or a store stands
-- in brackets, which it does not read.
abbrev pub reread : Opcode → ℕ → AsmLine
reread o w =
    if op_code o == op_code op_load || op_code o == op_code op_store
    then bad_line bad_immediate
    else word w

reg_Plain : Plain b'R'
reg_Plain = (refl, refl, refl)

module _ (d s i : ℕ) (hd : d < 8) (hs : s < 8) (hi : i < 2 ^ 20) where
  reg_reg-text :
      (pre : Str) (o : Opcode)
      → Names pre o b'R'
      → ((a b : Str) → read_operands o a b ≡ with_reg a (λ d. with_reg b (λ s. operands d s 0)))
      → assemble_line (pre ++ (reg_text d ++ (codes ", " ++ reg_text s)))
        ≡ word (encode (op_code o) d s 0)
  reg_reg-text pre o names reads =
      two_operands pre o b'R' names reg_Plain (printed 10 d) b'R' (printed 10 s) (decimal-Plain d)
        reg_Plain (decimal-Plain s)
      ∙ ap (encoded o)
          (reads (reg_text d) (reg_text s) ∙ (with_reg-reg_text d _ hd ∙ with_reg-reg_text s _ hs))

  reg_imm-text :
      (pre : Str) (o : Opcode)
      → Names pre o b'R'
      → ((a b : Str) → read_operands o a b ≡ with_reg a (λ d. with_imm b (λ i. operands d 0 i)))
      → assemble_line (pre ++ (reg_text d ++ (codes ", " ++ imm_text i)))
        ≡ word (encode (op_code o) d 0 i)
  reg_imm-text pre o names reads =
      two_operands pre o b'R' names reg_Plain (printed 10 d) b'0' (b'x' ∷ printed 16 i)
        (decimal-Plain d) (refl, refl, refl) (hex-Plain i)
      ∙ ap (encoded o)
          (reads (reg_text d) (imm_text i) ∙ (with_reg-reg_text d _ hd ∙ with_imm-imm_text i _ hi))

  reg_cell-text :
      (pre : Str) (o : Opcode)
      → Names pre o b'R'
      → ((a b : Str) → read_operands o a b ≡ with_reg a (λ d. with_imm b (λ i. operands d 0 i)))
      → assemble_line (pre ++ (reg_text d ++ (codes ", [" ++ (imm_text i ++ codes "]"))))
        ≡ bad_line bad_immediate
  reg_cell-text pre o names reads =
      let cell =
        All-append Plain (imm_text i) (codes "]") ((refl, refl, refl), hex-Plain i)
          ((refl, refl, refl), tt) in
      two_operands pre o b'R' names reg_Plain (printed 10 d) b'[' (imm_text i ++ codes "]")
        (decimal-Plain d) (refl, refl, refl) cell
      ∙ ap (encoded o) (
          reads (reg_text d) _
          ∙ (with_reg-reg_text d _ hd ∙ no_imm (imm_text i ++ codes "]") (λ i. operands d 0 i)))

  reg-text :
      (pre : Str) (o : Opcode)
      → Names pre o b'R'
      → ((a b : Str) → read_operands o a b ≡ with_reg a (λ d. operands d 0 0))
      → assemble_line (pre ++ reg_text d) ≡ word (encode (op_code o) d 0 0)
  reg-text pre o names reads =
      one_operand pre o b'R' names reg_Plain (printed 10 d) (decimal-Plain d)
      ∙ ap (encoded o) (reads (reg_text d) [] ∙ with_reg-reg_text d _ hd)

  pub assemble_line-opcode_text :
      (o : Opcode)
      → Canonical o d s i
      → assemble_line (opcode_text o d s i) ≡ reread o (encode (op_code o) d s i)
  unfolding opcode_text read_operands
  assemble_line-opcode_text op_halt (ed, es, ei) =
      halt-text ∙ λ j. word (encode 0 (sym ed j) (sym es j) (sym ei j))
  assemble_line-opcode_text op_load c =
      reg_cell-text (codes "LOAD  ") op_load load-Names (λ a b. refl)
  assemble_line-opcode_text op_store c =
      reg_cell-text (codes "STORE ") op_store store-Names (λ a b. refl)
  assemble_line-opcode_text op_add c =
      reg_reg-text (codes "ADD   ") op_add add-Names (λ a b. refl)
      ∙ ap (λ i. word (encode 3 d s i)) (sym c)
  assemble_line-opcode_text op_sub c =
      reg_reg-text (codes "SUB   ") op_sub sub-Names (λ a b. refl)
      ∙ ap (λ i. word (encode 4 d s i)) (sym c)
  assemble_line-opcode_text op_mul c =
      reg_reg-text (codes "MUL   ") op_mul mul-Names (λ a b. refl)
      ∙ ap (λ i. word (encode 5 d s i)) (sym c)
  assemble_line-opcode_text op_div c =
      reg_reg-text (codes "DIV   ") op_div div-Names (λ a b. refl)
      ∙ ap (λ i. word (encode 6 d s i)) (sym c)
  assemble_line-opcode_text op_jump (ed, es) =
      one_operand (codes "JUMP  ") op_jump b'0' jump-Names (refl, refl, refl) (b'x' ∷ printed 16 i)
        (hex-Plain i)
      ∙ (ap (encoded op_jump) (with_imm-imm_text i _ hi) ∙ λ j.
          word (encode 7 (sym ed j) (sym es j) i))
  assemble_line-opcode_text op_jnz c =
      reg_imm-text (codes "JNZ   ") op_jnz jnz-Names (λ a b. refl)
      ∙ ap (λ s. word (encode 8 d s i)) (sym c)
  assemble_line-opcode_text op_in (es, ei) =
      reg-text (codes "IN    ") op_in in-Names (λ a b. refl) ∙ λ j.
      word (encode 9 d (sym es j) (sym ei j))
  assemble_line-opcode_text op_rand (es, ei) =
      reg-text (codes "RAND  ") op_rand rand-Names (λ a b. refl) ∙ λ j.
      word (encode 10 d (sym es j) (sym ei j))
  assemble_line-opcode_text op_li c =
      reg_imm-text (codes "LI    ") op_li li-Names (λ a b. refl)
      ∙ ap (λ s. word (encode 11 d s i)) (sym c)
