-- ===== src/Disassembler/RoundTrip.antt =====
-- src/main.cpp and src/assembler.cpp: the disassembly of a word that the assembler emits, assembled.
use mathlib.Core.Path.{subst}
use retro_vm.Prelude.{
  ℕ, ◌≡◌, refl, sym, ap, ◌∙◌, ◌++◌, Bool, true, false, ◌||◌, Option, none, some, map, ◌==◌,
  if◌then◌else◌, inl, inr, Option-cases,
}
use retro_vm.Isa.{
  Opcode, op_halt, op_load, op_store, op_add, op_sub, op_mul, op_div, op_jump, op_jnz, op_in,
  op_rand, op_li, op_code, opcode?, encode, decode_op, decode_dst, decode_src, decode_imm,
}
use retro_vm.Isa.Codec.{decode-encode, opcode?-op_code}
use retro_vm.Text.Numerals.{codes}
use retro_vm.Text.Printed.{printed, padded}
use retro_vm.Text.{Str, to_upper, trim, strip_comma, strip_comment, is_empty, parse_reg, parse_imm}
use retro_vm.Assembler.{
  mnemonics, find_opcode, unknown_opcode, bad_immediate, first_word, second_word, third_word,
  Operands, operands, rejected, with_reg, with_imm, read_operands, blank, word, bad_line, encoded,
  assemble_words, assemble_line,
}
use retro_vm.Assembler.Words.{OperandsFit, read_operands-fits, op_code-lt}
use retro_vm.Disassembler.{opcode_text, word_text}
use retro_vm.Disassembler.Texts.{Canonical, assemble_line-opcode_text}

abbrev CanonicalOperands : Opcode → Operands → Type 0
CanonicalOperands o (operands d s i) = Canonical o d s i
CanonicalOperands o (rejected e) = Unit

with_reg-Canonical :
    (o : Opcode) (s : Str) (k : ℕ → Operands)
    → ((n : ℕ) → CanonicalOperands o (k n))
    → CanonicalOperands o (with_reg s k)
with_reg-Canonical o s k h = elim (Option-cases (parse_reg s)) [
  | inl e ↦ rw (CanonicalOperands, e) tt
  | inr (n, e) ↦ rw (CanonicalOperands, e) (h n)
]

with_imm-Canonical :
    (o : Opcode) (s : Str) (k : ℕ → Operands)
    → ((n : ℕ) → CanonicalOperands o (k n))
    → CanonicalOperands o (with_imm s k)
with_imm-Canonical o s k h = elim (Option-cases (parse_imm s)) [
  | inl e ↦ rw (CanonicalOperands, e) tt
  | inr (n, e) ↦ rw (CanonicalOperands, e) (h n)
]

read_operands-Canonical : (o : Opcode) (a b : Str) → CanonicalOperands o (read_operands o a b)
unfolding read_operands
read_operands-Canonical op_halt a b = (refl, refl, refl)
read_operands-Canonical op_load a b =
    with_reg-Canonical op_load a _ (λ d. with_imm-Canonical op_load b _ (λ i. refl))
read_operands-Canonical op_store a b =
    with_reg-Canonical op_store a _ (λ d. with_imm-Canonical op_store b _ (λ i. refl))
read_operands-Canonical op_add a b =
    with_reg-Canonical op_add a _ (λ d. with_reg-Canonical op_add b _ (λ s. refl))
read_operands-Canonical op_sub a b =
    with_reg-Canonical op_sub a _ (λ d. with_reg-Canonical op_sub b _ (λ s. refl))
read_operands-Canonical op_mul a b =
    with_reg-Canonical op_mul a _ (λ d. with_reg-Canonical op_mul b _ (λ s. refl))
read_operands-Canonical op_div a b =
    with_reg-Canonical op_div a _ (λ d. with_reg-Canonical op_div b _ (λ s. refl))
read_operands-Canonical op_jump a b = with_imm-Canonical op_jump a _ (λ i. (refl, refl))
read_operands-Canonical op_jnz a b =
    with_reg-Canonical op_jnz a _ (λ d. with_imm-Canonical op_jnz b _ (λ i. refl))
read_operands-Canonical op_in a b = with_reg-Canonical op_in a _ (λ d. (refl, refl))
read_operands-Canonical op_rand a b = with_reg-Canonical op_rand a _ (λ d. (refl, refl))
read_operands-Canonical op_li a b =
    with_reg-Canonical op_li a _ (λ d. with_imm-Canonical op_li b _ (λ i. refl))

-- A word that a line assembles to.
abbrev Emitted : ℕ → Type 0
Emitted w =
    (o : Opcode) × (d : ℕ) × (s : ℕ) × (i : ℕ) × OperandsFit (operands d s i)
    × Canonical o d s i
    × (encode (op_code o) d s i ≡ w)

encoded-Emitted :
    (o : Opcode) (t : Operands) (w : ℕ)
    → OperandsFit t
    → CanonicalOperands o t
    → encoded o t ≡ word w
    → Emitted w
encoded-Emitted o (operands d s i) w h c e = (o, d, s, i, h, c, cc)
encoded-Emitted o (rejected x) w h c e = cc

assemble_line-Emitted : (raw : Str) (w : ℕ) → assemble_line raw ≡ word w → Emitted w
unfolding assemble_line assemble_words
assemble_line-Emitted raw w e =
    go (is_empty line) (find_opcode mnemonics (map to_upper (first_word line))) e
  where
    line : Str
    line = trim (strip_comment raw)

    go :
        (b : Bool) (f : Option Opcode)
        → (if b then blank else elim f [
          | none ↦ bad_line unknown_opcode
          | some o ↦
              encoded o
                (read_operands o (strip_comma (second_word line)) (strip_comma (third_word line)))
        ])
          ≡ word w
        → Emitted w
    go true f e = cc
    go false none e = cc
    go false (some o) e =
        encoded-Emitted o _ w (read_operands-fits o _ _) (read_operands-Canonical o _ _) e

text-encode :
    (o : Opcode) (d s i : ℕ)
    → OperandsFit (operands d s i)
    → word_text (encode (op_code o) d s i) ≡ opcode_text o d s i
unfolding word_text
text-encode o d s i (hd, hs, hi) =
    let w = encode (op_code o) d s i in
    let (eo, ed, es, ei) = decode-encode (op_code o) d s i (op_code-lt o) hd hs hi in
    (λ j. elim ((ap opcode? eo ∙ opcode?-op_code o) j) [
      | none ↦
          codes "???  opcode 0x" ++ (padded 2 (printed 16 (decode_op w)) ++ codes " (unrecognized)")
      | some o1 ↦ opcode_text o1 (decode_dst w) (decode_src w) (decode_imm w)
    ])
    ∙ λ j. opcode_text o (ed j) (es j) (ei j)

-- Whether a word is a load or a store.
abbrev pub is_cell : ℕ → Bool
is_cell w = decode_op w == op_code op_load || decode_op w == op_code op_store

text-Emitted :
    (w : ℕ)
    → Emitted w
    → assemble_line (word_text w) ≡ (if is_cell w then bad_line bad_immediate else word w)
text-Emitted w (o, d, s, i, (hd, hs, hi), c, e) =
    let w1 = encode (op_code o) d s i in
    let (eo, ed, es, ei) = decode-encode (op_code o) d s i (op_code-lt o) hd hs hi in
    let outcome = λ (n : ℕ).
      if n == op_code op_load || n == op_code op_store then bad_line bad_immediate else word w1 in
    subst
      (λ w. assemble_line (word_text w) ≡ (if is_cell w then bad_line bad_immediate else word w)) e
      (ap assemble_line (text-encode o d s i (hd, hs, hi))
        ∙ (assemble_line-opcode_text d s i hd hs hi o c ∙ ap outcome (sym eo)))

-- When a line assembles to a word, the text that the disassembler prints for the word assembles to
-- the same word, unless the word is a load or a store: then the assembler refuses the text for its
-- immediate.
pub assemble_line-word_text :
    (raw : Str) (w : ℕ)
    → assemble_line raw ≡ word w
    → assemble_line (word_text w) ≡ (if is_cell w then bad_line bad_immediate else word w)
assemble_line-word_text raw w e = text-Emitted w (assemble_line-Emitted raw w e)
