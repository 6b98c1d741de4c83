-- ===== src/Assembler/Words.antt =====
-- src/assembler.cpp: the words that the assembler emits.
use mathlib.Core.Path.{subst}
use retro_vm.Prelude.{
  Bool, true, if◌then◌else◌, ℕ, suc, ◌^◌, ◌<◌, ◌≡◌, refl, sym, ap, ◌∙◌, arith, List, [], ◌∷◌, map,
  Option, none, some, inl, inr, Option-cases, false, All,
}
use retro_vm.Isa.{Opcode, op_code, opcode?, encode, decode_op, decode_dst, decode_src, decode_imm}
use retro_vm.Isa.Codec.{decode-encode, encode-lt, opcode?-op_code}
use retro_vm.Text.{Str, to_upper, strip_comma, strip_comment, trim, is_empty, parse_reg, parse_imm}
use retro_vm.Assembler.{
  mnemonics, find_opcode, unknown_opcode, first_word, second_word, third_word, with_reg, with_imm,
  Operands, operands, rejected, read_operands, AsmLine, blank, word, bad_line, encoded,
  assemble_words, assemble_line, Listing, listing, bad_listing, put_first, assemble_lines,
}

pub parse_reg-lt : (s : Str) (n : ℕ) → parse_reg s ≡ some n → n < 8
unfolding parse_reg
parse_reg-lt [] n e = cc
parse_reg-lt (c ∷ []) n e = cc
parse_reg-lt (c ∷ d ∷ cs) n e = ground arith

pub parse_imm-lt : (s : Str) (n : ℕ) → parse_imm s ≡ some n → n < 2 ^ 20
unfolding parse_imm
parse_imm-lt s n e = ground arith

-- Each field has its width.
abbrev pub OperandsFit : Operands → Type 0
OperandsFit (operands d s i) = (d < 8) × (s < 8) × (i < 2 ^ 20)
OperandsFit (rejected e) = Unit

with_reg-fits :
    (s : Str) (k : ℕ → Operands)
    → ((n : ℕ) → n < 8 → OperandsFit (k n))
    → OperandsFit (with_reg s k)
with_reg-fits s k h = elim (Option-cases (parse_reg s)) [
  | inl e ↦ rw (OperandsFit, e) tt
  | inr (n, e) ↦ rw (OperandsFit, e) (h n (parse_reg-lt s n e))
]

with_imm-fits :
    (s : Str) (k : ℕ → Operands)
    → ((n : ℕ) → n < 2 ^ 20 → OperandsFit (k n))
    → OperandsFit (with_imm s k)
with_imm-fits s k h = elim (Option-cases (parse_imm s)) [
  | inl e ↦ rw (OperandsFit, e) tt
  | inr (n, e) ↦ rw (OperandsFit, e) (h n (parse_imm-lt s n e))
]

reg_reg : (a b : Str) → OperandsFit (with_reg a (λ d. with_reg b (λ s. operands d s 0)))
reg_reg a b =
    with_reg-fits a _
      (λ d hd. with_reg-fits b (λ s. operands d s 0) (λ s hs. (hd, hs, omega arith)))

reg_imm : (a b : Str) → OperandsFit (with_reg a (λ d. with_imm b (λ i. operands d 0 i)))
reg_imm a b =
    with_reg-fits a _
      (λ d hd. with_imm-fits b (λ i. operands d 0 i) (λ i hi. (hd, omega arith, hi)))

reg_only : (a : Str) → OperandsFit (with_reg a (λ d. operands d 0 0))
reg_only a = with_reg-fits a _ (λ d hd. (hd, omega arith, omega arith))

pub read_operands-fits : (o : Opcode) (a b : Str) → OperandsFit (read_operands o a b)
unfolding read_operands
read_operands-fits Opcode.op_halt a b = omega arith
read_operands-fits Opcode.op_load a b = reg_imm a b
read_operands-fits Opcode.op_store a b = reg_imm a b
read_operands-fits Opcode.op_add a b = reg_reg a b
read_operands-fits Opcode.op_sub a b = reg_reg a b
read_operands-fits Opcode.op_mul a b = reg_reg a b
read_operands-fits Opcode.op_div a b = reg_reg a b
read_operands-fits Opcode.op_jump a b =
    with_imm-fits a (λ i. operands 0 0 i) (λ i hi. (omega arith, omega arith, hi))
read_operands-fits Opcode.op_jnz a b = reg_imm a b
read_operands-fits Opcode.op_in a b = reg_only a
read_operands-fits Opcode.op_rand a b = reg_only a
read_operands-fits Opcode.op_li a b = reg_imm a b

pub op_code-lt : (o : Opcode) → op_code o < 2 ^ 6
op_code-lt o = ground arith

-- The word stands for the opcode with the operands.
abbrev pub Decodes : ℕ → Opcode → Operands → Type 0
Decodes w o t =
    (w < 2 ^ 32)
    × (opcode? (decode_op w) ≡ some o)
    × (t ≡ operands (decode_dst w) (decode_src w) (decode_imm w))

pub encode-Decodes :
    (o : Opcode) (d s i : ℕ)
    → OperandsFit (operands d s i)
    → Decodes (encode (op_code o) d s i) o (operands d s i)
encode-Decodes o d s i (hd, hs, hi) =
    let (eo, ed, es, ei) = decode-encode (op_code o) d s i (op_code-lt o) hd hs hi in
    (
      encode-lt (op_code o) d s i,
      ap opcode? eo ∙ opcode?-op_code o,
      λ j. operands (sym ed j) (sym es j) (sym ei j),
    )

encoded-Decodes :
    (o : Opcode) (t : Operands) (w : ℕ) → OperandsFit t → encoded o t ≡ word w → Decodes w o t
encoded-Decodes o (operands d s i) w h e =
    let same : encode (op_code o) d s i ≡ w = cc in
    subst (λ x. Decodes x o (operands d s i)) same (encode-Decodes o d s i h)
encoded-Decodes o (rejected x) w h e = cc

-- The word that a line assembles to has 32 bits and decodes to the opcode that the line's first
-- word names, and to the operands read from its second and third words.
pub assemble_words-Decodes :
    (line : Str) (w : ℕ)
    → assemble_words line ≡ word w
    → (o : Opcode) × (find_opcode mnemonics (map to_upper (first_word line)) ≡ some o)
      × Decodes w o
          (read_operands o (strip_comma (second_word line)) (strip_comma (third_word line)))
unfolding assemble_words
assemble_words-Decodes line w e = go (find_opcode mnemonics (map to_upper (first_word line))) refl e
  where
    go :
        (f : Option Opcode)
        → find_opcode mnemonics (map to_upper (first_word line)) ≡ f
        → (elim f [
          | none ↦ bad_line unknown_opcode
          | some o ↦
              encoded o
                (read_operands o (strip_comma (second_word line)) (strip_comma (third_word line)))
        ])
          ≡ word w
        → (o : Opcode) × (find_opcode mnemonics (map to_upper (first_word line)) ≡ some o)
          × Decodes w o
              (read_operands o (strip_comma (second_word line)) (strip_comma (third_word line)))
    go none l g = cc
    go (some o) l g = (o, l, encoded-Decodes o _ w (read_operands-fits o _ _) g)

pub assemble_line-Decodes :
    (raw : Str) (w : ℕ)
    → assemble_line raw ≡ word w
    → (o : Opcode) × (w < 2 ^ 32) × (opcode? (decode_op w) ≡ some o)
unfolding assemble_line
assemble_line-Decodes raw w e = go (is_empty (trim (strip_comment raw))) e
  where
    go :
        (b : Bool)
        → (if b then blank else assemble_words (trim (strip_comment raw))) ≡ word w
        → (o : Opcode) × (w < 2 ^ 32) × (opcode? (decode_op w) ≡ some o)
    go true g = cc
    go false g = let (o, named, decodes) = assemble_words-Decodes _ w g in (o, decodes.0, decodes.1)

-- Every word that is listed fits 32 bits and has a known opcode.
abbrev pub Known : ℕ → Type 0
Known w = (w < 2 ^ 32) × ((o : Opcode) × (opcode? (decode_op w) ≡ some o))

put_first-Known :
    (w : ℕ) (rest : Listing) (ws : List ℕ)
    → Known w
    → ((l : List ℕ) → rest ≡ listing l → All Known l)
    → put_first w rest ≡ listing ws
    → All Known ws
put_first-Known w (listing l) ws h hs e =
    let same : w ∷ l ≡ ws = cc in subst (All Known) same (h, hs l refl)
put_first-Known w (bad_listing n x) ws h hs e = cc

listed :
    (n : ℕ) (raw : Str) (rest : Listing) (ws : List ℕ)
    → ((l : List ℕ) → rest ≡ listing l → All Known l)
    → (elim (assemble_line raw) [
      | blank ↦ rest
      | word w ↦ put_first w rest
      | bad_line x ↦ bad_listing n x
    ])
      ≡ listing ws
    → All Known ws
listed n raw rest ws hs e = go (assemble_line raw) refl e
  where
    go :
        (l : AsmLine)
        → assemble_line raw ≡ l
        → (elim l [ blank ↦ rest | word w ↦ put_first w rest | bad_line x ↦ bad_listing n x ])
          ≡ listing ws
        → All Known ws
    go blank l g = hs ws g
    go (word w) l g =
        let (o, fits, op) = assemble_line-Decodes raw w l in
        put_first-Known w rest ws (fits, (o, op)) hs g
    go (bad_line x) l g = cc

pub assemble_lines-Known :
    (n : ℕ) (raws : List Str) (ws : List ℕ) → assemble_lines n raws ≡ listing ws → All Known ws
unfolding assemble_lines
assemble_lines-Known n [] ws e = let same : [] ≡ ws = cc in subst (All Known) same tt
assemble_lines-Known n (raw ∷ raws) ws e =
    listed n raw (assemble_lines (suc n) raws) ws (assemble_lines-Known (suc n) raws) e
