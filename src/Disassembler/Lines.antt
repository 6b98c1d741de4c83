-- ===== src/Disassembler/Lines.antt =====
-- src/assembler.cpp and src/main.cpp: lines of the form that `disassemble_one` prints, assembled.
use retro_vm.Prelude.{
  ℕ, ◌≡◌, refl, ap, ◌∙◌, false, [], ◌∷◌, ◌++◌, map, none, some, All, All-append, ◌==◌,
  if◌then◌else◌, if_false,
}
use retro_vm.Isa.{Opcode}
use retro_vm.Text.{
  Str, is_space, is_comma, to_upper, is_empty, pop_back, pop_front, strip_comma, strip_comment,
  trim, word_of, after_word,
}
use retro_vm.Text.Splits.{
  strip_comment-All, pop_back-All, pop_back-append, word_of-All, word_of-append, after_word-All,
  after_word-append, strip_comma-append, strip_comma-All,
}
use retro_vm.Assembler.{
  mnemonics, find_opcode, unknown_opcode, first_word, second_word, third_word, read_operands, blank,
  bad_line, encoded, assemble_words, assemble_line,
}

-- Characters of an operand.
abbrev pub NoSpace : ℕ → Type 0
NoSpace c = is_space c ≡ false

abbrev pub NoComma : ℕ → Type 0
NoComma c = is_comma c ≡ false

abbrev pub NoComment : ℕ → Type 0
NoComment c = (c == b';') ≡ false

abbrev pub Plain : ℕ → Type 0
Plain c = NoSpace c × NoComma c × NoComment c

no_space : (xs : Str) → All Plain xs → All NoSpace xs
no_space [] h = tt
no_space (x ∷ xs) h = (h.0.0, no_space xs h.1)

no_comma : (xs : Str) → All Plain xs → All NoComma xs
no_comma [] h = tt
no_comma (x ∷ xs) h = (h.0.1, no_comma xs h.1)

no_comment : (xs : Str) → All Plain xs → All NoComment xs
no_comment [] h = tt
no_comment (x ∷ xs) h = (h.0.2, no_comment xs h.1)

-- The mnemonic with its blanks, as the assembler reads it in front of an operand that starts with `c`.
pub record Names (pre : Str) (o : Opcode) (c : ℕ) : Type 0 where
  pub known :
      (rest : Str) → find_opcode mnemonics (map to_upper (first_word (pre ++ c ∷ rest))) ≡ some o
  pub behind :
      (rest : Str)
      → pop_front is_space (after_word (pop_front is_space (pre ++ c ∷ rest))) ≡ c ∷ rest
  pub starts :
      (rest : Str)
      → (pop_front is_space (pre ++ c ∷ rest) ≡ pre ++ c ∷ rest)
        × (is_empty (pre ++ c ∷ rest) ≡ false)
  pub uncommented : All NoComment pre

module _ (pre : Str) (o : Opcode) (c : ℕ) (names : Names pre o c) (hc : Plain c) where
  -- A line without a comment that does not end in a blank.
  taken :
      (rest : Str)
      → All NoComment rest
      → pop_back is_space (c ∷ rest) ≡ c ∷ rest
      → assemble_line (pre ++ c ∷ rest) ≡ assemble_words (pre ++ c ∷ rest)
  unfolding assemble_line trim
  taken rest h e =
      let line = pre ++ c ∷ rest in
      let whole : trim (strip_comment line) ≡ line =
        ap trim
          (strip_comment-All line (All-append NoComment pre (c ∷ rest) names.uncommented (hc.2, h)))
        ∙ (ap (pop_front is_space) (pop_back-append is_space pre c rest e)
            ∙ (names.starts rest).0) in
      ap (λ l. if is_empty l then blank else assemble_words l) whole
      ∙ if_false (is_empty line) blank (assemble_words line) (names.starts rest).1

  words :
      (rest a b : Str)
      → strip_comma (second_word (pre ++ c ∷ rest)) ≡ a
      → strip_comma (third_word (pre ++ c ∷ rest)) ≡ b
      → assemble_words (pre ++ c ∷ rest) ≡ encoded o (read_operands o a b)
  unfolding assemble_words
  words rest a b ea eb =
      let line = pre ++ c ∷ rest in
      (λ i. elim (names.known rest i) [
        | none ↦ bad_line unknown_opcode
        | some o ↦
            encoded o
              (read_operands o (strip_comma (second_word line)) (strip_comma (third_word line)))
      ])
      ∙ (λ i. encoded o (read_operands o (ea i) (eb i)))

  -- One operand.
  pub one_operand :
      (x : Str)
      → All Plain x
      → assemble_line (pre ++ c ∷ x) ≡ encoded o (read_operands o (c ∷ x) [])
  unfolding word_of after_word strip_comma pop_front pop_back
  one_operand x hx =
      let hs : All NoSpace (c ∷ x) = (hc.0, no_space x hx) in
      let second =
        ap strip_comma (ap word_of (names.behind x) ∙ word_of-All (c ∷ x) hs)
        ∙ strip_comma-All c x hc.1 (no_comma x hx) in
      let third =
        ap (λ t. strip_comma (word_of (pop_front is_space (after_word t)))) (names.behind x)
        ∙ ap (λ t. strip_comma (word_of (pop_front is_space t))) (after_word-All (c ∷ x) hs) in
      taken x (no_comment x hx) (pop_back-All is_space (c ∷ x) hs) ∙ words x (c ∷ x) [] second third

  -- Two operands, with a comma and a blank between them.
  pub two_operands :
      (x : Str) (d : ℕ) (y : Str)
      → All Plain x
      → Plain d
      → All Plain y
      → assemble_line (pre ++ c ∷ (x ++ b',' ∷ b' ' ∷ d ∷ y))
        ≡ encoded o (read_operands o (c ∷ x) (d ∷ y))
  unfolding word_of after_word strip_comma pop_front
  two_operands x d y hx hd hy =
      let rest = x ++ b',' ∷ b' ' ∷ d ∷ y in
      let hs : All NoSpace (c ∷ x) = (hc.0, no_space x hx) in
      let hl : All NoSpace (d ∷ y) = (hd.0, no_space y hy) in
      let second =
        ap strip_comma (ap word_of (names.behind rest) ∙ word_of-append (c ∷ x) (d ∷ y) hs)
        ∙ strip_comma-append c x hc.1 (no_comma x hx) in
      let last : pop_front is_space (b' ' ∷ d ∷ y) ≡ d ∷ y = if_false (is_space d) _ _ hd.0 in
      let third =
        ap (λ t. strip_comma (word_of (pop_front is_space (after_word t)))) (names.behind rest)
        ∙ (ap (λ t. strip_comma (word_of (pop_front is_space t)))
              (after_word-append (c ∷ x) (d ∷ y) hs)
            ∙ (ap (λ t. strip_comma (word_of t)) last
                ∙ (ap strip_comma (word_of-All (d ∷ y) hl)
                    ∙ strip_comma-All d y hd.1 (no_comma y hy)))) in
      let solid =
        pop_back-append is_space (c ∷ x) b',' (b' ' ∷ d ∷ y)
          (pop_back-append is_space (b',' ∷ b' ' ∷ []) d y (pop_back-All is_space (d ∷ y) hl)) in
      let uncommented =
        All-append NoComment x (b',' ∷ b' ' ∷ d ∷ y) (no_comment x hx)
          (refl, (refl, (hd.2, no_comment y hy))) in
      taken rest uncommented solid ∙ words rest (c ∷ x) (d ∷ y) second third
