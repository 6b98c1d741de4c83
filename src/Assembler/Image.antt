-- ===== src/Assembler/Image.antt =====
-- src/assembler.cpp: the output file as the image that `VM::load_program` takes.
use mathlib.Core.Path.{subst}
use retro_vm.Prelude.{
  ℕ, zero, suc, ◌+◌, ◌*◌, ◌^◌, ◌<◌, ◌≤◌, ◌≡◌, refl, sym, ap, ◌∙◌, arith, List, [], ◌∷◌, some, true,
  length, get_or, get_elem?, All, bit_and, ltb,
}
use retro_vm.Bits.{bit_and-eq-mod}
use retro_vm.Word.{u8, shr, IsU8}
use retro_vm.Memory.{Memory, zeroed, mem_load_u32, mem_size}
use retro_vm.Memory.Laws.{mem_load_u32_lem, byte_addr}
use retro_vm.Machine.{Vm, copy_in, new_vm, load_program}
use retro_vm.Dispatch.Boot.{load_program-mem, copy_in-IsMemory, zeroed-IsMemory}
use retro_vm.Isa.{Opcode, opcode?, decode_op}
use retro_vm.Text.{Str, split_lines}
use retro_vm.Assembler.{
  put_word, put_words, Listing, listing, bad_listing, assembled, asm_failed, assemble_lines,
  assemble_file,
}
use retro_vm.Assembler.Words.{Known, assemble_lines-Known}

low : (x : ℕ) → u8 (bit_and x 0xFF) ≡ u8 x
low x = ground (arith, bit_and-eq-mod 8 x)

behind :
    (b0 b1 b2 b3 n k : ℕ) (bs : List ℕ)
    → n ≡ suc (suc (suc (suc k)))
    → get_or (b0 ∷ b1 ∷ b2 ∷ b3 ∷ bs) n 0 ≡ get_or bs k 0
behind b0 b1 b2 b3 n k bs e = ap (λ j. get_or (b0 ∷ b1 ∷ b2 ∷ b3 ∷ bs) j 0) e

-- The bytes of a word of the list.
put_words-bytes :
    (ws : List ℕ) (i w : ℕ)
    → get_elem? ws i ≡ some w
    → (get_or (put_words ws) (i * 4 + 0) 0 ≡ u8 w)
      × (get_or (put_words ws) (i * 4 + 1) 0 ≡ u8 (shr w 8))
      × (get_or (put_words ws) (i * 4 + 2) 0 ≡ u8 (shr w 16))
      × (get_or (put_words ws) (i * 4 + 3) 0 ≡ u8 (shr w 24))
unfolding put_words put_word
put_words-bytes [] i w e = cc
put_words-bytes (x ∷ xs) zero w e =
    let same : x ≡ w = cc in
    (
      low x ∙ ap u8 same,
      low (shr x 8) ∙ ap (λ y. u8 (shr y 8)) same,
      low (shr x 16) ∙ ap (λ y. u8 (shr y 16)) same,
      low (shr x 24) ∙ ap (λ y. u8 (shr y 24)) same,
    )
put_words-bytes (x ∷ xs) (suc i) w e =
    let (e0, e1, e2, e3) = put_words-bytes xs i w e in
    (
      behind _ _ _ _ (suc i * 4 + 0) (i * 4 + 0) (put_words xs) (omega arith) ∙ e0,
      behind _ _ _ _ (suc i * 4 + 1) (i * 4 + 1) (put_words xs) (omega arith) ∙ e1,
      behind _ _ _ _ (suc i * 4 + 2) (i * 4 + 2) (put_words xs) (omega arith) ∙ e2,
      behind _ _ _ _ (suc i * 4 + 3) (i * 4 + 3) (put_words xs) (omega arith) ∙ e3,
    )

pub length-put_words : (ws : List ℕ) → length (put_words ws) ≡ length ws * 4
unfolding put_words put_word
length-put_words [] = refl
length-put_words (w ∷ ws) = omega (arith, length-put_words ws)

put_words-fits : (ws : List ℕ) → All IsU8 (put_words ws)
unfolding put_words put_word
put_words-fits [] = tt
put_words-fits (w ∷ ws) =
    (omega arith, (omega arith, (omega arith, (omega arith, put_words-fits ws))))

inside : (ws : List ℕ) (i w : ℕ) → get_elem? ws i ≡ some w → i < length ws
inside [] i w e = cc
inside (x ∷ xs) zero w e = omega arith
inside (x ∷ xs) (suc i) w e = omega (arith, inside xs i w e)

-- The arena after loading the words.
abbrev image : List ℕ → Memory
image ws = copy_in zeroed (put_words ws)

image-byte :
    (ws : List ℕ) (i w k : ℕ)
    → length ws * 4 ≤ mem_size
    → get_elem? ws i ≡ some w
    → k < 4
    → image ws (byte_addr (i * 4) k) ≡ get_or (put_words ws) (i * 4 + k) 0
image-byte ws i w k fits e hk =
    let at : byte_addr (i * 4) k ≡ i * 4 + k = omega (arith, inside ws i w e) in
    let low_enough : ltb (i * 4 + k) (length (put_words ws)) ≡ true =
      ground (arith, inside ws i w e, length-put_words ws) in
    ap (image ws) at ∙ (rw low_enough refl)

-- Fetching at four times its index gives a word of the list.
pub fetch-put_words :
    (ws : List ℕ) (i w : ℕ)
    → length ws * 4 ≤ mem_size
    → w < 2 ^ 32
    → get_elem? ws i ≡ some w
    → mem_load_u32 (image ws) (i * 4) ≡ w
fetch-put_words ws i w fits hw e = omega (
  arith,
  mem_load_u32_lem (image ws) (i * 4)
      (copy_in-IsMemory zeroed (put_words ws) (put_words-fits ws) zeroed-IsMemory),
  image-byte ws i w 0 fits e (omega arith),
  image-byte ws i w 1 fits e (omega arith),
  image-byte ws i w 2 fits e (omega arith),
  image-byte ws i w 3 fits e (omega arith),
  put_words-bytes ws i w e,
)

All-get_elem? : (P : ℕ → Type 0) (ws : List ℕ) (i w : ℕ) → All P ws → get_elem? ws i ≡ some w → P w
All-get_elem? P [] i w h e = cc
All-get_elem? P (x ∷ xs) zero w h e = let same : x ≡ w = cc in subst P same h.0
All-get_elem? P (x ∷ xs) (suc i) w h e = All-get_elem? P xs i w h.1 e

assemble_file_inv :
    (source : Str) (ws bytes : List ℕ)
    → assemble_file source ≡ assembled ws bytes
    → (assemble_lines 1 (split_lines source) ≡ listing ws) × (put_words ws ≡ bytes)
unfolding assemble_file
assemble_file_inv source ws bytes e = go (assemble_lines 1 (split_lines source)) refl e
  where
    go :
        (l : Listing)
        → assemble_lines 1 (split_lines source) ≡ l
        → (elim l [ listing us ↦ assembled us (put_words us) | bad_listing n x ↦ asm_failed n x ])
          ≡ assembled ws bytes
        → (assemble_lines 1 (split_lines source) ≡ listing ws) × (put_words ws ≡ bytes)
    go (listing us) l g =
        let same : us ≡ ws = cc in
        let file : put_words us ≡ bytes = cc in
        (l ∙ ap listing same, ap put_words (sym same) ∙ file)
    go (bad_listing n x) l g = cc

-- When a source file assembles and the output loads into a new VM, the fetch at four times its
-- index gives each word of the listing, and the word's opcode is a known one.
pub fetch-assemble_file :
    (source : Str) (ws bytes : List ℕ) (i w : ℕ) (vm : Vm)
    → assemble_file source ≡ assembled ws bytes
    → load_program new_vm bytes ≡ some vm
    → get_elem? ws i ≡ some w
    → (mem_load_u32 vm.mem (i * 4) ≡ w) × ((o : Opcode) × (opcode? (decode_op w) ≡ some o))
fetch-assemble_file source ws bytes i w vm e ld at_i =
    let (lines, file) = assemble_file_inv source ws bytes e in
    let (fits, known) = All-get_elem? Known ws i w (assemble_lines-Known 1 _ ws lines) at_i in
    let (small, mem) = load_program-mem bytes vm ld in
    (
      ap (λ m. mem_load_u32 m (i * 4)) (sym mem ∙ ap (copy_in zeroed) (sym file))
          ∙ fetch-put_words ws i w (omega (arith, length-put_words ws, ap length file, small)) fits
              at_i,
      known,
    )
