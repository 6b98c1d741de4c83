-- ===== src/Checkpoint/Codec.antt =====
-- src/checkpoint.cpp: loading what was saved.
use mathlib.Core.Path.{ap₂}
use mathlib.Core.List.{append_assoc, append-nil}
use retro_vm.Prelude.{
  ℕ, zero, suc, ◌+◌, ◌*◌, ◌≡◌, refl, sym, ap, ◌∙◌, arith, List, [], ◌∷◌, ◌++◌, take, length,
  length-append, take-length, All, ltb, if_false, false, length-take, take_all, ◌<◌, Bool-cases,
  inl, inr, if◌then◌else◌,
}
use retro_vm.Word.{IsU32}
use retro_vm.Bytes.{le_bytes, of_le, field_at, drop-append_past}
use retro_vm.Checkpoint.{
  CheckpointState, regs_bytes, regs_at, header_bytes, checkpoint_save, loaded, short_read,
  checkpoint_load,
}

-- The types of the fields.
pub record StateFits (s : CheckpointState) : Type 0 where
  pub index_fits : IsU32 s.frame_index
  pub halted_fits : IsU32 s.halted
  pub flags_fit : IsU32 s.flags
  pub eight : length s.regs ≡ 8
  pub regs_fit : All IsU32 s.regs
  pub pc_fits : IsU32 s.pc
  pub sp_fits : IsU32 s.sp

-- A 32-bit field behind `xs`.
pub field_at-append :
    (i v : ℕ) (xs rest : List ℕ)
    → i ≡ length xs
    → IsU32 v
    → field_at (xs ++ (le_bytes 4 v ++ rest)) i 4 ≡ v
field_at-append i v xs rest e h =
    ap (λ t. of_le (take 4 t)) (drop-append_past i 0 xs (le_bytes 4 v ++ rest) (omega arith))
    ∙ omega arith

-- The registers behind `xs`.
pub regs_at-append :
    (n i : ℕ) (rs xs rest : List ℕ)
    → n ≡ length rs
    → i ≡ length xs
    → All IsU32 rs
    → regs_at n (xs ++ (regs_bytes rs ++ rest)) i ≡ rs
unfolding regs_at regs_bytes
regs_at-append zero i [] xs rest en ei h = refl
regs_at-append zero i (r ∷ rs) xs rest en ei h = absurd (omega arith)
regs_at-append (suc n) i [] xs rest en ei h = absurd (omega arith)
regs_at-append (suc n) i (r ∷ rs) xs rest en ei h =
    ap₂ ◌∷◌ (field_at-append i r xs (regs_bytes rs ++ rest) ei h.0) (
      ap (λ t. regs_at n t (i + 4)) (sym (append_assoc xs (le_bytes 4 r) (regs_bytes rs ++ rest)))
      ∙ regs_at-append n (i + 4) rs (xs ++ le_bytes 4 r) rest (omega arith)
          (omega (arith, length-append xs (le_bytes 4 r))) h.1)

pub length-regs_bytes : (rs : List ℕ) → length (regs_bytes rs) ≡ length rs * 4
unfolding regs_bytes
length-regs_bytes [] = refl
length-regs_bytes (r ∷ rs) = omega (arith, length-regs_bytes rs)

-- The 24 bytes before the registers, and the file as the reads see it.
abbrev front : CheckpointState → List ℕ
front s = header_bytes s ++ (le_bytes 4 s.halted ++ le_bytes 4 s.flags)

abbrev file : CheckpointState → List ℕ → List ℕ
file s more = front s ++ (regs_bytes s.regs ++ (le_bytes 4 s.pc ++ (le_bytes 4 s.sp ++ more)))

checkpoint_save-file :
    (s : CheckpointState) (more : List ℕ) → StateFits s → checkpoint_save s ++ more ≡ file s more
unfolding checkpoint_save
checkpoint_save-file s more h =
    ap (λ t. front s ++ t)
      (append_assoc (regs_bytes (take 8 s.regs)) (le_bytes 4 s.pc ++ le_bytes 4 s.sp) more
        ∙ ap (λ t. regs_bytes t ++ (le_bytes 4 s.pc ++ (le_bytes 4 s.sp ++ more)))
            (take-length 8 s.regs h.eight))

-- A 32-bit field behind the front, the registers and `xs`.
field_at-behind :
    (s : CheckpointState) (i v : ℕ) (xs rest : List ℕ)
    → StateFits s
    → i ≡ 56 + length xs
    → IsU32 v
    → field_at (front s ++ (regs_bytes s.regs ++ (xs ++ (le_bytes 4 v ++ rest)))) i 4 ≡ v
field_at-behind s i v xs rest h e hv =
    ap (λ t. field_at t i 4)
      (ap (λ t. front s ++ t) (sym (append_assoc (regs_bytes s.regs) xs (le_bytes 4 v ++ rest)))
        ∙ sym (append_assoc (front s) (regs_bytes s.regs ++ xs) (le_bytes 4 v ++ rest)))
    ∙ field_at-append i v (front s ++ (regs_bytes s.regs ++ xs)) rest
        (omega (arith, h.eight, length-regs_bytes s.regs, length-append (regs_bytes s.regs) xs)) hv

checkpoint_load-file :
    (s : CheckpointState) (more : List ℕ) → StateFits s → checkpoint_load (file s more) ≡ loaded s
unfolding checkpoint_load
checkpoint_load-file s more h =
    let long : ltb (length (file s more)) 64 ≡ false = ground (
      arith,
      h.eight,
      length-regs_bytes s.regs,
      length-append (regs_bytes s.regs) (le_bytes 4 s.pc ++ (le_bytes 4 s.sp ++ more)),
    ) in
    let index : field_at (file s more) 12 4 ≡ s.frame_index = omega (arith, h) in
    let reason : field_at (file s more) 16 4 ≡ s.halted = omega (arith, h) in
    let flags : field_at (file s more) 20 4 ≡ s.flags = omega (arith, h) in
    let regs = regs_at-append 8 24 s.regs (front s) _ (sym h.eight) refl h.regs_fit in
    let pc = field_at-behind s 56 s.pc [] (le_bytes 4 s.sp ++ more) h refl h.pc_fits in
    let sp = field_at-behind s 60 s.sp (le_bytes 4 s.pc) more h refl h.sp_fits in
    if_false (ltb (length (file s more)) 64) _ _ long ∙ λ i. loaded (record {
      frame_index = index i;
      halted = reason i;
      flags = flags i;
      regs = regs i;
      pc = pc i;
      sp = sp i;
    })

-- A saved state loads as it was saved, whatever follows it in the file, if its fields fit their
-- widths.
pub checkpoint_load-checkpoint_save :
    (s : CheckpointState) (more : List ℕ)
    → StateFits s
    → checkpoint_load (checkpoint_save s ++ more) ≡ loaded s
checkpoint_load-checkpoint_save s more h =
    ap checkpoint_load (checkpoint_save-file s more h) ∙ checkpoint_load-file s more h

-- A state file has 64 bytes, if the state's fields fit their widths and it has eight registers.
pub length-checkpoint_save : (s : CheckpointState) → StateFits s → length (checkpoint_save s) ≡ 64
unfolding checkpoint_save
length-checkpoint_save s h = omega (
  arith,
  ap length (take-length 8 s.regs h.eight),
  h.eight,
  length-regs_bytes (take 8 s.regs),
  length-append (regs_bytes (take 8 s.regs)) (le_bytes 4 s.pc ++ le_bytes 4 s.sp),
)

checkpoint_load_short : (bytes : List ℕ) → length bytes < 64 → checkpoint_load bytes ≡ short_read
unfolding checkpoint_load
checkpoint_load_short bytes h = ground arith

-- What is left of the file of a saved state loads as that state when all of its 64 bytes are there,
-- and is refused as a short read when it is cut off anywhere before, if the state's fields fit
-- their widths.
pub checkpoint_load-take :
    (s : CheckpointState) (n : ℕ)
    → StateFits s
    → checkpoint_load (take n (checkpoint_save s)) ≡ (if ltb n 64 then short_read else loaded s)
checkpoint_load-take s n h = elim (Bool-cases (ltb n 64)) [
  | inl short ↦ rw short (
      checkpoint_load_short (take n (checkpoint_save s))
        (ground (arith, length-take n (checkpoint_save s))))
  | inr whole ↦ rw whole (
      ap checkpoint_load (
        take_all n (checkpoint_save s) (ground (arith, length-checkpoint_save s h))
        ∙ sym (append-nil (checkpoint_save s)))
      ∙ checkpoint_load-checkpoint_save s [] h)
]
