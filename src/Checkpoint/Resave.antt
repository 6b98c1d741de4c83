-- ===== src/Checkpoint/Resave.antt =====
-- src/checkpoint.cpp: saving what was loaded.
use mathlib.Core.Path.{ap₂, subst}
use retro_vm.Prelude.{
  ℕ, zero, suc, ◌+◌, ◌*◌, ◌≤◌, ◌≡◌, refl, sym, ap, ◌∙◌, arith, List, [], ◌∷◌, ◌++◌, take, drop,
  length, true, false, Bool, if◌then◌else◌, ◌==◌, ltb, All, take-length, length-take, length-drop,
  ==_iff,
}
use retro_vm.Word.{IsU8, IsU32}
use retro_vm.Bytes.{le_bytes, of_le, field_at}
use retro_vm.Trace.{same_bytes}
use retro_vm.Checkpoint.{
  CheckpointState, state_magic, regs_bytes, regs_at, checkpoint_save, loaded, short_read, bad_magic,
  bad_version, checkpoint_load,
}
use retro_vm.Checkpoint.Codec.{StateFits}

le_bytes-of_le : (bs : List ℕ) → All IsU8 bs → le_bytes (length bs) (of_le bs) ≡ bs
le_bytes-of_le [] h = refl
le_bytes-of_le (b ∷ bs) h =
    ap₂ ◌∷◌ (omega arith) (ap (le_bytes (length bs)) (omega arith) ∙ le_bytes-of_le bs h.1)

module _ {ℓ} {A : Type ℓ} where
  pub All-take {κ} : (P : A → Type κ) (n : ℕ) (xs : List A) → All P xs → All P (take n xs)
  All-take P zero xs h = tt
  All-take P (suc n) [] h = tt
  All-take P (suc n) (x ∷ xs) h = (h.0, All-take P n xs h.1)

  All-drop {κ} : (P : A → Type κ) (n : ℕ) (xs : List A) → All P xs → All P (drop n xs)
  All-drop P zero xs h = h
  All-drop P (suc n) [] h = tt
  All-drop P (suc n) (x ∷ xs) h = All-drop P n xs h.1

  length-drop_ge : (i n : ℕ) (xs : List A) → i + n ≤ length xs → n ≤ length (drop i xs)
  length-drop_ge i n xs h = omega (arith, length-drop i xs)

  length-slice : (i n : ℕ) (xs : List A) → i + n ≤ length xs → length (take n (drop i xs)) ≡ n
  length-slice i n xs h = omega (arith, length-take n (drop i xs), length-drop i xs)

  -- Two slices, one behind the other.
  slice-append :
      (i n m j k : ℕ) (xs : List A)
      → i + n + m ≤ length xs
      → j ≡ i + n
      → k ≡ n + m
      → take n (drop i xs) ++ take m (drop j xs) ≡ take k (drop i xs)
  slice-append zero zero m zero k xs h ej ek =
      let same : m ≡ k = omega arith in ap (λ k. take k xs) same
  slice-append zero zero m (suc j) k xs h ej ek = absurd (omega arith)
  slice-append zero (suc n) m j k [] h ej ek = absurd (omega arith)
  slice-append zero (suc n) m zero k (x ∷ xs) h ej ek = absurd (omega arith)
  slice-append zero (suc n) m (suc j) zero (x ∷ xs) h ej ek = absurd (omega arith)
  slice-append zero (suc n) m (suc j) (suc k) (x ∷ xs) h ej ek =
      ap (λ t. x ∷ t) (slice-append zero n m j k xs (omega arith) (omega arith) (omega arith))
  slice-append (suc i) n m j k [] h ej ek = absurd (omega arith)
  slice-append (suc i) n m zero k (x ∷ xs) h ej ek = absurd (omega arith)
  slice-append (suc i) n m (suc j) k (x ∷ xs) h ej ek =
      slice-append i n m j k xs (omega arith) (omega arith) ek

-- Four bytes or fewer.
of_le-IsU32 : (bs : List ℕ) → length bs ≤ 4 → All IsU8 bs → IsU32 (of_le bs)
of_le-IsU32 [] l h = omega arith
of_le-IsU32 (a ∷ []) l h = omega arith
of_le-IsU32 (a ∷ b ∷ []) l h = omega arith
of_le-IsU32 (a ∷ b ∷ c ∷ []) l h = omega arith
of_le-IsU32 (a ∷ b ∷ c ∷ d ∷ []) l h = omega arith
of_le-IsU32 (a ∷ b ∷ c ∷ d ∷ e ∷ bs) l h = absurd (omega arith)

same_bytes-eq : (xs ys : List ℕ) → same_bytes xs ys ≡ true → xs ≡ ys
same_bytes-eq [] [] e = refl
same_bytes-eq [] (y ∷ ys) e = absurd (ground arith)
same_bytes-eq (x ∷ xs) [] e = absurd (ground arith)
same_bytes-eq (x ∷ xs) (y ∷ ys) e =
    let head : x ≡ y = ground arith in
    let tail : same_bytes xs ys ≡ true = ground arith in ap₂ ◌∷◌ head (same_bytes-eq xs ys tail)

module _ (bytes : List ℕ) (h : All IsU8 bytes) where
  field_at-IsU32 : (i : ℕ) → IsU32 (field_at bytes i 4)
  field_at-IsU32 i =
      of_le-IsU32 (take 4 (drop i bytes)) (omega (arith, length-take 4 (drop i bytes)))
        (All-take IsU8 4 (drop i bytes) (All-drop IsU8 i bytes h))

  regs_at-IsU32 : (n i : ℕ) → All IsU32 (regs_at n bytes i)
  unfolding regs_at
  regs_at-IsU32 zero i = tt
  regs_at-IsU32 (suc n) i = (field_at-IsU32 i, regs_at-IsU32 n (i + 4))

  length-regs_at : (n i : ℕ) → length (regs_at n bytes i) ≡ n
  unfolding regs_at
  length-regs_at zero i = refl
  length-regs_at (suc n) i = ap suc (length-regs_at n (i + 4))

  le_bytes-field_at :
      (n i : ℕ) → i + n ≤ length bytes → le_bytes n (field_at bytes i n) ≡ take n (drop i bytes)
  le_bytes-field_at n i l =
      let slice = take n (drop i bytes) in
      ap (λ k. le_bytes k (of_le slice)) (sym (length-slice i n bytes l))
      ∙ le_bytes-of_le slice (All-take IsU8 n (drop i bytes) (All-drop IsU8 i bytes h))

  regs_bytes-regs_at :
      (n i : ℕ)
      → i + n * 4 ≤ length bytes
      → regs_bytes (regs_at n bytes i) ≡ take (n * 4) (drop i bytes)
  unfolding regs_bytes regs_at
  regs_bytes-regs_at zero i l = refl
  regs_bytes-regs_at (suc n) i l =
      ap₂ ◌++◌ (le_bytes-field_at 4 i (omega arith)) (regs_bytes-regs_at n (i + 4) (omega arith))
      ∙ slice-append i 4 (n * 4) (i + 4) (suc n * 4) bytes (omega arith) refl (omega arith)

abbrev content_of : List ℕ → CheckpointState
content_of bytes = record {
  frame_index = field_at bytes 12 4;
  halted = field_at bytes 16 4;
  flags = field_at bytes 20 4;
  regs = regs_at 8 bytes 24;
  pc = field_at bytes 56 4;
  sp = field_at bytes 60 4;
}

-- What a state that loads says of its file.
pub record IsStateFile (bytes : List ℕ) (s : CheckpointState) : Type 0 where
  pub long : 64 ≤ length bytes
  pub magic : same_bytes (take 8 bytes) state_magic ≡ true
  pub version : field_at bytes 8 4 ≡ 1
  pub content : content_of bytes ≡ s

ltb-false : (a b : ℕ) → ltb a b ≡ false → b ≤ a
ltb-false a b e = ground arith

checkpoint_load_inv :
    (bytes : List ℕ) (s : CheckpointState) → checkpoint_load bytes ≡ loaded s → IsStateFile bytes s
unfolding checkpoint_load
checkpoint_load_inv bytes s e =
    go (ltb (length bytes) 64) (same_bytes (take 8 bytes) state_magic) (field_at bytes 8 4 == 1)
      refl refl refl e
  where
    go :
        (short magic version : Bool)
        → ltb (length bytes) 64 ≡ short
        → same_bytes (take 8 bytes) state_magic ≡ magic
        → (field_at bytes 8 4 == 1) ≡ version
        → (if short
            then short_read
            else if magic
            then (if version then loaded (content_of bytes) else bad_version (field_at bytes 8 4))
            else bad_magic)
          ≡ loaded s
        → IsStateFile bytes s
    go true magic version el em ev e = absurd cc
    go false false version el em ev e = absurd cc
    go false true false el em ev e = absurd cc
    go false true true el em ev e = record {
      long = ltb-false (length bytes) 64 el;
      magic = em;
      version = (==_iff (field_at bytes 8 4) 1).0 ev;
      content = cc;
    }

-- The fields one behind the other, from the last one on.
saved-take :
    (bytes : List ℕ)
    → All IsU8 bytes
    → 64 ≤ length bytes
    → take 8 bytes ≡ state_magic
    → field_at bytes 8 4 ≡ 1
    → checkpoint_save (content_of bytes) ≡ take 64 bytes
unfolding checkpoint_save
saved-take bytes h long magic version =
    let field = λ (i : ℕ) (l : i + 4 ≤ length bytes). le_bytes-field_at bytes h 4 i l in
    let join = λ (i n m k : ℕ) (l : i + n + m ≤ length bytes) (e : k ≡ n + m).
      slice-append i n m (i + n) k bytes l refl e in
    let eight : take 8 (regs_at 8 bytes 24) ≡ regs_at 8 bytes 24 =
      take-length 8 _ (length-regs_at bytes h 8 24) in
    let regs = ap regs_bytes eight ∙ regs_bytes-regs_at bytes h 8 24 (omega arith) in
    let one : le_bytes 4 1 ≡ take 4 (drop 8 bytes) =
      ap (le_bytes 4) (sym version) ∙ field 8 (omega arith) in
    let header =
      ap₂ ◌++◌ (sym magic) (ap₂ ◌++◌ one (field 12 (omega arith)) ∙ join 8 4 4 8 (omega arith) refl)
      ∙ join 0 8 8 16 (omega arith) refl in
    let end =
      ap₂ ◌++◌ (field 56 (omega arith)) (field 60 (omega arith))
      ∙ join 56 4 4 8 (omega arith) refl in
    let back = ap₂ ◌++◌ regs end ∙ join 24 32 8 40 (omega arith) refl in
    let body =
      ap₂ ◌++◌ (field 16 (omega arith))
        (ap₂ ◌++◌ (field 20 (omega arith)) back ∙ join 20 4 40 44 (omega arith) refl)
      ∙ join 16 4 44 48 (omega arith) refl in
    ap₂ ◌++◌ header body ∙ join 0 16 48 64 (omega arith) refl

-- When a file of bytes loads as a state, saving that state gives the first 64 bytes of the file.
pub checkpoint_save-checkpoint_load :
    (bytes : List ℕ) (s : CheckpointState)
    → All IsU8 bytes
    → checkpoint_load bytes ≡ loaded s
    → checkpoint_save s ≡ take 64 bytes
checkpoint_save-checkpoint_load bytes s h e =
    let file = checkpoint_load_inv bytes s e in
    ap checkpoint_save (sym file.content)
    ∙ saved-take bytes h file.long (same_bytes-eq _ _ file.magic) file.version

pub loaded-StateFits :
    (bytes : List ℕ) (s : CheckpointState)
    → All IsU8 bytes
    → checkpoint_load bytes ≡ loaded s
    → StateFits s
loaded-StateFits bytes s h e =
    let file = checkpoint_load_inv bytes s e in
    subst StateFits file.content (record {
      index_fits = field_at-IsU32 bytes h 12;
      halted_fits = field_at-IsU32 bytes h 16;
      flags_fit = field_at-IsU32 bytes h 20;
      eight = length-regs_at bytes h 8 24;
      regs_fit = regs_at-IsU32 bytes h 8 24;
      pc_fits = field_at-IsU32 bytes h 56;
      sp_fits = field_at-IsU32 bytes h 60;
    })
