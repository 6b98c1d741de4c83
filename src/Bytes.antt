-- ===== src/Bytes.antt =====
-- Byte sequences of the file formats: the little-endian form that a struct field has in memory on
-- the machines that src/checkpoint.cpp and src/trace.cpp are built for, and reads at an offset.
use retro_vm.Prelude.{
  ℕ, zero, suc, ◌+◌, ◌*◌, ◌^◌, ◌≡◌, refl, ap, arith, List, [], ◌∷◌, ◌++◌, length, take, drop,
}
use retro_vm.Word.{u8, shr}

-- `n` bytes of `v`, lowest first.
abbrev pub le_bytes : ℕ → ℕ → List ℕ
le_bytes zero v = []
le_bytes (suc n) v = u8 v ∷ le_bytes n (shr v 8)

-- The number that bytes stand for, lowest first.
abbrev pub of_le : List ℕ → ℕ
of_le [] = 0
of_le (b ∷ bs) = b + of_le bs * 2 ^ 8

-- `n` bytes from offset `i`, as a number.
abbrev pub field_at : List ℕ → ℕ → ℕ → ℕ
field_at bytes i n = of_le (take n (drop i bytes))

pub length-le_bytes : (n v : ℕ) → length (le_bytes n v) ≡ n
length-le_bytes zero v = refl
length-le_bytes (suc n) v = ap suc (length-le_bytes n (shr v 8))

module _ {ℓ} {A : Type ℓ} where
  pub take-append : (n : ℕ) (xs ys : List A) → length xs ≡ n → take n (xs ++ ys) ≡ xs
  take-append zero [] ys e = refl
  take-append zero (x ∷ xs) ys e = absurd (omega arith)
  take-append (suc n) [] ys e = absurd (omega arith)
  take-append (suc n) (x ∷ xs) ys e = ap (λ t. x ∷ t) (take-append n xs ys (omega arith))

  pub drop-append : (n : ℕ) (xs ys : List A) → length xs ≡ n → drop n (xs ++ ys) ≡ ys
  drop-append zero [] ys e = refl
  drop-append zero (x ∷ xs) ys e = absurd (omega arith)
  drop-append (suc n) [] ys e = absurd (omega arith)
  drop-append (suc n) (x ∷ xs) ys e = drop-append n xs ys (omega arith)

  -- An offset behind the first part of two.
  pub drop-append_past :
      (j k : ℕ) (xs ys : List A) → j ≡ length xs + k → drop j (xs ++ ys) ≡ drop k ys
  drop-append_past j k [] ys e = let e' : j ≡ k = omega arith in ap (λ n. drop n ys) e'
  drop-append_past zero k (x ∷ xs) ys e = absurd (omega arith)
  drop-append_past (suc j) k (x ∷ xs) ys e = drop-append_past j k xs ys (omega arith)
