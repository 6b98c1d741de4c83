-- ===== src/Text/Digits.antt =====
-- The digits that are printed, scanned again.
use retro_vm.Prelude.{
  ℕ, zero, suc, ◌+◌, ◌*◌, ◌/◌, ◌%◌, ◌^◌, ◌<◌, ◌≤◌, ◌≡◌, refl, ap, ◌∙◌, arith, false, [], ◌∷◌, none,
  some, ltb, ltb→lt, All, Bool-cases, inl, inr,
}
use retro_vm.Text.{Str, digit_of, scan}
use retro_vm.Text.Printed.{digit_char, put_digits, printed}

digit_of-digit_char : (base d : ℕ) → d < base → base ≤ 16 → digit_of base (digit_char d) ≡ some d
digit_of-digit_char base d h l = ground arith

scan_digit :
    (base acc d : ℕ) (out : Str)
    → d < base
    → base ≤ 16
    → scan base acc (digit_char d ∷ out) ≡ scan base (acc * base + d) out
unfolding scan
scan_digit base acc d out h l = λ i. elim (digit_of-digit_char base d h l i) [
  | none ↦ (acc, digit_char d ∷ out)
  | some d ↦ scan base (acc * base + d) out
]

-- What division by a base says, for the bases that are printed.
pub record IsBase (base : ℕ) : Type 0 where
  pub at_most : base ≤ 16
  pub digit_lt : (n : ℕ) → n % base < base
  pub together : (n : ℕ) → n / base * base + n % base ≡ n
  pub smaller : (n k : ℕ) → n < 2 ^ suc k → n / base < 2 ^ k
  pub zero_digit : (n : ℕ) → n < base → n % base ≡ n

pub decimal-IsBase : IsBase 10
decimal-IsBase = record {
  at_most = omega arith;
  digit_lt = λ n. omega arith;
  together = λ n. omega arith;
  smaller = λ n k h. omega arith;
  zero_digit = λ n h. omega arith;
}

pub hex-IsBase : IsBase 16
hex-IsBase = record {
  at_most = omega arith;
  digit_lt = λ n. omega arith;
  together = λ n. omega arith;
  smaller = λ n k h. omega arith;
  zero_digit = λ n h. omega arith;
}

module _ (base : ℕ) (b : IsBase base) where
  not_last : (n : ℕ) → ltb n base ≡ false → base ≤ n
  not_last n e = ground arith

  -- The digits of `n` count up to `n`.
  scan-put_digits :
      (fuel n : ℕ) (out : Str)
      → n < 2 ^ fuel
      → scan base 0 (put_digits (suc fuel) base n out) ≡ scan base n out
  unfolding put_digits
  scan-put_digits zero n out h = elim (Bool-cases (ltb n base)) [
    | inl last ↦
        let same : 0 * base + n % base ≡ n = omega (arith, b.zero_digit n (ltb→lt n base last)) in
        rw last (
          scan_digit base 0 (n % base) out (b.digit_lt n) b.at_most
          ∙ ap (λ k. scan base k out) same)
    | inr more ↦ absurd (omega (arith, not_last n more, b.digit_lt n))
  ]
  scan-put_digits (suc fuel) n out h = elim (Bool-cases (ltb n base)) [
    | inl last ↦
        let same : 0 * base + n % base ≡ n = omega (arith, b.zero_digit n (ltb→lt n base last)) in
        rw last (
          scan_digit base 0 (n % base) out (b.digit_lt n) b.at_most
          ∙ ap (λ k. scan base k out) same)
    | inr more ↦ rw more (
        scan-put_digits fuel (n / base) (digit_char (n % base) ∷ out) (b.smaller n fuel h)
        ∙ (scan_digit base (n / base) (n % base) out (b.digit_lt n) b.at_most
            ∙ ap (λ k. scan base k out) (b.together n)))
  ]

  -- A number of 32 bits in front of anything.
  pub scan-printed : (n : ℕ) → n < 2 ^ 31 → scan base 0 (printed base n) ≡ (n, [])
  unfolding printed scan
  scan-printed n h = scan-put_digits 31 n [] h

  -- Every character of it is a digit.
  put_digits-All :
      (P : ℕ → Type 0)
      → ((d : ℕ) → d < base → P (digit_char d))
      → (fuel n : ℕ) (out : Str) → All P out
      → All P (put_digits fuel base n out)
  unfolding put_digits
  put_digits-All P digit zero n out h = h
  put_digits-All P digit (suc fuel) n out h = elim (Bool-cases (ltb n base)) [
    | inl last ↦ rw last (digit (n % base) (b.digit_lt n), h)
    | inr more ↦ rw more (
        put_digits-All P digit fuel (n / base) (digit_char (n % base) ∷ out)
          (digit (n % base) (b.digit_lt n), h))
  ]

  pub printed-All :
      (P : ℕ → Type 0) → ((d : ℕ) → d < base → P (digit_char d)) → (n : ℕ) → All P (printed base n)
  unfolding printed
  printed-All P digit n = put_digits-All P digit 32 n [] tt

-- What is printed is not empty.
put_digits-cons :
    (fuel base n c : ℕ) (out : Str)
    → (h : ℕ) × (t : Str) × (put_digits fuel base n (c ∷ out) ≡ h ∷ t)
unfolding put_digits
put_digits-cons zero base n c out = (c, out, refl)
put_digits-cons (suc fuel) base n c out = elim (Bool-cases (ltb n base)) [
  | inl last ↦ (digit_char (n % base), c ∷ out, rw last refl)
  | inr more ↦
      let (h, t, e) = put_digits-cons fuel base (n / base) (digit_char (n % base)) (c ∷ out) in
      (h, t, rw more e)
]

pub printed-cons : (base n : ℕ) → (h : ℕ) × (t : Str) × (printed base n ≡ h ∷ t)
unfolding printed put_digits
printed-cons base n = elim (Bool-cases (ltb n base)) [
  | inl last ↦ (digit_char (n % base), [], rw last refl)
  | inr more ↦
      let (h, t, e) = put_digits-cons 31 base (n / base) (digit_char (n % base)) [] in
      (h, t, rw more e)
]
