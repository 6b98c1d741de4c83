-- ===== src/Debugger/Numbers.antt =====
-- src/main.cpp, `parse_numeric_arg`: the numbers that `printf` writes, read again.
use mathlib.Core.Path.{subst}
use retro_vm.Prelude.{
  ℕ, ◌^◌, ◌≤◌, ◌<◌, ◌≡◌, refl, sym, ap, ◌∙◌, arith, Bool, false, ◌&&◌, ◌||◌, [], ◌∷◌, Option, none,
  some, All, ◌==◌, if◌then◌else◌, if_false, drop,
}
use retro_vm.Text.{Str, is_space, digit_of, scan, signed, pop_front, is_empty, ends}
use retro_vm.Text.Numerals.{after_prefix, as_u64, strtoull}
use retro_vm.Text.Printed.{digit_char, printed}
use retro_vm.Text.Digits.{
  IsBase, decimal-IsBase, hex-IsBase, scan-printed, printed-All, printed-cons,
}
use retro_vm.Debugger.Console.{hex_prefix, parse_numeric_arg}

-- A character that `printf` writes for a digit in the base.
abbrev pub IsDigit : ℕ → ℕ → Type 0
IsDigit base c = (d : ℕ) × (d < base) × (c ≡ digit_char d)

pub printed-IsDigit : (base : ℕ) → IsBase base → (n : ℕ) → All (IsDigit base) (printed base n)
printed-IsDigit base b = printed-All base b (IsDigit base) (λ d h. (d, h, refl))

IsDigit-digit_of : (base c : ℕ) → base ≤ 16 → IsDigit base c → (d : ℕ) × (digit_of base c ≡ some d)
IsDigit-digit_of base c l (d, h, e) = (d, ground (arith, e))

-- No digit is a sign, a space, an `x` or the end.
IsDigit-plain :
    (base c : ℕ)
    → base ≤ 16
    → IsDigit base c
    → (is_space c ≡ false)
      × ((c == b'-') ≡ false)
      × ((c == b'+') ≡ false)
      × ((c == b'x' || c == b'X') ≡ false)
      × ((c == 0) ≡ false)
IsDigit-plain base c l (d, h, e) =
    (ground (arith, e), ground (arith, e), ground (arith, e), ground (arith, e), ground (arith, e))

and_false : (a b : Bool) → b ≡ false → (a && b) ≡ false
and_false a b e = ground arith

no_prefix : (h : ℕ) (t : Str) → All (IsDigit 16) (h ∷ t) → after_prefix (h ∷ t) ≡ h ∷ t
no_prefix h [] a = refl
no_prefix h (x ∷ []) a = refl
no_prefix h (x ∷ y ∷ t) a =
    if_false (h == b'0' && (x == b'x' || x == b'X')) _ _
      (and_false (h == b'0') (x == b'x' || x == b'X') (IsDigit-plain 16 x (omega arith) a.1.0).3)

unsigned_digits :
    (h : ℕ) (t : Str) (base : ℕ)
    → base ≤ 16
    → IsDigit base h
    → signed (pop_front is_space (h ∷ t)) ≡ (false, h ∷ t)
unfolding pop_front
unsigned_digits h t base l a = let p = IsDigit-plain base h l a in rw (p.0, p.1, p.2) refl

as_u64_small : (v : ℕ) → v < 2 ^ 64 → as_u64 false v ≡ v
as_u64_small v h = ground arith

strtoull-digits :
    (base h v : ℕ) (t : Str)
    → base ≤ 16
    → IsDigit base h
    → (if base == 16 then after_prefix (h ∷ t) else h ∷ t) ≡ h ∷ t
    → scan base 0 (h ∷ t) ≡ (v, [])
    → v < 2 ^ 64
    → strtoull base (h ∷ t) ≡ some (v, [])
unfolding strtoull
strtoull-digits base h v t l a whole counted small =
    let (d, e) = IsDigit-digit_of base h l a in
    ap (λ p. read p.0 (if base == 16 then after_prefix p.1 else p.1)) (unsigned_digits h t base l a)
    ∙ ap (read false) whole
    ∙ (λ i. elim (e i) [ none ↦ none | some d ↦ some (as_u64 false (counted i).0, (counted i).1) ])
    ∙ ap (λ n. some (n, [])) (as_u64_small v small)
  where
    read : Bool → Str → Option (ℕ × Str)
    read minus u = elim u as (λ x. Option (ℕ × Str)) [
      | [] ↦ none
      | c ∷ cs ↦ elim (digit_of base c) [
        | none ↦ none
        | some d ↦ some (as_u64 minus (scan base 0 u).0, (scan base 0 u).1)
      ]
    ]

unprefixed : (h : ℕ) (t : Str) → All (IsDigit 10) (h ∷ t) → hex_prefix (h ∷ t) ≡ false
unprefixed h [] a = refl
unprefixed h (x ∷ t) a = and_false (h == b'0') _ (IsDigit-plain 10 x (omega arith) a.1.0).3

-- What `parse_numeric_arg` makes of the digits.
accepted :
    (base h v : ℕ) (t : Str)
    → base ≤ 16
    → IsDigit base h
    → strtoull base (h ∷ t) ≡ some (v, [])
    → (if ends (h ∷ t) then none else elim (strtoull base (h ∷ t)) [
      | none ↦ none
      | some (v, rest) ↦ if ends rest then some v else none
    ])
      ≡ some v
accepted base h v t l a e =
    if_false (h == 0) _ _ (IsDigit-plain base h l a).4
    ∙ ap (λ o. elim o [ none ↦ none | some (v, rest) ↦ if ends rest then some v else none ]) e

-- A token, once it is known whether it has a prefix.
abbrev read_as : Bool → Str → Option ℕ
read_as hex tok =
    let base = if hex then 16 else 10 in
    let digits = if hex then drop 2 tok else tok in
    if is_empty tok then none else if ends digits then none else elim (strtoull base digits) [
      | none ↦ none
      | some (v, rest) ↦ if ends rest then some v else none
    ]

-- A number below 2 ^ 31 as `%u` writes it.
pub parse_numeric_arg-decimal : (n : ℕ) → n < 2 ^ 31 → parse_numeric_arg (printed 10 n) ≡ some n
unfolding parse_numeric_arg strtoull
parse_numeric_arg-decimal n small =
    let (h, t, e) = printed-cons 10 n in
    let all = subst (All (IsDigit 10)) e (printed-IsDigit 10 decimal-IsBase n) in
    let counted = ap (scan 10 0) (sym e) ∙ scan-printed 10 decimal-IsBase n small in
    ap parse_numeric_arg e
    ∙ ap (λ p. read_as p (h ∷ t)) (unprefixed h t all)
    ∙ accepted 10 h n t (omega arith) all.0
        (strtoull-digits 10 h n t (omega arith) all.0 refl counted (omega arith))

-- A number below 2 ^ 31 as `%x` writes it, behind `0x`.
pub parse_numeric_arg-hex :
    (n : ℕ) → n < 2 ^ 31 → parse_numeric_arg (b'0' ∷ b'x' ∷ printed 16 n) ≡ some n
unfolding parse_numeric_arg strtoull
parse_numeric_arg-hex n small =
    let (h, t, e) = printed-cons 16 n in
    let all = subst (All (IsDigit 16)) e (printed-IsDigit 16 hex-IsBase n) in
    let counted = ap (scan 16 0) (sym e) ∙ scan-printed 16 hex-IsBase n small in
    ap (λ s. parse_numeric_arg (b'0' ∷ b'x' ∷ s)) e
    ∙ accepted 16 h n t (omega arith) all.0
        (strtoull-digits 16 h n t (omega arith) all.0 (no_prefix h t all) counted (omega arith))
