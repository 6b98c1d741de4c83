-- ===== src/Bits.antt =====
-- The bit operations that the instruction codec and the byte accesses use, as arithmetic: `|` of
-- disjoint fields, `&` with a mask of low bits, and `&` with a single bit.
mod Digits
use Digits.{or_digit, and_digit}
use Prim.Native.Nat.{bit_or-bitwise}
use native.Mathlib.Nat.{pow-suc, one-le-pow}
use retro_vm.Prelude.{
  ℕ, zero, suc, ◌+◌, ◌-◌, ◌*◌, ◌/◌, ◌%◌, ◌^◌, ◌<◌, ◌≤◌, bit_and, bit_or, ◌≡◌, refl, ap, arith,
}

-- Halving a number that has `k + 1` low bits set aside.
double_field : (q k : ℕ) → q * 2 ^ suc k ≡ 2 * (q * 2 ^ k)
double_field q k = omega (arith, ap (λ (t : ℕ). q * t) (pow-suc 2 k))

or_nothing : (n a : ℕ) → a ≤ n → bit_or a 0 ≡ a
or_nothing n zero h = refl
or_nothing zero (suc a) h = absurd (omega arith)
or_nothing (suc n) (suc a) h =
    omega (arith, or_digit (suc a) 0, or_nothing n (suc a / 2) (omega arith))

and_nothing : (n a : ℕ) → a ≤ n → bit_and a 0 ≡ 0
and_nothing n zero h = refl
and_nothing zero (suc a) h = absurd (omega arith)
and_nothing (suc n) (suc a) h =
    omega (arith, and_digit (suc a) 0, and_nothing n (suc a / 2) (omega arith))

-- `(q << k) | r` is the sum of the two fields.
pub bit_or-eq-add : (k q r : ℕ) → r < 2 ^ k → bit_or (q * 2 ^ k) r ≡ q * 2 ^ k + r
bit_or-eq-add zero q r h = ground (arith, or_nothing q q)
bit_or-eq-add (suc k) q r h = ground (
  arith,
  or_digit (q * 2 ^ suc k) r,
  double_field q k,
  bit_or-eq-add k q (r / 2) (omega (arith, double_field 1 k)),
)

nothing_or : (a : ℕ) → bit_or 0 a ≡ a
nothing_or a = bit_or-bitwise 0 a

-- The same with the low field first.
pub bit_or-eq-add_swap : (k q r : ℕ) → r < 2 ^ k → bit_or r (q * 2 ^ k) ≡ q * 2 ^ k + r
bit_or-eq-add_swap zero q r h = ground (arith, nothing_or q)
bit_or-eq-add_swap (suc k) q r h = ground (
  arith,
  or_digit r (q * 2 ^ suc k),
  double_field q k,
  bit_or-eq-add_swap k q (r / 2) (omega (arith, double_field 1 k)),
)

-- `(q << k | r) & (2 ^ k - 1)` keeps the low field.
and_low_field : (k q r : ℕ) → r < 2 ^ k → bit_and (q * 2 ^ k + r) (2 ^ k - 1) ≡ r
and_low_field zero q r h = ground (arith, and_nothing (q * 1 + r) (q * 1 + r))
and_low_field (suc k) q r h = ground (
  arith,
  and_digit (q * 2 ^ suc k + r) (2 ^ suc k - 1),
  double_field q k,
  double_field 1 k,
  one-le-pow k 2,
  and_low_field k q (r / 2),
)

-- A mask of `k` ones takes the remainder by `2 ^ k`.
pub bit_and-eq-mod : (k a : ℕ) → bit_and a (2 ^ k - 1) ≡ a % 2 ^ k
bit_and-eq-mod k a = ground (arith, one-le-pow k 2, and_low_field k (a / 2 ^ k) (a % 2 ^ k))

-- Masking with the single bit `k` of `q << k | r` keeps the lowest bit of `q`.
pub bit_and-single : (k q r : ℕ) → r < 2 ^ k → bit_and (q * 2 ^ k + r) (2 ^ k) ≡ q % 2 * 2 ^ k
bit_and-single zero q r h =
    omega (arith, and_digit (q * 1 + r) 1, and_nothing ((q * 1 + r) / 2) ((q * 1 + r) / 2))
bit_and-single (suc k) q r h = ground (
  arith,
  and_digit (q * 2 ^ suc k + r) (2 ^ suc k),
  double_field q k,
  double_field 1 k,
  double_field (q % 2) k,
  bit_and-single k q (r / 2),
)
