-- ===== src/Dispatch/Arith.antt =====
-- src/vm.cpp, label_ADD to label_DIV: the results and the flags of the arithmetic instructions.
use native.Mathlib.Nat.{mul-le-mul}
use retro_vm.Prelude.{
  ℕ, ◌+◌, ◌-◌, ◌*◌, ◌/◌, ◌%◌, ◌^◌, ◌≤◌, ◌<◌, ◌≡◌, ◌≢◌, ◌↔◌, refl, arith, Bool, true, false, ◌==◌,
  ltb,
}
use retro_vm.Word.{u32, u64, sub32, IsU32, sign_bit, sign_bit_iff}
use retro_vm.Isa.{flags_of, halt_div_zero}
use retro_vm.Machine.{Vm, read_reg, write_reg, set_flags, set_pc, request_halt}
use retro_vm.Hooks.{Flow, next, halt}
use retro_vm.Dispatch.{label_add, label_sub, label_mul, label_div}

-- What the three flag bits of `f` say of the result `r`; `carry` is the condition of the carry bit.
abbrev pub Describes : ℕ → ℕ → Type 0 → Type 0
Describes f r carry =
    (f < 8) × ((f % 2 ≡ 1) ↔ (r ≡ 0)) × ((f / 2 % 2 ≡ 1) ↔ carry) × ((f / 4 % 2 ≡ 1) ↔ (2 ^ 31 ≤ r))

flags_of_bits :
    (z c s : Bool)
    → (flags_of z c s < 8)
      × ((flags_of z c s % 2 ≡ 1) ↔ (z ≡ true))
      × ((flags_of z c s / 2 % 2 ≡ 1) ↔ (c ≡ true))
      × ((flags_of z c s / 4 % 2 ≡ 1) ↔ (s ≡ true))
unfolding flags_of
flags_of_bits true true true = ground arith
flags_of_bits true true false = ground arith
flags_of_bits true false true = ground arith
flags_of_bits true false false = ground arith
flags_of_bits false true true = ground arith
flags_of_bits false true false = ground arith
flags_of_bits false false true = ground arith
flags_of_bits false false false = ground arith

flags_of-Describes :
    (r : ℕ) (c : Bool) (carry : Type 0)
    → IsU32 r
    → (c ≡ true) ↔ carry
    → Describes (flags_of (r == 0) c (sign_bit r)) r carry
flags_of-Describes r c carry h e =
    let b = flags_of_bits (r == 0) c (sign_bit r) in
    let z : ((r == 0) ≡ true) ↔ (r ≡ 0) = ground arith in
    let s = sign_bit_iff r h in
    (
      b.0,
      (λ p. z.0 (b.1.0 p), λ p. b.1.1 (z.1 p)),
      (λ p. e.0 (b.2.0 p), λ p. b.2.1 (e.1 p)),
      (λ p. s.0 (b.3.0 p), λ p. b.3.1 (s.1 p)),
    )

-- An instruction that writes `r` and some flags, and nothing else.
abbrev pub Writes : {W : Type 0} → Flow W → Vm → W → ℕ → ℕ → Type 0 → Type 0
Writes f vm w dst r carry =
    (flags : ℕ) × (f ≡ next (set_flags (write_reg vm dst r) flags) w) × Describes flags r carry

product-lt : (a b : ℕ) → IsU32 a → IsU32 b → a * b < 2 ^ 64
product-lt a b ha hb =
    let top : a * b ≤ (2 ^ 32 - 1) * (2 ^ 32 - 1) =
      mul-le-mul {n₂ = 2 ^ 32 - 1} {m₂ = 2 ^ 32 - 1} (omega arith) (omega arith) in
    omega arith

quotient-lt : (a b : ℕ) → IsU32 a → IsU32 (a / b)
quotient-lt a b h = grind arith

module _ {W : Type 0} (dst src : ℕ) (vm : Vm) (w : W) where
  abbrev lhs : ℕ
  lhs = read_reg vm dst

  abbrev rhs : ℕ
  rhs = read_reg vm src

  -- ADD of 32-bit registers writes the sum modulo 2 ^ 32, with carry exactly when the true sum does
  -- not fit, and zero and sign by the result.
  pub label_add_lem :
      IsU32 (read_reg vm dst)
      → IsU32 (read_reg vm src)
      → Writes
          (label_add dst src vm w)
          vm
          w
          dst
          ((read_reg vm dst + read_reg vm src) % 2 ^ 32)
          (2 ^ 32 ≤ read_reg vm dst + read_reg vm src)
  unfolding label_add
  label_add_lem ha hb = (
    _,
    refl,
    flags_of-Describes (u32 (lhs + rhs)) (ltb (u32 (lhs + rhs)) lhs) _ (omega arith) (ground arith),
  )

  -- SUB of 32-bit registers writes the difference modulo 2 ^ 32, with carry exactly on a borrow,
  -- and zero and sign by the result.
  pub label_sub_lem :
      IsU32 (read_reg vm dst)
      → IsU32 (read_reg vm src)
      → (r : ℕ) × ((r + read_reg vm src) % 2 ^ 32 ≡ read_reg vm dst)
        × IsU32 r
        × Writes (label_sub dst src vm w) vm w dst r (read_reg vm dst < read_reg vm src)
  unfolding label_sub
  label_sub_lem ha hb = (
    sub32 lhs rhs,
    omega arith,
    omega arith,
    (_, refl, flags_of-Describes (sub32 lhs rhs) (ltb lhs rhs) _ (omega arith) (ground arith)),
  )

  -- MUL of 32-bit registers writes the low half of the product, with carry exactly when the product
  -- does not fit, and zero and sign by the result.
  pub label_mul_lem :
      IsU32 (read_reg vm dst)
      → IsU32 (read_reg vm src)
      → Writes
          (label_mul dst src vm w)
          vm
          w
          dst
          (read_reg vm dst * read_reg vm src % 2 ^ 32)
          (2 ^ 32 ≤ read_reg vm dst * read_reg vm src)
  unfolding label_mul
  label_mul_lem ha hb =
      let fits : u64 (lhs * rhs) ≡ lhs * rhs = omega (arith, product-lt lhs rhs ha hb) in
      rw fits (
        _,
        refl,
        flags_of-Describes (u32 (lhs * rhs)) (ltb 0xFFFFFFFF (lhs * rhs)) _ (omega arith)
            (ground arith),
      )

  -- DIV of a 32-bit register by a non-zero register writes the quotient of the division with
  -- remainder, clears the carry, and sets zero and sign by the quotient.
  pub label_div_lem :
      IsU32 (read_reg vm dst)
      → read_reg vm src ≢ 0
      → (q r : ℕ) × (q * read_reg vm src + r ≡ read_reg vm dst)
        × (r < read_reg vm src)
        × Writes (label_div dst src vm w) vm w dst q ⊥
  unfolding label_div
  label_div_lem ha nz = (
    lhs / rhs,
    lhs % rhs,
    grind arith,
    grind arith,
    (
      flags_of (lhs / rhs == 0) false (sign_bit (lhs / rhs)),
      ground arith,
      flags_of-Describes (lhs / rhs) false ⊥ (quotient-lt lhs rhs ha) (ground arith),
    ),
  )

  -- DIV by zero halts with its reason and takes `pc` back by one instruction. The registers, the
  -- flags, the memory and the log stay as they are.
  label_div_zero :
      read_reg vm src ≡ 0
      → label_div dst src vm w
        ≡ halt halt_div_zero (request_halt (set_pc vm (sub32 vm.state.pc 4)) halt_div_zero) w
  unfolding label_div
  label_div_zero z = ground arith
