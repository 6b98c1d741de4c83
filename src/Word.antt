-- ===== src/Word.antt =====
-- The fixed-width words of include/retrovm/vm.hpp and src/vm.cpp. A word is a native number below
-- its width's power of two, and each operation that can leave the width wraps by a remainder.
use retro_vm.Prelude.{
  ℕ, ◌+◌, ◌-◌, ◌*◌, ◌/◌, ◌%◌, ◌^◌, ◌≤◌, ◌<◌, ◌≡◌, ◌↔◌, bit_and, bit_or, arith, not, ◌==◌, Bool,
  true,
}
use retro_vm.Bits.{bit_or-eq-add_swap, bit_and-single}

abbrev pub u8 : ℕ → ℕ
u8 n = n % 2 ^ 8

abbrev pub u16 : ℕ → ℕ
u16 n = n % 2 ^ 16

abbrev pub u32 : ℕ → ℕ
u32 n = n % 2 ^ 32

abbrev pub u64 : ℕ → ℕ
u64 n = n % 2 ^ 64

abbrev pub IsU8 : ℕ → Type 0
IsU8 n = n < 2 ^ 8

abbrev pub IsU32 : ℕ → Type 0
IsU32 n = n < 2 ^ 32

-- `a - b` in unsigned arithmetic of 32 and of 64 bits.
abbrev pub sub32 : ℕ → ℕ → ℕ
sub32 a b = u32 (a + 2 ^ 32 - b)

abbrev pub sub64 : ℕ → ℕ → ℕ
sub64 a b = u64 (a + 2 ^ 64 - b)

-- `x << k` in 32 bits and `x >> k`.
abbrev pub shl : ℕ → ℕ → ℕ
shl x k = u32 (x * 2 ^ k)

abbrev pub shr : ℕ → ℕ → ℕ
shr x k = x / 2 ^ k

-- `b0 | (b1 << 8) | (b2 << 16) | (b3 << 24)`.
unfoldable pub join_bytes : ℕ → ℕ → ℕ → ℕ → ℕ
join_bytes b0 b1 b2 b3 = bit_or (bit_or (bit_or b0 (shl b1 8)) (shl b2 16)) (shl b3 24)

-- The top bit of a 32-bit word, `r & 0x80000000u` as a condition.
unfoldable pub sign_bit : ℕ → Bool
sign_bit r = not (bit_and r 0x80000000 == 0)

-- Joining four bytes is the little-endian sum.
pub join_bytes-eq-sum :
    (b0 b1 b2 b3 : ℕ)
    → IsU8 b0
    → IsU8 b1
    → IsU8 b2
    → IsU8 b3
    → join_bytes b0 b1 b2 b3 ≡ b0 + b1 * 2 ^ 8 + b2 * 2 ^ 16 + b3 * 2 ^ 24
unfolding join_bytes
join_bytes-eq-sum b0 b1 b2 b3 h0 h1 h2 h3 = ground (
  arith,
  bit_or-eq-add_swap 8 b1 b0 h0,
  bit_or-eq-add_swap 16 b2 (b0 + b1 * 2 ^ 8),
  bit_or-eq-add_swap 24 b3 (b0 + b1 * 2 ^ 8 + b2 * 2 ^ 16),
)

pub sign_bit_iff : (r : ℕ) → IsU32 r → (sign_bit r ≡ true) ↔ (2 ^ 31 ≤ r)
unfolding sign_bit
sign_bit_iff r h = ground (arith, bit_and-single 31 (r / 2 ^ 31) (r % 2 ^ 31))
