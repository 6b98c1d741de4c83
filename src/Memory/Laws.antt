-- ===== src/Memory/Laws.antt =====
-- What the word accesses of the arena satisfy.
use retro_vm.Prelude.{
  ℕ, ◌+◌, ◌*◌, ◌%◌, ◌^◌, ◌≤◌, ◌<◌, ◌≡◌, arith, fun_ext, ◌==◌, ◌-◌, if◌then◌else◌,
}
use retro_vm.Word.{u8, u32, shr, IsU32, join_bytes-eq-sum}
use retro_vm.Bits.{bit_and-eq-mod}
use retro_vm.Memory.{Memory, IsMemory, mask, mem_load_u32, mem_store_u32}

pub mask-eq-mod : (a : ℕ) → mask a ≡ a % 2 ^ 20
unfolding mask
mask-eq-mod a = bit_and-eq-mod 20 a

-- The address of byte `k` of the word at `a`, around the end of the arena.
abbrev pub byte_addr : ℕ → ℕ → ℕ
byte_addr a k = (a % 2 ^ 20 + k) % 2 ^ 20

mask_step : (a k : ℕ) → k < 4 → mask (u32 (mask a + k)) ≡ byte_addr a k
mask_step a k h = omega (arith, mask-eq-mod a, mask-eq-mod (u32 (mask a + k)))

-- A store as one function: byte `k` of the word goes to the address `k` further on.
pub mem_store_u32_lem :
    (m : Memory) (a v q : ℕ)
    → mem_store_u32 m a v q ≡ (
        if q == byte_addr a 3
        then u8 (shr v 24)
        else if q == byte_addr a 2
        then u8 (shr v 16)
        else if q == byte_addr a 1
        then u8 (shr v 8)
        else if q == byte_addr a 0
        then u8 v
        else m q)
unfolding mem_store_u32
mem_store_u32_lem m a v q = ground (
  arith,
  mask-eq-mod a,
  mask_step a 1 (omega arith),
  mask_step a 2 (omega arith),
  mask_step a 3 (omega arith),
)

pub mem_load_u32_lem :
    (m : Memory) (a : ℕ)
    → IsMemory m
    → mem_load_u32 m a
      ≡ m (byte_addr a 0)
        + m (byte_addr a 1) * 2 ^ 8
        + m (byte_addr a 2) * 2 ^ 16
        + m (byte_addr a 3) * 2 ^ 24
unfolding mem_load_u32
mem_load_u32_lem m a h = ground (
  arith,
  mask-eq-mod a,
  mask_step a 1 (omega arith),
  mask_step a 2 (omega arith),
  mask_step a 3 (omega arith),
  join_bytes-eq-sum (m (byte_addr a 0)) (m (byte_addr a 1)) (m (byte_addr a 2)) (m (byte_addr a 3))
      (h _) (h _) (h _) (h _),
)

pub mem_load_u32-lt : (m : Memory) (a : ℕ) → IsMemory m → IsU32 (mem_load_u32 m a)
mem_load_u32-lt m a h = omega (
  arith,
  mem_load_u32_lem m a h,
  h (byte_addr a 0),
  h (byte_addr a 1),
  h (byte_addr a 2),
  h (byte_addr a 3),
)

pub mem_store_u32-IsMemory : (m : Memory) (a v : ℕ) → IsMemory m → IsMemory (mem_store_u32 m a v)
mem_store_u32-IsMemory m a v h q = ground (arith, mem_store_u32_lem m a v q, h q)

-- Byte `k` of the word just stored.
stored_byte :
    (m : Memory) (a v : ℕ)
    → let s = mem_store_u32 m a v in
      (s (byte_addr a 0) ≡ u8 v)
      × (s (byte_addr a 1) ≡ u8 (shr v 8))
      × (s (byte_addr a 2) ≡ u8 (shr v 16))
      × (s (byte_addr a 3) ≡ u8 (shr v 24))
stored_byte m a v = (
  ground (arith, mem_store_u32_lem m a v (byte_addr a 0)),
  ground (arith, mem_store_u32_lem m a v (byte_addr a 1)),
  ground (arith, mem_store_u32_lem m a v (byte_addr a 2)),
  ground (arith, mem_store_u32_lem m a v (byte_addr a 3)),
)

-- In an arena of bytes, a load gives back the 32-bit word just stored at its address, also across
-- the end of the arena.
pub mem_load_u32-mem_store_u32 :
    (m : Memory) (a v : ℕ) → IsMemory m → IsU32 v → mem_load_u32 (mem_store_u32 m a v) a ≡ v
mem_load_u32-mem_store_u32 m a v hm hv = omega (
  arith,
  stored_byte m a v,
  mem_load_u32_lem (mem_store_u32 m a v) a (mem_store_u32-IsMemory m a v hm),
)

-- The two words share no byte, counted around the arena.
abbrev pub Disjoint : ℕ → ℕ → Type 0
Disjoint a b =
    (4 ≤ (b % 2 ^ 20 + 2 ^ 20 - a % 2 ^ 20) % 2 ^ 20)
    × (4 ≤ (a % 2 ^ 20 + 2 ^ 20 - b % 2 ^ 20) % 2 ^ 20)

untouched_byte :
    (m : Memory) (a b v k : ℕ)
    → Disjoint a b
    → k < 4
    → mem_store_u32 m a v (byte_addr b k) ≡ m (byte_addr b k)
untouched_byte m a b v k d h = ground (arith, mem_store_u32_lem m a v (byte_addr b k))

-- In an arena of bytes, a store leaves every disjoint word as it was, where two words are disjoint
-- if they share no byte, counted around the arena.
pub mem_load_u32-mem_store_u32_ne :
    (m : Memory) (a b v : ℕ)
    → IsMemory m
    → Disjoint a b
    → mem_load_u32 (mem_store_u32 m a v) b ≡ mem_load_u32 m b
mem_load_u32-mem_store_u32_ne m a b v hm d = omega (
  arith,
  untouched_byte m a b v 0 d,
  untouched_byte m a b v 1 d,
  untouched_byte m a b v 2 d,
  untouched_byte m a b v 3 d,
  mem_load_u32_lem m b hm,
  mem_load_u32_lem (mem_store_u32 m a v) b (mem_store_u32-IsMemory m a v hm),
)

-- In an arena of bytes, storing back the word that was read before a store undoes the store, byte
-- for byte.
pub mem_store_u32_undo :
    (m : Memory) (a v : ℕ)
    → IsMemory m
    → mem_store_u32 (mem_store_u32 m a v) a (mem_load_u32 m a) ≡ m
mem_store_u32_undo m a v hm = fun_ext λ q. ground (
  arith,
  mem_store_u32_lem (mem_store_u32 m a v) a (mem_load_u32 m a) q,
  mem_store_u32_lem m a v q,
  mem_load_u32_lem m a hm,
  hm (byte_addr a 0),
  hm (byte_addr a 1),
  hm (byte_addr a 2),
  hm (byte_addr a 3),
)
