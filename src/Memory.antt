-- ===== src/Memory.antt =====
-- The 1 MiB arena of class VM (include/retrovm/vm.hpp) and the little-endian accesses of
-- src/vm.cpp: `mem_load_u32`, `mem_store_u32`, `VM::apply_old_value`. The arena is a function from
-- an address to its byte; every access masks its address to 20 bits, so only addresses below
-- 2 ^ 20 are touched. The array starts zeroed.
pub mod Laws
use retro_vm.Prelude.{ℕ, ◌+◌, ◌*◌, ◌/◌, ◌^◌, ◌<◌, bit_and, bit_or, ◌==◌, if◌then◌else◌}
use retro_vm.Word.{u8, u32, shl, shr, IsU8, join_bytes}

abbrev pub mem_size : ℕ
mem_size = 2 ^ 20

abbrev pub Memory : Type 0
Memory = ℕ → ℕ

abbrev pub IsMemory : Memory → Type 0
IsMemory m = (a : ℕ) → IsU8 (m a)

abbrev pub zeroed : Memory
zeroed a = 0

-- `addr & MEM_MASK`.
unfoldable pub mask : ℕ → ℕ
mask addr = bit_and addr 0xFFFFF

-- `m[a] = v`.
abbrev pub poke : Memory → ℕ → ℕ → Memory
poke m a v q = if q == a then v else m q

unfoldable pub mem_load_u32 : Memory → ℕ → ℕ
mem_load_u32 m addr0 =
    let addr = mask addr0 in
    let b0 = m addr in
    let b1 = m (mask (u32 (addr + 1))) in
    let b2 = m (mask (u32 (addr + 2))) in
    let b3 = m (mask (u32 (addr + 3))) in join_bytes b0 b1 b2 b3

unfoldable pub mem_store_u32 : Memory → ℕ → ℕ → Memory
mem_store_u32 m addr0 v =
    let addr = mask addr0 in
    let m0 = poke m addr (u8 v) in
    let m1 = poke m0 (mask (u32 (addr + 1))) (u8 (shr v 8)) in
    let m2 = poke m1 (mask (u32 (addr + 2))) (u8 (shr v 16)) in
    poke m2 (mask (u32 (addr + 3))) (u8 (shr v 24))

-- One logged write: the cell, the number of writes folded into the entry and the word that the
-- cell held before them.
pub record MemDelta : Type 0 where
  pub run_count : ℕ
  pub page : ℕ
  pub offset : ℕ
  pub old_value : ℕ

-- `(uint32_t(d.page) << 12) | uint32_t(d.offset)`.
unfoldable pub delta_addr : MemDelta → ℕ
delta_addr d = bit_or (shl d.page 12) d.offset

unfoldable pub apply_old_value : Memory → MemDelta → Memory
apply_old_value m d =
    let addr = delta_addr d in
    let v = d.old_value in
    let m0 = poke m (mask addr) (u8 v) in
    let m1 = poke m0 (mask (u32 (addr + 1))) (u8 (shr v 8)) in
    let m2 = poke m1 (mask (u32 (addr + 2))) (u8 (shr v 16)) in
    poke m2 (mask (u32 (addr + 3))) (u8 (shr v 24))
