-- ===== src/Machine/Log.antt =====
-- The store log of src/vm.cpp: undoing the entries of the log, newest first, gives back the memory
-- as it was when the log was empty.
use retro_vm.Prelude.{
  ℕ, ◌+◌, ◌*◌, ◌/◌, ◌%◌, ◌^◌, ◌<◌, ◌≡◌, refl, sym, arith, fun_ext, List, [], ◌∷◌, All, ◌∙◌, ap,
  Bool-cases, inl, inr, true, bit_and,
}
use retro_vm.Word.{u8, u16, u32, shr}
use retro_vm.Bits.{bit_and-eq-mod, bit_or-eq-add}
use retro_vm.Memory.{
  Memory, IsMemory, mask, mem_load_u32, mem_store_u32, MemDelta, delta_addr, apply_old_value,
}
use retro_vm.Memory.Laws.{
  mask-eq-mod, byte_addr, mem_store_u32_lem, mem_load_u32-lt, mem_store_u32_undo,
  mem_store_u32-IsMemory,
}
use retro_vm.Machine.{IsDelta, new_delta, folds, log_store}

-- `for (it = deltas.rbegin(); ...) apply_old_value(*it)`.
unfoldable pub undo_deltas : Memory → List MemDelta → Memory
undo_deltas m [] = m
undo_deltas m (d ∷ ds) = undo_deltas (apply_old_value m d) ds

-- An entry in range addresses a cell of the arena.
pub delta_addr-eq-sum : (d : MemDelta) → IsDelta d → delta_addr d ≡ d.page * 2 ^ 12 + d.offset
unfolding delta_addr
delta_addr-eq-sum d h = ground (arith, bit_or-eq-add 12 d.page d.offset h.offset_fits)

mask-delta_addr :
    (d : MemDelta) (k : ℕ)
    → IsDelta d
    → k < 4
    → mask (u32 (delta_addr d + k)) ≡ byte_addr (delta_addr d) k
mask-delta_addr d k h lt =
    omega (arith, delta_addr-eq-sum d h, mask-eq-mod (u32 (delta_addr d + k)))

-- Undoing an entry is a store of its old word.
pub apply_old_value-eq-mem_store_u32 :
    (m : Memory) (d : MemDelta)
    → IsDelta d
    → apply_old_value m d ≡ mem_store_u32 m (delta_addr d) d.old_value
unfolding apply_old_value
apply_old_value-eq-mem_store_u32 m d h = fun_ext λ q. ground (
  arith,
  delta_addr-eq-sum d h,
  mem_store_u32_lem m (delta_addr d) d.old_value q,
  mask-eq-mod (delta_addr d),
  mask-delta_addr d 1 h,
  mask-delta_addr d 2 h,
  mask-delta_addr d 3 h,
)

-- The page and the offset of an address of the arena.
pub store_fields :
    (imm : ℕ)
    → imm < 2 ^ 20
    → (u8 (bit_and (shr imm 12) 0xFF) ≡ imm / 2 ^ 12) × (u16 (bit_and imm 0xFFF) ≡ imm % 2 ^ 12)
store_fields imm h = omega (arith, bit_and-eq-mod 8 (imm / 2 ^ 12), bit_and-eq-mod 12 imm)

pub new_delta-IsDelta :
    (m : Memory) (imm : ℕ) → imm < 2 ^ 20 → IsMemory m → IsDelta (new_delta m imm)
new_delta-IsDelta m imm h hm = ground (arith, store_fields imm h, mem_load_u32-lt m imm hm)

delta_addr-new_delta :
    (m : Memory) (imm : ℕ) → imm < 2 ^ 20 → IsMemory m → delta_addr (new_delta m imm) ≡ imm
delta_addr-new_delta m imm h hm =
    omega (
      arith,
      delta_addr-eq-sum (new_delta m imm) (new_delta-IsDelta m imm h hm),
      store_fields imm h,
    )

bumped :
    (d : MemDelta) (imm : ℕ)
    → IsDelta d
    → folds d imm ≡ true
    → IsDelta (record d { run_count = u8 (d.run_count + 1) })
bumped d imm h same = ground arith

-- A folded entry is of the cell that is stored to.
folds-delta_addr :
    (d : MemDelta) (imm : ℕ) → imm < 2 ^ 20 → IsDelta d → folds d imm ≡ true → delta_addr d ≡ imm
folds-delta_addr d imm h hd same = ground (arith, delta_addr-eq-sum d hd, store_fields imm h)

pub log_store-IsDelta :
    (m : Memory) (imm : ℕ) (ds : List MemDelta)
    → imm < 2 ^ 20
    → IsMemory m
    → All IsDelta ds
    → All IsDelta (log_store m imm ds)
unfolding log_store
log_store-IsDelta m imm [] h hm hd = (new_delta-IsDelta m imm h hm, tt)
log_store-IsDelta m imm (d ∷ ds) h hm hd = elim (Bool-cases (folds d imm)) [
  | inl same ↦ rw same (bumped d imm hd.0 same, hd.1)
  | inr other ↦ rw other (new_delta-IsDelta m imm h hm, hd)
]

pub undo_deltas-IsMemory :
    (m : Memory) (ds : List MemDelta) → IsMemory m → All IsDelta ds → IsMemory (undo_deltas m ds)
unfolding undo_deltas
undo_deltas-IsMemory m [] hm hd = hm
undo_deltas-IsMemory m (d ∷ ds) hm hd =
    undo_deltas-IsMemory (apply_old_value m d) ds
      (rw (apply_old_value-eq-mem_store_u32 m d hd.0)
        (mem_store_u32-IsMemory m (delta_addr d) d.old_value hm))
      hd.1

-- Two stores of the same cell: the first leaves no trace.
store_again :
    (m : Memory) (a v w : ℕ) → mem_store_u32 (mem_store_u32 m a v) a w ≡ mem_store_u32 m a w
store_again m a v w = fun_ext λ q. ground (
  arith,
  mem_store_u32_lem (mem_store_u32 m a v) a w q,
  mem_store_u32_lem m a v q,
  mem_store_u32_lem m a w q,
)

undo_new :
    (m : Memory) (imm v : ℕ)
    → imm < 2 ^ 20
    → IsMemory m
    → apply_old_value (mem_store_u32 m imm v) (new_delta m imm) ≡ m
undo_new m imm v h hm =
    apply_old_value-eq-mem_store_u32 (mem_store_u32 m imm v) (new_delta m imm)
      (new_delta-IsDelta m imm h hm)
    ∙ ap (λ a. mem_store_u32 (mem_store_u32 m imm v) a (mem_load_u32 m imm))
        (delta_addr-new_delta m imm h hm)
    ∙ mem_store_u32_undo m imm v hm

undo_folded :
    (m : Memory) (imm v n : ℕ) (d : MemDelta)
    → imm < 2 ^ 20
    → IsDelta d
    → IsDelta (record d { run_count = n })
    → folds d imm ≡ true
    → apply_old_value (mem_store_u32 m imm v) (record d { run_count = n }) ≡ apply_old_value m d
undo_folded m imm v n d h hd hn same =
    let at : delta_addr d ≡ imm = folds-delta_addr d imm h hd same in
    apply_old_value-eq-mem_store_u32 (mem_store_u32 m imm v) (record d { run_count = n }) hn
    ∙ (ap (λ a. mem_store_u32 (mem_store_u32 m imm v) a d.old_value) (same_addr d n ∙ at)
        ∙ store_again m imm v d.old_value)
    ∙ sym (apply_old_value-eq-mem_store_u32 m d hd ∙ ap (λ a. mem_store_u32 m a d.old_value) at)
  where
    same_addr : (d : MemDelta) (n : ℕ) → delta_addr (record d { run_count = n }) ≡ delta_addr d
    same_addr d n = unfold delta_addr in refl

-- Storing and logging leave the rollback as it was: undoing the new log after the store gives the
-- memory that undoing the old log gave before it, whether the entry was folded or pushed, for a
-- 20-bit address, an arena of bytes and a log whose entries fit their fields.
pub undo_deltas-log_store :
    (m : Memory) (imm v : ℕ) (ds : List MemDelta)
    → imm < 2 ^ 20
    → IsMemory m
    → All IsDelta ds
    → undo_deltas (mem_store_u32 m imm v) (log_store m imm ds) ≡ undo_deltas m ds
unfolding log_store undo_deltas
undo_deltas-log_store m imm v [] h hm hd = undo_new m imm v h hm
undo_deltas-log_store m imm v (d ∷ ds) h hm hd = elim (Bool-cases (folds d imm)) [
  | inl same ↦ rw same (
      ap (λ k. undo_deltas k ds)
        (undo_folded m imm v (u8 (d.run_count + 1)) d h hd.0 (bumped d imm hd.0 same) same))
  | inr other ↦ rw other (ap (λ k. undo_deltas (apply_old_value k d) ds) (undo_new m imm v h hm))
]
