-- ===== src/Benchmark/Workload.antt =====
-- src/main.cpp, the benchmarks' workload: what the arena holds while it runs.
use retro_vm.Prelude.{
  ℕ, ◌+◌, ◌<◌, ◌≤◌, ◌≡◌, refl, ap, ◌∙◌, arith, get_or, length, ltb, lt→ltb, true, false, some,
}
use retro_vm.Word.{u32, join_bytes}
use retro_vm.Memory.{Memory, mem_size, mem_load_u32, mem_store_u32, mask}
use retro_vm.Memory.Laws.{mem_store_u32_lem, mask-eq-mod}
use retro_vm.Machine.{copy_in, new_vm, load_program}
use retro_vm.Benchmark.{workload, workload_bytes}
use retro_vm.Assembler.{put_word, put_words}

-- The program's bytes are in place.
abbrev pub Holds : Memory → Type 0
Holds m = (a : ℕ) → a < 48 → m a ≡ get_or workload_bytes a 0

length-workload_bytes : length workload_bytes ≡ 48
unfolding workload_bytes workload put_words put_word
length-workload_bytes = refl

pub copy_in-Holds : (m : Memory) → Holds (copy_in m workload_bytes)
copy_in-Holds m a l =
    let inside : ltb a (length workload_bytes) ≡ true =
      lt→ltb a _ (omega (arith, length-workload_bytes)) in
    rw inside refl

pub load_workload :
    load_program new_vm workload_bytes
    ≡ some (record new_vm { mem = copy_in new_vm.mem workload_bytes })
unfolding load_program
load_workload =
    let fits : ltb mem_size (length workload_bytes) ≡ false =
      ap (ltb mem_size) length-workload_bytes in
    rw fits refl

pub mem_store_u32-Holds : (m : Memory) (v : ℕ) → Holds m → Holds (mem_store_u32 m 0x100 v)
mem_store_u32-Holds m v h a l = ground (arith, h a l, mem_store_u32_lem m 0x100 v a)

abbrev pub workload_byte : ℕ → ℕ
workload_byte a = get_or workload_bytes a 0

-- The word at an address of the program.
pub fetched :
    (m : Memory)
    → Holds m
    → (pc : ℕ) → pc ≤ 44
    → mem_load_u32 m pc
      ≡ join_bytes
          (workload_byte pc)
          (workload_byte (pc + 1))
          (workload_byte (pc + 2))
          (workload_byte (pc + 3))
unfolding mem_load_u32
fetched m h pc l =
    let b0 : m (mask pc) ≡ workload_byte pc = ap m here ∙ h pc (omega arith) in
    let b1 = ap m (there 1 (omega arith)) ∙ h (pc + 1) (omega arith) in
    let b2 = ap m (there 2 (omega arith)) ∙ h (pc + 2) (omega arith) in
    let b3 = ap m (there 3 (omega arith)) ∙ h (pc + 3) (omega arith) in
    λ i. join_bytes (b0 i) (b1 i) (b2 i) (b3 i)
  where
    here : mask pc ≡ pc
    here = omega (arith, mask-eq-mod pc)

    there : (k : ℕ) → k < 4 → mask (u32 (mask pc + k)) ≡ pc + k
    there k hk = omega (arith, mask-eq-mod pc, mask-eq-mod (u32 (mask pc + k)))
