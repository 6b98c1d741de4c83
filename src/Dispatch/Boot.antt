-- ===== src/Dispatch/Boot.antt =====
-- src/vm.cpp: the constructor, `reset_cpu_for_reuse` and `load_program` give valid VMs.
use mathlib.Core.Path.{subst}
use retro_vm.Prelude.{
  refl, true, if◌then◌else◌, ◌≤◌, ap, length, ltb, false, Bool, none, ℕ, ◌≡◌, sym, arith, List,
  some, All, All-get_or,
}
use retro_vm.Word.{IsU8}
use retro_vm.Memory.{mem_size, Memory, IsMemory, zeroed}
use retro_vm.Machine.{Vm, new_vm, reset_cpu_for_reuse, load_program, copy_in}
use retro_vm.Dispatch.Validity.{IsValid}

pub zeroed-IsMemory : IsMemory zeroed
zeroed-IsMemory a = omega arith

-- The constructor and both resets give a valid VM.
pub new_vm-IsValid : IsValid new_vm
unfolding new_vm
new_vm-IsValid = grind (arith, zeroed-IsMemory)

pub reset_cpu_for_reuse-IsValid : (vm : Vm) → IsValid vm → IsValid (reset_cpu_for_reuse vm)
unfolding reset_cpu_for_reuse
reset_cpu_for_reuse-IsValid vm v = ground arith

pub copy_in-IsMemory :
    (m : Memory) (bytes : List ℕ) → All IsU8 bytes → IsMemory m → IsMemory (copy_in m bytes)
copy_in-IsMemory m bytes hb hm q = ground (arith, hm q, All-get_or IsU8 bytes q 0 hb (omega arith))

pub load_program-eq-some :
    (vm vm1 : Vm) (bytes : List ℕ)
    → load_program vm bytes ≡ some vm1
    → vm1 ≡ record vm { mem = copy_in vm.mem bytes }
unfolding load_program
load_program-eq-some vm vm1 bytes e = ground arith

-- Loading a program keeps the VM valid.
pub load_program-IsValid :
    (vm vm1 : Vm) (bytes : List ℕ)
    → All IsU8 bytes
    → IsValid vm
    → load_program vm bytes ≡ some vm1
    → IsValid vm1
load_program-IsValid vm vm1 bytes hb v e =
    subst IsValid (sym (load_program-eq-some vm vm1 bytes e)) loaded
  where
    loaded : IsValid (record vm { mem = copy_in vm.mem bytes })
    loaded = ground (arith, copy_in-IsMemory vm.mem bytes hb v.bytes)

-- What a load that succeeds says of the program and of the arena.
pub load_program-mem :
    (bytes : List ℕ) (vm : Vm)
    → load_program new_vm bytes ≡ some vm
    → (length bytes ≤ mem_size) × (copy_in zeroed bytes ≡ vm.mem)
unfolding load_program new_vm
load_program-mem bytes vm e = go (ltb mem_size (length bytes)) refl e
  where
    go :
        (b : Bool)
        → ltb mem_size (length bytes) ≡ b
        → (if b then none else some (record new_vm { mem = copy_in zeroed bytes })) ≡ some vm
        → (length bytes ≤ mem_size) × (copy_in zeroed bytes ≡ vm.mem)
    go true l g = cc
    go false l g =
        let same : record new_vm { mem = copy_in zeroed bytes } ≡ vm = cc in
        (ground arith, ap (λ v. v.mem) same)
