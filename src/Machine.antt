-- ===== src/Machine.antt =====
-- include/retrovm/vm.hpp and src/vm.cpp: the state of class VM and the operations on it that run
-- no instruction. The vector `deltas_` is a list with the newest entry first, so that `back()` is
-- the head and a walk from `rbegin()` is a walk of the list.
pub mod Log
use retro_vm.Prelude.{
  ℕ, zero, suc, ◌+◌, ◌-◌, ◌^◌, ◌<◌, ◌&&◌, Bool, true, false, List, [], ◌∷◌, Option, none, some, ltb,
  length, get_or, set, take, replicate, if◌then◌else◌, bit_and, ◌==◌, All,
}
use retro_vm.Word.{u8, u16, shr, IsU32}
use retro_vm.Isa.{HaltReason, halt_running}
use retro_vm.Memory.{Memory, MemDelta, IsMemory, zeroed, mem_size, mem_load_u32}

pub record VmState : Type 0 where
  pub cycle_count : ℕ
  pub regs : List ℕ
  pub pc : ℕ
  pub sp : ℕ
  pub flags : ℕ
  pub halted : HaltReason
  pub snap_interval : ℕ
  pub snap_timer : ℕ

pub record Snapshot : Type 0 where
  pub cycle_count : ℕ
  pub regs : List ℕ
  pub pc : ℕ
  pub sp : ℕ
  pub flags : ℕ
  pub halted : HaltReason
  pub deltas : List MemDelta

pub record Vm : Type 0 where
  pub mem : Memory
  pub state : VmState
  pub deltas : List MemDelta

-- `VMState{}`.
abbrev pub default_state : VmState
default_state = record {
  cycle_count = 0;
  regs = replicate 8 0;
  pc = 0;
  sp = 0;
  flags = 0;
  halted = halt_running;
  snap_interval = 0;
  snap_timer = 0;
}

unfoldable pub reset_state : Vm → Vm
reset_state vm = record {
  mem = zeroed;
  state = record default_state { sp = mem_size - 4 };
  deltas = [];
}

-- The constructor: a zeroed arena, then `reset_state`.
unfoldable pub new_vm : Vm
unfolding reset_state
new_vm = reset_state (record { mem = zeroed; state = default_state; deltas = [] })

unfoldable pub reset_cpu_for_reuse : Vm → Vm
reset_cpu_for_reuse vm = record vm {
  state = record {
    cycle_count = 0;
    regs = replicate 8 0;
    pc = 0;
    sp = mem_size - 4;
    flags = 0;
    halted = halt_running;
    snap_interval = 0;
    snap_timer = 0;
  };
  deltas = [];
}

-- `memcpy(mem, bytes, size)`.
abbrev pub copy_in : Memory → List ℕ → Memory
copy_in m bytes q = if ltb q (length bytes) then get_or bytes q 0 else m q

-- `none` is the result `false`: the program is larger than the arena, and nothing is copied.
unfoldable pub load_program : Vm → List ℕ → Option Vm
load_program vm bytes =
    if ltb mem_size (length bytes) then none else some (record vm { mem = copy_in vm.mem bytes })

-- The snapshot of the registers with the pending log, which is emptied.
unfoldable pub take_snapshot : Vm → Snapshot × Vm
take_snapshot vm = (
  record {
    cycle_count = vm.state.cycle_count;
    regs = take 8 vm.state.regs;
    pc = vm.state.pc;
    sp = vm.state.sp;
    flags = vm.state.flags;
    halted = vm.state.halted;
    deltas = vm.deltas;
  },
  record vm { deltas = [] },
)

abbrev pub set_state : Vm → VmState → Vm
set_state vm s = record vm { state = s }

abbrev pub request_halt : Vm → HaltReason → Vm
request_halt vm r = record vm { state = record (vm.state) { halted = r } }

abbrev pub set_snapshot_interval : Vm → ℕ → Vm
set_snapshot_interval vm cycles = record vm {
  state = record (vm.state) { snap_interval = cycles; snap_timer = cycles };
}

-- `regs[i]`, where the decoded `i` is below 8.
abbrev pub read_reg : Vm → ℕ → ℕ
read_reg vm i = get_or vm.state.regs i 0

abbrev pub write_reg : Vm → ℕ → ℕ → Vm
write_reg vm i v = record vm { state = record (vm.state) { regs = set vm.state.regs i v } }

abbrev pub set_flags : Vm → ℕ → Vm
set_flags vm f = record vm { state = record (vm.state) { flags = f } }

abbrev pub set_pc : Vm → ℕ → Vm
set_pc vm a = record vm { state = record (vm.state) { pc = a } }

-- A new log entry for a store at `imm`: `page`, `offset` and the word before the store.
abbrev pub new_delta : Memory → ℕ → MemDelta
new_delta m imm = record {
  run_count = 1;
  page = u8 (bit_and (shr imm 12) 0xFF);
  offset = u16 (bit_and imm 0xFFF);
  old_value = mem_load_u32 m imm;
}

-- The test of STORE for folding into the newest entry: the same page and offset, and not full.
abbrev pub folds : MemDelta → ℕ → Bool
folds d imm =
    d.page == u8 (bit_and (shr imm 12) 0xFF)
    && (d.offset == u16 (bit_and imm 0xFFF) && ltb d.run_count 255)

-- The log part of STORE: the newest entry is bumped if it is of the same cell and not full.
unfoldable pub log_store : Memory → ℕ → List MemDelta → List MemDelta
log_store m imm [] = new_delta m imm ∷ []
log_store m imm (d ∷ ds) =
    if folds d imm
    then record d { run_count = u8 (d.run_count + 1) } ∷ ds
    else new_delta m imm ∷ d ∷ ds

-- The types of the fields, with the arena's bytes.
pub record IsDelta (d : MemDelta) : Type 0 where
  pub run_pos : 0 < d.run_count
  pub run_fits : d.run_count < 2 ^ 8
  pub page_fits : d.page < 2 ^ 8
  pub offset_fits : d.offset < 2 ^ 12
  pub value_fits : IsU32 d.old_value
