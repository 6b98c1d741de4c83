-- ===== src/Tests/Machine.antt =====
-- The dispatch loop on a small program.
use retro_vm.Prelude.{
  ◌≢◌, ℕ, ◌+◌, ◌*◌, ◌%◌, ◌^◌, ◌≤◌, ◌<◌, ◌≡◌, refl, arith, List, [], ◌∷◌, none, some,
}
use retro_vm.Word.{IsU32, join_bytes, sign_bit}
use retro_vm.Isa.{opcode?, decode_op, decode_dst, decode_src, decode_imm, flags_of}
use retro_vm.Memory.{zeroed, mask, mem_load_u32, mem_store_u32}
use retro_vm.Machine.{Vm, Snapshot, copy_in, log_store, request_halt}
use retro_vm.Hooks.{IoHooks, SnapshotSink, halt, Each}
use retro_vm.Dispatch.{
  label_add, label_sub, label_mul, label_div, label, snapshot_fire, snapshot_tick, dispatch,
  tail_dispatch, run_goto,
}
use retro_vm.Dispatch.Naive.{run_naive}
use retro_vm.Dispatch.Modes.{run_naive-eq-run_goto}
use retro_vm.Dispatch.Cycles.{Advanced, run_halted}
use retro_vm.Dispatch.Arith.{Writes, label_add_lem, label_sub_lem, label_mul_lem, label_div_lem}
use retro_vm.Dispatch.Validity.{IsValid}
use retro_vm.Dispatch.Boot.{copy_in-IsMemory, zeroed-IsMemory}
use retro_vm.Dispatch.Rollback.{RollsBack, run_goto-RollsBack}
use retro_vm.Dispatch.Timer.{Ticking, run_goto-Ticking}

-- LI R0, 5; STORE R0, 0x100; ADD R0, R0; STORE R0, 0x100; HALT
abbrev doubling : List ℕ
doubling =
    5 ∷ 0 ∷ 0 ∷ 0x2C ∷ 0 ∷ 1 ∷ 0 ∷ 0x08 ∷ 0 ∷ 0 ∷ 0 ∷ 0x0C ∷ 0 ∷ 1 ∷ 0 ∷ 0x08 ∷ 0 ∷ 0 ∷ 0 ∷ 0 ∷ []

-- A VM with the program loaded, checkpointing every two instructions.
abbrev start : Vm
start = record {
  mem = copy_in zeroed doubling;
  state = record {
    cycle_count = 0;
    regs = 0 ∷ 7 ∷ 0xFFFFFFFF ∷ 0 ∷ 0 ∷ 0 ∷ 0 ∷ 0 ∷ [];
    pc = 0;
    sp = 0xFFFFC;
    flags = 0;
    halted = 0;
    snap_interval = 2;
    snap_timer = 2;
  };
  deltas = [];
}

-- No inputs, and a sink that keeps what it is given.
abbrev quiet : IoHooks (List Snapshot)
quiet = record { on_nondeterministic = none; in_hook = none; rand_hook = none }

abbrev keep : SnapshotSink (List Snapshot)
keep s snap kept = (snap ∷ kept, none)

-- The doubled value reaches the memory, and the program halts normally.
halts_with_ten :
    Each (λ vm w. mem_load_u32 vm.mem 0x100 ≡ 10) (run_goto quiet (some keep) 9 start [])
unfolding run_goto tail_dispatch dispatch label snapshot_tick snapshot_fire mem_load_u32
    mem_store_u32 join_bytes mask opcode? decode_op decode_dst decode_src decode_imm flags_of
    sign_bit log_store
halts_with_ten = refl

run_naive-eq-run_goto_example :
    run_naive quiet (some keep) 9 start [] ≡ run_goto quiet (some keep) 9 start []
run_naive-eq-run_goto_example = run_naive-eq-run_goto quiet (some keep) 9 start [] refl

start-IsValid : IsValid start
start-IsValid = record {
  eight = refl;
  regs_fit = omega arith;
  pc_fits = omega arith;
  sp_fits = omega arith;
  flags_fit = omega arith;
  cycle_fits = omega arith;
  interval_fits = omega arith;
  timer_fits = omega arith;
  bytes = copy_in-IsMemory zeroed doubling (omega arith) zeroed-IsMemory;
  logged = tt;
}

run_goto-RollsBack_example :
    Each (RollsBack (λ kept. kept) start []) (run_goto quiet (some keep) 9 start [])
run_goto-RollsBack_example =
    run_goto-RollsBack (λ kept. kept) quiet keep 9 start [] (tt, tt, λ cycle op v w. refl)
      (λ s snap w. refl) (tt, tt) start-IsValid

run_goto-Ticking_example : Each (λ vm w. Ticking 2 vm) (run_goto quiet (some keep) 9 start [])
run_goto-Ticking_example =
    run_goto-Ticking 2 quiet (some keep) 9 start [] (omega arith) (omega arith)

abbrev stopped : Vm
stopped = request_halt start 1

run_halted_example :
    (run_naive quiet (some keep) 9 stopped [] ≡ halt 1 stopped [])
    × Each (λ vm w. Advanced 1 9 0 vm) (run_goto quiet (some keep) 9 stopped [])
    × (run_goto quiet (some keep) 9 stopped [] ≢ run_naive quiet (some keep) 9 stopped [])
run_halted_example =
    run_halted quiet (some keep) 8 stopped [] (omega arith) (omega arith) (omega arith)

label_add_lem_example :
    Writes (label_add 1 2 start tt) start tt 1 ((7 + 0xFFFFFFFF) % 2 ^ 32) (2 ^ 32 ≤ 7 + 0xFFFFFFFF)
label_add_lem_example = label_add_lem 1 2 start tt (omega arith) (omega arith)

label_sub_lem_example :
    (r : ℕ) × ((r + 0xFFFFFFFF) % 2 ^ 32 ≡ 7)
    × IsU32 r
    × Writes (label_sub 1 2 start tt) start tt 1 r (7 < 0xFFFFFFFF)
label_sub_lem_example = label_sub_lem 1 2 start tt (omega arith) (omega arith)

label_mul_lem_example :
    Writes (label_mul 1 2 start tt) start tt 1 (7 * 0xFFFFFFFF % 2 ^ 32) (2 ^ 32 ≤ 7 * 0xFFFFFFFF)
label_mul_lem_example = label_mul_lem 1 2 start tt (omega arith) (omega arith)

label_div_lem_example :
    (q r : ℕ) × (q * 7 + r ≡ 0xFFFFFFFF) × (r < 7) × Writes (label_div 2 1 start tt) start tt 2 q ⊥
label_div_lem_example = label_div_lem 2 1 start tt (omega arith) (omega arith)
