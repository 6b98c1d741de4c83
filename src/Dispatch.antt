-- ===== src/Dispatch.antt =====
-- src/vm.cpp, `VM::run` in the mode ComputedGoto: the macro TAIL_DISPATCH, a function for each
-- label, the table, and the chain of dispatches on fuel. `Dispatch.Naive` is the other mode.
pub mod Naive
pub mod Modes
pub mod Arith
pub mod Snapshots
pub mod Validity
pub mod Boot
pub mod Still
pub mod Rollback
pub mod Timer
pub mod Cycles
use retro_vm.Prelude.{
  ℕ, zero, suc, ◌+◌, ◌*◌, ◌/◌, ◌^◌, Bool, true, false, Option, none, some, ltb, ◌==◌, [],
  if◌then◌else◌,
}
use retro_vm.Word.{u32, u64, sub32, sign_bit}
use retro_vm.Isa.{
  HaltReason, halt_running, halt_normal, halt_div_zero, halt_unknown_op, Opcode, op_halt, op_load,
  op_store, op_add, op_sub, op_mul, op_div, op_jump, op_jnz, op_in, op_rand, op_li, op_code,
  opcode?, flags_of, decode_op, decode_dst, decode_src, decode_imm,
}
use retro_vm.Memory.{mem_load_u32, mem_store_u32}
use retro_vm.Machine.{
  Vm, Snapshot, take_snapshot, request_halt, read_reg, write_reg, set_flags, set_pc, log_store,
}
use retro_vm.Hooks.{
  TraceMismatch, Answer, value, thrown, IoHooks, SnapshotSink, Flow, next, halt, throw, ◌>>=◌,
  notify,
}

-- `state_.pc += 4u; ++state_.cycle_count;`
abbrev pub advance : Vm → Vm
advance vm = record vm {
  state = record (vm.state) {
    pc = u32 (vm.state.pc + 4);
    cycle_count = u64 (vm.state.cycle_count + 1);
  };
}

abbrev pub set_timer : Vm → ℕ → Vm
set_timer vm t = record vm { state = record (vm.state) { snap_timer = t } }

abbrev pub requested : Vm → Option HaltReason → Vm
requested vm none = vm
requested vm (some r) = request_halt vm r

module _ {W : Type 0} (sink : Option (SnapshotSink W)) where
  -- With no sink the log is dropped.
  unfoldable pub make_snapshot : Vm → W → Vm × W
  unfolding take_snapshot
  make_snapshot vm w = elim sink [
    | none ↦ (record vm { deltas = [] }, w)
    | some f ↦
        let (snap, vm1) = take_snapshot vm in
        let (w1, r) = f vm1.state snap w in (requested vm1 r, w1)
  ]

  -- The timer part of TAIL_DISPATCH once the timer is zero: the snapshot, the reload of the timer,
  -- and only then the halt that the sink has asked for.
  unfoldable pub snapshot_fire : Vm → W → Flow W
  unfolding make_snapshot
  snapshot_fire vm w =
      let (vm1, w1) = make_snapshot vm w in
      let vm2 = set_timer vm1 vm1.state.snap_interval in
      if vm2.state.halted == halt_running then next vm2 w1 else halt vm2.state.halted vm2 w1

  unfoldable pub snapshot_tick : Vm → W → Flow W
  snapshot_tick vm w =
      let timer = sub32 vm.state.snap_timer 1 in
      let vm1 = set_timer vm timer in
      if ltb 0 vm.state.snap_interval
      then (if timer == 0 then snapshot_fire vm1 w else next vm1 w)
      else next vm w

-- The labels, each given the decoded operands and ending before its TAIL_DISPATCH.
module _ {W : Type 0} where
  unfoldable pub label_halt : Vm → W → Flow W
  label_halt vm w = halt halt_normal (request_halt vm halt_normal) w

  unfoldable pub label_load : ℕ → ℕ → Vm → W → Flow W
  label_load dst imm vm w = next (write_reg vm dst (mem_load_u32 vm.mem imm)) w

  unfoldable pub label_store : ℕ → ℕ → Vm → W → Flow W
  label_store dst imm vm w =
      let vm1 = record vm { deltas = log_store vm.mem imm vm.deltas } in
      next (record vm1 { mem = mem_store_u32 vm1.mem imm (read_reg vm1 dst) }) w

  unfoldable pub label_add : ℕ → ℕ → Vm → W → Flow W
  label_add dst src vm w =
      let a = read_reg vm dst in
      let b = read_reg vm src in
      let r = u32 (a + b) in
      next (set_flags (write_reg vm dst r) (flags_of (r == 0) (ltb r a) (sign_bit r))) w

  unfoldable pub label_sub : ℕ → ℕ → Vm → W → Flow W
  label_sub dst src vm w =
      let a = read_reg vm dst in
      let b = read_reg vm src in
      let r = sub32 a b in
      next (set_flags (write_reg vm dst r) (flags_of (r == 0) (ltb a b) (sign_bit r))) w

  unfoldable pub label_mul : ℕ → ℕ → Vm → W → Flow W
  label_mul dst src vm w =
      let a = read_reg vm dst in
      let b = read_reg vm src in
      let p = u64 (a * b) in
      let r = u32 p in
      next (set_flags (write_reg vm dst r) (flags_of (r == 0) (ltb 0xFFFFFFFF p) (sign_bit r))) w

  -- The trap takes back the advance of `pc`.
  unfoldable pub label_div : ℕ → ℕ → Vm → W → Flow W
  label_div dst src vm w =
      let a = read_reg vm dst in
      let b = read_reg vm src in
      let q = a / b in
      if b == 0
      then halt halt_div_zero (request_halt (set_pc vm (sub32 vm.state.pc 4)) halt_div_zero) w
      else next (set_flags (write_reg vm dst q) (flags_of (q == 0) false (sign_bit q))) w

  unfoldable pub label_jump : ℕ → Vm → W → Flow W
  label_jump imm vm w = next (set_pc vm imm) w

  unfoldable pub label_jnz : ℕ → ℕ → Vm → W → Flow W
  label_jnz dst imm vm w = if read_reg vm dst == 0 then next vm w else next (set_pc vm imm) w

  unfoldable pub label_li : ℕ → ℕ → Vm → W → Flow W
  label_li dst imm vm w = next (write_reg vm dst imm) w

  -- The common shape of an input: the hook's value goes to the register, then to the observer.
  abbrev pub received : IoHooks W → ℕ → ℕ → Vm → Answer W → Flow W
  received io op dst vm (value v w) =
      let vm1 = write_reg vm dst v in next vm1 (notify io vm1.state.cycle_count op v w)
  received io op dst vm (thrown e w) = throw e vm w

  unfoldable pub label_in : IoHooks W → ℕ → Vm → W → Flow W
  label_in io dst vm w = elim (io.in_hook) [
    | none ↦ next vm w
    | some f ↦ received io (op_code op_in) dst vm (f vm.state.cycle_count w)
  ]

  unfoldable pub label_rand : IoHooks W → ℕ → Vm → W → Flow W
  label_rand io dst vm w = elim (io.rand_hook) [
    | none ↦ next vm w
    | some f ↦ received io (op_code op_rand) dst vm (f vm.state.cycle_count w)
  ]

  -- `goto *dispatch[op]`.
  unfoldable pub label : IoHooks W → Opcode → ℕ → ℕ → ℕ → Vm → W → Flow W
  unfolding label_halt label_load label_store label_add label_sub label_mul label_div label_jump
      label_jnz label_in label_rand label_li
  label io op_halt dst src imm vm w = label_halt vm w
  label io op_load dst src imm vm w = label_load dst imm vm w
  label io op_store dst src imm vm w = label_store dst imm vm w
  label io op_add dst src imm vm w = label_add dst src vm w
  label io op_sub dst src imm vm w = label_sub dst src vm w
  label io op_mul dst src imm vm w = label_mul dst src vm w
  label io op_div dst src imm vm w = label_div dst src vm w
  label io op_jump dst src imm vm w = label_jump imm vm w
  label io op_jnz dst src imm vm w = label_jnz dst imm vm w
  label io op_in dst src imm vm w = label_in io dst vm w
  label io op_rand dst src imm vm w = label_rand io dst vm w
  label io op_li dst src imm vm w = label_li dst imm vm w

  -- The last part of TAIL_DISPATCH: decode, trap an opcode from `OP_COUNT` on, and go.
  unfoldable pub dispatch : IoHooks W → ℕ → Vm → W → Flow W
  dispatch io instr vm w = elim (opcode? (decode_op instr)) [
    | none ↦ halt halt_unknown_op (request_halt vm halt_unknown_op) w
    | some o ↦ label io o (decode_dst instr) (decode_src instr) (decode_imm instr) vm w
  ]

module _ {W : Type 0} (io : IoHooks W) (sink : Option (SnapshotSink W)) where
  -- TAIL_DISPATCH with the handler that it reaches.
  unfoldable pub tail_dispatch : Vm → W → Flow W
  tail_dispatch vm w =
      let instr = mem_load_u32 vm.mem vm.state.pc in
      snapshot_tick sink (advance vm) w >>= λ (vm1, w1). dispatch io instr vm1 w1

  -- `run` for at most `fuel` instructions; `next` means that it has not returned by then.
  unfoldable pub run_goto : ℕ → Vm → W → Flow W
  run_goto zero vm w = next vm w
  run_goto (suc fuel) vm w = tail_dispatch vm w >>= λ (vm1, w1). run_goto fuel vm1 w1
