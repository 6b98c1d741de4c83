-- ===== src/Dispatch/Naive.antt =====
-- src/vm.cpp, `VM::run` in the mode NaiveSwitch: the loop with its switch.
use retro_vm.Prelude.{
  ℕ, zero, suc, ◌+◌, ◌*◌, ◌/◌, false, Option, none, some, ltb, ◌==◌, get_or, set, if◌then◌else◌,
}
use retro_vm.Word.{u32, u64, sub32, sign_bit}
use retro_vm.Isa.{
  HaltReason, halt_running, halt_normal, halt_div_zero, halt_unknown_op, Opcode, op_halt, op_load,
  op_store, op_add, op_sub, op_mul, op_div, op_jump, op_jnz, op_in, op_rand, op_li, op_code,
  opcode?, flags_of, decode_op, decode_dst, decode_src, decode_imm,
}
use retro_vm.Memory.{mem_load_u32, mem_store_u32}
use retro_vm.Machine.{Vm, VmState, set_state, log_store}
use retro_vm.Hooks.{Answer, value, thrown, IoHooks, SnapshotSink, Flow, next, halt, throw, ◌>>=◌}
use retro_vm.Dispatch.{make_snapshot}

module _ {W : Type 0} where
  -- A case that ends in `break` with a new state.
  abbrev break_with : Vm → VmState → W → Flow W
  break_with vm s w = next (set_state vm s) w

  abbrev return_with : HaltReason → Vm → VmState → W → Flow W
  return_with r vm s w = halt r (set_state vm (record s { halted = r })) w

module _ {W : Type 0} (io : IoHooks W) where
  input_case : ℕ → ℕ → Vm → Answer W → Flow W
  input_case op dst vm (thrown e w) = throw e vm w
  input_case op dst vm (value v w) =
      let s = vm.state in
      break_with vm (record s { regs = set s.regs dst v })
        (elim (io.on_nondeterministic) [ none ↦ w | some f ↦ f s.cycle_count op v w ])

  -- `switch (op)`.
  unfoldable pub switch : Opcode → ℕ → ℕ → ℕ → Vm → W → Flow W
  unfolding input_case
  switch op_halt dst src imm vm w = return_with halt_normal vm vm.state w
  switch op_load dst src imm vm w =
      let s = vm.state in
      break_with vm (record s { regs = set s.regs dst (mem_load_u32 vm.mem imm) }) w
  switch op_store dst src imm vm w =
      next
        (record {
          mem = mem_store_u32 vm.mem imm (get_or vm.state.regs dst 0);
          state = vm.state;
          deltas = log_store vm.mem imm vm.deltas;
        })
        w
  switch op_add dst src imm vm w =
      let s = vm.state in
      let a = get_or s.regs dst 0 in
      let r = u32 (a + get_or s.regs src 0) in
      let f = flags_of (r == 0) (ltb r a) (sign_bit r) in
      break_with vm (record s { regs = set s.regs dst r; flags = f }) w
  switch op_sub dst src imm vm w =
      let s = vm.state in
      let a = get_or s.regs dst 0 in
      let b = get_or s.regs src 0 in
      let r = sub32 a b in
      let f = flags_of (r == 0) (ltb a b) (sign_bit r) in
      break_with vm (record s { regs = set s.regs dst r; flags = f }) w
  switch op_mul dst src imm vm w =
      let s = vm.state in
      let p = u64 (get_or s.regs dst 0 * get_or s.regs src 0) in
      let r = u32 p in
      let f = flags_of (r == 0) (ltb 0xFFFFFFFF p) (sign_bit r) in
      break_with vm (record s { regs = set s.regs dst r; flags = f }) w
  switch op_div dst src imm vm w =
      let s = vm.state in
      let b = get_or s.regs src 0 in
      let q = get_or s.regs dst 0 / b in
      let f = flags_of (q == 0) false (sign_bit q) in
      if b == 0
      then return_with halt_div_zero vm (record s { pc = sub32 s.pc 4 }) w
      else break_with vm (record s { regs = set s.regs dst q; flags = f }) w
  switch op_jump dst src imm vm w = break_with vm (record (vm.state) { pc = imm }) w
  switch op_jnz dst src imm vm w =
      let s = vm.state in
      if get_or s.regs dst 0 == 0 then next vm w else break_with vm (record s { pc = imm }) w
  switch op_in dst src imm vm w = elim (io.in_hook) [
    | none ↦ next vm w
    | some f ↦ input_case (op_code op_in) dst vm (f vm.state.cycle_count w)
  ]
  switch op_rand dst src imm vm w = elim (io.rand_hook) [
    | none ↦ next vm w
    | some f ↦ input_case (op_code op_rand) dst vm (f vm.state.cycle_count w)
  ]
  switch op_li dst src imm vm w =
      let s = vm.state in break_with vm (record s { regs = set s.regs dst imm }) w

  -- The decode, the guard on `OP_COUNT` and the switch.
  unfoldable pub naive_decode : ℕ → Vm → W → Flow W
  naive_decode instr vm w = elim (opcode? (decode_op instr)) [
    | none ↦ return_with halt_unknown_op vm vm.state w
    | some o ↦ switch o (decode_dst instr) (decode_src instr) (decode_imm instr) vm w
  ]

module _ {W : Type 0} (io : IoHooks W) (sink : Option (SnapshotSink W)) where
  -- The snapshot of a cycle, with the reload of the timer and the sink's early return.
  unfoldable pub naive_snapshot : Vm → W → Flow W
  unfolding make_snapshot
  naive_snapshot vm w =
      let (vm1, w1) = make_snapshot sink vm w in
      let s = vm1.state in
      let vm2 = set_state vm1 (record s { snap_timer = s.snap_interval }) in
      if s.halted == halt_running then next vm2 w1 else halt s.halted vm2 w1

  unfoldable pub naive_timer : Vm → W → Flow W
  unfolding naive_snapshot
  naive_timer vm w =
      let s = vm.state in
      let timer = sub32 s.snap_timer 1 in
      let vm1 = set_state vm (record s { snap_timer = timer }) in
      if ltb 0 s.snap_interval
      then (if timer == 0 then naive_snapshot vm1 w else next vm1 w)
      else next vm w

  -- The loop's body.
  unfoldable pub naive_cycle : Vm → W → Flow W
  naive_cycle vm w =
      let s = vm.state in
      let instr = mem_load_u32 vm.mem s.pc in
      let fetched =
        set_state vm (record s { pc = u32 (s.pc + 4); cycle_count = u64 (s.cycle_count + 1) }) in
      naive_timer fetched w >>= λ (vm1, w1). naive_decode io instr vm1 w1

  -- `while (state_.halted == HALT_RUNNING)`, for at most `fuel` rounds.
  unfoldable pub run_naive : ℕ → Vm → W → Flow W
  run_naive zero vm w = next vm w
  run_naive (suc fuel) vm w =
      if vm.state.halted == halt_running
      then (naive_cycle vm w >>= λ (vm1, w1). run_naive fuel vm1 w1)
      else halt vm.state.halted vm w
