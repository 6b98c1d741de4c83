-- ===== src/Dispatch/Modes.antt =====
-- src/vm.cpp: the two modes of `VM::run`, side by side.
use retro_vm.Prelude.{ℕ, zero, suc, ◌≡◌, ◌≢◌, refl, sym, ap, ◌∙◌, arith, Option, none, some}
use retro_vm.Isa.{
  halt_running, halt_unknown_op, Opcode, opcode?, decode_op, decode_dst, decode_src, decode_imm,
}
use retro_vm.Machine.{Vm, request_halt}
use retro_vm.Memory.{mem_load_u32}
use retro_vm.Hooks.{IoHooks, SnapshotSink, halt, ◌>>=◌, Next, Next-bind, bind_congr}
use retro_vm.Dispatch.{
  advance, snapshot_fire, snapshot_tick, label, dispatch, tail_dispatch, run_goto,
}
use retro_vm.Dispatch.Naive.{
  switch, naive_timer, naive_snapshot, naive_decode, naive_cycle, run_naive,
}

abbrev IsRunning : {W : Type 0} → Vm → W → Type 0
IsRunning vm w = vm.state.halted ≡ halt_running

module _ {W : Type 0} (io : IoHooks W) where
  -- Each label does what the case of the switch does.
  pub label-eq-switch :
      (o : Opcode) (dst src imm : ℕ) (vm : Vm) (w : W)
      → label io o dst src imm vm w ≡ switch io o dst src imm vm w
  unfolding label switch
  label-eq-switch Opcode.op_halt dst src imm vm w = refl
  label-eq-switch Opcode.op_in dst src imm vm w = ground arith
  label-eq-switch Opcode.op_rand dst src imm vm w = ground arith
  label-eq-switch _ dst src imm vm w = refl

  label-IsRunning :
      (o : Opcode) (dst src imm : ℕ) (vm : Vm) (w : W)
      → vm.state.halted ≡ halt_running
      → Next IsRunning (label io o dst src imm vm w)
  unfolding label
  label-IsRunning Opcode.op_halt dst src imm vm w h = tt
  label-IsRunning _ dst src imm vm w h = ground arith

module _ {W : Type 0} (io : IoHooks W) (sink : Option (SnapshotSink W)) where
  snapshot_tick-IsRunning :
      (vm : Vm) (w : W) → vm.state.halted ≡ halt_running → Next IsRunning (snapshot_tick sink vm w)
  unfolding snapshot_tick snapshot_fire
  snapshot_tick-IsRunning vm w h = ground arith

  pub dispatch-IsRunning :
      (instr : ℕ) (vm : Vm) (w : W)
      → vm.state.halted ≡ halt_running
      → Next IsRunning (dispatch io instr vm w)
  unfolding dispatch
  dispatch-IsRunning instr vm w h =
      elim (opcode? (decode_op instr))
        as (λ o. Next IsRunning (elim o [
          | none ↦ halt halt_unknown_op (request_halt vm halt_unknown_op) w
          | some o ↦ label io o (decode_dst instr) (decode_src instr) (decode_imm instr) vm w
        ])) [ none ↦ tt | some o ↦ label-IsRunning io o _ _ _ vm w h ]

  pub tail_dispatch-IsRunning :
      (vm : Vm) (w : W)
      → vm.state.halted ≡ halt_running
      → Next IsRunning (tail_dispatch io sink vm w)
  unfolding tail_dispatch
  tail_dispatch-IsRunning vm w h =
      Next-bind IsRunning IsRunning (snapshot_tick sink (advance vm) w) _
        (snapshot_tick-IsRunning (advance vm) w h) (λ vm1 w1 h1. dispatch-IsRunning _ vm1 w1 h1)

  naive_timer-eq-snapshot_tick :
      (vm : Vm) (w : W) → naive_timer io sink vm w ≡ snapshot_tick sink vm w
  unfolding naive_timer naive_snapshot snapshot_tick snapshot_fire
  naive_timer-eq-snapshot_tick vm w = refl

  naive_decode-eq-dispatch :
      (instr : ℕ) (vm : Vm) (w : W) → naive_decode io instr vm w ≡ dispatch io instr vm w
  unfolding naive_decode dispatch
  naive_decode-eq-dispatch instr vm w = λ i. elim (opcode? (decode_op instr)) [
    | none ↦ halt halt_unknown_op (request_halt vm halt_unknown_op) w
    | some o ↦
        sym (label-eq-switch io o (decode_dst instr) (decode_src instr) (decode_imm instr) vm w) i
  ]

  pub naive_cycle-eq-tail_dispatch :
      (vm : Vm) (w : W) → naive_cycle io sink vm w ≡ tail_dispatch io sink vm w
  unfolding naive_cycle tail_dispatch
  naive_cycle-eq-tail_dispatch vm w =
      let instr = mem_load_u32 vm.mem vm.state.pc in
      λ i. naive_timer-eq-snapshot_tick (advance vm) w i >>= λ (vm1, w1).
      naive_decode-eq-dispatch instr vm1 w1 i

  run_naive-suc :
      (fuel : ℕ) (vm : Vm) (w : W)
      → vm.state.halted ≡ halt_running
      → run_naive io sink (suc fuel) vm w
        ≡ (naive_cycle io sink vm w >>= λ (vm1, w1). run_naive io sink fuel vm1 w1)
  unfolding run_naive
  run_naive-suc fuel vm w h = ground arith

  -- From a running VM the two modes of `run` end alike after every number of instructions: with the
  -- same VM, the same world and the same reason or exception.
  pub run_naive-eq-run_goto :
      (fuel : ℕ) (vm : Vm) (w : W)
      → vm.state.halted ≡ halt_running
      → run_naive io sink fuel vm w ≡ run_goto io sink fuel vm w
  unfolding run_naive run_goto
  run_naive-eq-run_goto zero vm w h = refl
  run_naive-eq-run_goto (suc fuel) vm w h =
      run_naive-suc fuel vm w h
      ∙ ap (λ f. f >>= λ (vm1, w1). run_naive io sink fuel vm1 w1)
          (naive_cycle-eq-tail_dispatch vm w)
      ∙ bind_congr IsRunning (tail_dispatch io sink vm w) _ _ (tail_dispatch-IsRunning vm w h)
          (λ vm1 w1 h1. run_naive-eq-run_goto fuel vm1 w1 h1)

  -- A halted VM is left alone by the switch, which returns its reason without a fetch.
  pub run_naive_halted :
      (fuel : ℕ) (vm : Vm) (w : W)
      → vm.state.halted ≢ halt_running
      → run_naive io sink (suc fuel) vm w ≡ halt vm.state.halted vm w
  unfolding run_naive
  run_naive_halted fuel vm w h = ground arith
