-- ===== src/Dispatch/Timer.antt =====
-- src/vm.cpp, the snapshot timer across a whole run: it never stands at zero between instructions,
-- so that no decrement of it underflows, also when a sink has stopped the run.
use retro_vm.Prelude.{
  ℕ, zero, suc, ◌^◌, ◌≤◌, ◌<◌, ◌≡◌, arith, Option, none, some, ◌==◌, inl, inr, Bool-cases,
}
use retro_vm.Isa.{
  Opcode, opcode?, op_code, halt_unknown_op, decode_op, decode_dst, decode_src, decode_imm,
}
use retro_vm.Machine.{Vm, request_halt}
use retro_vm.Hooks.{Answer, value, thrown, IoHooks, SnapshotSink, next, halt, Each, Each-bind}
use retro_vm.Dispatch.{
  advance, set_timer, snapshot_tick, received, label, dispatch, tail_dispatch, run_goto,
}
use retro_vm.Dispatch.Snapshots.{
  sink_halt, sink_world, after_snapshot, snapshot_tick_fire, snapshot_tick_count,
}

-- Checkpointing is on with this interval, and the timer is inside it.
abbrev pub Ticking : ℕ → Vm → Type 0
Ticking interval vm =
    (vm.state.snap_interval ≡ interval)
    × (1 ≤ vm.state.snap_timer)
    × (vm.state.snap_timer ≤ interval)

module _ {W : Type 0} (interval : ℕ) where
  abbrev Ticks : Vm → W → Type 0
  Ticks vm w = Ticking interval vm

  received-Ticking :
      (io : IoHooks W) (op dst : ℕ) (vm : Vm) (a : Answer W)
      → Ticking interval vm
      → Each Ticks (received io op dst vm a)
  received-Ticking io op dst vm (value x w1) h = h
  received-Ticking io op dst vm (thrown e w1) h = h

  label-Ticking :
      (io : IoHooks W) (o : Opcode) (dst src imm : ℕ) (vm : Vm) (w : W)
      → Ticking interval vm
      → Each Ticks (label io o dst src imm vm w)
  unfolding label
  label-Ticking io Opcode.op_div dst src imm vm w h = ground arith
  label-Ticking io Opcode.op_jnz dst src imm vm w h = ground arith
  label-Ticking io Opcode.op_in dst src imm vm w h =
      elim (io.in_hook)
        as (λ hook. Each Ticks (elim hook [
          | none ↦ next vm w
          | some f ↦ received io (op_code Opcode.op_in) dst vm (f vm.state.cycle_count w)
        ])) [
          | none ↦ h
          | some f ↦ received-Ticking io (op_code Opcode.op_in) dst vm (f vm.state.cycle_count w) h
        ]
  label-Ticking io Opcode.op_rand dst src imm vm w h =
      elim (io.rand_hook)
        as (λ hook. Each Ticks (elim hook [
          | none ↦ next vm w
          | some f ↦ received io (op_code Opcode.op_rand) dst vm (f vm.state.cycle_count w)
        ])) [
          | none ↦ h
          | some f ↦
              received-Ticking io (op_code Opcode.op_rand) dst vm (f vm.state.cycle_count w) h
        ]
  label-Ticking io _ dst src imm vm w h = h

  dispatch-Ticking :
      (io : IoHooks W) (instr : ℕ) (vm : Vm) (w : W)
      → Ticking interval vm
      → Each Ticks (dispatch io instr vm w)
  unfolding dispatch
  dispatch-Ticking io instr vm w h =
      elim (opcode? (decode_op instr))
        as (λ o. Each Ticks (elim o [
          | none ↦ halt halt_unknown_op (request_halt vm halt_unknown_op) w
          | some o ↦ label io o (decode_dst instr) (decode_src instr) (decode_imm instr) vm w
        ])) [ none ↦ h | some o ↦ label-Ticking io o _ _ _ vm w h ]

  after_snapshot-Ticking :
      (vm : Vm) (h : ℕ) (w : W) → Ticking interval vm → Each Ticks (after_snapshot vm h w)
  after_snapshot-Ticking vm h w t = ground arith

  snapshot_tick-Ticking :
      (sink : Option (SnapshotSink W)) (vm : Vm) (w : W)
      → interval < 2 ^ 32
      → Ticking interval vm
      → Each Ticks (snapshot_tick sink vm w)
  snapshot_tick-Ticking sink vm w hi h = elim (Bool-cases (vm.state.snap_timer == 1)) [
    | inl last ↦ rw (snapshot_tick_fire sink vm w (omega arith) (ground arith)) (
        after_snapshot-Ticking vm (sink_halt sink (set_timer vm 0) w)
          (sink_world sink (set_timer vm 0) w) h)
    | inr more ↦
        rw (snapshot_tick_count sink vm w (omega arith) (omega arith) (ground arith)) (ground arith)
  ]

  tail_dispatch-Ticking :
      (io : IoHooks W) (sink : Option (SnapshotSink W)) (vm : Vm) (w : W)
      → interval < 2 ^ 32
      → Ticking interval vm
      → Each Ticks (tail_dispatch io sink vm w)
  unfolding tail_dispatch
  tail_dispatch-Ticking io sink vm w hi h =
      Each-bind Ticks Ticks (snapshot_tick sink (advance vm) w) _ (λ vm1 w1 h1. h1)
        (snapshot_tick-Ticking sink (advance vm) w hi h)
        (λ vm1 w1 h1. dispatch-Ticking io _ vm1 w1 h1)

  -- With checkpointing on at a 32-bit interval, every state that a run reaches, returns with or is
  -- left in by an exception has its timer between one and the interval, if the state that it starts
  -- from has.
  pub run_goto-Ticking :
      (io : IoHooks W) (sink : Option (SnapshotSink W)) (fuel : ℕ) (vm : Vm) (w : W)
      → interval < 2 ^ 32
      → Ticking interval vm
      → Each (λ vm1 w1. Ticking interval vm1) (run_goto io sink fuel vm w)
  unfolding run_goto
  run_goto-Ticking io sink zero vm w hi h = h
  run_goto-Ticking io sink (suc fuel) vm w hi h =
      Each-bind Ticks Ticks (tail_dispatch io sink vm w) _ (λ vm1 w1 h1. h1)
        (tail_dispatch-Ticking io sink vm w hi h)
        (λ vm1 w1 h1. run_goto-Ticking io sink fuel vm1 w1 hi h1)
