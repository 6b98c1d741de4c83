-- ===== src/Debugger/Fetch.antt =====
-- src/main.cpp, one instruction under the debugger: what the handler of an instruction keeps of the
-- cycle count and the timer, and that a halt of its own cannot be resumed.
use retro_vm.Prelude.{ℕ, ◌≡◌, refl, Bool, true, false, Option, none, some, ◌==◌, if◌then◌else◌}
use retro_vm.Isa.{
  Opcode, op_code, opcode?, halt_unknown_op, decode_op, decode_dst, decode_src, decode_imm,
}
use retro_vm.Machine.{Vm, read_reg, request_halt}
use retro_vm.Hooks.{Answer, value, thrown, IoHooks, Flow, next, halt, throw}
use retro_vm.Dispatch.{received, label, dispatch}
use retro_vm.Debugger.{debug_resume}

-- The cycle count, the interval and the timer.
abbrev pub SameClock : Vm → Vm → Type 0
SameClock vm vm1 =
    (vm1.state.cycle_count ≡ vm.state.cycle_count)
    × (vm1.state.snap_interval ≡ vm.state.snap_interval)
    × (vm1.state.snap_timer ≡ vm.state.snap_timer)

-- The end of a handler that is given `vm`.
abbrev pub Handled : {W : Type 0} → Vm → Flow W → Type 0
Handled vm (next vm1 w) = SameClock vm vm1
Handled vm (halt r vm1 w) =
    SameClock vm vm1 × (vm1.mem ≡ vm.mem) × (vm1.deltas ≡ vm.deltas) × (debug_resume vm1 ≡ none)
Handled vm (throw e vm1 w) = Unit

module _ {W : Type 0} where
  if-Handled :
      (vm : Vm) (b : Bool) (x y : Flow W)
      → Handled vm x
      → Handled vm y
      → Handled vm (if b then x else y)
  if-Handled vm true x y hx hy = hx
  if-Handled vm false x y hx hy = hy

  received-Handled :
      (io : IoHooks W) (op dst : ℕ) (vm : Vm) (a : Answer W) → Handled vm (received io op dst vm a)
  received-Handled io op dst vm (value x w) = (refl, refl, refl)
  received-Handled io op dst vm (thrown e w) = tt

  input-Handled :
      (io : IoHooks W) (op dst : ℕ) (hook : Option (ℕ → W → Answer W)) (vm : Vm) (w : W)
      → Handled vm (elim hook [
        | none ↦ next vm w
        | some f ↦ received io op dst vm (f vm.state.cycle_count w)
      ])
  input-Handled io op dst none vm w = (refl, refl, refl)
  input-Handled io op dst (some f) vm w = received-Handled io op dst vm (f vm.state.cycle_count w)

  label-Handled :
      (io : IoHooks W) (o : Opcode) (dst src imm : ℕ) (vm : Vm) (w : W)
      → Handled vm (label io o dst src imm vm w)
  unfolding label debug_resume
  label-Handled io Opcode.op_halt dst src imm vm w = ((refl, refl, refl), refl, refl, refl)
  label-Handled io Opcode.op_div dst src imm vm w =
      if-Handled vm (read_reg vm src == 0) _ _ ((refl, refl, refl), refl, refl, refl)
        (refl, refl, refl)
  label-Handled io Opcode.op_jnz dst src imm vm w =
      if-Handled vm (read_reg vm dst == 0) _ _ (refl, refl, refl) (refl, refl, refl)
  label-Handled io Opcode.op_in dst src imm vm w =
      input-Handled io (op_code Opcode.op_in) dst io.in_hook vm w
  label-Handled io Opcode.op_rand dst src imm vm w =
      input-Handled io (op_code Opcode.op_rand) dst io.rand_hook vm w
  label-Handled io _ dst src imm vm w = (refl, refl, refl)

  pub dispatch-Handled :
      (io : IoHooks W) (instr : ℕ) (vm : Vm) (w : W) → Handled vm (dispatch io instr vm w)
  unfolding dispatch debug_resume
  dispatch-Handled io instr vm w =
      elim (opcode? (decode_op instr))
        as (λ o. Handled vm (elim o [
          | none ↦ halt halt_unknown_op (request_halt vm halt_unknown_op) w
          | some o ↦ label io o (decode_dst instr) (decode_src instr) (decode_imm instr) vm w
        ])) [
          | none ↦ ((refl, refl, refl), refl, refl, refl)
          | some o ↦ label-Handled io o _ _ _ vm w
        ]
