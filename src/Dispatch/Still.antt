-- ===== src/Dispatch/Still.antt =====
-- src/vm.cpp, the labels: an instruction leaves the memory that its log leads back to, and what the
-- hooks do not touch of the world.
use retro_vm.Prelude.{
  ℕ, ◌^◌, ◌<◌, ◌≡◌, refl, ◌∙◌, Bool, true, false, Option, none, some, ◌==◌, if◌then◌else◌,
}
use retro_vm.Isa.{
  Opcode, opcode?, op_code, halt_unknown_op, decode_op, decode_dst, decode_src, decode_imm,
}
use retro_vm.Machine.{Vm, read_reg, request_halt}
use retro_vm.Machine.Log.{undo_deltas, undo_deltas-log_store}
use retro_vm.Hooks.{Answer, value, thrown, IoHooks, Flow, next, halt, notify, Each}
use retro_vm.Dispatch.{received, label, label_store, dispatch}
use retro_vm.Dispatch.Validity.{IsValid, decoded-lt}

-- No input hook and no observer changes what `view` shows of the world.
abbrev pub Untouched : {W X : Type 0} → (W → X) → W → Answer W → Type 0
Untouched view w (value v w1) = view w1 ≡ view w
Untouched view w (thrown e w1) = view w1 ≡ view w

abbrev pub HookKeeps : {W X : Type 0} → (W → X) → Option (ℕ → W → Answer W) → Type 0
HookKeeps view none = Unit
HookKeeps {W} view (some f) = (cycle : ℕ) (w : W) → Untouched view w (f cycle w)

abbrev pub Keeps : {W X : Type 0} → (W → X) → IoHooks W → Type 0
Keeps {W} view io =
    HookKeeps view io.in_hook
    × HookKeeps view io.rand_hook
    × ((cycle op v : ℕ) (w : W) → view (notify io cycle op v w) ≡ view w)

module _ {W X : Type 0} (view : W → X) where
  -- The same memory behind the log, and the same view.
  abbrev pub Still : Vm → W → Vm → W → Type 0
  Still vm w vm1 w1 =
      (view w1 ≡ view w) × (undo_deltas vm1.mem vm1.deltas ≡ undo_deltas vm.mem vm.deltas)

  label_store-Still :
      (dst imm : ℕ) (vm : Vm) (w : W)
      → imm < 2 ^ 20
      → IsValid vm
      → Each (Still vm w) (label_store dst imm vm w)
  unfolding label_store
  label_store-Still dst imm vm w h v =
      (refl, undo_deltas-log_store vm.mem imm (read_reg vm dst) vm.deltas h v.bytes v.logged)

  received-Still :
      (io : IoHooks W) (op dst : ℕ) (vm : Vm) (w : W) (a : Answer W)
      → Keeps view io
      → Untouched view w a
      → Each (Still vm w) (received io op dst vm a)
  received-Still io op dst vm w (value x w1) k u = (k.2 _ op x w1 ∙ u, refl)
  received-Still io op dst vm w (thrown e w1) k u = (u, refl)

  input-Still :
      (io : IoHooks W) (op dst : ℕ) (hook : Option (ℕ → W → Answer W)) (vm : Vm) (w : W)
      → Keeps view io
      → HookKeeps view hook
      → Each (Still vm w) (elim hook [
        | none ↦ next vm w
        | some f ↦ received io op dst vm (f vm.state.cycle_count w)
      ])
  input-Still io op dst none vm w k u = (refl, refl)
  input-Still io op dst (some f) vm w k u =
      received-Still io op dst vm w (f vm.state.cycle_count w) k (u _ w)

  -- A test that leaves the memory, the log and the world alone on both sides.
  if-Still :
      (vm : Vm) (w : W) (b : Bool) (x y : Flow W)
      → Each (Still vm w) x
      → Each (Still vm w) y
      → Each (Still vm w) (if b then x else y)
  if-Still vm w true x y hx hy = hx
  if-Still vm w false x y hx hy = hy

  label-Still :
      (io : IoHooks W) (o : Opcode) (dst src imm : ℕ) (vm : Vm) (w : W)
      → Keeps view io
      → imm < 2 ^ 20
      → IsValid vm
      → Each (Still vm w) (label io o dst src imm vm w)
  unfolding label
  label-Still io Opcode.op_store dst src imm vm w k h v = label_store-Still dst imm vm w h v
  label-Still io Opcode.op_div dst src imm vm w k h v =
      if-Still vm w (read_reg vm src == 0) _ _ (refl, refl) (refl, refl)
  label-Still io Opcode.op_jnz dst src imm vm w k h v =
      if-Still vm w (read_reg vm dst == 0) _ _ (refl, refl) (refl, refl)
  label-Still io Opcode.op_in dst src imm vm w k h v =
      input-Still io (op_code Opcode.op_in) dst io.in_hook vm w k k.0
  label-Still io Opcode.op_rand dst src imm vm w k h v =
      input-Still io (op_code Opcode.op_rand) dst io.rand_hook vm w k k.1
  label-Still io _ dst src imm vm w k h v = (refl, refl)

  pub dispatch-Still :
      (io : IoHooks W) (instr : ℕ) (vm : Vm) (w : W)
      → Keeps view io
      → IsValid vm
      → Each (Still vm w) (dispatch io instr vm w)
  unfolding dispatch
  dispatch-Still io instr vm w k v =
      elim (opcode? (decode_op instr))
        as (λ o. Each (Still vm w) (elim o [
          | none ↦ halt halt_unknown_op (request_halt vm halt_unknown_op) w
          | some o ↦ label io o (decode_dst instr) (decode_src instr) (decode_imm instr) vm w
        ])) [
          | none ↦ (refl, refl)
          | some o ↦ label-Still io o _ _ (decode_imm instr) vm w k (decoded-lt instr).2 v
        ]
