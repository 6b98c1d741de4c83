-- ===== src/Savepoint/Plain.antt =====
-- src/vm.cpp without checkpoints: what an instruction does does not depend on the snapshot timer or
-- on the store log, nor on what else the callbacks keep beside the cursor into the trace.
use retro_vm.Prelude.{
  ℕ, ◌≡◌, refl, Bool, true, false, List, Option, none, some, ◌==◌, if◌then◌else◌,
}
use retro_vm.Isa.{
  Opcode, opcode?, op_code, halt_unknown_op, decode_op, decode_dst, decode_src, decode_imm,
}
use retro_vm.Memory.{MemDelta}
use retro_vm.Machine.{Vm, VmState, read_reg, request_halt, log_store}
use retro_vm.Hooks.{Answer, value, thrown, IoHooks, Flow, next, halt, throw}
use retro_vm.Dispatch.{received, label, dispatch}

-- The state without its snapshot timer.
abbrev pub unticked : VmState → VmState
unticked s = record s { snap_interval = 0; snap_timer = 0 }

-- The VM with checkpointing off, and with the store log `ds`.
abbrev pub plain : Vm → List MemDelta → Vm
plain vm ds = record { mem = vm.mem; state = unticked vm.state; deltas = ds }

-- Hooks that answer every input, and an observer that changes nothing.
abbrev pub answering : {W : Type 0} → (ℕ → W → Answer W) → (ℕ → W → Answer W) → IoHooks W
answering f g = record {
  on_nondeterministic = some (λ cycle op v w. w);
  in_hook = some f;
  rand_hook = some g;
}

module _ {W : Type 0} (cursor : W → ℕ) where
  -- The same end of a plain VM, with the cursor.
  abbrev pub Alike : Flow W → Flow ℕ → Type 0
  Alike (next vm w) g = (ds : List MemDelta) × (g ≡ next (plain vm ds) (cursor w))
  Alike (halt r vm w) g = (ds : List MemDelta) × (g ≡ halt r (plain vm ds) (cursor w))
  Alike (throw e vm w) g = (ds : List MemDelta) × (g ≡ throw e (plain vm ds) (cursor w))

  -- The same answer, with the cursor.
  abbrev pub as_cursor : Answer W → Answer ℕ
  as_cursor (value v w) = value v (cursor w)
  as_cursor (thrown e w) = thrown e (cursor w)

  if-Alike :
      (b : Bool) (x y : Flow W) (u v : Flow ℕ)
      → Alike x u
      → Alike y v
      → Alike (if b then x else y) (if b then u else v)
  if-Alike true x y u v hx hy = hx
  if-Alike false x y u v hx hy = hy

  module _ (f g : ℕ → W → Answer W) (f1 g1 : ℕ → ℕ → Answer ℕ)
      (same_in : (cycle : ℕ) (w : W) → f1 cycle (cursor w) ≡ as_cursor (f cycle w))
      (same_rand : (cycle : ℕ) (w : W) → g1 cycle (cursor w) ≡ as_cursor (g cycle w)) where
    received-Alike :
        (op dst : ℕ) (vm : Vm) (ds : List MemDelta) (a : Answer W) (b : Answer ℕ)
        → b ≡ as_cursor a
        → Alike
            (received (answering f g) op dst vm a)
            (received (answering f1 g1) op dst (plain vm ds) b)
    received-Alike op dst vm ds (value v w) b e =
        (ds, λ i. received (answering f1 g1) op dst (plain vm ds) (e i))
    received-Alike op dst vm ds (thrown x w) b e =
        (ds, λ i. received (answering f1 g1) op dst (plain vm ds) (e i))

    label-Alike :
        (o : Opcode) (dst src imm : ℕ) (vm : Vm) (ds : List MemDelta) (w : W)
        → Alike
            (label (answering f g) o dst src imm vm w)
            (label (answering f1 g1) o dst src imm (plain vm ds) (cursor w))
    unfolding label
    label-Alike Opcode.op_store dst src imm vm ds w = (log_store vm.mem imm ds, refl)
    label-Alike Opcode.op_div dst src imm vm ds w =
        if-Alike (read_reg vm src == 0) _ _ _ _ (ds, refl) (ds, refl)
    label-Alike Opcode.op_jnz dst src imm vm ds w =
        if-Alike (read_reg vm dst == 0) _ _ _ _ (ds, refl) (ds, refl)
    label-Alike Opcode.op_in dst src imm vm ds w =
        received-Alike (op_code Opcode.op_in) dst vm ds _ _ (same_in vm.state.cycle_count w)
    label-Alike Opcode.op_rand dst src imm vm ds w =
        received-Alike (op_code Opcode.op_rand) dst vm ds _ _ (same_rand vm.state.cycle_count w)
    label-Alike _ dst src imm vm ds w = (ds, refl)

    pub dispatch-Alike :
        (instr : ℕ) (vm : Vm) (ds : List MemDelta) (w : W)
        → Alike
            (dispatch (answering f g) instr vm w)
            (dispatch (answering f1 g1) instr (plain vm ds) (cursor w))
    unfolding dispatch
    dispatch-Alike instr vm ds w = go (opcode? (decode_op instr))
      where
        to : {V : Type 0} → IoHooks V → Vm → V → Option Opcode → Flow V
        to io vm1 v o = elim o [
          | none ↦ halt halt_unknown_op (request_halt vm1 halt_unknown_op) v
          | some o ↦ label io o (decode_dst instr) (decode_src instr) (decode_imm instr) vm1 v
        ]

        go :
            (o : Option Opcode)
            → Alike (to (answering f g) vm w o) (to (answering f1 g1) (plain vm ds) (cursor w) o)
        go none = (ds, refl)
        go (some o) = label-Alike o _ _ _ vm ds w
