-- ===== src/Savepoint/Written.antt =====
-- src/main.cpp, `cmd_save`: what the file of a successful save holds.
use mathlib.Core.Path.{subst}
use retro_vm.Prelude.{
  ℕ, zero, suc, ◌≡◌, refl, sym, arith, Bool, true, false, [], Option, none, some, inl, inr, ◌⊎◌,
  Bool-cases, ltb, ◌==◌, if◌then◌else◌,
}
use retro_vm.Word.{sub32}
use retro_vm.Isa.{
  HaltReason, halt_running, halt_checkpoint, halt_unknown_op, Opcode, op_code, opcode?, decode_op,
  decode_dst, decode_src, decode_imm,
}
use retro_vm.Machine.{Vm, VmState, Snapshot, take_snapshot, request_halt, read_reg}
use retro_vm.Hooks.{Answer, value, thrown, IoHooks, Flow, next, halt, throw, ◌>>=◌, Each, Next}
use retro_vm.Dispatch.{
  advance, set_timer, requested, make_snapshot, snapshot_fire, snapshot_tick, received, label,
  dispatch, tail_dispatch, run_goto,
}
use retro_vm.Dispatch.Validity.{IsValid, HooksFit, tail_dispatch-IsValid}
use retro_vm.Dispatch.Modes.{tail_dispatch-IsRunning}
use retro_vm.Checkpoint.{checkpoint_save}
use retro_vm.Savepoint.{Saving, checkpoint_of, save_sink}

-- The file holds the state of a VM that has just fetched the instruction at the target, and of which
-- `Here` holds with the cursor.
abbrev pub Written : (Vm → ℕ → Type 0) → ℕ → ℕ → Vm → Saving → Type 0
Written Here at_index target vm w =
    (before : Vm) × IsValid before
    × (before.state.halted ≡ halt_running)
    × (vm.mem ≡ before.mem)
    × (vm.state ≡ record ((advance before).state) {
      halted = halt_checkpoint;
      snap_timer = before.state.snap_interval;
    })
    × ((advance before).state.cycle_count ≡ target)
    × (w.cursor ≡ at_index)
    × (w.file ≡ some (checkpoint_save (checkpoint_of at_index (advance before).state)))
    × Here before at_index

-- A halt for a checkpoint comes with the file.
abbrev pub Stops : (Vm → ℕ → Type 0) → ℕ → ℕ → Flow Saving → Type 0
Stops Here at_index target (next vm w) = Unit
Stops Here at_index target (halt r vm w) = r ≡ halt_checkpoint → Written Here at_index target vm w
Stops Here at_index target (throw e vm w) = Unit

module _ (Here : Vm → ℕ → Type 0) (at_index target : ℕ) where
  Stops-bind :
      (f : Flow Saving) (k : Vm × Saving → Flow Saving)
      → Stops Here at_index target f
      → ((vm : Vm) (w : Saving) → f ≡ next vm w → Stops Here at_index target (k (vm, w)))
      → Stops Here at_index target (f >>= k)
  Stops-bind (next vm w) k h rest = rest vm w refl
  Stops-bind (halt r vm w) k h rest = h
  Stops-bind (throw e vm w) k h rest = tt

  if-Stops :
      (b : Bool) (x y : Flow Saving)
      → Stops Here at_index target x
      → Stops Here at_index target y
      → Stops Here at_index target (if b then x else y)
  if-Stops true x y hx hy = hx
  if-Stops false x y hx hy = hy

  received-Stops :
      (io : IoHooks Saving) (op dst : ℕ) (vm : Vm) (a : Answer Saving)
      → Stops Here at_index target (received io op dst vm a)
  received-Stops io op dst vm (value x w) = tt
  received-Stops io op dst vm (thrown e w) = tt

  input-Stops :
      (io : IoHooks Saving) (op dst : ℕ) (hook : Option (ℕ → Saving → Answer Saving)) (vm : Vm)
      (w : Saving)
      → Stops Here at_index target (elim hook [
        | none ↦ next vm w
        | some f ↦ received io op dst vm (f vm.state.cycle_count w)
      ])
  input-Stops io op dst none vm w = tt
  input-Stops io op dst (some f) vm w = received-Stops io op dst vm (f vm.state.cycle_count w)

  -- No instruction halts for a checkpoint.
  label-Stops :
      (io : IoHooks Saving) (o : Opcode) (dst src imm : ℕ) (vm : Vm) (w : Saving)
      → Stops Here at_index target (label io o dst src imm vm w)
  unfolding label
  label-Stops io Opcode.op_halt dst src imm vm w = λ e. absurd (omega (arith, e))
  label-Stops io Opcode.op_div dst src imm vm w =
      if-Stops (read_reg vm src == 0) _ _ (λ e. absurd (omega (arith, e))) tt
  label-Stops io Opcode.op_jnz dst src imm vm w = if-Stops (read_reg vm dst == 0) _ _ tt tt
  label-Stops io Opcode.op_in dst src imm vm w =
      input-Stops io (op_code Opcode.op_in) dst io.in_hook vm w
  label-Stops io Opcode.op_rand dst src imm vm w =
      input-Stops io (op_code Opcode.op_rand) dst io.rand_hook vm w
  label-Stops io _ dst src imm vm w = tt

  dispatch-Stops :
      (io : IoHooks Saving) (instr : ℕ) (vm : Vm) (w : Saving)
      → Stops Here at_index target (dispatch io instr vm w)
  unfolding dispatch
  dispatch-Stops io instr vm w =
      elim (opcode? (decode_op instr))
        as (λ o. Stops Here at_index target (elim o [
          | none ↦ halt halt_unknown_op (request_halt vm halt_unknown_op) w
          | some o ↦ label io o (decode_dst instr) (decode_src instr) (decode_imm instr) vm w
        ])) [ none ↦ (λ e. absurd (omega (arith, e))) | some o ↦ label-Stops io o _ _ _ vm w ]

  -- The snapshot once the sink has answered.
  abbrev answered : Vm → Saving × Option HaltReason → Flow Saving
  answered vm (w1, r) =
      let vm1 = requested (record vm { deltas = [] }) r in
      let vm2 = set_timer vm1 vm1.state.snap_interval in
      if vm2.state.halted == halt_running then next vm2 w1 else halt vm2.state.halted vm2 w1

  -- The sink declines, or writes at the target.
  save_sink-cases :
      (can_write : Bool) (vs : VmState) (snap : Snapshot) (w : Saving)
      → ((w1 : Saving) × (save_sink can_write at_index target vs snap w ≡ (w1, none)))
        ⊎ ((w.cursor ≡ at_index)
            × (vs.cycle_count ≡ target)
            × (save_sink can_write at_index target vs snap w ≡ (
              record w { saved = true; file = some (checkpoint_save (checkpoint_of at_index vs)) },
              some halt_checkpoint,
            )))
  unfolding save_sink
  save_sink-cases can_write vs snap w = elim (Bool-cases w.saved) [
    | inl already ↦ inl (w, rw already refl)
    | inr fresh ↦ elim (Bool-cases (w.cursor == at_index)) [
      | inr elsewhere ↦ inl (w, rw (fresh, elsewhere) refl)
      | inl here ↦ elim (Bool-cases (vs.cycle_count == target)) [
        | inr early ↦ inl (w, rw (fresh, here, early) refl)
        | inl now ↦ elim (Bool-cases can_write) [
          | inl writes ↦ inr (ground arith, ground arith, rw (fresh, here, now, writes) refl)
          | inr fails ↦ inl (record w { saved = true }, rw (fresh, here, now, fails) refl)
        ]
      ]
    ]
  ]

  -- The VM that the timer of the fetched instruction leaves.
  abbrev ticked : Vm → Vm
  ticked before = set_timer (advance before) (sub32 before.state.snap_timer 1)

  declined-Stops :
      (vm : Vm) (w1 : Saving)
      → vm.state.halted ≡ halt_running
      → Stops Here at_index target (answered vm (w1, none))
  declined-Stops vm w1 h = rw h tt

  written-Stops :
      (before : Vm) (w : Saving)
      → IsValid before
      → before.state.halted ≡ halt_running
      → w.cursor ≡ at_index
      → (advance before).state.cycle_count ≡ target
      → Here before w.cursor
      → Stops Here at_index target (
          answered (ticked before) (
            record w {
              saved = true;
              file = some (checkpoint_save (checkpoint_of at_index (ticked before).state));
            },
            some halt_checkpoint,
          ))
  unfolding checkpoint_of
  written-Stops before w v h here now met e =
      (before, v, h, refl, refl, now, here, refl, subst (Here before) here met)

  fire-Stops :
      (can_write : Bool) (before : Vm) (w : Saving)
      → IsValid before
      → before.state.halted ≡ halt_running
      → Here before w.cursor
      → Stops Here at_index target
          (snapshot_fire (some (save_sink can_write at_index target)) (ticked before) w)
  unfolding snapshot_fire make_snapshot take_snapshot
  fire-Stops can_write before w v h met =
      elim (save_sink-cases can_write (ticked before).state (take_snapshot (ticked before)).0 w) [
        | inl (w1, declined) ↦
            subst (λ p. Stops Here at_index target (answered (ticked before) p)) (sym declined)
              (declined-Stops (ticked before) w1 h)
        | inr (here, now, written) ↦
            subst (λ p. Stops Here at_index target (answered (ticked before) p)) (sym written)
              (written-Stops before w v h here now met)
      ]

  tick-Stops :
      (can_write : Bool) (before : Vm) (w : Saving)
      → IsValid before
      → before.state.halted ≡ halt_running
      → Here before w.cursor
      → Stops Here at_index target
          (snapshot_tick (some (save_sink can_write at_index target)) (advance before) w)
  unfolding snapshot_tick
  tick-Stops can_write before w v h met =
      if-Stops (ltb 0 before.state.snap_interval) _ _
        (if-Stops (sub32 before.state.snap_timer 1 == 0) _ _ (fire-Stops can_write before w v h met)
          tt)
        tt

  tail_dispatch-Stops :
      (io : IoHooks Saving) (can_write : Bool) (vm : Vm) (w : Saving)
      → IsValid vm
      → vm.state.halted ≡ halt_running
      → Here vm w.cursor
      → Stops Here at_index target
          (tail_dispatch io (some (save_sink can_write at_index target)) vm w)
  unfolding tail_dispatch
  tail_dispatch-Stops io can_write vm w v h met =
      Stops-bind (snapshot_tick (some (save_sink can_write at_index target)) (advance vm) w) _
        (tick-Stops can_write vm w v h met) (λ vm1 w1 e. dispatch-Stops io _ vm1 w1)

  -- A run that halts for a checkpoint has written the file, where `Here` holds if every instruction
  -- that goes on keeps it.
  pub run_goto-Stops :
      (io : IoHooks Saving) (can_write : Bool) (fuel : ℕ) (vm : Vm) (w : Saving)
      → HooksFit io
      → ((vm1 : Vm) (w1 : Saving)
          → vm1.state.halted ≡ halt_running
          → Here vm1 w1.cursor
          → Next
              (λ x y. Here x y.cursor)
              (tail_dispatch io (some (save_sink can_write at_index target)) vm1 w1))
      → IsValid vm
      → vm.state.halted ≡ halt_running
      → Here vm w.cursor
      → Stops Here at_index target
          (run_goto io (some (save_sink can_write at_index target)) fuel vm w)
  unfolding run_goto
  run_goto-Stops io can_write zero vm w hf keeps v h met = tt
  run_goto-Stops io can_write (suc fuel) vm w hf keeps v h met =
      let sink = some (save_sink can_write at_index target) in
      Stops-bind (tail_dispatch io sink vm w) _ (tail_dispatch-Stops io can_write vm w v h met)
        (λ vm1 w1 e.
          run_goto-Stops io can_write fuel vm1 w1 hf keeps
            (subst (Each (λ x y. IsValid x)) e (tail_dispatch-IsValid io sink vm w hf v))
            (subst (Next (λ x y. x.state.halted ≡ halt_running)) e
              (tail_dispatch-IsRunning io sink vm w h))
            (subst (Next (λ x y. Here x y.cursor)) e (keeps vm w h met)))
