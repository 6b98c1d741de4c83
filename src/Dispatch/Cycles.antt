-- ===== src/Dispatch/Cycles.antt =====
-- src/vm.cpp, the cycle counter: each fetch counts one cycle and no handler, snapshot or sink counts
-- another, in a run of the computed goto from any VM, also from one that has halted.
use mathlib.Core.Path.{subst}
use retro_vm.Prelude.{
  ℕ, zero, suc, ◌+◌, ◌^◌, ◌≤◌, ◌<◌, ◌≡◌, ◌≢◌, refl, ◌∙◌, arith, Bool, true, false, Option, none,
  some, inl, inr, ◌==◌, if◌then◌else◌,
}
use retro_vm.Word.{u64}
use retro_vm.Isa.{
  Opcode, opcode?, op_code, halt_running, halt_unknown_op, decode_op, decode_dst, decode_src,
  decode_imm,
}
use retro_vm.Machine.{Vm, request_halt, read_reg}
use retro_vm.Hooks.{
  Answer, value, thrown, IoHooks, SnapshotSink, Flow, next, halt, Each, Each-bind, Each-map,
}
use retro_vm.Dispatch.{advance, snapshot_tick, received, label, dispatch, tail_dispatch, run_goto}
use retro_vm.Dispatch.Snapshots.{after_snapshot, snapshot_tick-cases}
use retro_vm.Dispatch.Naive.{run_naive}
use retro_vm.Dispatch.Modes.{run_naive_halted}

-- `vm1` is between `low` and `high` cycles further than `c`, in 64 bits.
abbrev pub Advanced : ℕ → ℕ → ℕ → Vm → Type 0
Advanced low high c vm1 = (k : ℕ) × (low ≤ k) × (k ≤ high) × (vm1.state.cycle_count ≡ u64 (c + k))

module _ {W : Type 0} (c : ℕ) where
  -- The counter stands at `c`.
  abbrev At : Vm → W → Type 0
  At vm w = vm.state.cycle_count ≡ c

  if-At : (b : Bool) (x y : Flow W) → Each At x → Each At y → Each At (if b then x else y)
  if-At true x y hx hy = hx
  if-At false x y hx hy = hy

  received-At :
      (io : IoHooks W) (op dst : ℕ) (vm : Vm) (a : Answer W)
      → vm.state.cycle_count ≡ c
      → Each At (received io op dst vm a)
  received-At io op dst vm (value x w1) h = h
  received-At io op dst vm (thrown e w1) h = h

  input-At :
      (io : IoHooks W) (op dst : ℕ) (hook : Option (ℕ → W → Answer W)) (vm : Vm) (w : W)
      → vm.state.cycle_count ≡ c
      → Each At (elim hook [
        | none ↦ next vm w
        | some f ↦ received io op dst vm (f vm.state.cycle_count w)
      ])
  input-At io op dst none vm w h = h
  input-At io op dst (some f) vm w h = received-At io op dst vm (f vm.state.cycle_count w) h

  label-At :
      (io : IoHooks W) (o : Opcode) (dst src imm : ℕ) (vm : Vm) (w : W)
      → vm.state.cycle_count ≡ c
      → Each At (label io o dst src imm vm w)
  unfolding label
  label-At io Opcode.op_div dst src imm vm w h = if-At (read_reg vm src == 0) _ _ h h
  label-At io Opcode.op_jnz dst src imm vm w h = if-At (read_reg vm dst == 0) _ _ h h
  label-At io Opcode.op_in dst src imm vm w h =
      input-At io (op_code Opcode.op_in) dst io.in_hook vm w h
  label-At io Opcode.op_rand dst src imm vm w h =
      input-At io (op_code Opcode.op_rand) dst io.rand_hook vm w h
  label-At io _ dst src imm vm w h = h

  dispatch-At :
      (io : IoHooks W) (instr : ℕ) (vm : Vm) (w : W)
      → vm.state.cycle_count ≡ c
      → Each At (dispatch io instr vm w)
  unfolding dispatch
  dispatch-At io instr vm w h =
      elim (opcode? (decode_op instr))
        as (λ o. Each At (elim o [
          | none ↦ halt halt_unknown_op (request_halt vm halt_unknown_op) w
          | some o ↦ label io o (decode_dst instr) (decode_src instr) (decode_imm instr) vm w
        ])) [ none ↦ h | some o ↦ label-At io o _ _ _ vm w h ]

  after_snapshot-At :
      (vm : Vm) (h : ℕ) (w : W) → vm.state.cycle_count ≡ c → Each At (after_snapshot vm h w)
  after_snapshot-At vm h w e = if-At (h == halt_running) _ _ e e

  snapshot_tick-At :
      (sink : Option (SnapshotSink W)) (vm : Vm) (w : W)
      → vm.state.cycle_count ≡ c
      → Each At (snapshot_tick sink vm w)
  snapshot_tick-At sink vm w e = elim (snapshot_tick-cases sink vm w) [
    | inl off ↦ rw off e
    | inr (inl counts) ↦ rw counts e
    | inr (inr (h, fires)) ↦ rw fires (after_snapshot-At vm h _ e)
  ]

module _ {W : Type 0} (io : IoHooks W) (sink : Option (SnapshotSink W)) where
  tail_dispatch-At :
      (vm : Vm) (w : W) → Each (At (u64 (vm.state.cycle_count + 1))) (tail_dispatch io sink vm w)
  unfolding tail_dispatch
  tail_dispatch-At vm w =
      let c = u64 (vm.state.cycle_count + 1) in
      Each-bind (At c) (At c) (snapshot_tick sink (advance vm) w) _ (λ vm1 w1 h. h)
        (snapshot_tick-At c sink (advance vm) w refl) (λ vm1 w1 h. dispatch-At c io _ vm1 w1 h)

  -- A run that fetches counts its first cycle at least.
  fetched-Advanced :
      (fuel : ℕ) (vm : Vm) (w : W)
      → ((vm1 : Vm) (w1 : W)
          → vm1.state.cycle_count < 2 ^ 64
          → Each
              (λ vm2 w2. Advanced 0 fuel vm1.state.cycle_count vm2)
              (run_goto io sink fuel vm1 w1))
      → Each
          (λ vm1 w1. Advanced 1 (suc fuel) vm.state.cycle_count vm1)
          (run_goto io sink (suc fuel) vm w)
  unfolding run_goto
  fetched-Advanced fuel vm w rest =
      let Q = λ (vm1 : Vm) (w1 : W). Advanced 1 (suc fuel) vm.state.cycle_count vm1 in
      Each-bind (At (u64 (vm.state.cycle_count + 1))) Q (tail_dispatch io sink vm w) _
        (λ vm1 w1 h. (1, omega arith, omega arith, h)) (tail_dispatch-At vm w)
        (λ vm1 w1 h.
          Each-map (λ vm2 w2. Advanced 0 fuel vm1.state.cycle_count vm2) Q
            (run_goto io sink fuel vm1 w1)
            (λ vm2 w2 a. (suc a.0, omega arith, omega (arith, a.2), omega (arith, h, a.3)))
            (rest vm1 w1 (omega (arith, h))))

  run_goto-Advanced :
      (fuel : ℕ) (vm : Vm) (w : W)
      → vm.state.cycle_count < 2 ^ 64
      → Each (λ vm1 w1. Advanced 0 fuel vm.state.cycle_count vm1) (run_goto io sink fuel vm w)
  unfolding run_goto
  run_goto-Advanced zero vm w h = (0, omega arith, omega arith, omega arith)
  run_goto-Advanced (suc fuel) vm w h =
      Each-map (λ vm1 w1. Advanced 1 (suc fuel) vm.state.cycle_count vm1)
        (λ vm1 w1. Advanced 0 (suc fuel) vm.state.cycle_count vm1)
        (run_goto io sink (suc fuel) vm w) (λ vm1 w1 a. (a.0, omega arith, a.2, a.3))
        (fetched-Advanced fuel vm w (run_goto-Advanced fuel))

  -- A VM that has halted tells the two modes apart, whatever the hooks, the sink and the interval
  -- are: the switch returns its reason and leaves it as it is, while the run of the computed goto
  -- ends, however it does, at least one cycle further and at most one for each instruction of its
  -- fuel, so that the two never end alike. The counter has 64 bits, and the fuel does not take it
  -- once around.
  pub run_halted :
      (fuel : ℕ) (vm : Vm) (w : W)
      → vm.state.halted ≢ halt_running
      → vm.state.cycle_count < 2 ^ 64
      → suc fuel < 2 ^ 64
      → (run_naive io sink (suc fuel) vm w ≡ halt vm.state.halted vm w)
        × Each
            (λ vm1 w1. Advanced 1 (suc fuel) vm.state.cycle_count vm1)
            (run_goto io sink (suc fuel) vm w)
        × (run_goto io sink (suc fuel) vm w ≢ run_naive io sink (suc fuel) vm w)
  run_halted fuel vm w h counter few =
      let stays = run_naive_halted io sink fuel vm w h in
      let moves = fetched-Advanced fuel vm w (run_goto-Advanced fuel) in
      (
        stays,
        moves,
        λ e.
            let a : Advanced 1 (suc fuel) vm.state.cycle_count vm =
              subst (Each (λ vm1 w1. Advanced 1 (suc fuel) vm.state.cycle_count vm1)) (e ∙ stays)
                moves in
            omega (arith, a.1, a.2, a.3),
      )
