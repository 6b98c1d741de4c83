-- ===== src/Debugger/Watch.antt =====
-- src/main.cpp, `install_debug_sink`: what the sink adds to the story of the ring.
use mathlib.Core.Path.{subst}
use retro_vm.Prelude.{
  ℕ, suc, ◌≤◌, ◌≡◌, refl, sym, ap, ◌∙◌, arith, ◌∷◌, List, Option, none, some, inl, inr, ◌⊎◌,
  Bool-cases, take, take-length, length,
}
use retro_vm.Isa.{halt_running}
use retro_vm.Machine.{Vm, VmState, take_snapshot}
use retro_vm.Machine.Log.{undo_deltas}
use retro_vm.Dispatch.{advance, set_timer}
use retro_vm.Dispatch.Snapshots.{snapped}
use retro_vm.Dispatch.Validity.{advance-IsValid, snapped-IsValid}
use retro_vm.Trace.{TraceReader}
use retro_vm.Debugger.{ReplSnapshot, Debug, never, push_ring, step_due, debug_sink}
use retro_vm.Debugger.Ring.{RingFits, push_ring-cases, push_ring-RingFits}
use retro_vm.Debugger.Story.{Moment, IsStepping, Shows, Recalls, push_ring-Recalls}

-- The cursor that a snapshot keeps.
abbrev pub seen : {S : Type 0} → Option TraceReader → Debug S → ℕ
seen trace d = elim trace [ none ↦ 0 | some r ↦ d.cursor ]

-- The index has moved on, or the ring is full.
abbrev pub Grows : {S : Type 0} → ℕ → Debug S → Type 0
Grows n d = (n ≤ d.history_index) ⊎ (255 ≤ d.history_index)

-- The moment of the instruction that `vm` fetches.
abbrev pub moment_of : {S : Type 0} → Option TraceReader → Vm → Debug S → Moment
moment_of trace vm d = record {
  mem = vm.mem;
  state = (snapped (advance vm) halt_running).state;
  cursor = seen trace d;
}

-- The snapshot of that instruction.
abbrev pub fetched : {S : Type 0} → Option TraceReader → Vm → Debug S → ReplSnapshot
fetched trace vm d = record {
  core = (take_snapshot (set_timer (advance vm) 0)).0;
  cursor = seen trace d;
}

pub take_twice : (regs : List ℕ) → length regs ≡ 8 → take 8 (take 8 regs) ≡ regs
take_twice regs e = ap (take 8) (take-length 8 regs e) ∙ take-length 8 regs e

module _ {S : Type 0} where
  fetched-Shows :
      (trace : Option TraceReader) (vm : Vm) (d : Debug S)
      → IsStepping vm
      → Shows vm.mem (fetched trace vm d) (moment_of trace vm d)
  unfolding take_snapshot
  fetched-Shows trace vm d (v, h, i, t) = (
    refl,
    (λ j. record ((moment_of trace vm d).state) {
      regs = take_twice vm.state.regs v.eight j;
      halted = h j;
    }),
    (snapped-IsValid (advance vm) halt_running (advance-IsValid vm v), refl, i, i),
    refl,
  )

  push_ring-Grows :
      (rs : ReplSnapshot) (d : Debug S)
      → RingFits d
      → Grows (suc d.history_index) (push_ring rs d) × ((push_ring rs d).cursor ≡ d.cursor)
  push_ring-Grows rs d fits = elim (push_ring-cases rs d fits) [
    | inl (room, e) ↦ rw e (inl (omega arith), refl)
    | inr (full, e) ↦ rw e (inr (omega arith), refl)
  ]

  -- What the sink leaves when it has pushed.
  abbrev pub Watched : Option TraceReader → Vm → Debug S → List Moment → Debug S → Type 0
  Watched trace vm d ms d1 =
      RingFits d1
      × Recalls (moment_of trace vm d ∷ ms) vm.mem d1
      × Grows (suc d.history_index) d1
      × (d1.cursor ≡ d.cursor)

  push_ring-Watched :
      (trace : Option TraceReader) (vm : Vm) (d : Debug S) (ms : List Moment)
      → IsStepping vm
      → RingFits d
      → Recalls ms (undo_deltas vm.mem vm.deltas) d
      → Watched trace vm d ms (push_ring (fetched trace vm d) d)
  unfolding take_snapshot
  push_ring-Watched trace vm d ms h fits told =
      let grown = push_ring-Grows (fetched trace vm d) d fits in
      (
        (push_ring-RingFits (fetched trace vm d) d fits).0,
        push_ring-Recalls vm.mem (fetched trace vm d) (moment_of trace vm d) ms d fits
            (fetched-Shows trace vm d h) told,
        grown.0,
        grown.1,
      )

  debug_sink-cases :
      (trace : Option TraceReader) (vm : Vm) (d : Debug S) (vs : VmState)
      → ((debug_sink trace vs (fetched trace vm d).core d).0
          ≡ push_ring (fetched trace vm d) (record d { target_cycle = never }))
        ⊎ ((debug_sink trace vs (fetched trace vm d).core d).0 ≡ push_ring (fetched trace vm d) d)
  unfolding debug_sink
  debug_sink-cases trace vm d vs = elim (Bool-cases (step_due d (fetched trace vm d).core)) [
    | inl due ↦ inl (rw due refl)
    | inr more ↦ inr (rw more refl)
  ]

  -- The sink pushes the fetched instruction, whether or not it asks for a halt.
  pub debug_sink-Watched :
      (trace : Option TraceReader) (vm : Vm) (d : Debug S) (ms : List Moment) (vs : VmState)
      → IsStepping vm
      → RingFits d
      → Recalls ms (undo_deltas vm.mem vm.deltas) d
      → Watched trace vm d ms (debug_sink trace vs (fetched trace vm d).core d).0
  debug_sink-Watched trace vm d ms vs h fits told = elim (debug_sink-cases trace vm d vs) [
    | inl e ↦
        subst (Watched trace vm d ms) (sym e)
          (push_ring-Watched trace vm (record d { target_cycle = never }) ms h fits told)
    | inr e ↦ subst (Watched trace vm d ms) (sym e) (push_ring-Watched trace vm d ms h fits told)
  ]
