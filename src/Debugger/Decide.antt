-- ===== src/Debugger/Decide.antt =====
-- src/main.cpp, what the sink of the debugger does to the instruction that is about to run: the step
-- count is reached, or it has a breakpoint, or it runs.
use retro_vm.Prelude.{
  Bool, if◌then◌else◌, ◌+◌, ◌≡◌, refl, ap, ◌∙◌, false, true, Option, none, some, inl, inr, ◌⊎◌, leb,
  ◌==◌, Bool-cases, ◌&&◌, not,
}
use retro_vm.Word.{u64, sub32}
use retro_vm.Isa.{HaltReason, halt_running, halt_step, halt_breakpoint}
use retro_vm.Machine.{take_snapshot, Vm}
use retro_vm.Hooks.{Flow, next, halt}
use retro_vm.Dispatch.{advance, set_timer, snapshot_tick}
use retro_vm.Dispatch.Snapshots.{snapped, after_snapshot}
use retro_vm.Trace.{TraceReader}
use retro_vm.Session.{Source}
use retro_vm.Debugger.{Debug, never, has_breakpoint, push_ring, debug_sink}
use retro_vm.Debugger.Story.{IsStepping}
use retro_vm.Debugger.Watch.{fetched}
use retro_vm.Debugger.Runs.{fetch_fires}

module _ {S : Type 0} (src : Source S) (trace : Option TraceReader) where
  -- The timer of the next instruction.
  abbrev pub tick : Vm → Debug S → Flow (Debug S)
  tick vm d = snapshot_tick (some (debug_sink trace)) (advance vm) d

  -- The step count is reached at this cycle.
  abbrev pub due : Vm → Debug S → Bool
  due vm d = not (d.target_cycle == never) && leb d.target_cycle (u64 (vm.state.cycle_count + 1))

  -- The next instruction has a breakpoint.
  abbrev pub marked_next : Vm → Debug S → Bool
  marked_next vm d = has_breakpoint (sub32 (advance vm).state.pc 4) d.breakpoints

  -- The answer of the sink, by the two tests.
  abbrev pub decision : Vm → Debug S → Bool → Bool → Debug S × Option HaltReason
  decision vm d now here =
      if now
      then (push_ring (fetched trace vm d) (record d { target_cycle = never }), some halt_step)
      else (push_ring (fetched trace vm d) d, if here then some halt_breakpoint else none)

  debug_sink-eq-decision :
      (vm : Vm) (d : Debug S)
      → debug_sink trace (set_timer (advance vm) 0).state (fetched trace vm d).core d
        ≡ decision vm d (due vm d) (marked_next vm d)
  unfolding debug_sink take_snapshot
  debug_sink-eq-decision vm d = refl

  pub decided :
      (vm : Vm) (d : Debug S) (now here : Bool)
      → IsStepping vm
      → due vm d ≡ now
      → marked_next vm d ≡ here
      → tick vm d
        ≡ after_snapshot
            (advance vm)
            (elim ((decision vm d now here).1) [ none ↦ halt_running | some h ↦ h ])
            (decision vm d now here).0
  decided vm d now here h e1 e2 =
      fetch_fires src trace vm d h
      ∙ ap
          (λ p.
            after_snapshot (advance vm) (elim (p.1) [ none ↦ vm.state.halted | some h ↦ h ]) p.0)
          (debug_sink-eq-decision vm d ∙ (λ i. decision vm d (e1 i) (e2 i)))
      ∙ (λ i.
          after_snapshot (advance vm)
            (elim ((decision vm d now here).1) [ none ↦ h.1 i | some h ↦ h ])
            (decision vm d now here).0)

  -- The three answers of the sink.
  pub tick-cases :
      (vm : Vm) (d : Debug S)
      → IsStepping vm
      → ((due vm d ≡ true)
          × (tick vm d
              ≡ halt halt_step
                  (snapped (advance vm) halt_step)
                  (push_ring (fetched trace vm d) (record d { target_cycle = never }))))
        ⊎ ((due vm d ≡ false)
            × (marked_next vm d ≡ true)
            × (tick vm d
                ≡ halt halt_breakpoint
                    (snapped (advance vm) halt_breakpoint)
                    (push_ring (fetched trace vm d) d)))
        ⊎ ((due vm d ≡ false)
            × (marked_next vm d ≡ false)
            × (tick vm d
                ≡ next (snapped (advance vm) halt_running) (push_ring (fetched trace vm d) d)))
  tick-cases vm d h = elim (Bool-cases (due vm d)) [
    | inl now ↦ inl (now, decided vm d true _ h now refl)
    | inr later ↦ elim (Bool-cases (marked_next vm d)) [
      | inl here ↦ inr (inl (later, here, decided vm d false true h later here))
      | inr pass ↦ inr (inr (later, pass, decided vm d false false h later pass))
    ]
  ]
