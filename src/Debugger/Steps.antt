-- ===== src/Debugger/Steps.antt =====
-- src/main.cpp, `step` and `continue` of the debugger: how far they go, and where they stop.
use mathlib.Core.Path.{subst}
use retro_vm.Prelude.{
  ℕ, zero, suc, ◌+◌, ◌-◌, ◌^◌, ◌≤◌, ◌<◌, ◌≡◌, ◌≢◌, refl, ap, ◌∙◌, arith, true, List, Option, some,
  inl, inr, ◌⊎◌, ◌==◌, Bool-cases,
}
use retro_vm.Word.{u64}
use retro_vm.Isa.{halt_running, halt_step, halt_breakpoint}
use retro_vm.Machine.{Vm}
use retro_vm.Hooks.{Flow, next, halt, throw}
use retro_vm.Dispatch.Validity.{HooksFit}
use retro_vm.Trace.{TraceReader}
use retro_vm.Session.{Source}
use retro_vm.Debugger.{
  Debug, never, has_breakpoint, debug_hooks, debug_resume, debug_run, Outcome, prompt, diverged,
  running, after_run, step, continue_run, visible_pc,
}
use retro_vm.Debugger.Story.{Moment}
use retro_vm.Debugger.Prompt.{Settled}
use retro_vm.Debugger.Commands.{
  debug_resume-eq-some, resumed-Going, resume_then-elim, run_command, step-elim,
  continue_run-eq-run_command,
}
use retro_vm.Debugger.Reached.{Reached, Reached-Settled}
use retro_vm.Debugger.Stops.{Ahead, stuck_not_step, stuck_not_breakpoint, Stopped, run_goto-Stopped}

-- Where the prompt comes back after a command from the cycle `c` that runs up to `n` instructions.
abbrev pub Stays : {S : Type 0} → ℕ → ℕ → Outcome S → Type 0
Stays c n (prompt vm d) =
    ((vm.state.halted ≢ halt_step) ⊎ (vm.state.cycle_count ≡ c + n))
    × (vm.state.cycle_count ≤ c + n)
Stays c n (diverged e) = Unit
Stays c n running = ⊥

-- A halt at a breakpoint is at one of these.
abbrev AtBreakpoint : {S : Type 0} → List ℕ → Outcome S → Type 0
AtBreakpoint bps (prompt vm d) =
    (vm.state.halted ≢ halt_breakpoint) ⊎ (has_breakpoint (visible_pc vm) bps ≡ true)
AtBreakpoint bps (diverged e) = Unit
AtBreakpoint bps running = Unit

module _ {S : Type 0} (src : Source S) (trace : Option TraceReader) where
  Stopped-Stays :
      (c n : ℕ) (bps : List ℕ) (f : Flow (Debug S))
      → c + n < never
      → Stopped src trace (c + n) bps (c + n) f
      → Stays c n (after_run f)
  Stopped-Stays c n bps (next vm d) room h = let ahead = h.1 in absurd (ground (arith, h.0))
  Stopped-Stays c n bps (halt r vm d) room h = (h.0, let le = h.2 in ground arith)
  Stopped-Stays c n bps (throw e vm d) room h = tt

  Stopped-AtBreakpoint :
      (t total : ℕ) (bps : List ℕ) (f : Flow (Debug S))
      → Stopped src trace t bps total f
      → AtBreakpoint bps (after_run f)
  unfolding visible_pc
  Stopped-AtBreakpoint t total bps (next vm d) h = tt
  Stopped-AtBreakpoint t total bps (halt r vm d) h =
      elim (Bool-cases (vm.state.halted == halt_running)) [
        | inl on ↦ inl (λ e. absurd (ground (arith, on, e)))
        | inr off ↦ elim (h.1) [ inl other ↦ inl other | inr at ↦ inr (rw off at) ]
      ]
  Stopped-AtBreakpoint t total bps (throw e vm d) h = tt

  -- A resumed VM runs to its target.
  resumed-Stopped :
      (fuel t : ℕ) (ms : List Moment) (vm vm1 : Vm) (d : Debug S)
      → HooksFit (debug_hooks src trace)
      → Settled trace ms vm d
      → debug_resume vm ≡ some vm1
      → t ≤ never
      → Ahead t vm1.state.cycle_count
      → Stopped src trace t d.breakpoints
          (u64 (vm1.state.cycle_count + fuel))
          (debug_run src trace fuel vm1 (record d { target_cycle = t }))
  unfolding debug_run
  resumed-Stopped fuel t ms vm vm1 d hf h e le ahead =
      run_goto-Stopped src trace t d.breakpoints fuel _ vm1 _ hf le refl
        ((resumed-Going trace ms vm vm1 d t e h).stepping, refl, ahead)

  run_command-Stays :
      (n : ℕ) (ms : List Moment) (vm : Vm) (d : Debug S)
      → HooksFit (debug_hooks src trace)
      → Settled trace ms vm d
      → 1 ≤ n
      → vm.state.cycle_count + n < never
      → Stays vm.state.cycle_count n
          (run_command src trace n (λ vm1. u64 (vm1.state.cycle_count + n)) vm d)
  run_command-Stays n ms vm d hf h some_steps room =
      resume_then-elim src trace (Stays vm.state.cycle_count n) vm d (debug_resume vm) _
        (λ e. (inl (stuck_not_step vm e), omega arith))
        (λ vm1 e.
          let same : vm1.state.cycle_count ≡ vm.state.cycle_count =
            ap (λ x. x.state.cycle_count) (debug_resume-eq-some vm vm1 e) in
          let target : u64 (vm1.state.cycle_count + n) ≡ vm.state.cycle_count + n =
            omega (arith, same) in
          let t = u64 (vm1.state.cycle_count + n) in
          Stopped-Stays vm.state.cycle_count n d.breakpoints
            (debug_run src trace n vm1 (record d { target_cycle = t })) room
            (subst
              (λ t1.
                Stopped src trace t1 d.breakpoints t1
                  (debug_run src trace n vm1 (record d { target_cycle = t })))
              target
              (resumed-Stopped n t ms vm vm1 d hf h e (omega (arith, target))
                (inr (omega (arith, target, same))))))

  run_command-AtBreakpoint :
      (fuel : ℕ) (t : Vm → ℕ) (ms : List Moment) (vm : Vm) (d : Debug S)
      → HooksFit (debug_hooks src trace)
      → Settled trace ms vm d
      → ((vm1 : Vm)
          → debug_resume vm ≡ some vm1
          → (t vm1 ≤ never) × Ahead (t vm1) vm1.state.cycle_count)
      → AtBreakpoint d.breakpoints (run_command src trace fuel t vm d)
  run_command-AtBreakpoint fuel t ms vm d hf h reach =
      resume_then-elim src trace (AtBreakpoint d.breakpoints) vm d (debug_resume vm) _
        (λ e. inl (stuck_not_breakpoint vm e))
        (λ vm1 e.
          Stopped-AtBreakpoint (t vm1) _ d.breakpoints _
            (resumed-Stopped fuel (t vm1) ms vm vm1 d hf h e (reach vm1 e).0 (reach vm1 e).1))

  -- `step n` comes back to the prompt, or leaves by a divergence, within n instructions: at the
  -- prompt the cycle count is at most n further, and exactly n further when the halt reason is
  -- HALT_STEP. The session has come from the loaded program by any commands, the sum of the cycle
  -- count and n is below the largest 64-bit number, and the input hooks return 32-bit values.
  pub step-Stays :
      (n : ℕ) (vm : Vm) (d : Debug S)
      → HooksFit (debug_hooks src trace)
      → Reached src trace vm d
      → vm.state.cycle_count + n < 2 ^ 64 - 1
      → Stays vm.state.cycle_count n (step src trace n n vm d)
  step-Stays zero vm d hf h room = unfold step in (inr (omega arith), omega arith)
  step-Stays (suc n) vm d hf h room =
      let (ms, s) = Reached-Settled src trace vm d hf h in
      step-elim src trace (Stays vm.state.cycle_count (suc n)) (suc n) (suc n) vm d
        (λ e. absurd (ground (arith, e)))
        (run_command-Stays (suc n) ms vm d hf s (omega arith) room)

  -- When `continue` comes back with HALT_BREAKPOINT, the address of the instruction that the
  -- debugger shows is one of the breakpoints. The session has come from the loaded program by any
  -- commands, and the input hooks return 32-bit values.
  pub continue_run-AtBreakpoint :
      (fuel : ℕ) (vm vm1 : Vm) (d d1 : Debug S)
      → HooksFit (debug_hooks src trace)
      → Reached src trace vm d
      → continue_run src trace fuel vm d ≡ prompt vm1 d1
      → vm1.state.halted ≡ halt_breakpoint
      → has_breakpoint (visible_pc vm1) d.breakpoints ≡ true
  continue_run-AtBreakpoint fuel vm vm1 d d1 hf h e halted =
      let (ms, s) = Reached-Settled src trace vm d hf h in
      elim (subst (AtBreakpoint d.breakpoints) (continue_run-eq-run_command src trace fuel vm d ∙ e)
        (run_command-AtBreakpoint fuel (λ vm1. never) ms vm d hf s
          (λ vm1 r. (omega arith, inl refl)))) [ inl other ↦ absurd (other halted) | inr at ↦ at ]
