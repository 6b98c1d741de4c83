-- ===== src/Debugger/Skips.antt =====
-- src/main.cpp, the instruction that the debugger stops at: the halt comes before its handler, and
-- the resumed run starts behind it.
use retro_vm.Prelude.{
  ℕ, suc, ◌+◌, ◌-◌, ◌^◌, ◌<◌, ◌≡◌, refl, sym, ap, ◌∙◌, arith, false, true, Option, some,
}
use retro_vm.Word.{u64}
use retro_vm.Isa.{halt_step, halt_breakpoint}
use retro_vm.Memory.{mem_load_u32}
use retro_vm.Machine.{Vm}
use retro_vm.Hooks.{halt, ◌>>=◌}
use retro_vm.Dispatch.{advance, dispatch, tail_dispatch, run_goto}
use retro_vm.Dispatch.Snapshots.{snapped}
use retro_vm.Dispatch.Validity.{HooksFit}
use retro_vm.Trace.{TraceReader}
use retro_vm.Session.{Source}
use retro_vm.Debugger.{
  Debug, never, has_breakpoint, push_ring, debug_sink, debug_hooks, debug_resume, debug_run, prompt,
  after_run, step, continue_run,
}
use retro_vm.Debugger.Watch.{fetched}
use retro_vm.Debugger.Decide.{tick, marked_next, decided}
use retro_vm.Debugger.Commands.{resumed-Going, continue_run-eq-run_command, resume_then}
use retro_vm.Debugger.Reached.{Reached, Reached-Settled}

module _ {S : Type 0} (src : Source S) (trace : Option TraceReader) where
  -- A run whose first instruction makes the sink halt.
  halted_at_once :
      (fuel : ℕ) (vm vm1 : Vm) (d d1 : Debug S) (r : ℕ)
      → tick src trace vm d ≡ halt r vm1 d1
      → after_run (debug_run src trace (suc fuel) vm d) ≡ prompt vm1 d1
  unfolding debug_run run_goto tail_dispatch
  halted_at_once fuel vm vm1 d d1 r e = λ i. after_run (
      (e i >>= λ (vm2, d2).
      dispatch (debug_hooks src trace) (mem_load_u32 vm.mem vm.state.pc) vm2 d2)
      >>= λ (vm2, d2). run_goto (debug_hooks src trace) (some (debug_sink trace)) fuel vm2 d2)

  -- `step 1` on a VM that can be resumed, with one instruction of fuel or more, runs no handler: it
  -- fetches the next instruction, advances the program counter and the cycle count, pushes the
  -- snapshot and stops with HALT_STEP. The session has come from the loaded program by any
  -- commands, the cycle count does not overflow, and the input hooks return 32-bit values.
  pub step_one :
      (fuel : ℕ) (vm vm1 : Vm) (d : Debug S)
      → HooksFit (debug_hooks src trace)
      → Reached src trace vm d
      → debug_resume vm ≡ some vm1
      → vm1.state.cycle_count + 1 < 2 ^ 64 - 1
      → step src trace (suc fuel) 1 vm d
        ≡ prompt
            (snapped (advance vm1) halt_step)
            (push_ring (fetched trace vm1 d) (record d { target_cycle = never }))
  step_one fuel vm vm1 d hf h e room =
      let (ms, s) = Reached-Settled src trace vm d hf h in
      let going = resumed-Going trace ms vm vm1 d (u64 (vm1.state.cycle_count + 1)) e s in
      unfold step in
      rw e (
        halted_at_once fuel vm1 _ _ _ halt_step (
          decided src trace vm1 (record d { target_cycle = u64 (vm1.state.cycle_count + 1) }) true
            (marked_next src trace vm1 d) going.stepping (ground arith) refl))

  -- When the instruction at the program counter of a VM that can be resumed has a breakpoint,
  -- `continue` stops at it, with one instruction of fuel or more: with HALT_BREAKPOINT, before its
  -- handler, the program counter behind it and the snapshot pushed. The session has come from the
  -- loaded program by any commands, and the input hooks return 32-bit values.
  pub continue_run-marked :
      (fuel : ℕ) (vm vm1 : Vm) (d : Debug S)
      → HooksFit (debug_hooks src trace)
      → Reached src trace vm d
      → debug_resume vm ≡ some vm1
      → has_breakpoint vm1.state.pc d.breakpoints ≡ true
      → continue_run src trace (suc fuel) vm d
        ≡ prompt
            (snapped (advance vm1) halt_breakpoint)
            (push_ring (fetched trace vm1 d) (record d { target_cycle = never }))
  continue_run-marked fuel vm vm1 d hf h e here =
      let (ms, s) = Reached-Settled src trace vm d hf h in
      let going = resumed-Going trace ms vm vm1 d never e s in
      sym (continue_run-eq-run_command src trace (suc fuel) vm d)
      ∙ ap
          (λ o. resume_then src trace vm d o λ vm2.
            after_run (debug_run src trace (suc fuel) vm2 (record d { target_cycle = never })))
          e
      ∙ halted_at_once fuel vm1 _ _ _ halt_breakpoint (
          decided src trace vm1 (record d { target_cycle = never }) false true going.stepping refl
            (let fits = going.stepping.0.pc_fits in
              ap (λ p. has_breakpoint p d.breakpoints) (omega arith) ∙ here))
