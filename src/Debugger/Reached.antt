-- ===== src/Debugger/Reached.antt =====
-- src/main.cpp, `cmd_debug` and `cmd_debug_run`: the states of the debugger that its commands lead
-- to, from the loaded program on.
use mathlib.Core.Path.{subst}
use retro_vm.Prelude.{
  ℕ, ◌+◌, ◌-◌, ◌^◌, ◌≤◌, ◌<◌, ◌≡◌, refl, sym, ap, ◌∙◌, arith, [], ◌∷◌, List, Option, none, some,
  inr, length, All,
}
use retro_vm.Isa.{halt_running}
use retro_vm.Machine.{set_snapshot_interval, new_vm, load_program, Vm, take_snapshot}
use retro_vm.Dispatch.Validity.{IsValid, HooksFit}
use retro_vm.Dispatch.Boot.{new_vm-IsValid, load_program-IsValid, load_program-eq-some}
use retro_vm.Trace.{TraceReader}
use retro_vm.Session.{Source}
use retro_vm.Debugger.{
  Debug, never, insert_breakpoint, erase_breakpoint, breakpoint_pc, debug_hooks, prompt, step,
  continue_run, back, debug_start,
}
use retro_vm.Debugger.Story.{Moment, vm_at}
use retro_vm.Debugger.Watch.{take_twice}
use retro_vm.Debugger.Prompt.{Settled}
use retro_vm.Debugger.Commands.{
  SameCursor-refl, Resettled, Undoes, Undoable, refused-Undoable, run_command-Resettled,
  run_command-Undoable, step-elim, continue_run-eq-run_command,
}
use retro_vm.Debugger.Rewind.{back-Settled}

module _ {S : Type 0} (src : Source S) (trace : Option TraceReader) where
  -- The states of the debugger at its prompt, from the start over its commands.
  pub data Reached : Vm → Debug S → Type 0 where
    started :
        (bin : List ℕ) (s : S) (vm : Vm) (d : Debug S)
        → All (λ b. b < 2 ^ 8) bin
        → debug_start bin s ≡ some (vm, d)
        → Reached vm d
    stepped :
        (fuel n : ℕ) (vm vm1 : Vm) (d d1 : Debug S)
        → Reached vm d
        → step src trace fuel n vm d ≡ prompt vm1 d1
        → Reached vm1 d1
    continued :
        (fuel : ℕ) (vm vm1 : Vm) (d d1 : Debug S)
        → Reached vm d
        → continue_run src trace fuel vm d ≡ prompt vm1 d1
        → Reached vm1 d1
    gone_back :
        (n : ℕ) (vm : Vm) (d : Debug S)
        → Reached vm d
        → Reached (back trace n vm d).0 (back trace n vm d).1
    marked :
        (pc : ℕ) (vm : Vm) (d : Debug S)
        → Reached vm d
        → Reached vm (record d { breakpoints = insert_breakpoint (breakpoint_pc pc) d.breakpoints })
    unmarked :
        (pc : ℕ) (vm : Vm) (d : Debug S)
        → Reached vm d
        → Reached vm (record d { breakpoints = erase_breakpoint (breakpoint_pc pc) d.breakpoints })

  -- The prompt that a loaded program starts at.
  abbrev loaded_debug : Vm → S → Vm × Debug S
  loaded_debug v s =
      let (baseline, vm1) = take_snapshot (set_snapshot_interval v 1) in
      (
        vm1,
        record {
          source = s;
          cursor = 0;
          target_cycle = never;
          breakpoints = [];
          ring = record { core = baseline; cursor = 0 } ∷ [];
          history_index = 0;
        },
      )

  loaded-Settled :
      (v : Vm) (s : S)
      → IsValid v
      → v.state.halted ≡ halt_running
      → (ms : List Moment) × Settled trace ms (loaded_debug v s).0 (loaded_debug v s).1
  unfolding take_snapshot
  loaded-Settled v s hv run =
      let first : Moment = record {
        mem = v.mem;
        state = (set_snapshot_interval v 1).state;
        cursor = 0;
      } in
      let regs = take_twice v.state.regs hv.eight in
      let fits : IsValid (vm_at first) = ground arith in
      (
        first ∷ [],
        record {
          valid = fits;
          every = refl;
          timer = refl;
          flushed = refl;
          fits = (omega arith, omega arith);
          recalls = (
            (refl, λ i. record (first.state) { regs = regs i }, (fits, run, refl, refl), refl),
            tt,
          );
          head = inr (
            (λ i. record (vm_at first) { state = record (first.state) { halted = sym run i } }),
            SameCursor-refl trace 0,
          );
        },
      )

  start-Settled :
      (bin : List ℕ) (s : S) (vm : Vm) (d : Debug S)
      → All (λ b. b < 2 ^ 8) bin
      → debug_start bin s ≡ some (vm, d)
      → (ms : List Moment) × Settled trace ms vm d
  unfolding debug_start
  start-Settled bin s vm d hb = go (load_program new_vm bin) refl
    where
      go :
          (o : Option Vm)
          → load_program new_vm bin ≡ o
          → (elim o [ none ↦ none | some v ↦ some (loaded_debug v s) ]) ≡ some (vm, d)
          → (ms : List Moment) × Settled trace ms vm d
      go none l e = absurd (cc)
      go (some v) l e =
          subst (λ (p : Vm × Debug S). (ms : List Moment) × Settled trace ms p.0 p.1)
            (ap (λ o. elim o [ none ↦ (vm, d) | some p ↦ p ]) e)
            (loaded-Settled v s (load_program-IsValid new_vm v bin hb new_vm-IsValid l)
              (unfold new_vm in ap (λ x. x.state.halted) (load_program-eq-some new_vm v bin l)))

  -- The breakpoints matter to runs only.
  breakpoints-Settled :
      (ms : List Moment) (bs : List ℕ) (vm : Vm) (d : Debug S)
      → Settled trace ms vm d
      → Settled trace ms vm (record d { breakpoints = bs })
  breakpoints-Settled ms bs vm d s = record {
    valid = s.valid;
    every = s.every;
    timer = s.timer;
    flushed = s.flushed;
    fits = s.fits;
    recalls = s.recalls;
    head = s.head;
  }

  pub Reached-Settled :
      (vm : Vm) (d : Debug S)
      → HooksFit (debug_hooks src trace)
      → Reached vm d
      → (ms : List Moment) × Settled trace ms vm d
  Reached-Settled vm d hf (started bin s _ _ hb e) = start-Settled bin s vm d hb e
  Reached-Settled vm d hf (stepped fuel n vm0 _ d0 _ h e) =
      let (ms, before) = Reached-Settled vm0 d0 hf h in
      subst (Resettled trace) e (
        step-elim src trace (Resettled trace) fuel n vm0 d0 (λ e. (ms, before))
          (run_command-Resettled src trace fuel _ ms vm0 d0 hf before))
  Reached-Settled vm d hf (continued fuel vm0 _ d0 _ h e) =
      let (ms, before) = Reached-Settled vm0 d0 hf h in
      subst (Resettled trace) (continue_run-eq-run_command src trace fuel vm0 d0 ∙ e)
        (run_command-Resettled src trace fuel _ ms vm0 d0 hf before)
  Reached-Settled vm d hf (gone_back n vm0 d0 h) =
      let (ms, before) = Reached-Settled vm0 d0 hf h in back-Settled trace n ms vm0 d0 before
  Reached-Settled vm d hf (marked pc _ d0 h) =
      let (ms, s) = Reached-Settled vm d0 hf h in (ms, breakpoints-Settled ms _ vm d0 s)
  Reached-Settled vm d hf (unmarked pc _ d0 h) =
      let (ms, s) = Reached-Settled vm d0 hf h in (ms, breakpoints-Settled ms _ vm d0 s)

  -- Whatever commands a session of the debugger runs, the ring has at most 256 snapshots and the
  -- history index is inside it, when the input hooks return 32-bit values.
  pub Reached-RingFits :
      (vm : Vm) (d : Debug S)
      → HooksFit (debug_hooks src trace)
      → Reached vm d
      → (d.history_index < length d.ring) × (length d.ring ≤ 256)
  Reached-RingFits vm d hf h = (Reached-Settled vm d hf h).1.fits

  -- In a session of the debugger, `back` by the cycles that `step` has run restores the whole VM as
  -- it was before the command, its halt reason aside, and in a replay the cursor as well. The run
  -- is at most 255 cycles long, the cycle count does not overflow, and the input hooks return
  -- 32-bit values.
  pub back-step :
      (fuel n : ℕ) (vm vm1 : Vm) (d d1 : Debug S)
      → HooksFit (debug_hooks src trace)
      → Reached vm d
      → vm.state.cycle_count + fuel < 2 ^ 64
      → step src trace fuel n vm d ≡ prompt vm1 d1
      → vm1.state.cycle_count - vm.state.cycle_count ≤ 255
      → Undoes trace vm d vm1 d1
  back-step fuel n vm vm1 d d1 hf h room e few =
      let (ms, s) = Reached-Settled vm d hf h in
      subst (Undoable trace vm d) e
        (step-elim src trace (Undoable trace vm d) fuel n vm d (λ e. refused-Undoable trace vm d)
          (run_command-Undoable src trace fuel _ ms vm d hf s room))
        few

  -- In a session of the debugger, from the loaded program over any commands, `back` by the cycles
  -- that `continue` has run restores the whole VM as it was before the command, its halt reason
  -- aside, and in a replay the cursor as well. The run is at most 255 cycles long, the cycle count
  -- does not overflow, and the input hooks return 32-bit values.
  pub back-continue_run :
      (fuel : ℕ) (vm vm1 : Vm) (d d1 : Debug S)
      → HooksFit (debug_hooks src trace)
      → Reached vm d
      → vm.state.cycle_count + fuel < 2 ^ 64
      → continue_run src trace fuel vm d ≡ prompt vm1 d1
      → vm1.state.cycle_count - vm.state.cycle_count ≤ 255
      → Undoes trace vm d vm1 d1
  back-continue_run fuel vm vm1 d d1 hf h room e few =
      let (ms, s) = Reached-Settled vm d hf h in
      subst (Undoable trace vm d) (continue_run-eq-run_command src trace fuel vm d ∙ e)
        (run_command-Undoable src trace fuel _ ms vm d hf s room) few
