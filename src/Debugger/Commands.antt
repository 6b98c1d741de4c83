-- ===== src/Debugger/Commands.antt =====
-- src/main.cpp, `step` and `continue` of `cmd_debug_run` as one command that runs the VM: the prompt
-- after it, and what `back` makes of that.
use mathlib.Core.Path.{subst}
use retro_vm.Prelude.{
  Bool, if◌then◌else◌, ℕ, ◌+◌, ◌-◌, ◌^◌, ◌≤◌, ◌<◌, ◌≡◌, refl, sym, ap, ◌∙◌, arith, false, true, [],
  ◌∷◌, ◌++◌, List, Option, none, some, inl, inr, ◌⊎◌, length, ◌==◌,
}
use retro_vm.Word.{u64}
use retro_vm.Isa.{halt_running}
use retro_vm.Machine.{Vm, request_halt}
use retro_vm.Machine.Log.{undo_deltas}
use retro_vm.Hooks.{Flow, next, halt, throw}
use retro_vm.Dispatch.Validity.{HooksFit, request_halt-IsValid}
use retro_vm.Trace.{TraceReader}
use retro_vm.Session.{Source}
use retro_vm.Debugger.{
  Debug, never, debug_hooks, debug_resume, Outcome, prompt, diverged, running, after_run, debug_run,
  step, continue_run, back,
}
use retro_vm.Debugger.Story.{Moment, Recalls}
use retro_vm.Debugger.Prompt.{SameCursor, AtHead, Settled}
use retro_vm.Debugger.Runs.{Going, Ends, run_goto-Ends}
use retro_vm.Debugger.Rewind.{back-moment}

resumed-eq-some :
    (b1 b2 : Bool) (vm vm1 x : Vm)
    → (b1 ≡ true → x ≡ vm)
    → (if b1 then some vm else if b2 then some x else none) ≡ some vm1
    → vm1 ≡ x
resumed-eq-some true b2 vm vm1 x same e = let h = same refl in cc
resumed-eq-some false true vm vm1 x same e = cc
resumed-eq-some false false vm vm1 x same e = absurd (cc)

-- A resumed VM is the halted one, running.
pub debug_resume-eq-some :
    (vm vm1 : Vm) → debug_resume vm ≡ some vm1 → vm1 ≡ request_halt vm halt_running
unfolding debug_resume
debug_resume-eq-some vm vm1 e =
    resumed-eq-some (vm.state.halted == halt_running) _ vm vm1 (request_halt vm halt_running)
      (λ on.
        let zero_halt : vm.state.halted ≡ halt_running = ground arith in
        λ i. record vm { state = record (vm.state) { halted = sym zero_halt i } })
      e

if_elim :
    {A : Type 0} (P : A → Type 0) (b : Bool) (x y : A)
    → (b ≡ true → P x)
    → P y
    → P (if b then x else y)
if_elim P true x y hx hy = hx refl
if_elim P false x y hx hy = hy

pub SameCursor-refl : (trace : Option TraceReader) (c : ℕ) → SameCursor trace c c
SameCursor-refl none c = tt
SameCursor-refl (some r) c = refl

SameCursor-trans :
    (trace : Option TraceReader) (c1 c0 c : ℕ)
    → SameCursor trace c1 c
    → SameCursor trace c0 c
    → SameCursor trace c1 c0
SameCursor-trans none c1 c0 c h1 h = tt
SameCursor-trans (some r) c1 c0 c h1 h = h1 ∙ sym h

module _ {S : Type 0} (trace : Option TraceReader) where
  pub resumed-Going :
      (ms : List Moment) (vm vm1 : Vm) (d : Debug S) (t : ℕ)
      → debug_resume vm ≡ some vm1
      → Settled trace ms vm d
      → Going trace vm1.state.cycle_count ms [] vm1 (record d { target_cycle = t })
  unfolding undo_deltas
  resumed-Going ms vm vm1 d t e h =
      subst (λ x. Going trace x.state.cycle_count ms [] x (record d { target_cycle = t }))
        (sym (debug_resume-eq-some vm vm1 e))
        (record {
          stepping = (request_halt-IsValid vm h.valid halt_running, refl, h.every, h.timer);
          fits = h.fits;
          recalls = subst (λ ds. Recalls ms (undo_deltas vm.mem ds) d) (sym h.flushed) h.recalls;
          cycle = let fits = h.valid.cycle_fits in omega arith;
          grows = inl (omega arith);
        })

  -- The prompt after a run: it is settled, and `back` over the cycles of the run restores the VM.
  abbrev pub Undoes : Vm → Debug S → Vm → Debug S → Type 0
  Undoes vm d vm1 d1 =
      let gone = back trace (vm1.state.cycle_count - vm.state.cycle_count) vm1 d1 in
      (request_halt gone.0 halt_running ≡ request_halt vm halt_running)
      × SameCursor trace gone.1.cursor d.cursor

  abbrev pub Resettled : Outcome S → Type 0
  Resettled (prompt vm d) = (ms : List Moment) × Settled trace ms vm d
  Resettled (diverged e) = Unit
  Resettled running = Unit

  abbrev pub Undoable : Vm → Debug S → Outcome S → Type 0
  Undoable vm d (prompt vm1 d1) =
      vm1.state.cycle_count - vm.state.cycle_count ≤ 255 → Undoes vm d vm1 d1
  Undoable vm d (diverged e) = Unit
  Undoable vm d running = Unit

  ended-Resettled :
      (start fuel : ℕ) (ms : List Moment) (f : Flow (Debug S))
      → Ends trace start ms fuel f
      → Resettled (after_run f)
  ended-Resettled start fuel ms (next vm d) h = tt
  ended-Resettled start fuel ms (halt r vm d) (news, h) = (news ++ ms, h.0)
  ended-Resettled start fuel ms (throw e vm d) h = tt

  ended-Undoable :
      (fuel : ℕ) (a : Moment) (ms : List Moment) (vm : Vm) (d : Debug S) (f : Flow (Debug S))
      → vm.state.cycle_count + fuel < 2 ^ 64
      → AtHead trace (a ∷ ms) vm d.cursor
      → Ends trace vm.state.cycle_count (a ∷ ms) fuel f
      → Undoable vm d (after_run f)
  ended-Undoable fuel a ms vm d (next vm1 d1) room at h = tt
  ended-Undoable fuel a ms vm d (halt r vm1 d1) room at (news, h) = λ few.
      let count : length news ≡ vm1.state.cycle_count - vm.state.cycle_count =
        omega (arith, h.1, h.2) in
      let inside : length news ≤ d1.history_index = let grown = h.3 in ground arith in
      let undone = back-moment trace a news ms vm1 d1 h.0 h.4 inside in
      subst
        (λ k.
          (request_halt (back trace k vm1 d1).0 halt_running ≡ request_halt vm halt_running)
          × SameCursor trace (back trace k vm1 d1).1.cursor d.cursor)
        count
        (
          ap (λ x. request_halt x halt_running) (undone.0 ∙ sym at.0),
          SameCursor-trans trace _ d.cursor a.cursor undone.1 at.1,
        )
  ended-Undoable fuel a ms vm d (throw e vm1 d1) room at h = tt

  -- A refused command leaves the debugger as it is.
  pub refused-Undoable : (vm : Vm) (d : Debug S) → Undoable vm d (prompt vm d)
  unfolding back
  refused-Undoable vm d = λ few.
      subst
        (λ k.
          (request_halt (back trace k vm d).0 halt_running ≡ request_halt vm halt_running)
          × SameCursor trace (back trace k vm d).1.cursor d.cursor)
        (no_cycles vm.state.cycle_count) (refl, SameCursor-refl trace d.cursor)
    where
      no_cycles : (c : ℕ) → 0 ≡ c - c
      no_cycles c = omega arith

module _ {S : Type 0} (src : Source S) (trace : Option TraceReader) where
  run-Ends :
      (fuel t : ℕ) (ms : List Moment) (vm vm1 : Vm) (d : Debug S)
      → HooksFit (debug_hooks src trace)
      → debug_resume vm ≡ some vm1
      → Settled trace ms vm d
      → Ends trace vm1.state.cycle_count ms fuel
          (debug_run src trace fuel vm1 (record d { target_cycle = t }))
  unfolding debug_run
  run-Ends fuel t ms vm vm1 d hf e h =
      run_goto-Ends src trace vm1.state.cycle_count ms fuel hf fuel [] vm1 _ (omega arith)
        (resumed-Going trace ms vm vm1 d t e h)

  -- A command that runs the VM, once that is resumed.
  abbrev pub resume_then : Vm → Debug S → Option Vm → (Vm → Outcome S) → Outcome S
  resume_then vm d o k = elim o [ none ↦ prompt vm d | some vm1 ↦ k vm1 ]

  pub resume_then-elim :
      (P : Outcome S → Type 0) (vm : Vm) (d : Debug S) (o : Option Vm) (k : Vm → Outcome S)
      → (o ≡ none → P (prompt vm d))
      → ((vm1 : Vm) → o ≡ some vm1 → P (k vm1))
      → P (resume_then vm d o k)
  resume_then-elim P vm d none k refused resumed = refused refl
  resume_then-elim P vm d (some vm1) k refused resumed = resumed vm1 refl

  abbrev pub run_command : ℕ → (Vm → ℕ) → Vm → Debug S → Outcome S
  run_command fuel t vm d =
      resume_then vm d (debug_resume vm)
        λ vm1. after_run (debug_run src trace fuel vm1 (record d { target_cycle = t vm1 }))

  pub run_command-Resettled :
      (fuel : ℕ) (t : Vm → ℕ) (ms : List Moment) (vm : Vm) (d : Debug S)
      → HooksFit (debug_hooks src trace)
      → Settled trace ms vm d
      → Resettled trace (run_command fuel t vm d)
  run_command-Resettled fuel t ms vm d hf h =
      resume_then-elim (Resettled trace) vm d (debug_resume vm) _ (λ e. (ms, h))
        λ vm1 e.
          ended-Resettled trace vm1.state.cycle_count fuel ms _
            (run-Ends fuel (t vm1) ms vm vm1 d hf e h)

  run_command-Undoable_from :
      (fuel : ℕ) (t : ℕ) (a : Moment) (ms : List Moment) (vm vm1 : Vm) (d : Debug S)
      → HooksFit (debug_hooks src trace)
      → debug_resume vm ≡ some vm1
      → Settled trace (a ∷ ms) vm d
      → AtHead trace (a ∷ ms) vm d.cursor
      → vm.state.cycle_count + fuel < 2 ^ 64
      → Undoable trace vm d
          (after_run (debug_run src trace fuel vm1 (record d { target_cycle = t })))
  run_command-Undoable_from fuel t a ms vm vm1 d hf e h at room =
      let f = debug_run src trace fuel vm1 (record d { target_cycle = t }) in
      ended-Undoable trace fuel a ms vm d f room at (
        subst (λ start. Ends trace start (a ∷ ms) fuel f)
          (λ i. (debug_resume-eq-some vm vm1 e i).state.cycle_count)
          (run-Ends fuel t (a ∷ ms) vm vm1 d hf e h))

  pub run_command-Undoable :
      (fuel : ℕ) (t : Vm → ℕ) (ms : List Moment) (vm : Vm) (d : Debug S)
      → HooksFit (debug_hooks src trace)
      → Settled trace ms vm d
      → vm.state.cycle_count + fuel < 2 ^ 64
      → Undoable trace vm d (run_command fuel t vm d)
  run_command-Undoable fuel t [] vm d hf h room = elim (h.recalls) [ ]
  run_command-Undoable fuel t (a ∷ ms) vm d hf h room =
      resume_then-elim (Undoable trace vm d) vm d (debug_resume vm) _
        (λ e. refused-Undoable trace vm d)
        λ vm1 e.
          run_command-Undoable_from fuel (t vm1) a ms vm vm1 d hf e h (at_head vm1 e h.head) room
    where
      at_head :
          (vm1 : Vm)
          → debug_resume vm ≡ some vm1
          → (debug_resume vm ≡ none) ⊎ AtHead trace (a ∷ ms) vm d.cursor
          → AtHead trace (a ∷ ms) vm d.cursor
      at_head vm1 e (inl stuck) = absurd (cc)
      at_head vm1 e (inr at) = at

  -- The two commands that run the VM.
  pub step-elim :
      (P : Outcome S → Type 0) (fuel n : ℕ) (vm : Vm) (d : Debug S)
      → ((n == 0) ≡ true → P (prompt vm d))
      → P (run_command fuel (λ vm1. u64 (vm1.state.cycle_count + n)) vm d)
      → P (step src trace fuel n vm d)
  unfolding step
  step-elim P fuel n vm d idle runs = if_elim P (n == 0) _ _ idle runs

  pub continue_run-eq-run_command :
      (fuel : ℕ) (vm : Vm) (d : Debug S)
      → run_command fuel (λ vm1. never) vm d ≡ continue_run src trace fuel vm d
  unfolding continue_run
  continue_run-eq-run_command fuel vm d = refl
