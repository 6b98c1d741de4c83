-- ===== src/Debugger/Stops.antt =====
-- src/main.cpp, where a run under the debugger stops: at the target of `step`, at a breakpoint, or
-- at a halt of the program.
use mathlib.Core.Path.{subst}
use retro_vm.Prelude.{
  Bool, if◌then◌else◌, ℕ, zero, suc, ◌+◌, ◌≤◌, ◌<◌, ◌≡◌, ◌≢◌, refl, sym, ap, ◌∙◌, arith, false,
  true, List, Option, none, some, inl, inr, ◌⊎◌,
}
use retro_vm.Word.{u64, sub32}
use retro_vm.Isa.{halt_running, halt_step, halt_breakpoint}
use retro_vm.Memory.{mem_load_u32}
use retro_vm.Machine.{Vm}
use retro_vm.Hooks.{Flow, next, halt, throw, ◌>>=◌, Each, Next}
use retro_vm.Dispatch.{advance, dispatch, tail_dispatch, run_goto}
use retro_vm.Dispatch.Snapshots.{snapped}
use retro_vm.Dispatch.Still.{Still, dispatch-Still}
use retro_vm.Dispatch.Modes.{dispatch-IsRunning}
use retro_vm.Dispatch.Validity.{
  IsValid, HooksFit, dispatch-IsValid, advance-IsValid, snapped-IsValid,
}
use retro_vm.Trace.{TraceReader}
use retro_vm.Session.{Source}
use retro_vm.Debugger.{
  ReplSnapshot, Debug, never, has_breakpoint, push_ring, debug_sink, debug_hooks, debug_resume,
}
use retro_vm.Debugger.Decide.{due, tick-cases}
use retro_vm.Debugger.Story.{IsStepping}
use retro_vm.Debugger.Watch.{fetched}
use retro_vm.Debugger.Fetch.{Handled, dispatch-Handled}
use retro_vm.Debugger.Prompt.{debug_hooks-Keeps}

-- What a run of the debugger reads of its own state.
abbrev goal : {S : Type 0} → Debug S → ℕ × List ℕ
goal d = (d.target_cycle, d.breakpoints)

push_ring-goal : {S : Type 0} (rs : ReplSnapshot) (d : Debug S) → goal (push_ring rs d) ≡ goal d
unfolding push_ring
push_ring-goal rs d = if_goal d _ _ _ refl refl
  where
    if_goal :
        {S : Type 0} (d : Debug S) (b : Bool) (x y : Debug S)
        → goal x ≡ goal d
        → goal y ≡ goal d
        → goal (if b then x else y) ≡ goal d
    if_goal d true x y hx hy = hx
    if_goal d false x y hx hy = hy

-- A halt that cannot be resumed is none of the sink.
pub stuck_not_step : (vm : Vm) → debug_resume vm ≡ none → vm.state.halted ≢ halt_step
unfolding debug_resume
stuck_not_step vm e h = ground arith

pub stuck_not_breakpoint : (vm : Vm) → debug_resume vm ≡ none → vm.state.halted ≢ halt_breakpoint
unfolding debug_resume
stuck_not_breakpoint vm e h = ground arith

-- The target is not reached yet.
abbrev pub Ahead : ℕ → ℕ → Type 0
Ahead t c = (t ≡ never) ⊎ (c < t)

module _ {S : Type 0} (src : Source S) (trace : Option TraceReader) (t : ℕ) (bps : List ℕ) where
  -- Between two instructions.
  abbrev pub Watching : Vm → Debug S → Type 0
  Watching vm d = IsStepping vm × (goal d ≡ (t, bps)) × Ahead t vm.state.cycle_count

  -- Why a run halts.
  abbrev pub Halts : Vm → Type 0
  Halts vm =
      ((vm.state.halted ≢ halt_step) ⊎ (vm.state.cycle_count ≡ t))
      × ((vm.state.halted ≢ halt_breakpoint) ⊎ (has_breakpoint (sub32 vm.state.pc 4) bps ≡ true))
      × ((t ≡ never) ⊎ (vm.state.cycle_count ≤ t))

  -- The end of a run to the cycle `total`.
  abbrev pub Stopped : ℕ → Flow (Debug S) → Type 0
  Stopped total (next vm d) = (vm.state.cycle_count ≡ total) × Ahead t vm.state.cycle_count
  Stopped total (halt r vm d) = Halts vm
  Stopped total (throw e vm d) = Unit

  due_now :
      (vm : Vm) (d : Debug S)
      → t ≤ never
      → Watching vm d
      → due src trace vm d ≡ true
      → u64 (vm.state.cycle_count + 1) ≡ t
  due_now vm d le w now =
      let same : d.target_cycle ≡ t = ap (λ p. p.0) w.1 in let ahead = w.2 in ground arith

  due_later :
      (vm : Vm) (d : Debug S)
      → t ≤ never
      → Watching vm d
      → due src trace vm d ≡ false
      → Ahead t (u64 (vm.state.cycle_count + 1))
  due_later vm d le w later =
      let same : d.target_cycle ≡ t = ap (λ p. p.0) w.1 in let ahead = w.2 in ground arith

  -- The VM and the debugger that the handler of the instruction gets.
  abbrev gone_on : Vm → Vm
  gone_on vm = snapped (advance vm) halt_running

  -- The handler, and the rest of the run.
  Handled-Stopped :
      (total : ℕ) (vm : Vm) (d1 : Debug S) (f : Flow (Debug S)) (k : Vm × Debug S → Flow (Debug S))
      → (vm.state.snap_interval ≡ 1)
      → goal d1 ≡ (t, bps)
      → Ahead t (u64 (vm.state.cycle_count + 1))
      → Handled (gone_on vm) f
      → Each (Still goal (gone_on vm) d1) f
      → Each (λ vm d. IsValid vm) f
      → Next (λ vm d. vm.state.halted ≡ halt_running) f
      → ((vm2 : Vm) (d2 : Debug S)
          → vm2.state.cycle_count ≡ u64 (vm.state.cycle_count + 1)
          → Watching vm2 d2
          → Stopped total (k (vm2, d2)))
      → Stopped total (f >>= k)
  Handled-Stopped total vm d1 (next vm2 d2) k i g a c s v r rest =
      rest vm2 d2 c.0 ((v, r, c.1 ∙ i, c.2 ∙ i), s.0 ∙ g, subst (Ahead t) (sym c.0) a)
  Handled-Stopped total vm d1 (halt r vm2 d2) k i g a c s v q rest = (
    inl (stuck_not_step vm2 c.3),
    inl (stuck_not_breakpoint vm2 c.3),
    let e = c.0.0 in ground arith,
  )
  Handled-Stopped total vm d1 (throw e vm2 d2) k i g a c s v q rest = tt

  go_on :
      (fuel total : ℕ) (vm : Vm) (d : Debug S)
      → HooksFit (debug_hooks src trace)
      → t ≤ never
      → total ≡ u64 (vm.state.cycle_count + suc fuel)
      → Watching vm d
      → due src trace vm d ≡ false
      → ((vm2 : Vm) (d2 : Debug S)
          → total ≡ u64 (vm2.state.cycle_count + fuel)
          → Watching vm2 d2
          → Stopped total (run_goto (debug_hooks src trace) (some (debug_sink trace)) fuel vm2 d2))
      → Stopped total (
          dispatch
            (debug_hooks src trace)
            (mem_load_u32 vm.mem vm.state.pc)
            (gone_on vm)
            (push_ring (fetched trace vm d) d)
          >>= λ (vm2, d2). run_goto (debug_hooks src trace) (some (debug_sink trace)) fuel vm2 d2)
  go_on fuel total vm d hf le e w later rest =
      let io = debug_hooks src trace in
      let instr = mem_load_u32 vm.mem vm.state.pc in
      let d1 = push_ring (fetched trace vm d) d in
      let v = snapped-IsValid (advance vm) halt_running (advance-IsValid vm w.0.0) in
      Handled-Stopped total vm d1 (dispatch io instr (gone_on vm) d1) _ w.0.2
        (push_ring-goal (fetched trace vm d) d ∙ w.1) (due_later vm d le w later)
        (dispatch-Handled io instr (gone_on vm) d1)
        (dispatch-Still goal io instr (gone_on vm) d1
          (debug_hooks-Keeps goal src trace (λ d s. refl) (λ d c. refl)) v)
        (dispatch-IsValid io instr (gone_on vm) d1 hf v)
        (dispatch-IsRunning io (some (debug_sink trace)) instr (gone_on vm) d1 refl)
        (λ vm2 d2 ec w2. rest vm2 d2 (omega (arith, e, ec)) w2)

  -- What follows the timer.
  abbrev after_tick : ℕ → Vm → Flow (Debug S) → Flow (Debug S)
  after_tick fuel vm f =
      (f >>= λ (vm1, d1). dispatch (debug_hooks src trace) (mem_load_u32 vm.mem vm.state.pc) vm1 d1)
      >>= λ (vm1, d1). run_goto (debug_hooks src trace) (some (debug_sink trace)) fuel vm1 d1

  pub run_goto-Stopped :
      (fuel total : ℕ) (vm : Vm) (d : Debug S)
      → HooksFit (debug_hooks src trace)
      → t ≤ never
      → total ≡ u64 (vm.state.cycle_count + fuel)
      → Watching vm d
      → Stopped total (run_goto (debug_hooks src trace) (some (debug_sink trace)) fuel vm d)
  unfolding run_goto tail_dispatch
  run_goto-Stopped zero total vm d hf le e w =
      let fits = w.0.0.cycle_fits in (omega (arith, e), w.2)
  run_goto-Stopped (suc fuel) total vm d hf le e w = elim (tick-cases src trace vm d w.0) [
    | inl (now, f) ↦
        subst (λ f. Stopped total (after_tick fuel vm f)) (sym f)
          (let at = due_now vm d le w now in
            (inr at, inl (λ h. absurd (omega (arith, h))), inr (omega (arith, at))))
    | inr (inl (later, here, f)) ↦
        subst (λ f. Stopped total (after_tick fuel vm f)) (sym f)
          (let ahead = due_later vm d le w later in
            (
              inl (λ h. absurd (omega (arith, h))),
              inr (ap (λ p. has_breakpoint (sub32 (advance vm).state.pc 4) p.1) (sym w.1) ∙ here),
              ground arith,
            ))
    | inr (inr (later, pass, f)) ↦
        subst (λ f. Stopped total (after_tick fuel vm f)) (sym f)
          (go_on fuel total vm d hf le e w later
            (λ vm2 d2 e2 w2. run_goto-Stopped fuel total vm2 d2 hf le e2 w2))
  ]
