-- ===== src/Debugger/Runs.antt =====
-- src/main.cpp, a run under the debugger: at its end the ring tells the states at every instruction
-- that the run fetched.
use mathlib.Core.Path.{subst}
use retro_vm.Prelude.{
  ℕ, zero, suc, ◌+◌, ◌≤◌, ◌≡◌, refl, sym, ◌∙◌, arith, ◌∷◌, ◌++◌, List, Option, some, inl, inr, ◌⊎◌,
  length, ◌==◌, Bool-cases,
}
use retro_vm.Word.{u64}
use retro_vm.Isa.{HaltReason, halt_running}
use retro_vm.Memory.{mem_load_u32}
use retro_vm.Machine.{Vm}
use retro_vm.Machine.Log.{undo_deltas}
use retro_vm.Hooks.{IoHooks, Flow, next, halt, throw, ◌>>=◌, Each, Next}
use retro_vm.Dispatch.{advance, set_timer, snapshot_tick, dispatch, tail_dispatch, run_goto}
use retro_vm.Dispatch.Snapshots.{snapped, after_snapshot, sink_halt, snapshot_tick_fire}
use retro_vm.Dispatch.Validity.{
  dispatch-IsValid, IsValid, HooksFit, advance-IsValid, snapped-IsValid,
}
use retro_vm.Dispatch.Still.{Still, dispatch-Still}
use retro_vm.Dispatch.Modes.{dispatch-IsRunning}
use retro_vm.Trace.{TraceReader}
use retro_vm.Session.{Source}
use retro_vm.Debugger.{Debug, debug_sink, debug_hooks}
use retro_vm.Debugger.Ring.{RingFits}
use retro_vm.Debugger.Story.{Moment, IsStepping, Recalls}
use retro_vm.Debugger.Fetch.{Handled, dispatch-Handled}
use retro_vm.Debugger.Watch.{Grows, moment_of, fetched, Watched, debug_sink-Watched}
use retro_vm.Debugger.Prompt.{
  history, RingFitsOf, seen-SameCursor, Settled, debug_hooks-Keeps, Recalls-history,
}

module _ {S : Type 0} (trace : Option TraceReader) (start : ℕ) (ms : List Moment) where
  -- Between two instructions, after the moments `news` of this run.
  pub record Going (news : List Moment) (vm : Vm) (d : Debug S) : Type 0 where
    pub stepping : IsStepping vm
    pub fits : RingFits d
    pub recalls : Recalls (news ++ ms) (undo_deltas vm.mem vm.deltas) d
    pub cycle : vm.state.cycle_count ≡ u64 (start + length news)
    pub grows : Grows (length news) d

  -- At the end of a run of `fuel` instructions, at most, after `news`.
  abbrev pub Ended : ℕ → List Moment → Vm → Debug S → Type 0
  Ended fuel news vm d =
      Settled trace (news ++ ms) vm d
      × (vm.state.cycle_count ≡ u64 (start + length news))
      × (length news ≤ fuel)
      × Grows (length news) d
      × (1 ≤ length news)

  abbrev pub Ends : ℕ → Flow (Debug S) → Type 0
  Ends fuel (next vm d) = Unit
  Ends fuel (halt r vm d) = (news : List Moment) × Ended fuel news vm d
  Ends fuel (throw e vm d) = Unit

  module _ (news : List Moment) (vm : Vm) (d d1 : Debug S) where
    next_cycle : Going news vm d → u64 (vm.state.cycle_count + 1) ≡ u64 (start + suc (length news))
    next_cycle g = omega (arith, g.cycle)

    next-Grows : Going news vm d → Watched trace vm d (news ++ ms) d1 → Grows (suc (length news)) d1
    next-Grows g w = let before = g.grows in let after = w.2 in ground arith

    -- The sink halts the run.
    sunk-Ended :
        (total : ℕ) (h : HaltReason)
        → suc (length news) ≤ total
        → Going news vm d
        → Watched trace vm d (news ++ ms) d1
        → Ended total (moment_of trace vm d ∷ news) (snapped (advance vm) h) d1
    sunk-Ended total h room g w = (
      record {
        valid = snapped-IsValid (advance vm) h (advance-IsValid vm g.stepping.0);
        every = g.stepping.2;
        timer = g.stepping.2;
        flushed = refl;
        fits = w.0;
        recalls = w.1;
        head = inr (refl, seen-SameCursor trace d d1 w.3);
      },
      next_cycle g,
      room,
      next-Grows g w,
      omega arith,
    )

    -- The handler of the fetched instruction, and the rest of the run.
    Handled-Ends :
        (total : ℕ) (f : Flow (Debug S)) (k : Vm × Debug S → Flow (Debug S))
        → suc (length news) ≤ total
        → Going news vm d
        → Watched trace vm d (news ++ ms) d1
        → Handled (snapped (advance vm) halt_running) f
        → Each (Still history (snapped (advance vm) halt_running) d1) f
        → Each (λ vm d. IsValid vm) f
        → Next (λ vm d. vm.state.halted ≡ halt_running) f
        → ((vm2 : Vm) (d2 : Debug S)
            → Going (moment_of trace vm d ∷ news) vm2 d2
            → Ends total (k (vm2, d2)))
        → Ends total (f >>= k)
    unfolding undo_deltas
    Handled-Ends total (next vm2 d2) k room g w c s v r rest = rest vm2 d2 (record {
      stepping = (v, r, c.1 ∙ g.stepping.2, c.2 ∙ g.stepping.2);
      fits = subst RingFitsOf (sym s.0) w.0;
      recalls = Recalls-history (moment_of trace vm d ∷ (news ++ ms)) _ _ d1 d2 s.1 s.0 w.1;
      cycle = c.0 ∙ next_cycle g;
      grows = subst (λ p. (suc (length news) ≤ p.1) ⊎ (255 ≤ p.1)) (sym s.0) (next-Grows g w);
    })
    Handled-Ends total (halt r vm2 d2) k room g w c s v q rest = (
      moment_of trace vm d ∷ news,
      (
        record {
          valid = v;
          every = c.0.1 ∙ g.stepping.2;
          timer = c.0.2 ∙ g.stepping.2;
          flushed = c.2;
          fits = subst RingFitsOf (sym s.0) w.0;
          recalls = Recalls-history (moment_of trace vm d ∷ (news ++ ms)) _ _ d1 d2 c.1 s.0 w.1;
          head = inl c.3;
        },
        c.0.0 ∙ next_cycle g,
        room,
        subst (λ p. (suc (length news) ≤ p.1) ⊎ (255 ≤ p.1)) (sym s.0) (next-Grows g w),
        omega arith,
      ),
    )
    Handled-Ends total (throw e vm2 d2) k room g w c s v r rest = tt

module _ {S : Type 0} (src : Source S) (trace : Option TraceReader) where
  abbrev hooks : IoHooks (Debug S)
  hooks = debug_hooks src trace

  -- The timer of a VM that checkpoints on every instruction fires on the one that it fetches.
  pub fetch_fires :
      (vm : Vm) (d : Debug S)
      → IsStepping vm
      → snapshot_tick (some (debug_sink trace)) (advance vm) d
        ≡ after_snapshot
            (advance vm)
            (sink_halt (some (debug_sink trace)) (set_timer (advance vm) 0) d)
            (debug_sink trace (set_timer (advance vm) 0).state (fetched trace vm d).core d).0
  fetch_fires vm d h =
      snapshot_tick_fire (some (debug_sink trace)) (advance vm) d (omega (arith, h.2)) h.3

  after_snapshot-cases :
      (vm : Vm) (h : HaltReason) (d : Debug S)
      → (after_snapshot vm h d ≡ next (snapped vm halt_running) d)
        ⊎ (after_snapshot vm h d ≡ halt h (snapped vm h) d)
  after_snapshot-cases vm h d = elim (Bool-cases (h == halt_running)) [
    | inl on ↦
        let same : h ≡ halt_running = ground arith in
        inl (rw on (λ i. next (snapped vm (same i)) d))
    | inr off ↦ inr (rw off refl)
  ]

  -- What follows the timer.
  abbrev fetch_and_go : ℕ → ℕ → Flow (Debug S) → Flow (Debug S)
  fetch_and_go fuel instr f = (f >>= λ (vm1, d1). dispatch hooks instr vm1 d1) >>= λ (vm1, d1).
      run_goto hooks (some (debug_sink trace)) fuel vm1 d1

  module _ (start : ℕ) (ms : List Moment) (total : ℕ) (hf : HooksFit (debug_hooks src trace)) where
    pub run_goto-Ends :
        (fuel : ℕ) (news : List Moment) (vm : Vm) (d : Debug S)
        → length news + fuel ≤ total
        → Going trace start ms news vm d
        → Ends trace start ms total (run_goto hooks (some (debug_sink trace)) fuel vm d)
    unfolding run_goto tail_dispatch
    run_goto-Ends zero news vm d room g = tt
    run_goto-Ends (suc fuel) news vm d room g =
        let h = sink_halt (some (debug_sink trace)) (set_timer (advance vm) 0) d in
        let d1 =
          (debug_sink trace (set_timer (advance vm) 0).state (fetched trace vm d).core d).0 in
        let at = snapped (advance vm) halt_running in
        let instr = mem_load_u32 vm.mem vm.state.pc in
        let watched =
          debug_sink-Watched trace vm d (news ++ ms) (set_timer (advance vm) 0).state g.stepping
            g.fits g.recalls in
        let v = snapped-IsValid (advance vm) halt_running (advance-IsValid vm g.stepping.0) in
        subst (λ f. Ends trace start ms total (fetch_and_go fuel instr f))
          (sym (fetch_fires vm d g.stepping))
          (elim (after_snapshot-cases (advance vm) h d1) [
            | inl e ↦
                subst (λ f. Ends trace start ms total (fetch_and_go fuel instr f)) (sym e)
                  (Handled-Ends trace start ms news vm d d1 total (dispatch hooks instr at d1) _
                    (omega arith) g watched (dispatch-Handled hooks instr at d1)
                    (dispatch-Still history hooks instr at d1
                      (debug_hooks-Keeps history src trace (λ d s. refl) (λ d c. refl)) v)
                    (dispatch-IsValid hooks instr at d1 hf v)
                    (dispatch-IsRunning hooks (some (debug_sink trace)) instr at d1 refl)
                    (λ vm2 d2 g2.
                      run_goto-Ends fuel (moment_of trace vm d ∷ news) vm2 d2 (omega arith) g2))
            | inr e ↦
                subst (λ f. Ends trace start ms total (fetch_and_go fuel instr f)) (sym e)
                  (
                    moment_of trace vm d ∷ news,
                    sunk-Ended trace start ms news vm d d1 total h (omega arith) g watched,
                  )
          ])
