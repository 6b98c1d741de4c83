-- ===== src/Savepoint/Reach.antt =====
-- src/main.cpp: the replay of `cmd_save`, with its sink at every instruction, beside the replay of
-- `cmd_replay`, which has none.
use retro_vm.Prelude.{
  ℕ, zero, suc, ◌+◌, ◌≡◌, refl, sym, ap, ◌∙◌, arith, Bool, List, [], Option, none, some, inl, inr,
  Bool-cases, ◌==◌,
}
use retro_vm.Isa.{halt_running, op_code, op_in, op_rand, HaltReason}
use retro_vm.Memory.{MemDelta, mem_load_u32}
use retro_vm.Machine.{Vm, VmState, Snapshot, new_vm, set_snapshot_interval}
use retro_vm.Hooks.{Answer, value, thrown, Flow, next, halt, throw, ◌>>=◌, Next, Next-bind}
use retro_vm.Dispatch.{advance, snapshot_tick, dispatch, tail_dispatch, run_goto}
use retro_vm.Dispatch.Snapshots.{after_snapshot, snapshot_tick_off, snapshot_tick-cases}
use retro_vm.Trace.{TraceFrame}
use retro_vm.Session.{consume, replay_hooks}
use retro_vm.Savepoint.{Saving, on_cursor, save_sink, save_hooks}
use retro_vm.Dispatch.Validity.{IsValid, HooksFit}
use retro_vm.Savepoint.Resume.{booted}
use retro_vm.Savepoint.Written.{Stops, run_goto-Stops}
use retro_vm.Savepoint.Plain.{unticked, plain, Alike, as_cursor, dispatch-Alike}

module _ (frame : ℕ → Option TraceFrame) where
  -- From a plain VM the fetch of a replay leads to the handler at once.
  pub plain_fetch :
      (vm : Vm) (ds : List MemDelta) (c : ℕ)
      → tail_dispatch (replay_hooks frame) none (plain vm ds) c
        ≡ dispatch (replay_hooks frame) (mem_load_u32 vm.mem vm.state.pc) (plain (advance vm) ds) c
  unfolding tail_dispatch
  plain_fetch vm ds c =
      ap
        (λ f.
          f >>= λ (vm1, w1). dispatch (replay_hooks frame) (mem_load_u32 vm.mem vm.state.pc) vm1 w1)
        (snapshot_tick_off none (plain (advance vm) ds) c refl)

  -- The replay from `start` reaches `vm` in some number of instructions, with the cursor at `c`.
  unfoldable pub Reaches : Vm → Vm → ℕ → Type 0
  Reaches start vm c =
      (n : ℕ) × (ds : List MemDelta) × ((more : ℕ)
        → run_goto (replay_hooks frame) none (n + more) start 0
          ≡ run_goto (replay_hooks frame) none more (plain vm ds) c)

  save_answer :
      (w : Saving) (op cycle : ℕ)
      → consume frame op cycle w.cursor
        ≡ as_cursor (λ v. v.cursor) (on_cursor w (consume frame op cycle w.cursor))
  save_answer w op cycle = go (consume frame op cycle w.cursor)
    where
      go : (a : Answer ℕ) → a ≡ as_cursor (λ v. v.cursor) (on_cursor w a)
      go (value v c) = refl
      go (thrown e c) = refl

  -- A handler in the replay of a save, and in the plain replay.
  save-Alike :
      (instr : ℕ) (vm : Vm) (ds : List MemDelta) (w : Saving)
      → Alike
          (λ v. v.cursor)
          (dispatch (save_hooks frame) instr vm w)
          (dispatch (replay_hooks frame) instr (plain vm ds) w.cursor)
  unfolding save_hooks replay_hooks
  save-Alike =
      dispatch-Alike (λ v. v.cursor) _ _ _ _ (λ cycle w. save_answer w (op_code op_in) cycle)
        (λ cycle w. save_answer w (op_code op_rand) cycle)

  module _ (can_write : Bool) (at_index target : ℕ) where
    sink_cursor :
        (vs : VmState) (snap : Snapshot) (w : Saving)
        → (save_sink can_write at_index target vs snap w).0.cursor ≡ w.cursor
    unfolding save_sink
    sink_cursor vs snap w = ground arith

    -- The timer and the sink change no part that a plain VM has, and not the cursor.
    Same : Vm → Saving → Vm → Saving → Type 0
    Same vm w vm1 w1 = ((ds : List MemDelta) → plain vm1 ds ≡ plain vm ds) × (w1.cursor ≡ w.cursor)

    after-Same :
        (vm : Vm) (h : HaltReason) (w w1 : Saving)
        → vm.state.halted ≡ halt_running
        → w1.cursor ≡ w.cursor
        → Next (Same vm w) (after_snapshot vm h w1)
    unfolding Same
    after-Same vm h w w1 running e = elim (Bool-cases (h == halt_running)) [
      | inl on ↦
          let same : h ≡ vm.state.halted = ground arith in
          rw on (
            (λ ds i. record {
              mem = vm.mem;
              state = record (unticked vm.state) { halted = same i };
              deltas = ds;
            }),
            e,
          )
      | inr off ↦ rw off tt
    ]

    tick-Same :
        (vm : Vm) (w : Saving)
        → vm.state.halted ≡ halt_running
        → Next (Same vm w) (snapshot_tick (some (save_sink can_write at_index target)) vm w)
    unfolding Same
    tick-Same vm w running =
        elim (snapshot_tick-cases (some (save_sink can_write at_index target)) vm w) [
          | inl e ↦ rw e ((λ ds. refl), refl)
          | inr (inl e) ↦ rw e ((λ ds. refl), refl)
          | inr (inr (h, e)) ↦ rw e (after-Same vm h w _ running (sink_cursor _ _ w))
        ]

    -- The plain instruction that a flow with no halt goes with.
    Followed : Flow ℕ → Flow Saving → Type 0
    Followed g f = Next (λ x y. (ds : List MemDelta) × (g ≡ next (plain x ds) y.cursor)) f

    Alike-Followed :
        (f : Flow Saving) (g g1 : Flow ℕ) → g1 ≡ g → Alike (λ v. v.cursor) f g → Followed g1 f
    unfolding Followed
    Alike-Followed (next vm w) g g1 e (ds, h) = (ds, e ∙ h)
    Alike-Followed (halt r vm w) g g1 e h = tt
    Alike-Followed (throw x vm w) g g1 e h = tt

    fetch-Followed :
        (vm : Vm) (ds : List MemDelta) (w : Saving)
        → vm.state.halted ≡ halt_running
        → Followed
            (tail_dispatch (replay_hooks frame) none (plain vm ds) w.cursor)
            (tail_dispatch (save_hooks frame) (some (save_sink can_write at_index target)) vm w)
    unfolding tail_dispatch Followed Same
    fetch-Followed vm ds w running =
        let instr = mem_load_u32 vm.mem vm.state.pc in
        let g = tail_dispatch (replay_hooks frame) none (plain vm ds) w.cursor in
        Next-bind (Same (advance vm) w)
          (λ x y. (ds : List MemDelta) × (g ≡ next (plain x ds) y.cursor))
          (snapshot_tick (some (save_sink can_write at_index target)) (advance vm) w) _
          (tick-Same (advance vm) w running)
          (λ vm1 w1 same.
            Alike-Followed (dispatch (save_hooks frame) instr vm1 w1) _ g
              (plain_fetch vm ds w.cursor ∙ λ i.
                dispatch (replay_hooks frame) instr (sym (same.0 ds) i) (sym same.1 i))
              (save-Alike instr vm1 ds w1))

    -- Where the replay of the save goes on, the plain replay comes too.
    pub tail_dispatch-Reaches :
        (start vm : Vm) (w : Saving)
        → vm.state.halted ≡ halt_running
        → Reaches start vm w.cursor
        → Next
            (λ x y. Reaches start x y.cursor)
            (tail_dispatch (save_hooks frame) (some (save_sink can_write at_index target)) vm w)
    unfolding Reaches Followed run_goto
    tail_dispatch-Reaches start vm w running (n, ds, reaches) =
        go (tail_dispatch (save_hooks frame) (some (save_sink can_write at_index target)) vm w)
          (fetch-Followed vm ds w running)
      where
        go :
            (f : Flow Saving)
            → Followed (tail_dispatch (replay_hooks frame) none (plain vm ds) w.cursor) f
            → Next (λ x y. Reaches start x y.cursor) f
        go (next x y) (ds1, e) = (
          suc n,
          ds1,
          λ more.
              ap (λ k. run_goto (replay_hooks frame) none k start 0) (omega arith)
              ∙ reaches (suc more)
              ∙ ap (λ f. f >>= λ (vm1, c1). run_goto (replay_hooks frame) none more vm1 c1) e,
        )
        go (halt r x y) h = tt
        go (throw x vm1 y) h = tt

    pub run_goto-Reaches :
        (fuel : ℕ) (start vm : Vm) (w : Saving)
        → HooksFit (save_hooks frame)
        → IsValid vm
        → vm.state.halted ≡ halt_running
        → Reaches start vm w.cursor
        → Stops
            (Reaches start)
            at_index
            target
            (run_goto (save_hooks frame) (some (save_sink can_write at_index target)) fuel vm w)
    run_goto-Reaches fuel start vm w hf =
        run_goto-Stops (Reaches start) at_index target (save_hooks frame) can_write fuel vm w hf
          (tail_dispatch-Reaches start)

  -- The save starts where the replay does.
  pub booted-Reaches :
      (bin : List ℕ) → Reaches (booted bin) (set_snapshot_interval (booted bin) 1) 0
  unfolding Reaches new_vm
  booted-Reaches bin = (
    zero,
    [],
    λ more. ap (λ k. run_goto (replay_hooks frame) none k (booted bin) 0) (omega arith),
  )
