-- ===== src/Savepoint/Agreement.antt =====
-- src/main.cpp: `cmd_restore` on the file of a `cmd_save`, beside `cmd_replay` on the same trace.
use mathlib.Core.Path.{transport}
use retro_vm.Prelude.{
  ℕ, zero, suc, ◌+◌, ◌-◌, ◌≤◌, ◌≡◌, ◌≢◌, refl, sym, ap, ◌∙◌, Bool, true, false, List, [], Option,
  none, some, ltb, All, length, if◌then◌else◌,
}
use retro_vm.Word.{IsU8, IsU32}
use retro_vm.Isa.{HaltReason, op_code, op_in, op_rand}
use retro_vm.Memory.{MemDelta, mem_load_u32, zeroed, mem_size}
use retro_vm.Machine.{Vm, copy_in}
use retro_vm.Hooks.{Answer, value, thrown, Flow, next, halt, throw, ◌>>=◌}
use retro_vm.Dispatch.{advance, dispatch, run_goto}
use retro_vm.Trace.{TraceFrame, TraceReader, opened, open_trace, frame_at}
use retro_vm.Session.{
  consume, replay_hooks, Replayed, verified, stragglers, diverged, replay_running, end_replay,
  replay_reader, cmd_replay,
}
use retro_vm.Savepoint.{
  saved_at, cmd_save, RestoreResult, restored, restore_stragglers, restore_mismatch,
  restore_running, end_restore, cmd_restore,
}
use retro_vm.Savepoint.Plain.{plain, Alike, as_cursor, dispatch-Alike}
use retro_vm.Savepoint.Resume.{booted, load_program-fits}
use retro_vm.Savepoint.Reach.{plain_fetch, Reaches}
use retro_vm.Savepoint.RoundTrip.{save_from-inv, cmd_save-inv, cmd_restore-cmd_save}

-- The same memory, state of the machine and end.
abbrev SameVm : Vm → Vm → Type 0
SameVm vm vm1 = (vm.mem ≡ vm1.mem) × (vm.state ≡ vm1.state)

-- The two commands end in the same verdict, with the same VM but for its store log.
abbrev pub Agree : Replayed → RestoreResult → Type 0
Agree (verified r vm) (restored r1 vm1) = (r ≡ r1) × SameVm vm vm1
Agree (stragglers n r vm) (restore_stragglers n1) = n ≡ n1
Agree (diverged r e vm c) (restore_mismatch e1 vm1 c1) = (e ≡ e1) × SameVm vm vm1 × (c ≡ c1)
Agree replay_running restore_running = Unit
Agree _ _ = ⊥

-- Two plain runs that differ in their store logs only.
abbrev Twin : Flow ℕ → Flow ℕ → Type 0
Twin f g = (base : Flow ℕ) × Alike (λ c. c) base f × Alike (λ c. c) base g

of_equal :
    {A B : Type 0} (P : A → B → Type 0) {x x1 : A} {y y1 : B} → x ≡ x1 → y ≡ y1 → P x1 y1 → P x y
of_equal P p q h = transport (λ i. P (sym p i) (sym q i)) h

module _ (frame : ℕ → Option TraceFrame) where
  same_answer :
      (op cycle c : ℕ) → consume frame op cycle c ≡ as_cursor (λ k. k) (consume frame op cycle c)
  same_answer op cycle c = go (consume frame op cycle c)
    where
      go : (a : Answer ℕ) → a ≡ as_cursor (λ k. k) a
      go (value v c) = refl
      go (thrown e c) = refl

  plain-Alike :
      (instr : ℕ) (vm : Vm) (ds : List MemDelta) (c : ℕ)
      → Alike
          (λ k. k)
          (dispatch (replay_hooks frame) instr vm c)
          (dispatch (replay_hooks frame) instr (plain vm ds) c)
  unfolding replay_hooks
  plain-Alike =
      dispatch-Alike (λ k. k) _ _ _ _ (λ cycle c. same_answer (op_code op_in) cycle c)
        (λ cycle c. same_answer (op_code op_rand) cycle c)

  run_goto-Twin :
      (fuel : ℕ) (vm : Vm) (ds ds1 : List MemDelta) (c : ℕ)
      → Twin
          (run_goto (replay_hooks frame) none fuel (plain vm ds) c)
          (run_goto (replay_hooks frame) none fuel (plain vm ds1) c)
  unfolding run_goto
  run_goto-Twin zero vm ds ds1 c = (next vm c, (ds, refl), (ds1, refl))
  run_goto-Twin (suc fuel) vm ds ds1 c =
      let instr = mem_load_u32 vm.mem vm.state.pc in
      go (run_goto-Twin fuel) (dispatch (replay_hooks frame) instr (advance vm) c) _ _ _ _
        (plain_fetch frame vm ds c) (plain_fetch frame vm ds1 c)
        (plain-Alike instr (advance vm) ds c) (plain-Alike instr (advance vm) ds1 c)
    where
      rest : Flow ℕ → Flow ℕ
      rest f = f >>= λ (vm1, c1). run_goto (replay_hooks frame) none fuel vm1 c1

      go :
          ((x : Vm) (d d1 : List MemDelta) (y : ℕ)
            → Twin
                (run_goto (replay_hooks frame) none fuel (plain x d) y)
                (run_goto (replay_hooks frame) none fuel (plain x d1) y))
          → (base f g f1 g1 : Flow ℕ) → f1 ≡ f
          → g1 ≡ g
          → Alike (λ k. k) base f
          → Alike (λ k. k) base g
          → Twin (rest f1) (rest g1)
      go twins (next x y) f g f1 g1 p q (d, e) (d1, e1) =
          of_equal Twin (ap rest (p ∙ e)) (ap rest (q ∙ e1)) (twins x d d1 y)
      go twins (halt r x y) f g f1 g1 p q (d, e) (d1, e1) =
          (halt r x y, (d, ap rest (p ∙ e)), (d1, ap rest (q ∙ e1)))
      go twins (throw t x y) f g f1 g1 p q (d, e) (d1, e1) =
          (throw t x y, (d, ap rest (p ∙ e)), (d1, ap rest (q ∙ e1)))

halted-Agree :
    (b : Bool) (n : ℕ) (r : HaltReason) (vm : Vm) (ds ds1 : List MemDelta)
    → Agree
        (if b then stragglers n r (plain vm ds) else verified r (plain vm ds))
        (if b then restore_stragglers n else restored r (plain vm ds1))
halted-Agree true n r vm ds ds1 = refl
halted-Agree false n r vm ds ds1 = (refl, (refl, refl))

-- Runs that differ in their store logs only end in the same verdict.
Twin-Agree :
    (count : ℕ) (f g : Flow ℕ) → Twin f g → Agree (end_replay count f) (end_restore count g)
Twin-Agree count f g (next vm c, (ds, e), (ds1, e1)) =
    of_equal (λ x y. Agree (end_replay count x) (end_restore count y)) e e1 tt
Twin-Agree count f g (halt r vm c, (ds, e), (ds1, e1)) =
    of_equal (λ x y. Agree (end_replay count x) (end_restore count y)) e e1
      (halted-Agree (ltb c count) (count - c) r vm ds ds1)
Twin-Agree count f g (throw t vm c, (ds, e), (ds1, e1)) =
    of_equal (λ x y. Agree (end_replay count x) (end_restore count y)) e e1
      (refl, (refl, refl), refl)

cmd_replay-eq :
    (fuel : ℕ) (bin trace : List ℕ) (reader : TraceReader)
    → length bin ≤ mem_size
    → open_trace trace ≡ opened reader
    → cmd_replay fuel bin trace
      ≡ end_replay reader.frame_count
          (run_goto (replay_hooks (frame_at reader)) none fuel (booted bin) 0)
unfolding cmd_replay run_goto
cmd_replay-eq fuel bin trace reader fits opens =
    rw (cmd_replay, opens, replay_reader, load_program-fits bin fits) refl

-- When `cmd_save` stops at a frame of the trace with a file, and the memory is then that of the
-- program image, `cmd_restore` on the file ends as `cmd_replay` does with some number of
-- instructions more: both with the same verdict and the same VM but for its store log, or both with
-- the same count of unread frames or the same mismatch, or neither yet. The program and the trace
-- are bytes, the trace opens and has the frame, whose index has 32 bits and whose cycle is not
-- zero.
pub cmd_restore-cmd_replay :
    (can_write : Bool) (fuel : ℕ) (bin trace file : List ℕ) (reader : TraceReader) (f : TraceFrame)
    (at_index : ℕ) (vm : Vm)
    → All IsU8 bin
    → All IsU8 reader.mapped
    → IsU32 at_index
    → open_trace trace ≡ opened reader
    → frame_at reader at_index ≡ some f
    → f.cycle ≢ 0
    → cmd_save can_write fuel bin trace at_index ≡ saved_at vm (some file)
    → vm.mem ≡ copy_in zeroed bin
    → (n : ℕ) × ((more : ℕ)
        → Agree (cmd_replay (n + more) bin trace) (cmd_restore more bin trace file))
unfolding Reaches
cmd_restore-cmd_replay can_write fuel bin trace file reader f at_index vm hb ht small opens at_f nz
      e image =
    let (before, v, mem, state, restores, (n, ds, reaches)) =
      cmd_restore-cmd_save can_write fuel bin trace file reader f at_index vm hb ht small opens at_f
        nz e in
    let (fits, found) =
      save_from-inv can_write fuel bin reader at_index f vm (some file) hb ht
        (cmd_save-inv can_write fuel bin trace reader f at_index vm (some file) opens at_f e) in
    (
      n,
      λ more.
          of_equal Agree
            (cmd_replay-eq (n + more) bin trace reader fits opens
              ∙ ap (end_replay reader.frame_count) (reaches more))
            (restores more ∙ λ i. end_restore reader.frame_count (
              run_goto (replay_hooks (frame_at reader)) none more
                (record (plain before []) { mem = (sym image ∙ mem) i }) at_index))
            (Twin-Agree reader.frame_count _ _
              (run_goto-Twin (frame_at reader) more before ds [] at_index)),
    )
