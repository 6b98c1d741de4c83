-- ===== src/Savepoint/RoundTrip.antt =====
-- src/main.cpp: `cmd_restore` on the file of a successful `cmd_save`.
use mathlib.Core.Path.{subst}
use retro_vm.Prelude.{
  ℕ, ◌≤◌, ◌≡◌, ◌≢◌, refl, sym, ap, ◌∙◌, arith, Bool, true, false, List, [], Option, none, some,
  ◌==◌, if◌then◌else◌, All, length,
}
use retro_vm.Word.{IsU8, IsU32}
use retro_vm.Isa.{HaltReason, halt_running, halt_checkpoint}
use retro_vm.Memory.{zeroed, mem_size}
use retro_vm.Machine.{Vm, copy_in, new_vm, load_program, set_snapshot_interval}
use retro_vm.Hooks.{Flow, next, halt, throw}
use retro_vm.Dispatch.{advance, run_goto}
use retro_vm.Dispatch.Validity.{IsValid}
use retro_vm.Dispatch.Boot.{
  new_vm-IsValid, load_program-IsValid, load_program-mem, load_program-eq-some,
}
use retro_vm.Trace.{TraceFrame, TraceReader, opened, open_trace, frame_at}
use retro_vm.Session.{replay_hooks}
use retro_vm.Checkpoint.{checkpoint_save}
use retro_vm.Savepoint.{
  checkpoint_of, Saving, save_sink, save_hooks, saved_at, save_missed, save_too_large,
  save_cursor_mismatch, end_save, save_from, cmd_save, end_restore, cmd_restore,
}
use retro_vm.Savepoint.Plain.{unticked}
use retro_vm.Savepoint.Resume.{booted, cmd_restore-checkpoint_of}
use retro_vm.Savepoint.Written.{Written, Stops}
use retro_vm.Savepoint.Reach.{Reaches, run_goto-Reaches, booted-Reaches}
use retro_vm.Savepoint.Answers.{save_hooks-HooksFit}

found :
    (r : HaltReason) (at_index : ℕ) (vm1 vm : Vm) (w : Saving) (file : Option (List ℕ))
    → end_save at_index (halt r vm1 w) ≡ saved_at vm file
    → (r ≡ halt_checkpoint) × (vm1 ≡ vm) × (w.file ≡ file)
found r at_index vm1 vm w file e = go (r == halt_checkpoint) (w.cursor == at_index) refl e
  where
    go :
        (b c : Bool)
        → (r == halt_checkpoint) ≡ b
        → (if b
            then (if c then saved_at vm1 w.file else save_cursor_mismatch w.cursor)
            else save_missed r)
          ≡ saved_at vm file
        → (r ≡ halt_checkpoint) × (vm1 ≡ vm) × (w.file ≡ file)
    go true true l g = (ground arith, cc, cc)
    go true false l g = cc
    go false c l g = cc

end_save-inv :
    (Here : Vm → ℕ → Type 0) (at_index target : ℕ) (flow : Flow Saving) (vm : Vm)
    (file : Option (List ℕ))
    → Stops Here at_index target flow
    → end_save at_index flow ≡ saved_at vm file
    → (w : Saving) × Written Here at_index target vm w × (w.file ≡ file)
end_save-inv Here at_index target (next vm1 w) vm file h e = cc
end_save-inv Here at_index target (throw x vm1 w) vm file h e = cc
end_save-inv Here at_index target (halt r vm1 w) vm file h e =
    let (stopped, same, at_file) = found r at_index vm1 vm w file e in
    (w, subst (λ v. Written Here at_index target v w) same (h stopped), at_file)

set_snapshot_interval-IsValid : (vm : Vm) → IsValid vm → IsValid (set_snapshot_interval vm 1)
set_snapshot_interval-IsValid vm v = ground arith

loaded_running :
    (bin : List ℕ) (start : Vm)
    → load_program new_vm bin ≡ some start
    → start.state.halted ≡ halt_running
unfolding new_vm
loaded_running bin start l = ap (λ v. v.state.halted) (load_program-eq-some new_vm start bin l)

loaded_booted :
    (bin : List ℕ) (start : Vm) → load_program new_vm bin ≡ some start → start ≡ booted bin
unfolding new_vm
loaded_booted bin start l = load_program-eq-some new_vm start bin l

pub save_from-inv :
    (can_write : Bool) (fuel : ℕ) (bin : List ℕ) (reader : TraceReader) (at_index : ℕ)
    (f : TraceFrame) (vm : Vm) (file : Option (List ℕ))
    → All IsU8 bin
    → All IsU8 reader.mapped
    → save_from can_write fuel bin reader at_index f ≡ saved_at vm file
    → (length bin ≤ mem_size)
      × ((w : Saving) × Written (Reaches (frame_at reader) (booted bin)) at_index f.cycle vm w
          × (w.file ≡ file))
unfolding save_from
save_from-inv can_write fuel bin reader at_index f vm file hb ht e =
    go (load_program new_vm bin) refl e
  where
    go :
        (o : Option Vm)
        → load_program new_vm bin ≡ o
        → (elim o [
          | none ↦ save_too_large
          | some start ↦ end_save at_index (
              run_goto
                (save_hooks (frame_at reader))
                (some (save_sink can_write at_index f.cycle))
                fuel
                (set_snapshot_interval start 1)
                (record { cursor = 0; saved = false; file = none }))
        ])
          ≡ saved_at vm file
        → (length bin ≤ mem_size)
          × ((w : Saving) × Written (Reaches (frame_at reader) (booted bin)) at_index f.cycle vm w
              × (w.file ≡ file))
    go none l g = cc
    go (some start) l g = (
      (load_program-mem bin start l).0,
      end_save-inv (Reaches (frame_at reader) (booted bin)) at_index f.cycle
          (run_goto (save_hooks (frame_at reader)) (some (save_sink can_write at_index f.cycle))
            fuel (set_snapshot_interval start 1)
            (record { cursor = 0; saved = false; file = none }))
          vm file
          (run_goto-Reaches (frame_at reader) can_write at_index f.cycle fuel (booted bin)
            (set_snapshot_interval start 1) (record { cursor = 0; saved = false; file = none })
            (save_hooks-HooksFit reader ht)
            (set_snapshot_interval-IsValid start
              (load_program-IsValid new_vm start bin hb new_vm-IsValid l))
            (loaded_running bin start l)
            (subst (λ v. Reaches (frame_at reader) (booted bin) (set_snapshot_interval v 1) 0)
              (sym (loaded_booted bin start l)) (booted-Reaches (frame_at reader) bin)))
          g,
    )

pub cmd_save-inv :
    (can_write : Bool) (fuel : ℕ) (bin trace : List ℕ) (reader : TraceReader) (f : TraceFrame)
    (at_index : ℕ) (vm : Vm) (file : Option (List ℕ))
    → open_trace trace ≡ opened reader
    → frame_at reader at_index ≡ some f
    → cmd_save can_write fuel bin trace at_index ≡ saved_at vm file
    → save_from can_write fuel bin reader at_index f ≡ saved_at vm file
unfolding cmd_save
cmd_save-inv can_write fuel bin trace reader f at_index vm file opens at_f e =
    sym (rw (cmd_save, opens, at_f) refl) ∙ e

-- The replay that goes on from a state, over the memory of the program image.
abbrev pub resumed : ℕ → List ℕ → TraceReader → Vm → ℕ → Flow ℕ
resumed fuel bin reader before at_index =
    run_goto (replay_hooks (frame_at reader)) none fuel
      (record { mem = copy_in zeroed bin; state = unticked before.state; deltas = [] }) at_index

-- When `cmd_save` stops at a frame of the trace with a file, there is a valid VM whose fetch of the
-- instruction at the frame it stopped at, with its memory, and `cmd_restore` on the file resumes
-- the replay in that VM's state before the fetch, with checkpointing off, an empty log, the cursor
-- at the frame and the memory of the program image; the replay of `cmd_replay` reaches the same
-- state before the fetch, with that VM's memory, after some number of instructions. The program and
-- the trace are bytes, the trace opens and has the frame, whose index has 32 bits and whose cycle
-- is not zero.
pub cmd_restore-cmd_save :
    (can_write : Bool) (fuel : ℕ) (bin trace file : List ℕ) (reader : TraceReader) (f : TraceFrame)
    (at_index : ℕ) (vm : Vm)
    → All IsU8 bin
    → All IsU8 reader.mapped
    → IsU32 at_index
    → open_trace trace ≡ opened reader
    → frame_at reader at_index ≡ some f
    → f.cycle ≢ 0
    → cmd_save can_write fuel bin trace at_index ≡ saved_at vm (some file)
    → (before : Vm) × IsValid before
      × (vm.mem ≡ before.mem)
      × (vm.state ≡ record ((advance before).state) {
        halted = halt_checkpoint;
        snap_timer = before.state.snap_interval;
      })
      × ((more : ℕ)
          → cmd_restore more bin trace file
            ≡ end_restore reader.frame_count (resumed more bin reader before at_index))
      × Reaches (frame_at reader) (booted bin) before at_index
cmd_restore-cmd_save can_write fuel bin trace file reader f at_index vm hb ht small opens at_f nz
      e =
    let (fits, (w, (before, v, running, mem, state, now, here, written, met), same)) =
      save_from-inv can_write fuel bin reader at_index f vm (some file) hb ht
        (cmd_save-inv can_write fuel bin trace reader f at_index vm (some file) opens at_f e) in
    let bytes : checkpoint_save (checkpoint_of at_index (advance before).state) ≡ file = cc in
    (
      before,
      v,
      mem,
      state,
      λ more.
          ap (cmd_restore more bin trace) (sym bytes)
          ∙ cmd_restore-checkpoint_of before v at_index small more bin trace reader f fits opens
              at_f (sym now) nz running,
      met,
    )
