-- ===== src/Savepoint.antt =====
-- src/main.cpp, `cmd_save` and `cmd_restore`: a replay that is stopped at a frame of its trace with
-- its state written to a file, and a replay that starts from such a file. Printing is left out.
-- Whether the state file can be written is a parameter; a run takes fuel as in `Session`.
pub mod Plain
pub mod Reach
pub mod Resume
pub mod Written
pub mod Answers
pub mod RoundTrip
pub mod Agreement
use retro_vm.Prelude.{
  ℕ, ◌+◌, ◌-◌, Bool, true, false, List, Option, none, some, ltb, ◌==◌, take, if◌then◌else◌,
}
use retro_vm.Word.{u32, sub32, sub64}
use retro_vm.Isa.{HaltReason, halt_running, halt_checkpoint, op_code, op_in, op_rand}
use retro_vm.Machine.{Vm, VmState, Snapshot, new_vm, load_program, set_state, set_snapshot_interval}
use retro_vm.Hooks.{
  TraceMismatch, Answer, value, thrown, IoHooks, SnapshotSink, Flow, next, halt, throw,
}
use retro_vm.Dispatch.{run_goto}
use retro_vm.Trace.{
  TraceFrame, TraceError, TraceReader, Opened, opened, refused, open_trace, frame_at,
}
use retro_vm.Session.{consume, replay_hooks}
use retro_vm.Checkpoint.{CheckpointState, checkpoint_save, Loaded, checkpoint_load}

-- What the callbacks of `cmd_save` share: the cursor, the flag and the file that was written.
pub record Saving : Type 0 where
  pub cursor : ℕ
  pub saved : Bool
  pub file : Option (List ℕ)

-- `cstate` as the sink fills it: `pc` points past the fetched instruction, and is taken back.
unfoldable pub checkpoint_of : ℕ → VmState → CheckpointState
checkpoint_of at_index vs = record {
  frame_index = u32 at_index;
  halted = halt_checkpoint;
  flags = vs.flags;
  regs = take 8 vs.regs;
  pc = sub32 vs.pc 4;
  sp = vs.sp;
}

-- The sink of `cmd_save`.
unfoldable pub save_sink : Bool → ℕ → ℕ → SnapshotSink Saving
save_sink can_write at_index target_cycle vs snap w =
    let bytes = checkpoint_save (checkpoint_of at_index vs) in
    if w.saved
    then (w, none)
    else if w.cursor == at_index
    then (if vs.cycle_count == target_cycle
        then (if can_write
            then (record w { saved = true; file = some bytes }, some halt_checkpoint)
            else (record w { saved = true }, none))
        else (w, none))
    else (w, none)

-- `consume` moves the shared cursor, and throws with it in place.
abbrev pub on_cursor : Saving → Answer ℕ → Answer Saving
on_cursor w (value v c) = value v (record w { cursor = c })
on_cursor w (thrown e c) = thrown e (record w { cursor = c })

unfoldable pub save_hooks : (ℕ → Option TraceFrame) → IoHooks Saving
save_hooks frame = record {
  on_nondeterministic = some (λ cycle op v w. w);
  in_hook = some (λ cycle w. on_cursor w (consume frame (op_code op_in) cycle w.cursor));
  rand_hook = some (λ cycle w. on_cursor w (consume frame (op_code op_rand) cycle w.cursor));
}

-- `saved_at` has the file, `save_missed` the reason of a program that stopped first.
pub data SaveResult : Type 0 where
  saved_at : Vm → Option (List ℕ) → SaveResult
  save_missed : HaltReason → SaveResult
  save_cursor_mismatch : ℕ → SaveResult
  save_mismatch : TraceMismatch → SaveResult
  save_refused : TraceError → SaveResult
  save_out_of_range save_too_large save_running : SaveResult

abbrev pub end_save : ℕ → Flow Saving → SaveResult
end_save at_index (next vm w) = save_running
end_save at_index (halt r vm w) =
    if r == halt_checkpoint
    then (if w.cursor == at_index then saved_at vm w.file else save_cursor_mismatch w.cursor)
    else save_missed r
end_save at_index (throw e vm w) = save_mismatch e

unfoldable pub save_from : Bool → ℕ → List ℕ → TraceReader → ℕ → TraceFrame → SaveResult
save_from can_write fuel bin reader at_index target = elim (load_program new_vm bin) [
  | none ↦ save_too_large
  | some vm ↦ end_save at_index (
      run_goto (save_hooks (frame_at reader)) (some (save_sink can_write at_index target.cycle))
        fuel (set_snapshot_interval vm 1) (record { cursor = 0; saved = false; file = none }))
]

unfoldable pub cmd_save : Bool → ℕ → List ℕ → List ℕ → ℕ → SaveResult
cmd_save can_write fuel bin trace at_index = elim (open_trace trace) [
  | refused e ↦ save_refused e
  | opened reader ↦ elim (frame_at reader at_index) [
    | none ↦ save_out_of_range
    | some target ↦ save_from can_write fuel bin reader at_index target
  ]
]

-- The state that `cmd_restore` rebuilds; the cycle count comes from the trace.
unfoldable pub restored_state : TraceFrame → CheckpointState → VmState
restored_state next_frame c = record {
  cycle_count = sub64 next_frame.cycle 1;
  regs = take 8 c.regs;
  pc = c.pc;
  sp = c.sp;
  flags = c.flags;
  halted = halt_running;
  snap_interval = 0;
  snap_timer = 0;
}

-- `restore_not_loaded` has the loader's complaint.
pub data RestoreResult : Type 0 where
  restored : HaltReason → Vm → RestoreResult
  restore_stragglers : ℕ → RestoreResult
  restore_mismatch : TraceMismatch → Vm → ℕ → RestoreResult
  restore_refused : TraceError → RestoreResult
  restore_not_loaded : Loaded → RestoreResult
  restore_out_of_range restore_cycle_zero restore_too_large restore_running : RestoreResult

abbrev pub end_restore : ℕ → Flow ℕ → RestoreResult
end_restore count (next vm cursor) = restore_running
end_restore count (halt r vm cursor) =
    if ltb cursor count then restore_stragglers (count - cursor) else restored r vm
end_restore count (throw e vm cursor) = restore_mismatch e vm cursor

unfoldable pub restore_from :
    ℕ → List ℕ → TraceReader → CheckpointState → TraceFrame → RestoreResult
restore_from fuel bin reader c next_frame = elim (load_program new_vm bin) [
  | none ↦ restore_too_large
  | some vm ↦ end_restore reader.frame_count (
      run_goto (replay_hooks (frame_at reader)) none fuel
        (set_state vm (restored_state next_frame c)) c.frame_index)
]

-- The checks on the frame at which the replay is to go on.
unfoldable pub restore_at : ℕ → List ℕ → TraceReader → CheckpointState → RestoreResult
restore_at fuel bin reader c = elim (frame_at reader c.frame_index) [
  | none ↦ restore_out_of_range
  | some f ↦ if f.cycle == 0 then restore_cycle_zero else restore_from fuel bin reader c f
]

unfoldable pub cmd_restore : ℕ → List ℕ → List ℕ → List ℕ → RestoreResult
cmd_restore fuel bin trace state = elim (open_trace trace) [
  | refused e ↦ restore_refused e
  | opened reader ↦ elim (checkpoint_load state) [
    | Loaded.loaded c ↦ restore_at fuel bin reader c
    | Loaded.short_read ↦ restore_not_loaded Loaded.short_read
    | Loaded.bad_magic ↦ restore_not_loaded Loaded.bad_magic
    | Loaded.bad_version v ↦ restore_not_loaded (Loaded.bad_version v)
  ]
]
