-- ===== src/Session.antt =====
-- src/main.cpp, `cmd_record` and `cmd_replay`: the callbacks that write and that consume a trace,
-- and the two commands on the bytes of the program and of the trace file. Printing is left out; a
-- run takes fuel, and `running` says that the program has not stopped by then.
pub mod Growth
pub mod Mirror
pub mod Replay
use retro_vm.Prelude.{
  ℕ, zero, suc, ◌+◌, ◌-◌, ◌<◌, Bool, true, false, List, [], ◌∷◌, Option, none, some, ltb, ◌==◌,
  ◌&&◌, length, if◌then◌else◌,
}
use retro_vm.Isa.{HaltReason, halt_normal, halt_trace_eof, halt_diverged, op_code, op_in, op_rand}
use retro_vm.Machine.{Vm, new_vm, load_program}
use retro_vm.Hooks.{TraceMismatch, Answer, value, thrown, IoHooks, Flow, next, halt, throw}
use retro_vm.Dispatch.{run_goto}
use retro_vm.Trace.{
  TraceFrame, append, flush, TraceError, TraceReader, Opened, opened, refused, open_trace, frame_at,
}

-- `scanf("%u")` on stdin (0 at its end) and `std::mt19937`, over their joint state.
pub record Source (S : Type 0) : Type 0 where
  pub read_in : S → ℕ × S
  pub next_rand : S → ℕ × S

pub record Recording (S : Type 0) : Type 0 where
  pub source : S
  pub frames : List TraceFrame

module _ {S : Type 0} (src : Source S) where
  draw : (S → ℕ × S) → Recording S → Answer (Recording S)
  draw f w = let (v, s) = f w.source in value v (record w { source = s })

  unfoldable pub record_hooks : IoHooks (Recording S)
  unfolding draw append
  record_hooks = record {
    on_nondeterministic = some (λ cycle op v w. record w { frames = append w.frames cycle op v });
    in_hook = some (λ cycle w. draw src.read_in w);
    rand_hook = some (λ cycle w. draw src.next_rand w);
  }

-- The lambda `consume` over the shared cursor.
unfoldable pub consume : (ℕ → Option TraceFrame) → ℕ → ℕ → ℕ → Answer ℕ
consume frame want_op cycle cursor = elim (frame cursor) [
  | none ↦
      thrown
        (record {
          expected_cycle = cycle;
          expected_op = want_op;
          actual_cycle = 0;
          actual_op = 0;
          frame_idx = cursor;
          premature_eof = true;
        })
        cursor
  | some f ↦
      if f.cycle == cycle && f.opcode == want_op
      then value f.payload (cursor + 1)
      else thrown
          (record {
            expected_cycle = cycle;
            expected_op = want_op;
            actual_cycle = f.cycle;
            actual_op = f.opcode;
            frame_idx = cursor;
            premature_eof = false;
          })
          cursor
]

-- The observer of a replay prints, and changes nothing.
unfoldable pub replay_hooks : (ℕ → Option TraceFrame) → IoHooks ℕ
unfolding consume
replay_hooks frame = record {
  on_nondeterministic = some (λ cycle op v cursor. cursor);
  in_hook = some (consume frame (op_code op_in));
  rand_hook = some (consume frame (op_code op_rand));
}

-- `(r == HALT_NORMAL) ? 0 : 2`.
abbrev pub exit_code : HaltReason → ℕ
exit_code r = if r == halt_normal then 0 else 2

-- `record_failed` stands for an exception, which no callback of a recording throws.
pub data Recorded (S : Type 0) : Type 0 where
  recorded : HaltReason → Vm → List ℕ → Recorded S
  record_too_large record_failed : Recorded S
  record_running : Recorded S

pub data Replayed : Type 0 where
  verified : HaltReason → Vm → Replayed
  stragglers : ℕ → HaltReason → Vm → Replayed
  diverged : HaltReason → TraceMismatch → Vm → ℕ → Replayed
  trace_refused : TraceError → Replayed
  replay_too_large replay_running : Replayed

abbrev pub end_record : {S : Type 0} → Flow (Recording S) → Recorded S
end_record (next vm w) = record_running
end_record (halt r vm w) = recorded r vm (flush w.frames)
end_record (throw e vm w) = record_failed

unfoldable pub cmd_record : {S : Type 0} → Source S → ℕ → List ℕ → S → Recorded S
cmd_record src fuel bin s = elim (load_program new_vm bin) [
  | none ↦ record_too_large
  | some vm ↦
      end_record (run_goto (record_hooks src) none fuel vm (record { source = s; frames = [] }))
]

-- The end of a replay: the caught mismatch, the count of unread frames, or the verdict.
abbrev pub end_replay : ℕ → Flow ℕ → Replayed
end_replay count (next vm cursor) = replay_running
end_replay count (halt r vm cursor) =
    if ltb cursor count then stragglers (count - cursor) r vm else verified r vm
end_replay count (throw e vm cursor) =
    diverged (if e.premature_eof then halt_trace_eof else halt_diverged) e vm cursor

unfoldable pub replay_reader : ℕ → List ℕ → TraceReader → Replayed
replay_reader fuel bin reader = elim (load_program new_vm bin) [
  | none ↦ replay_too_large
  | some vm ↦
      end_replay reader.frame_count (run_goto (replay_hooks (frame_at reader)) none fuel vm 0)
]

unfoldable pub cmd_replay : ℕ → List ℕ → List ℕ → Replayed
unfolding replay_reader
cmd_replay fuel bin trace = elim (open_trace trace) [
  | refused e ↦ trace_refused e
  | opened reader ↦ replay_reader fuel bin reader
]
