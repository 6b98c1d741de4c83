-- ===== src/Program.antt =====
-- src/main.cpp, `main`: the program from its arguments and the files to its exit code and the files
-- it leaves. What is printed is left out. Parameters are the inputs (`src`, over a state that holds
-- stdin and a generator), the states that a seeded and a default generator start from, the lines
-- typed at the prompt of the debugger, which paths can be written, and whether the rounds of
-- `--bench-back` are faster than a millisecond. Every run has the same fuel.
pub mod Store
pub mod Demo
pub mod EndToEnd
use retro_vm.Prelude.{ℕ, Bool, List, [], ◌∷◌, Option, none, some, if◌then◌else◌}
use retro_vm.Text.{Str, is_empty, split_lines}
use retro_vm.Isa.{HaltReason}
use retro_vm.Machine.{Vm, new_vm, load_program}
use retro_vm.Hooks.{Answer, value, IoHooks, Flow, next, halt, throw}
use retro_vm.Dispatch.{run_goto}
use retro_vm.Trace.{TraceReader, Opened, opened, refused, open_trace}
use retro_vm.Session.{
  Source, exit_code, Recorded, recorded, record_too_large, record_failed, record_running,
  cmd_record, Replayed, verified, stragglers, diverged, trace_refused, replay_too_large,
  replay_running, cmd_replay,
}
use retro_vm.Savepoint
use retro_vm.Savepoint.{SaveResult, cmd_save, RestoreResult, cmd_restore}
use retro_vm.Snapfile.{Snapshotted, cmd_snapshot}
use retro_vm.Assembler.{Assembled, assembled, asm_failed, assemble_file}
use retro_vm.Debugger
use retro_vm.Debugger.{Debug, Outcome, debug_start}
use retro_vm.Debugger.Console.{debug_lines}
use retro_vm.Inspect.{TraceShown, cmd_inspect, cmd_inspect_diff, cmd_inspect_trace}
use retro_vm.Benchmark.{cmd_benchmark, cmd_benchmark_dispatch_cmp}
use retro_vm.Benchmark.Rewind.{cmd_benchmark_backn, cmd_benchmark_back_sweep}
use retro_vm.CommandLine.{Invocation, parse_args}
use retro_vm.CommandLine.Options.{DebugFiles}
use retro_vm.Program.Store.{Files, write_file, trace_path, try_write, write_each, write_snapshots}
use retro_vm.Program.Demo.{run_builtin_demo}

-- `aborts` is an exception that nothing catches, with the files as they were; `no_exit` is a run
-- that has not ended.
pub data ProgramEnd : Type 0 where
  exits : ℕ → Files → ProgramEnd
  aborts no_exit : ProgramEnd

abbrev pub exits_with : Files → Option ℕ → ProgramEnd
exits_with files none = no_exit
exits_with files (some code) = exits code files

-- The hooks that the constructor of VM sets.
unfoldable pub default_hooks : {S : Type 0} → Source S → IoHooks S
default_hooks src = record {
  on_nondeterministic = none;
  in_hook = some (λ cycle s. let (v, s1) = src.read_in s in value v s1);
  rand_hook = some (λ cycle s. let (v, s1) = src.next_rand s in value v s1);
}

module _ (can_write : Str → Bool) (files : Files) where
  -- `read_file` in front of a command.
  abbrev pub open_file : Str → (List ℕ → ProgramEnd) → ProgramEnd
  open_file path k = elim (files path) [ none ↦ exits 1 files | some bytes ↦ k bytes ]

  -- A file that a constructor opens, which throws when it is not there.
  abbrev pub open_or_abort : Str → (List ℕ → ProgramEnd) → ProgramEnd
  open_or_abort path k = elim (files path) [ none ↦ aborts | some bytes ↦ k bytes ]

  abbrev pub end_assemble : Str → Assembled → ProgramEnd
  end_assemble to (assembled ws bytes) =
      if can_write to then exits 0 (write_file to bytes files) else exits 1 files
  end_assemble to (asm_failed line e) = exits 1 files

  abbrev pub end_recorded : {S : Type 0} → Str → Recorded S → ProgramEnd
  end_recorded bin (recorded r vm trace) =
      if can_write (trace_path bin)
      then exits (exit_code r) (write_file (trace_path bin) trace files)
      else aborts
  end_recorded bin record_too_large = exits 1 files
  end_recorded bin record_failed = aborts
  end_recorded bin record_running = no_exit

  abbrev pub end_replayed : Replayed → ProgramEnd
  end_replayed (verified r vm) = exits (exit_code r) files
  end_replayed (stragglers n r vm) = exits 3 files
  end_replayed (diverged r e vm cursor) = exits 3 files
  end_replayed (trace_refused e) = aborts
  end_replayed replay_too_large = exits 1 files
  end_replayed replay_running = no_exit

  abbrev pub end_snapshotted : Str → Snapshotted → ProgramEnd
  end_snapshotted bin (Snapshotted.written r vm snaps) =
      exits (exit_code r) (write_snapshots can_write bin 0 snaps files)
  end_snapshotted bin Snapshotted.snapshot_too_large = exits 1 files
  end_snapshotted bin Snapshotted.snapshot_failed = aborts
  end_snapshotted bin Snapshotted.snapshot_running = no_exit

  abbrev pub end_saved : Str → SaveResult → ProgramEnd
  end_saved state (SaveResult.saved_at vm none) = exits 0 files
  end_saved state (SaveResult.saved_at vm (some bytes)) = exits 0 (write_file state bytes files)
  end_saved state (SaveResult.save_missed r) = exits 1 files
  end_saved state (SaveResult.save_cursor_mismatch n) = exits 1 files
  end_saved state (SaveResult.save_mismatch e) = exits 3 files
  end_saved state (SaveResult.save_refused e) = aborts
  end_saved state SaveResult.save_out_of_range = exits 1 files
  end_saved state SaveResult.save_too_large = exits 1 files
  end_saved state SaveResult.save_running = no_exit

  abbrev pub end_restored : RestoreResult → ProgramEnd
  end_restored (RestoreResult.restored r vm) = exits (exit_code r) files
  end_restored (RestoreResult.restore_stragglers n) = exits 3 files
  end_restored (RestoreResult.restore_mismatch e vm cursor) = exits 3 files
  end_restored (RestoreResult.restore_refused e) = aborts
  end_restored (RestoreResult.restore_not_loaded l) = exits 1 files
  end_restored RestoreResult.restore_out_of_range = exits 1 files
  end_restored RestoreResult.restore_cycle_zero = exits 1 files
  end_restored RestoreResult.restore_too_large = exits 1 files
  end_restored RestoreResult.restore_running = no_exit

  -- A state file that is not there is refused after the trace has been opened.
  abbrev pub restore_files : ℕ → List ℕ → List ℕ → Option (List ℕ) → ProgramEnd
  restore_files fuel program trace none = elim (open_trace trace) [
    | refused e ↦ aborts
    | opened reader ↦ exits 1 files
  ]
  restore_files fuel program trace (some state) =
      end_restored (cmd_restore fuel program trace state)

  abbrev pub end_shown : TraceShown → ProgramEnd
  end_shown (TraceShown.frame_shown i f) = exits 0 files
  end_shown (TraceShown.summary_shown s) = exits 0 files
  end_shown (TraceShown.cannot_open e) = exits 1 files
  end_shown TraceShown.out_of_range = exits 1 files

  -- 0 with output, and 1 without.
  abbrev pub end_inspected : {A : Type 0} → Option A → ProgramEnd
  end_inspected none = exits 1 files
  end_inspected (some a) = exits 0 files

  abbrev pub end_debugged : {S : Type 0} → List (Str × List ℕ) × Outcome S → ProgramEnd
  end_debugged (saved, Outcome.prompt vm d) = exits 0 (write_each can_write saved files)
  end_debugged (saved, Outcome.diverged e) = exits 0 (write_each can_write saved files)
  end_debugged (saved, Outcome.running) = no_exit

-- `cmd_run`.
unfoldable pub cmd_run : {S : Type 0} → Source S → ℕ → Files → List ℕ → S → ProgramEnd
unfolding default_hooks
cmd_run src fuel files bin s = elim (load_program new_vm bin) [
  | none ↦ exits 1 files
  | some vm ↦ elim (run_goto (default_hooks src) none fuel vm s) [
    | next vm1 s1 ↦ no_exit
    | halt r vm1 s1 ↦ exits (exit_code r) files
    | throw e vm1 s1 ↦ aborts
  ]
]

module _ {S : Type 0} (src : Source S) (seeded : ℕ → S) (start : S) (typed : Str)
    (can_write : Str → Bool) (fast : Bool) (fuel : ℕ) where
  -- The lines of the batch file, or those typed.
  abbrev pub debug_session : Files → Str → Option TraceReader → Vm × Debug S → ProgramEnd
  debug_session files batch trace (vm, d) =
      if is_empty batch
      then end_debugged can_write files (debug_lines src trace fuel (split_lines typed) vm d)
      else open_file can_write files batch (λ script.
        end_debugged can_write files (debug_lines src trace fuel (split_lines script) vm d))

  -- `cmd_debug`: the program is loaded first, then the trace is opened, then the batch file.
  unfoldable pub debug_program : Files → Str → DebugFiles → ProgramEnd
  debug_program files bin d = open_file can_write files bin (λ program.
      elim (debug_start program start) [
        | none ↦ exits 1 files
        | some session ↦
            if is_empty d.trace_arg
            then debug_session files d.batch_arg none session
            else open_or_abort can_write files d.trace_arg (λ trace. elim (open_trace trace) [
              | refused e ↦ aborts
              | opened reader ↦ debug_session files d.batch_arg (some reader) session
            ])
      ])

  unfoldable pub perform : Invocation → Files → ProgramEnd
  unfolding cmd_run debug_program
  perform Invocation.builtin_demo files =
      exits_with files (run_builtin_demo (default_hooks src) fuel start)
  perform Invocation.usage files = exits 1 files
  perform (Invocation.run bin) files =
      open_file can_write files bin (λ program. cmd_run src fuel files program start)
  perform (Invocation.assemble from to) files =
      open_file can_write files from
        (λ source. end_assemble can_write files to (assemble_file source))
  perform (Invocation.record_run bin seed) files =
      open_file can_write files bin
        (λ program. end_recorded can_write files bin (cmd_record src fuel program (seeded seed)))
  perform (Invocation.replay bin path) files = open_file can_write files bin (λ program.
      open_or_abort can_write files path
        (λ trace. end_replayed can_write files (cmd_replay fuel program trace)))
  perform (Invocation.snapshot bin interval) files = open_file can_write files bin (λ program.
      end_snapshotted can_write files bin (cmd_snapshot src interval fuel program start))
  perform (Invocation.save bin path state at_frame) files =
      open_file can_write files bin (λ program. open_or_abort can_write files path (λ trace.
        end_saved can_write files state (cmd_save (can_write state) fuel program trace at_frame)))
  perform (Invocation.restore bin path state) files = open_file can_write files bin (λ program.
      open_or_abort can_write files path
        (λ trace. restore_files can_write files fuel program trace (files state)))
  perform (Invocation.debug bin d) files = debug_program files bin d
  perform (Invocation.trace path number) files =
      open_file can_write files path
        (λ trace. end_shown can_write files (cmd_inspect_trace trace number))
  perform (Invocation.inspect path) files =
      open_file can_write files path (λ state. end_inspected can_write files (cmd_inspect state))
  perform (Invocation.inspect_diff a b) files =
      open_file can_write files a (λ x.
        open_file can_write files b (λ y. end_inspected can_write files (cmd_inspect_diff x y)))
  perform (Invocation.benchmark n) files =
      exits_with files (cmd_benchmark (default_hooks src) fuel n start)
  perform (Invocation.bench_back n depth) files =
      exits_with files (cmd_benchmark_backn src fuel start fast n depth)
  perform (Invocation.bench_dispatch_cmp n) files =
      exits_with files (cmd_benchmark_dispatch_cmp (default_hooks src) fuel n start)
  perform (Invocation.bench_back_sweep n) files =
      exits_with files (cmd_benchmark_back_sweep src fuel start n)

  unfoldable pub main : List Str → Files → ProgramEnd
  unfolding perform parse_args
  main args files = perform (parse_args args) files
