-- ===== src/Program/EndToEnd.antt =====
-- src/main.cpp, `main`: what a recording leaves among the files, a later call of the program replays.
use retro_vm.Prelude.{
  ℕ, ◌≡◌, ◌≢◌, refl, sym, ap, ◌∙◌, arith, Bool, true, false, List, [], ◌∷◌, ◌++◌, Option, none,
  some, All, if◌then◌else◌,
}
use retro_vm.Word.{IsU8}
use retro_vm.Isa.{HaltReason}
use retro_vm.Machine.{Vm}
use retro_vm.Text.{Str}
use retro_vm.Text.Numerals.{codes}
use retro_vm.Trace.{same_bytes}
use retro_vm.Session.{
  Source, exit_code, Recorded, recorded, record_too_large, record_failed, record_running,
  cmd_record, cmd_replay,
}
use retro_vm.Session.Growth.{SourceFits}
use retro_vm.Session.Replay.{cmd_replay-cmd_record}
use retro_vm.CommandLine.{record_run, replay, parse_mode, parse_args, or_usage}
use retro_vm.CommandLine.Options.{options, seed_option, default_seed}
use retro_vm.Program.Store.{Files, write_file, trace_path}
use retro_vm.Program.{
  ProgramEnd, exits, aborts, open_or_abort, end_recorded, end_replayed, perform, main,
}

same_bytes_refl : (xs : List ℕ) → same_bytes xs xs ≡ true
same_bytes_refl [] = refl
same_bytes_refl (x ∷ xs) = ground (arith, same_bytes_refl xs)

same_bytes-append : (xs : List ℕ) (y : ℕ) (ys : List ℕ) → same_bytes xs (xs ++ y ∷ ys) ≡ false
same_bytes-append [] y ys = refl
same_bytes-append (x ∷ xs) y ys = ground (arith, same_bytes-append xs y ys)

-- A file that is written can be read, and those with other names are as they were.
write_file_self :
    (path : Str) (bytes : List ℕ) (files : Files) → write_file path bytes files path ≡ some bytes
write_file_self path bytes files = rw (same_bytes_refl path) refl

write_file-trace_path :
    (bin : Str) (bytes : List ℕ) (files : Files)
    → write_file (trace_path bin) bytes files bin ≡ files bin
write_file-trace_path bin bytes files = rw (same_bytes-append bin b'.' (codes "trace")) refl

module _ {S : Type 0} (src : Source S) (seeded : ℕ → S) (start : S) (typed : Str)
    (can_write : Str → Bool) (fast : Bool) (fuel : ℕ) where
  abbrev call : List Str → Files → ProgramEnd
  call = main src seeded start typed can_write fast fuel

  -- A recording that ended, with what it wrote.
  abbrev Left : Files → Str → Recorded S → ℕ → Files → Type 0
  Left files bin o code files1 =
      (r : HaltReason) × (vm : Vm) × (trace : List ℕ) × (o ≡ recorded r vm trace)
      × (code ≡ exit_code r)
      × (files1 ≡ write_file (trace_path bin) trace files)

  refused_code : (files files1 : Files) (code : ℕ) → exits 1 files ≡ exits code files1 → code ≡ 1
  refused_code files files1 code e = cc

  recorded-Left :
      (files : Files) (bin : Str) (o : Recorded S) (code : ℕ) (files1 : Files)
      → end_recorded can_write files bin o ≡ exits code files1
      → code ≢ 1
      → Left files bin o code files1
  recorded-Left files bin (recorded r vm trace) code files1 e h = go (can_write (trace_path bin)) e
    where
      go :
          (b : Bool)
          → (if b then exits (exit_code r) (write_file (trace_path bin) trace files) else aborts)
            ≡ exits code files1
          → Left files bin (recorded r vm trace) code files1
      go true e = (r, vm, trace, refl, cc, cc)
      go false e = cc
  recorded-Left files bin record_too_large code files1 e h =
      absurd (h (refused_code files files1 code e))
  recorded-Left files bin record_failed code files1 e h = cc
  recorded-Left files bin record_running code files1 e h = cc

  record_call :
      (bin : Str) (opts : List Str) (files : Files)
      → call (codes "record" ∷ bin ∷ opts) files
        ≡ perform src seeded start typed can_write fast fuel
            (or_usage (record_run bin) (options seed_option default_seed opts))
            files
  unfolding main parse_args parse_mode
  record_call bin opts files = refl

  replay_call :
      (bin path : Str) (files : Files)
      → call (codes "replay" ∷ bin ∷ path ∷ []) files
        ≡ perform src seeded start typed can_write fast fuel (replay bin path) files
  unfolding main parse_args parse_mode
  replay_call bin path files = refl

  -- The replay of a recording, in the files that it left.
  replay-Left :
      SourceFits src
      → (bin : Str) (seed : ℕ) (files : Files) (program : List ℕ) (code : ℕ) (files1 : Files)
      → files bin ≡ some program
      → All IsU8 program
      → Left files bin (cmd_record src fuel program (seeded seed)) code files1
      → perform src seeded start typed can_write fast fuel (replay bin (trace_path bin)) files1
        ≡ exits code files1
  unfolding perform
  replay-Left fits bin seed files program code files1 here bytes (r, vm, trace, e, ec, ef) =
      let program_there : files1 bin ≡ some program =
        ap (λ f. f bin) ef ∙ (write_file-trace_path bin trace files ∙ here) in
      let trace_there : files1 (trace_path bin) ≡ some trace =
        ap (λ f. f (trace_path bin)) ef ∙ write_file_self (trace_path bin) trace files in
      let replayed = cmd_replay-cmd_record src fits fuel program (seeded seed) r vm trace bytes e in
      (λ i. elim (program_there i) [
        | none ↦ exits 1 files1
        | some p ↦
            open_or_abort can_write files1 (trace_path bin)
              (λ t. end_replayed can_write files1 (cmd_replay fuel p t))
      ])
      ∙ ((λ i. elim (trace_there i) [
        | none ↦ aborts
        | some t ↦ end_replayed can_write files1 (cmd_replay fuel program t)
      ])
          ∙ (ap (end_replayed can_write files1) replayed ∙ ap (λ c. exits c files1) (sym ec)))

  -- When `retrovm record` on a program file, with any options, ends with an exit code other than 1,
  -- `retrovm replay` on the same file and the trace file next to it, in the files that the
  -- recording left, ends with the same exit code and leaves these files as they are, if the input
  -- sources deliver 32-bit values and the program file holds bytes.
  pub main_replay-main_record :
      SourceFits src
      → (bin : Str) (opts : List Str) (files files1 : Files) (program : List ℕ) (code : ℕ)
      → files bin ≡ some program
      → All IsU8 program
      → call (codes "record" ∷ bin ∷ opts) files ≡ exits code files1
      → code ≢ 1
      → call (codes "replay" ∷ bin ∷ trace_path bin ∷ []) files1 ≡ exits code files1
  unfolding perform
  main_replay-main_record fits bin opts files files1 program code here bytes e h =
      replay_call bin (trace_path bin) files1
      ∙ after_options (options seed_option default_seed opts) (sym (record_call bin opts files) ∙ e)
    where
      after_options :
          (o : Option ℕ)
          → perform src seeded start typed can_write fast fuel (or_usage (record_run bin) o) files
            ≡ exits code files1
          → perform src seeded start typed can_write fast fuel (replay bin (trace_path bin)) files1
            ≡ exits code files1
      after_options none e = absurd (h (refused_code files files1 code e))
      after_options (some seed) e =
          let result =
            end_recorded can_write files bin (cmd_record src fuel program (seeded seed)) in
          let read : perform src seeded start typed can_write fast fuel (record_run bin seed) files
              ≡ result =
            λ i. elim (here i) [
              | none ↦ exits 1 files
              | some p ↦ end_recorded can_write files bin (cmd_record src fuel p (seeded seed))
            ] in
          replay-Left fits bin seed files program code files1 here bytes (
            recorded-Left files bin (cmd_record src fuel program (seeded seed)) code files1
              (sym read ∙ e) h)
