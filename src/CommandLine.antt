-- ===== src/CommandLine.antt =====
-- src/main.cpp, `main`: the arguments of the program, as the call that they ask for. An argument is
-- the sequence of its bytes, `argv[1]` is the first. What `main` prints of wrong arguments is left
-- out: all of them end in the exit code 1.
pub mod Options
pub mod Parsed
pub mod Bounds
use retro_vm.Prelude.{ℕ, Bool, ◌||◌, List, [], ◌∷◌, Option, none, some, if◌then◌else◌}
use retro_vm.Text.{Str}
use retro_vm.Text.Numerals.{codes}
use retro_vm.Trace.{same_bytes}
use retro_vm.CommandLine.Options.{
  default_seed, seed_option, at_frame_option, frame_option, options, frame_options, number_in,
  iterations, depth_below, DebugFiles, no_files, debug_options,
}

-- The calls of `main`. `usage` is every early return with the exit code 1.
pub data Invocation : Type 0 where
  builtin_demo usage : Invocation
  run : Str → Invocation
  assemble : Str → Str → Invocation
  record_run : Str → ℕ → Invocation
  replay : Str → Str → Invocation
  snapshot : Str → ℕ → Invocation
  save : Str → Str → Str → ℕ → Invocation
  restore : Str → Str → Str → Invocation
  debug : Str → DebugFiles → Invocation
  trace : Str → Option ℕ → Invocation
  inspect : Str → Invocation
  inspect_diff : Str → Str → Invocation
  benchmark : ℕ → Invocation
  bench_back : ℕ → ℕ → Invocation
  bench_dispatch_cmp : ℕ → Invocation
  bench_back_sweep : ℕ → Invocation

abbrev pub or_usage : {A : Type 0} → (A → Invocation) → Option A → Invocation
or_usage call none = usage
or_usage call (some a) = call a

abbrev pub run_args : List Str → Invocation
run_args [] = usage
run_args (bin ∷ more) = run bin

abbrev pub asm_args : List Str → Invocation
asm_args (from ∷ to ∷ more) = assemble from to
asm_args args = usage

abbrev pub record_args : List Str → Invocation
record_args [] = usage
record_args (bin ∷ more) = or_usage (record_run bin) (options seed_option default_seed more)

abbrev pub replay_args : List Str → Invocation
replay_args (bin ∷ path ∷ more) = replay bin path
replay_args args = usage

-- A count that may be left out; what follows it is not looked at.
abbrev pub count_args : (ℕ → Invocation) → ℕ → List Str → Invocation
count_args call standard [] = call standard
count_args call standard (a ∷ more) = or_usage call (iterations a)

abbrev pub back_args : List Str → Invocation
back_args [] = bench_back 1000 200
back_args (a ∷ []) = or_usage (λ n. bench_back n 200) (iterations a)
back_args (a ∷ b ∷ more) = or_usage (λ n. or_usage (bench_back n) (depth_below b)) (iterations a)

abbrev pub snapshot_args : List Str → Invocation
snapshot_args [] = usage
snapshot_args (bin ∷ []) = snapshot bin 10
snapshot_args (bin ∷ a ∷ more) = or_usage (snapshot bin) (number_in 1 10000000 a)

abbrev pub save_mode_args : List Str → Invocation
save_mode_args (bin ∷ path ∷ state ∷ more) =
    or_usage (save bin path state) (options at_frame_option 1 more)
save_mode_args args = usage

abbrev pub restore_args : List Str → Invocation
restore_args (bin ∷ path ∷ state ∷ more) = restore bin path state
restore_args args = usage

abbrev pub debug_args : List Str → Invocation
debug_args [] = usage
debug_args (bin ∷ more) = or_usage (debug bin) (debug_options no_files more)

abbrev pub trace_args : List Str → Invocation
trace_args [] = usage
trace_args (path ∷ more) = or_usage (trace path) (frame_options none more)

abbrev pub diff_args : List Str → Invocation
diff_args (a ∷ b ∷ more) = inspect_diff a b
diff_args args = usage

abbrev pub inspect_args : List Str → Invocation
inspect_args [] = usage
inspect_args (path ∷ more) =
    if same_bytes path (codes "--diff") then diff_args more else inspect path

-- The mode under either of its names.
abbrev pub named : Str → Str → Str → Bool
named mode a b = same_bytes mode a || same_bytes mode b

unfoldable pub parse_mode : Str → List Str → Invocation
unfolding options
parse_mode mode args =
    if same_bytes mode (codes "run")
    then run_args args
    else if named mode (codes "asm") (codes "assemble")
    then asm_args args
    else if same_bytes mode (codes "record")
    then record_args args
    else if same_bytes mode (codes "replay")
    then replay_args args
    else if named mode (codes "--benchmark") (codes "benchmark")
    then count_args benchmark 1000 args
    else if named mode (codes "--bench-back") (codes "bench-back")
    then back_args args
    else if named mode (codes "--bench-dispatch-cmp") (codes "bench-dispatch-cmp")
    then count_args bench_dispatch_cmp 1000 args
    else if named mode (codes "--bench-back-sweep") (codes "bench-back-sweep")
    then count_args bench_back_sweep 200 args
    else if named mode (codes "snapshot") (codes "snap")
    then snapshot_args args
    else if same_bytes mode (codes "save")
    then save_mode_args args
    else if same_bytes mode (codes "restore")
    then restore_args args
    else if same_bytes mode (codes "debug")
    then debug_args args
    else if same_bytes mode (codes "trace")
    then trace_args args
    else if same_bytes mode (codes "inspect")
    then inspect_args args
    else usage

unfoldable pub parse_args : List Str → Invocation
unfolding parse_mode
parse_args [] = builtin_demo
parse_args (mode ∷ args) = parse_mode mode args
