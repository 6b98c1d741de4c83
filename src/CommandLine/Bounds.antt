-- ===== src/CommandLine/Bounds.antt =====
-- src/main.cpp, `main`: the ranges of the numbers that reach the commands.
use retro_vm.Prelude.{
  ℕ, ◌<◌, ◌^◌, Bool, true, false, List, [], ◌∷◌, Option, none, some, if◌then◌else◌, arith,
}
use retro_vm.Text.{Str}
use retro_vm.Text.Numerals.{codes}
use retro_vm.Trace.{same_bytes}
use retro_vm.CommandLine.{
  Invocation, record_run, snapshot, save, debug, trace, inspect, benchmark, bench_back,
  bench_dispatch_cmp, bench_back_sweep, or_usage, run_args, asm_args, record_args, replay_args,
  count_args, back_args, snapshot_args, save_mode_args, restore_args, debug_args, trace_args,
  diff_args, inspect_args, parse_mode, parse_args, named,
}
use retro_vm.CommandLine.Options.{
  whole_number, seed_option, at_frame_option, default_seed, no_files, debug_options,
}
use retro_vm.CommandLine.Parsed.{
  Holds, Between, Small, True, Holds-True, whole_number-Small, number_in-Between, option-Holds,
  options-Holds, frame_options-Small, seed-Small,
}

-- The ranges that the diagnostics of `main` name, and the width of `size_t` where they name none.
abbrev pub InRange : Invocation → Type 0
InRange (record_run bin seed) = seed < 2 ^ 32
InRange (snapshot bin interval) = Between 1 10000000 interval
InRange (save bin path state at_frame) = at_frame < 2 ^ 64
InRange (trace path frame) = Small frame
InRange (benchmark n) = Between 1 100000000 n
InRange (bench_back n depth) = Between 1 100000000 n × Between 1 255 depth
InRange (bench_dispatch_cmp n) = Between 1 100000000 n
InRange (bench_back_sweep n) = Between 1 100000000 n
InRange _ = Unit

if-InRange : (b : Bool) (x y : Invocation) → InRange x → InRange y → InRange (if b then x else y)
if-InRange true x y hx hy = hx
if-InRange false x y hx hy = hy

or_usage-InRange :
    {A : Type 0} (P : A → Type 0) (call : A → Invocation) (o : Option A)
    → Holds P o
    → ((a : A) → P a → InRange (call a))
    → InRange (or_usage call o)
or_usage-InRange P call none h f = tt
or_usage-InRange P call (some a) h f = f a h

asm_args-InRange : (args : List Str) → InRange (asm_args args)
asm_args-InRange [] = tt
asm_args-InRange (a ∷ []) = tt
asm_args-InRange (a ∷ b ∷ more) = tt

run_args-InRange : (args : List Str) → InRange (run_args args)
run_args-InRange [] = tt
run_args-InRange (a ∷ more) = tt

record_args-InRange : (args : List Str) → InRange (record_args args)
record_args-InRange [] = tt
record_args-InRange (bin ∷ more) =
    or_usage-InRange (λ n. n < 2 ^ 32) (record_run bin) _
      (options-Holds (λ n. n < 2 ^ 32) seed_option default_seed more seed-Small (omega arith))
      (λ n h. h)

replay_args-InRange : (args : List Str) → InRange (replay_args args)
replay_args-InRange [] = tt
replay_args-InRange (a ∷ []) = tt
replay_args-InRange (a ∷ b ∷ more) = tt

count_args-InRange :
    (call : ℕ → Invocation) (standard : ℕ) (args : List Str)
    → Between 1 100000000 standard
    → ((n : ℕ) → Between 1 100000000 n → InRange (call n))
    → InRange (count_args call standard args)
count_args-InRange call standard [] hs h = h standard hs
count_args-InRange call standard (a ∷ more) hs h =
    or_usage-InRange (Between 1 100000000) call _ (number_in-Between _ _ a) h

back_args-InRange : (args : List Str) → InRange (back_args args)
back_args-InRange [] = omega arith
back_args-InRange (a ∷ []) =
    or_usage-InRange (Between 1 100000000) _ _ (number_in-Between _ _ a) (λ n h. (h, omega arith))
back_args-InRange (a ∷ b ∷ more) =
    or_usage-InRange (Between 1 100000000) _ _ (number_in-Between _ _ a) (λ n h.
      or_usage-InRange (Between 1 255) (bench_back n) _ (number_in-Between _ _ b) (λ d hd. (h, hd)))

snapshot_args-InRange : (args : List Str) → InRange (snapshot_args args)
snapshot_args-InRange [] = tt
snapshot_args-InRange (bin ∷ []) = omega arith
snapshot_args-InRange (bin ∷ a ∷ more) =
    or_usage-InRange (Between 1 10000000) (snapshot bin) _ (number_in-Between _ _ a) (λ n h. h)

save_mode_args-InRange : (args : List Str) → InRange (save_mode_args args)
save_mode_args-InRange [] = tt
save_mode_args-InRange (a ∷ []) = tt
save_mode_args-InRange (a ∷ b ∷ []) = tt
save_mode_args-InRange (bin ∷ path ∷ state ∷ more) =
    let small = λ (n : ℕ). n < 2 ^ 64 in
    or_usage-InRange small (save bin path state) _
      (options-Holds small at_frame_option 1 more
        (λ arg. option-Holds small (codes "--at-frame=") whole_number arg whole_number-Small)
        (omega arith))
      (λ n h. h)

restore_args-InRange : (args : List Str) → InRange (restore_args args)
restore_args-InRange [] = tt
restore_args-InRange (a ∷ []) = tt
restore_args-InRange (a ∷ b ∷ []) = tt
restore_args-InRange (a ∷ b ∷ c ∷ more) = tt

debug_args-InRange : (args : List Str) → InRange (debug_args args)
debug_args-InRange [] = tt
debug_args-InRange (bin ∷ more) =
    or_usage-InRange True (debug bin) _ (Holds-True (debug_options no_files more)) (λ d h. tt)

trace_args-InRange : (args : List Str) → InRange (trace_args args)
trace_args-InRange [] = tt
trace_args-InRange (path ∷ more) =
    or_usage-InRange Small (trace path) _ (frame_options-Small none more tt) (λ f h. h)

diff_args-InRange : (args : List Str) → InRange (diff_args args)
diff_args-InRange [] = tt
diff_args-InRange (a ∷ []) = tt
diff_args-InRange (a ∷ b ∷ more) = tt

inspect_args-InRange : (args : List Str) → InRange (inspect_args args)
inspect_args-InRange [] = tt
inspect_args-InRange (path ∷ more) =
    if-InRange (same_bytes path (codes "--diff")) (diff_args more) (inspect path)
      (diff_args-InRange more) tt

parse_mode-InRange : (mode : Str) (args : List Str) → InRange (parse_mode mode args)
unfolding parse_mode
parse_mode-InRange mode args =
    if-InRange (same_bytes mode (codes "run")) (run_args args) _ (run_args-InRange args) (
      if-InRange (named mode (codes "asm") (codes "assemble")) (asm_args args) _
        (asm_args-InRange args)
        (if-InRange (same_bytes mode (codes "record")) (record_args args) _
          (record_args-InRange args)
          (if-InRange (same_bytes mode (codes "replay")) (replay_args args) _
            (replay_args-InRange args)
            (if-InRange (named mode (codes "--benchmark") (codes "benchmark"))
              (count_args benchmark 1000 args) _
              (count_args-InRange benchmark 1000 args (omega arith) (λ n h. h))
              (if-InRange (named mode (codes "--bench-back") (codes "bench-back")) (back_args args)
                _ (back_args-InRange args)
                (if-InRange (named mode (codes "--bench-dispatch-cmp") (codes "bench-dispatch-cmp"))
                  (count_args bench_dispatch_cmp 1000 args) _
                  (count_args-InRange bench_dispatch_cmp 1000 args (omega arith) (λ n h. h))
                  (if-InRange (named mode (codes "--bench-back-sweep") (codes "bench-back-sweep"))
                    (count_args bench_back_sweep 200 args) _
                    (count_args-InRange bench_back_sweep 200 args (omega arith) (λ n h. h))
                    (if-InRange (named mode (codes "snapshot") (codes "snap")) (snapshot_args args)
                      _ (snapshot_args-InRange args)
                      (if-InRange (same_bytes mode (codes "save")) (save_mode_args args) _
                        (save_mode_args-InRange args)
                        (if-InRange (same_bytes mode (codes "restore")) (restore_args args) _
                          (restore_args-InRange args)
                          (if-InRange (same_bytes mode (codes "debug")) (debug_args args) _
                            (debug_args-InRange args)
                            (if-InRange (same_bytes mode (codes "trace")) (trace_args args) _
                              (trace_args-InRange args)
                              (if-InRange (same_bytes mode (codes "inspect")) (inspect_args args) _
                                (inspect_args-InRange args) (tt))))))))))))))

-- Whatever the arguments are, the numbers that reach the commands are in range: a seed has 32 bits,
-- the interval of snapshots is from 1 to 10000000, the number of timed runs from 1 to 100000000,
-- the depth of a rewind from 1 to 255, and a frame number has 64 bits.
pub parse_args-InRange : (args : List Str) → InRange (parse_args args)
unfolding parse_args
parse_args-InRange [] = tt
parse_args-InRange (mode ∷ args) = parse_mode-InRange mode args
