-- ===== src/Benchmark.antt =====
-- src/main.cpp, `cmd_benchmark` and `cmd_benchmark_dispatch_cmp`: the workload, its sanity check and
-- the runs that are timed. The clock and what is printed are left out. A run takes fuel, and the
-- hooks are those of the constructor of VM, which the workload never calls: they are parameters.
pub mod Workload
pub mod Words
pub mod Steps
pub mod Loop
pub mod Exit
pub mod Rewind
use retro_vm.Prelude.{
  ℕ, zero, suc, ◌+◌, ◌*◌, Bool, ◌&&◌, List, [], ◌∷◌, Option, none, some, ◌==◌, if◌then◌else◌,
}
use retro_vm.Isa.{
  HaltReason, halt_normal, op_halt, op_load, op_store, op_add, op_sub, op_mul, op_div, op_jnz,
  op_li, op_code, encode, Opcode,
}
use retro_vm.Machine.{Vm, new_vm, load_program, reset_cpu_for_reuse}
use retro_vm.Hooks.{IoHooks, Flow, next, halt, throw}
use retro_vm.Dispatch.{run_goto}
use retro_vm.Dispatch.Naive.{run_naive}
use retro_vm.Assembler.{put_words}

-- `kBenchmarkLoopCount`.
abbrev pub loop_count : ℕ
loop_count = 1024

abbrev pub instruction : Opcode → ℕ → ℕ → ℕ → ℕ
instruction o = encode (op_code o)

-- `program`.
unfoldable pub workload : List ℕ
workload =
    instruction op_li 0 0 loop_count
    ∷ instruction op_li 1 0 1
    ∷ instruction op_add 2 1 0
    ∷ instruction op_add 3 1 0
    ∷ instruction op_sub 4 0 0
    ∷ instruction op_mul 5 1 0
    ∷ instruction op_div 6 1 0
    ∷ instruction op_store 2 0 0x100
    ∷ instruction op_load 7 0 0x100
    ∷ instruction op_sub 0 1 0
    ∷ instruction op_jnz 0 0 0x08
    ∷ instruction op_halt 0 0 0
    ∷ []

-- The program as its words lie in the memory of the host.
unfoldable pub workload_bytes : List ℕ
unfolding workload
workload_bytes = put_words workload

-- The two refusals after the first run.
abbrev pub sane : HaltReason → Vm → Bool
sane r vm = r == halt_normal && vm.state.cycle_count == 2 + 9 * loop_count + 1

-- `ran` has the VM at the end, `refused_to_run` is an early return.
pub data Benched (W : Type 0) : Type 0 where
  ran : Vm → W → Benched W
  refused_to_run : W → Benched W
  bench_running bench_thrown : Benched W

module _ {W : Type 0} (run : Vm → W → Flow W) where
  -- `n` times `reset_cpu_for_reuse` and `run`.
  unfoldable pub reruns : ℕ → Vm → W → Benched W
  reruns zero vm w = ran vm w
  reruns (suc n) vm w = elim (run (reset_cpu_for_reuse vm) w) [
    | next vm1 w1 ↦ bench_running
    | halt r vm1 w1 ↦ reruns n vm1 w1
    | throw e vm1 w1 ↦ bench_thrown
  ]

  -- The sanity run, the warmup and the `n` timed runs.
  unfoldable pub bench_loaded : ℕ → Vm → W → Benched W
  unfolding reruns
  bench_loaded n vm w = elim (run vm w) [
    | next vm1 w1 ↦ bench_running
    | halt r vm1 w1 ↦ if sane r vm1 then reruns (suc n) vm1 w1 else refused_to_run w1
    | throw e vm1 w1 ↦ bench_thrown
  ]

  unfoldable pub bench_mode : ℕ → W → Benched W
  unfolding bench_loaded workload_bytes
  bench_mode n w = elim (load_program new_vm workload_bytes) [
    | none ↦ refused_to_run w
    | some vm ↦ bench_loaded n vm w
  ]

-- The exit code; `none` stands for a run that has not ended, or for an exception.
abbrev pub bench_exit : {W : Type 0} → Benched W → Option ℕ
bench_exit (ran vm w) = some 0
bench_exit (refused_to_run w) = some 1
bench_exit bench_running = none
bench_exit bench_thrown = none

-- The second mode, where the first has come to its end.
abbrev pub and_then : {W : Type 0} → Benched W → (W → Benched W) → Option ℕ
and_then (ran vm w) second = bench_exit (second w)
and_then (refused_to_run w) second = elim (bench_exit (second w)) [ none ↦ none | some n ↦ some 1 ]
and_then bench_running second = none
and_then bench_thrown second = none

module _ {W : Type 0} (io : IoHooks W) where
  unfoldable pub cmd_benchmark : ℕ → ℕ → W → Option ℕ
  unfolding bench_mode
  cmd_benchmark fuel n w = bench_exit (bench_mode (run_goto io none fuel) n w)

  unfoldable pub cmd_benchmark_dispatch_cmp : ℕ → ℕ → W → Option ℕ
  unfolding bench_mode
  cmd_benchmark_dispatch_cmp fuel n w =
      and_then (bench_mode (run_goto io none fuel) n w)
        (λ w1. bench_mode (run_naive io none fuel) n w1)
