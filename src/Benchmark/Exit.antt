-- ===== src/Benchmark/Exit.antt =====
-- src/main.cpp, `cmd_benchmark` and `cmd_benchmark_dispatch_cmp`: how they end.
use retro_vm.Prelude.{ℕ, zero, suc, ◌≤◌, ◌≡◌, refl, ap, ◌∙◌, none, some, if◌then◌else◌}
use retro_vm.Isa.{halt_normal}
use retro_vm.Machine.{Vm, new_vm, reset_cpu_for_reuse, request_halt, copy_in}
use retro_vm.Hooks.{IoHooks, Flow, next, halt, throw}
use retro_vm.Dispatch.{run_goto}
use retro_vm.Dispatch.Naive.{run_naive}
use retro_vm.Dispatch.Modes.{run_naive-eq-run_goto}
use retro_vm.Benchmark.{
  workload_bytes, Benched, ran, refused_to_run, bench_running, bench_thrown, sane, reruns,
  bench_loaded, bench_mode, bench_exit, and_then, cmd_benchmark, cmd_benchmark_dispatch_cmp,
}
use retro_vm.Benchmark.Workload.{Holds, copy_in-Holds, load_workload}
use retro_vm.Benchmark.Steps.{Cells, vm_at, cells_of}
use retro_vm.Benchmark.Loop.{workload-run}

module _ {W : Type 0} (io : IoHooks W) (fuel : ℕ) (enough : 9219 ≤ fuel) where
  -- A way to run that ends the workload as the computed goto does.
  abbrev Runs : (Vm → W → Flow W) → Type 0
  Runs run =
      (x : Cells) (w : W) → run (vm_at 0 0 0 0 x) w ≡ run_goto io none fuel (vm_at 0 0 0 0 x) w

  module _ (run : Vm → W → Flow W) (runs : Runs run) where
    ends :
        (x : Cells) (w : W)
        → Holds x.mem
        → (x1 : Cells) × Holds x1.mem
          × (run (vm_at 0 0 0 0 x) w
              ≡ halt halt_normal (request_halt (vm_at 9219 0 1 48 x1) halt_normal) w)
    ends x w h = let (x1, h1, e) = workload-run io w fuel x enough h in (x1, h1, runs x w ∙ e)

    Ran : W → Benched W → Type 0
    Ran w b = (vm : Vm) × (b ≡ ran vm w)

    -- The arena keeps the program over the runs.
    reruns-Ran : (n : ℕ) (vm : Vm) (w : W) → Holds vm.mem → Ran w (reruns run n vm w)
    unfolding reruns Ran reset_cpu_for_reuse
    reruns-Ran zero vm w h = (vm, refl)
    reruns-Ran (suc n) vm w h =
        let x = cells_of (reset_cpu_for_reuse vm) in
        let (x1, h1, e) = ends x w h in
        let (vm1, e1) = reruns-Ran n (request_halt (vm_at 9219 0 1 48 x1) halt_normal) w h1 in
        (
          vm1,
          (λ i. elim (e i) [
            | next vm1 w1 ↦ bench_running
            | halt r vm1 w1 ↦ reruns run n vm1 w1
            | throw x vm1 w1 ↦ bench_thrown
          ])
              ∙ e1,
        )

    bench_mode-Ran : (n : ℕ) (w : W) → Ran w (bench_mode run n w)
    unfolding bench_mode bench_loaded Ran new_vm
    bench_mode-Ran n w =
        let start = record new_vm { mem = copy_in new_vm.mem workload_bytes } in
        let (x1, h1, e) = ends (cells_of start) w (copy_in-Holds new_vm.mem) in
        let (vm1, e1) = reruns-Ran (suc n) (request_halt (vm_at 9219 0 1 48 x1) halt_normal) w h1 in
        (
          vm1,
          (λ i. elim (load_workload i) [
            | none ↦ refused_to_run w
            | some vm ↦ bench_loaded run n vm w
          ])
              ∙ ((λ i. elim (e i) [
                | next vm1 w1 ↦ bench_running
                | halt r vm1 w1 ↦
                    if sane r vm1 then reruns run (suc n) vm1 w1 else refused_to_run w1
                | throw x vm1 w1 ↦ bench_thrown
              ])
                  ∙ e1),
        )

  -- Both benchmarks of the dispatch loop end with the exit code 0, for every number of timed runs
  -- and whatever the input hooks are, when each run has fuel for 9219 instructions or more: in both
  -- modes, each of the runs ends.
  pub cmd_benchmark-exit :
      (n : ℕ) (w : W)
      → (cmd_benchmark io fuel n w ≡ some 0) × (cmd_benchmark_dispatch_cmp io fuel n w ≡ some 0)
  unfolding cmd_benchmark cmd_benchmark_dispatch_cmp Ran
  cmd_benchmark-exit n w =
      let (vm1, goto) = bench_mode-Ran (run_goto io none fuel) (λ x w. refl) n w in
      let (vm2, naive) =
        bench_mode-Ran (run_naive io none fuel)
          (λ x w. run_naive-eq-run_goto io none fuel (vm_at 0 0 0 0 x) w refl) n w in
      (
        ap bench_exit goto,
        ap (λ b. and_then b (λ w1. bench_mode (run_naive io none fuel) n w1)) goto
            ∙ ap bench_exit naive,
      )
