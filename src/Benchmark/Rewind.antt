-- ===== src/Benchmark/Rewind.antt =====
-- src/main.cpp, `cmd_benchmark_backn` and `cmd_benchmark_back_sweep`: the ring of snapshots, the
-- round of `do_back` and `do_step`, and the commands around it. The clock is left out: whether the
-- rounds were fast enough is a parameter.
use retro_vm.Prelude.{
  ℕ, zero, suc, ◌+◌, ◌-◌, Bool, not, ◌&&◌, List, [], ◌∷◌, ◌++◌, Option, none, some, ltb, leb, ◌==◌,
  length, get_or, drop, replicate, if◌then◌else◌,
}
use retro_vm.Word.{u64}
use retro_vm.Isa.{halt_running, halt_step}
use retro_vm.Memory.{Memory}
use retro_vm.Machine.{Vm, Snapshot, new_vm, load_program, set_snapshot_interval}
use retro_vm.Machine.Log.{undo_deltas}
use retro_vm.Hooks.{Answer, value, IoHooks, SnapshotSink, Flow, next, halt, throw}
use retro_vm.Dispatch.{run_goto}
use retro_vm.Session.{Source}
use retro_vm.Debugger.{never, resize, restore_core}
use retro_vm.Benchmark.{workload_bytes, sane}

-- `kBenchRingCap`.
abbrev pub bench_ring_cap : ℕ
bench_ring_cap = 256

-- `Snapshot{}`.
abbrev pub blank_snapshot : Snapshot
blank_snapshot = record {
  cycle_count = 0;
  regs = replicate 8 0;
  pc = 0;
  sp = 0;
  flags = 0;
  halted = halt_running;
  deltas = [];
}

-- The source of inputs, and the variables that the sink and the rounds share.
pub record Rewinding (S : Type 0) : Type 0 where
  pub source : S
  pub ring : List Snapshot
  pub history_index : ℕ
  pub target_cycle : ℕ

abbrev pub no_history : {S : Type 0} → S → Rewinding S
no_history s = record { source = s; ring = []; history_index = 0; target_cycle = never }

unfoldable pub bench_push : {S : Type 0} → Snapshot → Rewinding S → Rewinding S
bench_push s b =
    let ring = resize (b.history_index + 1) blank_snapshot b.ring ++ s ∷ [] in
    if ltb bench_ring_cap (length ring)
    then record b { ring = drop 1 ring }
    else record b { ring = ring; history_index = b.history_index + 1 }

-- The snapshot sink of both commands.
unfoldable pub bench_sink : {S : Type 0} → SnapshotSink (Rewinding S)
unfolding bench_push
bench_sink vs s b =
    if not (b.target_cycle == never) && leb b.target_cycle s.cycle_count
    then (bench_push s (record b { target_cycle = never }), some halt_step)
    else (bench_push s b, none)

-- `undo_deltas(hi - n, hi)`.
unfoldable pub undo_ring : List Snapshot → ℕ → ℕ → Memory → Memory
undo_ring ring hi zero m = m
undo_ring ring hi (suc n) m =
    undo_ring ring (hi - 1) n (undo_deltas m (get_or ring hi blank_snapshot).deltas)

-- `do_back` to the snapshot `target`: the memory, the state and the index.
unfoldable pub back_to : {S : Type 0} → ℕ → Vm → Rewinding S → Vm × Rewinding S
unfolding undo_ring
back_to target vm b = (
  record vm {
    mem = undo_ring b.ring b.history_index (b.history_index - target) vm.mem;
    state = restore_core (get_or b.ring target blank_snapshot) vm.state;
  },
  record b { history_index = target },
)

-- The target of the sweep, which is clamped, and that of `--bench-back`: `none` is the wrap of
-- `history_index - depth`, and with it a read outside the ring.
abbrev pub clamped_target : {S : Type 0} → ℕ → Rewinding S → Option ℕ
clamped_target depth b = some (if ltb b.history_index depth then 0 else b.history_index - depth)

abbrev pub exact_target : {S : Type 0} → ℕ → Rewinding S → Option ℕ
exact_target depth b = if ltb b.history_index depth then none else some (b.history_index - depth)

abbrev pub running_again : Vm → Vm
running_again vm = record vm { state = record (vm.state) { halted = halt_running } }

-- How rounds end; `off_ring` is the read outside the ring.
pub data Rounds (S : Type 0) : Type 0 where
  rounds_done : Vm → Rewinding S → Rounds S
  off_ring rounds_running rounds_thrown : Rounds S

abbrev taken_from : {S : Type 0} → (S → ℕ × S) → Rewinding S → Answer (Rewinding S)
taken_from f b = let (v, s) = f b.source in value v (record b { source = s })

-- The hooks that the constructor of VM sets.
unfoldable pub rewinding_hooks : {S : Type 0} → Source S → IoHooks (Rewinding S)
rewinding_hooks src = record {
  on_nondeterministic = none;
  in_hook = some (λ cycle b. taken_from src.read_in b);
  rand_hook = some (λ cycle b. taken_from src.next_rand b);
}

module _ {S : Type 0} (src : Source S) (fuel : ℕ) (target : Rewinding S → Option ℕ)
    (depth : ℕ) where
  -- `do_step`.
  unfoldable pub do_step : Vm → Rewinding S → Flow (Rewinding S)
  unfolding bench_sink rewinding_hooks
  do_step vm b =
      run_goto (rewinding_hooks src) (some bench_sink) fuel (running_again vm)
        (record b { target_cycle = u64 (vm.state.cycle_count + depth) })

  -- `n` times `do_back` and `do_step`.
  unfoldable pub back_rounds : ℕ → Vm → Rewinding S → Rounds S
  unfolding do_step back_to
  back_rounds zero vm b = rounds_done vm b
  back_rounds (suc n) vm b = elim (target b) [
    | none ↦ off_ring
    | some t ↦
        let (vm1, b1) = back_to t vm b in
        elim (do_step vm1 b1) [
          | next vm2 b2 ↦ rounds_running
          | halt r vm2 b2 ↦ back_rounds n vm2 b2
          | throw e vm2 b2 ↦ rounds_thrown
        ]
  ]

  -- The sanity run, the warmup and the `n` timed rounds; `none` is a refusal.
  unfoldable pub bench_rewind : ℕ → ℕ → S → Option (Rounds S)
  unfolding back_rounds
  bench_rewind interval n s = elim (load_program new_vm workload_bytes) [
    | none ↦ none
    | some vm ↦
        elim (run_goto (rewinding_hooks src) (some bench_sink) fuel
          (set_snapshot_interval vm interval) (no_history s)) [
            | next vm1 b1 ↦ some rounds_running
            | halt r vm1 b1 ↦ if sane r vm1 then some (back_rounds (suc n) vm1 b1) else none
            | throw e vm1 b1 ↦ some rounds_thrown
          ]
  ]

-- The exit code of rounds that ended, and `none` of any others.
abbrev pub rewind_exit : {S : Type 0} → ℕ → Option (Rounds S) → Option ℕ
rewind_exit code none = some 1
rewind_exit code (some (rounds_done vm b)) = some code
rewind_exit code (some off_ring) = none
rewind_exit code (some rounds_running) = none
rewind_exit code (some rounds_thrown) = none

module _ {S : Type 0} (src : Source S) (fuel : ℕ) (s : S) where
  unfoldable pub cmd_benchmark_backn : Bool → ℕ → ℕ → Option ℕ
  unfolding bench_rewind
  cmd_benchmark_backn fast n depth =
      if leb bench_ring_cap depth
      then some 1
      else rewind_exit (if fast then 0 else 1)
          (bench_rewind src fuel (exact_target depth) depth 1 n s)

  -- Whether a cell of the grid ends, also where it prints "ERR!". No cell reads an input, so that
  -- each starts from the same source.
  abbrev pub sweep_cell : ℕ → ℕ × ℕ → Bool
  sweep_cell n (interval, depth) =
      elim (bench_rewind src fuel (clamped_target depth) depth interval n s) [
        | none ↦ Bool.true
        | some (rounds_done vm b) ↦ Bool.true
        | some off_ring ↦ Bool.false
        | some rounds_running ↦ Bool.false
        | some rounds_thrown ↦ Bool.false
      ]

  unfoldable pub all_cells : ℕ → List (ℕ × ℕ) → Bool
  unfolding bench_rewind
  all_cells n [] = Bool.true
  all_cells n (cell ∷ cells) = sweep_cell n cell && all_cells n cells

  -- The rows of the grid, and the row of an interval.
  abbrev pub sweep_row : ℕ → List (ℕ × ℕ)
  sweep_row interval =
      (interval, 1) ∷ (interval, 50) ∷ (interval, 257) ∷ (interval, 512) ∷ (interval, 1024) ∷ []

  unfoldable pub cmd_benchmark_back_sweep : ℕ → Option ℕ
  unfolding all_cells
  cmd_benchmark_back_sweep n =
      if all_cells n (sweep_row 1 ++ (sweep_row 10 ++ sweep_row 100)) then some 0 else none
