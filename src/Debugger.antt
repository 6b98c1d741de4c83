-- ===== src/Debugger.antt =====
-- src/main.cpp, `cmd_debug`: the state of the debugger, its snapshot sink, its hooks, and the
-- commands that change the VM or that state. The ring is a list with the oldest snapshot first, and
-- the set of breakpoints a list in ascending order. A command that runs the VM takes fuel.
pub mod Ring
pub mod Story
pub mod Fetch
pub mod Watch
pub mod Prompt
pub mod Runs
pub mod Rewind
pub mod Commands
pub mod Reached
pub mod Decide
pub mod Stops
pub mod Steps
pub mod Skips
pub mod Console
pub mod Words
pub mod Numbers
pub mod Phrases
pub mod Batch
pub mod Transcript
pub mod Undone
use retro_vm.Prelude.{
  ℕ, zero, suc, ◌+◌, ◌-◌, ◌^◌, Bool, true, false, not, ◌&&◌, ◌||◌, List, [], ◌∷◌, ◌++◌, Option,
  none, some, ltb, leb, ◌==◌, length, get_or, take, drop, replicate, if◌then◌else◌, bit_and,
}
use retro_vm.Word.{u32, u64, sub32}
use retro_vm.Isa.{
  HaltReason, halt_running, halt_checkpoint, halt_breakpoint, halt_step, op_code, op_in, op_rand,
}
use retro_vm.Memory.{Memory}
use retro_vm.Machine.{
  Vm, VmState, Snapshot, set_state, set_snapshot_interval, take_snapshot, new_vm, load_program,
}
use retro_vm.Machine.Log.{undo_deltas}
use retro_vm.Hooks.{
  TraceMismatch, Answer, value, thrown, IoHooks, SnapshotSink, Flow, next, halt, throw,
}
use retro_vm.Dispatch.{run_goto}
use retro_vm.Trace.{TraceReader, frame_at}
use retro_vm.Session.{Source, consume}
use retro_vm.Checkpoint.{CheckpointState}

pub record ReplSnapshot : Type 0 where
  pub core : Snapshot
  pub cursor : ℕ

-- `ReplSnapshot{}`.
abbrev pub empty_snapshot : ReplSnapshot
empty_snapshot = record {
  core = record {
    cycle_count = 0;
    regs = replicate 8 0;
    pc = 0;
    sp = 0;
    flags = 0;
    halted = halt_running;
    deltas = [];
  };
  cursor = 0;
}

-- `CmdDebug`, with the input source of a fresh session.
pub record Debug (S : Type 0) : Type 0 where
  pub source : S
  pub cursor : ℕ
  pub target_cycle : ℕ
  pub breakpoints : List ℕ
  pub ring : List ReplSnapshot
  pub history_index : ℕ

-- `UINT64_MAX`, and `kRingCap`.
abbrev pub never : ℕ
never = 2 ^ 64 - 1

abbrev pub ring_cap : ℕ
ring_cap = 256

-- `std::deque::resize`.
unfoldable pub resize {ℓ} : {A : Type ℓ} → ℕ → A → List A → List A
resize zero e xs = []
resize (suc n) e [] = e ∷ resize n e []
resize (suc n) e (x ∷ xs) = x ∷ resize n e xs

-- `count`, `insert` and `erase` of the set of breakpoints.
unfoldable pub has_breakpoint : ℕ → List ℕ → Bool
has_breakpoint pc [] = false
has_breakpoint pc (b ∷ bs) = pc == b || has_breakpoint pc bs

unfoldable pub insert_breakpoint : ℕ → List ℕ → List ℕ
insert_breakpoint pc [] = pc ∷ []
insert_breakpoint pc (b ∷ bs) =
    if pc == b then b ∷ bs else if ltb pc b then pc ∷ b ∷ bs else b ∷ insert_breakpoint pc bs

unfoldable pub erase_breakpoint : ℕ → List ℕ → List ℕ
erase_breakpoint pc [] = []
erase_breakpoint pc (b ∷ bs) = if pc == b then bs else b ∷ erase_breakpoint pc bs

-- The address of a `breakpoint` command: in the arena, and a multiple of four.
unfoldable pub breakpoint_pc : ℕ → ℕ
breakpoint_pc parsed = bit_and (bit_and (u32 parsed) 0xFFFFF) 0xFFFFFFFC

module _ {S : Type 0} where
  -- The push of the sink: the future is dropped, and then the oldest snapshot when the ring is full.
  unfoldable pub push_ring : ReplSnapshot → Debug S → Debug S
  push_ring rs d =
      let ring = resize (d.history_index + 1) empty_snapshot d.ring ++ rs ∷ [] in
      if ltb ring_cap (length ring)
      then record d { ring = drop 1 ring }
      else record d { ring = ring; history_index = d.history_index + 1 }

  abbrev pub step_due : Debug S → Snapshot → Bool
  step_due d s = not (d.target_cycle == never) && leb d.target_cycle s.cycle_count

  -- `install_debug_sink`.
  unfoldable pub debug_sink : Option TraceReader → SnapshotSink (Debug S)
  unfolding push_ring
  debug_sink trace vs s d =
      let rs : ReplSnapshot = record {
        core = s;
        cursor = elim trace [ none ↦ 0 | some r ↦ d.cursor ];
      } in
      if step_due d s then (push_ring rs (record d { target_cycle = never }), some halt_step) else (
        push_ring rs d,
        if has_breakpoint (sub32 s.pc 4) d.breakpoints then some halt_breakpoint else none,
      )

  -- A read of the source of a fresh session, and `consume` on the cursor of a replay.
  abbrev pub drawn : (S → ℕ × S) → Debug S → Answer (Debug S)
  drawn f d = let (v, s) = f d.source in value v (record d { source = s })

  abbrev pub consumed : Debug S → Answer ℕ → Answer (Debug S)
  consumed d (value v c) = value v (record d { cursor = c })
  consumed d (thrown e c) = thrown e (record d { cursor = c })

-- The hooks of a replay, or those that the constructor of VM sets.
unfoldable pub debug_hooks : {S : Type 0} → Source S → Option TraceReader → IoHooks (Debug S)
debug_hooks src none = record {
  on_nondeterministic = none;
  in_hook = some (λ cycle d. drawn src.read_in d);
  rand_hook = some (λ cycle d. drawn src.next_rand d);
}
debug_hooks src (some r) = record {
  on_nondeterministic = some (λ cycle op v d. d);
  in_hook = some (λ cycle d. consumed d (consume (frame_at r) (op_code op_in) cycle d.cursor));
  rand_hook = some (λ cycle d. consumed d (consume (frame_at r) (op_code op_rand) cycle d.cursor));
}

-- `none` is `Refused`.
unfoldable pub debug_resume : Vm → Option Vm
debug_resume vm =
    let h = vm.state.halted in
    if h == halt_running
    then some vm
    else if h == halt_breakpoint || (h == halt_step || h == halt_checkpoint)
    then some (set_state vm (record (vm.state) { halted = halt_running }))
    else none

-- What a command leaves the debugger in: at the prompt, or gone after a divergence.
pub data Outcome (S : Type 0) : Type 0 where
  prompt : Vm → Debug S → Outcome S
  diverged : TraceMismatch → Outcome S
  running : Outcome S

abbrev pub after_run : {S : Type 0} → Flow (Debug S) → Outcome S
after_run (next vm d) = running
after_run (halt r vm d) = prompt vm d
after_run (throw e vm d) = diverged e

module _ {S : Type 0} (src : Source S) (trace : Option TraceReader) where
  unfoldable pub debug_run : ℕ → Vm → Debug S → Flow (Debug S)
  unfolding debug_hooks debug_sink
  debug_run = run_goto (debug_hooks src trace) (some (debug_sink trace))

  -- `step N`.
  unfoldable pub step : ℕ → ℕ → Vm → Debug S → Outcome S
  unfolding debug_resume debug_run
  step fuel n vm d = if n == 0 then prompt vm d else elim (debug_resume vm) [
    | none ↦ prompt vm d
    | some vm1 ↦
        after_run (debug_run fuel vm1 (record d { target_cycle = u64 (vm1.state.cycle_count + n) }))
  ]

  -- `continue`.
  unfoldable pub continue_run : ℕ → Vm → Debug S → Outcome S
  unfolding debug_resume debug_run
  continue_run fuel vm d = elim (debug_resume vm) [
    | none ↦ prompt vm d
    | some vm1 ↦ after_run (debug_run fuel vm1 (record d { target_cycle = never }))
  ]

-- The loop of `back` over the snapshots from index `i` down, `n` of them.
unfoldable pub undo_range : List ReplSnapshot → ℕ → ℕ → Memory → Memory
undo_range ring i zero m = m
undo_range ring i (suc n) m =
    undo_range ring (i - 1) n (undo_deltas m (get_or ring i empty_snapshot).core.deltas)

-- The registers of a snapshot over the rest of a state.
abbrev pub restore_core : Snapshot → VmState → VmState
restore_core s vs = record vs {
  cycle_count = s.cycle_count;
  regs = take 8 s.regs;
  pc = s.pc;
  sp = s.sp;
  flags = s.flags;
  halted = s.halted;
}

-- `back N`. A refused command changes nothing.
unfoldable pub back : {S : Type 0} → Option TraceReader → ℕ → Vm → Debug S → Vm × Debug S
unfolding undo_range
back trace n vm d =
    let target = d.history_index - n in
    let tgt = get_or d.ring target empty_snapshot in
    if n == 0 then (vm, d) else if ltb d.history_index n then (vm, d) else (
      record vm {
        mem = undo_range d.ring d.history_index n vm.mem;
        state = restore_core tgt.core vm.state;
      },
      record d {
        cursor = elim trace [ none ↦ d.cursor | some r ↦ tgt.cursor ];
        history_index = target;
      },
    )

-- `visible_pc` of `where`, and `save_pc` of `save`.
unfoldable pub visible_pc : Vm → ℕ
visible_pc vm = if vm.state.halted == halt_running then vm.state.pc else sub32 vm.state.pc 4

-- `cstate` of `save`.
unfoldable pub debug_checkpoint : {S : Type 0} → Option TraceReader → Vm → Debug S → CheckpointState
unfolding visible_pc
debug_checkpoint trace vm d = record {
  frame_index = elim trace [ none ↦ 0 | some r ↦ u32 d.cursor ];
  halted = vm.state.halted;
  flags = vm.state.flags;
  regs = take 8 vm.state.regs;
  pc = visible_pc vm;
  sp = vm.state.sp;
}

-- `cmd_debug` up to the prompt: the program, the sink and the baseline snapshot.
unfoldable pub debug_start : {S : Type 0} → List ℕ → S → Option (Vm × Debug S)
debug_start bin s = elim (load_program new_vm bin) [
  | none ↦ none
  | some vm ↦
      let (baseline, vm1) = take_snapshot (set_snapshot_interval vm 1) in
      some (
        vm1,
        record {
          source = s;
          cursor = 0;
          target_cycle = never;
          breakpoints = [];
          ring = record { core = baseline; cursor = 0 } ∷ [];
          history_index = 0;
        },
      )
]
