-- ===== src/Tests/Debugging.antt =====
-- A session of the debugger: a program that stores, a breakpoint, and the way back.
use retro_vm.Text.{Str, split_lines, scan}
use retro_vm.Debugger.Console.{
  command_of, cmd_debug, debug_lines, step_cmd, nothing, set_breakpoint, back_cmd, quit_cmd,
}
use retro_vm.Debugger.Phrases.{command_of-line_of, line_of, batch_text}
use retro_vm.Debugger.Undone.{cmd_debug-back}
use retro_vm.Debugger.Prompt.{SameCursor}
use retro_vm.Text.Printed.{printed, put_digits}
use retro_vm.Prelude.{
  Option, map, ℕ, ◌≤◌, ◌<◌, ◌-◌, ◌≡◌, refl, arith, true, List, [], ◌∷◌, none, some, length,
}
use retro_vm.Isa.{
  halt_running, opcode?, decode_op, decode_dst, decode_src, decode_imm, halt_step, halt_breakpoint,
}
use retro_vm.Memory.{zeroed, mem_store_u32, mem_load_u32, mask}
use retro_vm.Machine.{
  request_halt, Vm, copy_in, default_state, new_vm, load_program, take_snapshot, log_store,
}
use retro_vm.Dispatch.{
  advance, label, snapshot_tick, snapshot_fire, make_snapshot, dispatch, tail_dispatch, run_goto,
}
use retro_vm.Word.{join_bytes}
use retro_vm.Dispatch.Validity.{HooksFit}
use retro_vm.Debugger.{
  back, resize, push_ring, Debug, ReplSnapshot, never, insert_breakpoint, breakpoint_pc,
  has_breakpoint, debug_hooks, debug_resume, Outcome, prompt, diverged, running, step, continue_run,
  debug_start, visible_pc,
}
use retro_vm.Debugger.Reached.{
  marked, Reached, started, Reached-RingFits, back-step, back-continue_run,
}
use retro_vm.Debugger.Steps.{Stays, step-Stays, continue_run-AtBreakpoint}
use retro_vm.Debugger.Skips.{step_one, continue_run-marked}
use retro_vm.Debugger.Watch.{fetched}
use retro_vm.Dispatch.Snapshots.{snapped}
use retro_vm.Debugger.Commands.{Undoes}
use retro_vm.Tests.Sessions.{counting, counting-SourceFits}

-- LI R0, 5; STORE R0, 0x100; IN R1; HALT
abbrev pub storing : List ℕ
storing = 5 ∷ 0 ∷ 0 ∷ 0x2C ∷ 0 ∷ 1 ∷ 0 ∷ 0x08 ∷ 0 ∷ 0 ∷ 0x80 ∷ 0x24 ∷ 0 ∷ 0 ∷ 0 ∷ 0 ∷ []

abbrev start_vm : Vm
start_vm = record {
  mem = copy_in zeroed storing;
  state = record default_state { sp = 0xFFFFC; snap_interval = 1; snap_timer = 1 };
  deltas = [];
}

abbrev baseline : ReplSnapshot
baseline = record {
  core = record {
    cycle_count = 0;
    regs = 0 ∷ 0 ∷ 0 ∷ 0 ∷ 0 ∷ 0 ∷ 0 ∷ 0 ∷ [];
    pc = 0;
    sp = 0xFFFFC;
    flags = 0;
    halted = 0;
    deltas = [];
  };
  cursor = 0;
}

abbrev start_debug : Debug ℕ
start_debug = record {
  source = 41;
  cursor = 0;
  target_cycle = never;
  breakpoints = [];
  ring = baseline ∷ [];
  history_index = 0;
}

counting-HooksFit : HooksFit (debug_hooks counting none)
unfolding debug_hooks
counting-HooksFit =
    ((λ c d. (counting-SourceFits d.source).0), (λ c d. (counting-SourceFits d.source).1))

storing_started : debug_start storing 41 ≡ some (start_vm, start_debug)
unfolding debug_start load_program new_vm take_snapshot
storing_started = refl

start-Reached : Reached counting none start_vm start_debug
start-Reached = started storing 41 start_vm start_debug (omega arith) storing_started

-- The prompt that a command comes back to.
abbrev vm_of : Outcome ℕ → Vm
vm_of (prompt vm d) = vm
vm_of (diverged e) = start_vm
vm_of running = start_vm

abbrev debug_of : Outcome ℕ → Debug ℕ
debug_of (prompt vm d) = d
debug_of (diverged e) = start_debug
debug_of running = start_debug

abbrev stepped : Outcome ℕ
stepped = step counting none 9 3 start_vm start_debug

abbrev continued : Outcome ℕ
continued = continue_run counting none 9 start_vm start_debug

-- The three instructions before HALT.
stepped_prompt :
    (stepped ≡ prompt (vm_of stepped) (debug_of stepped)) × ((vm_of stepped).state.cycle_count ≡ 3)
unfolding step continue_run resize has_breakpoint run_goto tail_dispatch dispatch label
    snapshot_tick snapshot_fire make_snapshot take_snapshot mem_load_u32 mask join_bytes opcode?
    decode_op decode_dst decode_src decode_imm log_store mem_store_u32
stepped_prompt = (refl, refl)

continued_prompt :
    (continued ≡ prompt (vm_of continued) (debug_of continued))
    × ((vm_of continued).state.cycle_count ≡ 4)
unfolding step continue_run resize has_breakpoint run_goto tail_dispatch dispatch label
    snapshot_tick snapshot_fire make_snapshot take_snapshot mem_load_u32 mask join_bytes opcode?
    decode_op decode_dst decode_src decode_imm log_store mem_store_u32
continued_prompt = (refl, refl)

back-step_example : Undoes none start_vm start_debug (vm_of stepped) (debug_of stepped)
back-step_example =
    back-step counting none 9 3 start_vm (vm_of stepped) start_debug (debug_of stepped)
      counting-HooksFit start-Reached (omega arith) stepped_prompt.0
      (omega (arith, stepped_prompt.1))

back-continue_run_example : Undoes none start_vm start_debug (vm_of continued) (debug_of continued)
back-continue_run_example =
    back-continue_run counting none 9 start_vm (vm_of continued) start_debug (debug_of continued)
      counting-HooksFit start-Reached (omega arith) continued_prompt.0
      (omega (arith, continued_prompt.1))

Reached-RingFits_example :
    ((debug_of stepped).history_index < length (debug_of stepped).ring)
    × (length (debug_of stepped).ring ≤ 256)
Reached-RingFits_example =
    Reached-RingFits counting none (vm_of stepped) (debug_of stepped) counting-HooksFit (
      Reached.stepped 9 3 start_vm (vm_of stepped) start_debug (debug_of stepped) start-Reached
        stepped_prompt.0)

step-Stays_example : Stays 0 3 (step counting none 3 3 start_vm start_debug)
step-Stays_example =
    step-Stays counting none 3 start_vm start_debug counting-HooksFit start-Reached (omega arith)

-- A breakpoint at IN.
abbrev marked_debug : Debug ℕ
marked_debug = record start_debug { breakpoints = insert_breakpoint (breakpoint_pc 8) [] }

marked-Reached : Reached counting none start_vm marked_debug
marked-Reached = marked 8 start_vm start_debug start-Reached

abbrev caught : Outcome ℕ
caught = continue_run counting none 9 start_vm marked_debug

caught_prompt :
    (caught ≡ prompt (vm_of caught) (debug_of caught))
    × ((vm_of caught).state.halted ≡ halt_breakpoint)
unfolding step continue_run resize has_breakpoint run_goto tail_dispatch dispatch label
    snapshot_tick snapshot_fire make_snapshot take_snapshot mem_load_u32 mask join_bytes opcode?
    decode_op decode_dst decode_src decode_imm log_store mem_store_u32 insert_breakpoint
    breakpoint_pc
caught_prompt = (refl, refl)

continue_run-AtBreakpoint_example :
    has_breakpoint (visible_pc (vm_of caught)) (insert_breakpoint (breakpoint_pc 8) []) ≡ true
continue_run-AtBreakpoint_example =
    continue_run-AtBreakpoint counting none 9 start_vm (vm_of caught) marked_debug (debug_of caught)
      counting-HooksFit marked-Reached caught_prompt.0 caught_prompt.1

step_one_example :
    step counting none 1 1 start_vm start_debug
    ≡ prompt (snapped (advance start_vm) halt_step) (
        push_ring (fetched none start_vm start_debug) (record start_debug { target_cycle = never }))
step_one_example =
    step_one counting none 0 start_vm start_vm start_debug counting-HooksFit start-Reached
      (unfold debug_resume in refl) (omega arith)

-- A breakpoint at the first instruction.
abbrev early_debug : Debug ℕ
early_debug = record start_debug { breakpoints = insert_breakpoint (breakpoint_pc 0) [] }

continue_run-marked_example :
    continue_run counting none 1 start_vm early_debug
    ≡ prompt (snapped (advance start_vm) halt_breakpoint) (
        push_ring (fetched none start_vm early_debug) (record early_debug { target_cycle = never }))
continue_run-marked_example =
    continue_run-marked counting none 0 start_vm start_vm early_debug counting-HooksFit
      (marked 0 start_vm start_debug start-Reached) (unfold debug_resume in refl)
      (unfold has_breakpoint insert_breakpoint breakpoint_pc in refl)

-- "step 2\r\n# x\nbp 0x8\nbogus\nback\nq\n"
abbrev batch : Str
batch =
    b's' ∷ b't' ∷ b'e' ∷ b'p' ∷ 32 ∷ b'2' ∷ 13 ∷ 10 ∷ b'#' ∷ b'x' ∷ 10 ∷ b'b' ∷ b'p' ∷ 32 ∷ b'0'
    ∷ b'x' ∷ b'8' ∷ 10 ∷ b'b' ∷ b'a' ∷ b'c' ∷ b'k' ∷ 10 ∷ b'q' ∷ 10 ∷ []

batch_commands :
    map command_of (split_lines batch)
    ≡ step_cmd 2 ∷ nothing ∷ set_breakpoint 8 ∷ back_cmd 1 ∷ quit_cmd ∷ []
unfolding command_of split_lines scan
batch_commands = refl

abbrev session : Option (List (Str × List ℕ) × Outcome ℕ)
session = cmd_debug counting none 9 storing batch 41

abbrev session_end : Option (List (Str × List ℕ) × Outcome ℕ) → Outcome ℕ
session_end none = running
session_end (some (files, o)) = o

session_prompt :
    session ≡ some ([], prompt (vm_of (session_end session)) (debug_of (session_end session)))
unfolding cmd_debug debug_start load_program new_vm split_lines scan resize has_breakpoint run_goto
    tail_dispatch dispatch label snapshot_tick snapshot_fire make_snapshot take_snapshot
    mem_load_u32 mem_store_u32 mask join_bytes opcode? decode_op decode_dst decode_src decode_imm
    log_store step debug_lines back insert_breakpoint breakpoint_pc
session_prompt = refl

command_of-line_of_example : command_of (line_of (step_cmd 305)) ≡ step_cmd 305
command_of-line_of_example = command_of-line_of (step_cmd 305) (omega arith)

-- A session that sets a breakpoint, and the one that steps on from there.
abbrev marking : Option (List (Str × List ℕ) × Outcome ℕ)
marking = cmd_debug counting none 9 storing (batch_text (set_breakpoint 8 ∷ [])) 41

abbrev stepping : Option (List (Str × List ℕ) × Outcome ℕ)
stepping = cmd_debug counting none 9 storing (batch_text (set_breakpoint 8 ∷ step_cmd 2 ∷ [])) 41

-- Where the two sessions stand, and by how many cycles they differ.
marked_and_stepped :
    (marking ≡ some ([], prompt (vm_of (session_end marking)) (debug_of (session_end marking))))
    × (stepping
        ≡ some ([], prompt (vm_of (session_end stepping)) (debug_of (session_end stepping))))
    × ((vm_of (session_end marking)).state.cycle_count ≡ 0)
    × ((vm_of (session_end stepping)).state.cycle_count ≡ 2)
unfolding cmd_debug debug_start load_program new_vm split_lines scan resize has_breakpoint run_goto
    tail_dispatch dispatch label snapshot_tick snapshot_fire make_snapshot take_snapshot
    mem_load_u32 mem_store_u32 mask join_bytes opcode? decode_op decode_dst decode_src decode_imm
    log_store step debug_lines back insert_breakpoint breakpoint_pc printed put_digits
marked_and_stepped = (refl, refl, refl, refl)

cmd_debug-back_example :
    (let start = vm_of (session_end marking) in
      let k = (vm_of (session_end stepping)).state.cycle_count - start.state.cycle_count in
      (vm2 : Vm) × (d2 : Debug ℕ) × (cmd_debug counting none 9 storing
          (batch_text (set_breakpoint 8 ∷ step_cmd 2 ∷ back_cmd k ∷ []))
          41
        ≡ some ([], prompt vm2 d2))
      × (request_halt vm2 halt_running ≡ request_halt start halt_running)
      × SameCursor none d2.cursor (debug_of (session_end marking)).cursor)
cmd_debug-back_example =
    cmd_debug-back counting none 9 (step_cmd 2) (set_breakpoint 8 ∷ []) storing 41
      (vm_of (session_end marking)) (vm_of (session_end stepping)) (debug_of (session_end marking))
      (debug_of (session_end stepping)) [] [] counting-HooksFit (omega arith) (omega arith) (tt, tt)
      (omega arith) tt marked_and_stepped.0 marked_and_stepped.1
      (omega (arith, marked_and_stepped.2, marked_and_stepped.3))
      (omega (arith, marked_and_stepped.2, marked_and_stepped.3))
