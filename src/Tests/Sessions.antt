-- ===== src/Tests/Sessions.antt =====
-- A recording of a program with inputs, and its replay.
use retro_vm.Prelude.{ℕ, ◌+◌, ◌%◌, ◌^◌, ◌≡◌, refl, arith, List, [], ◌∷◌}
use retro_vm.Word.{join_bytes, sign_bit}
use retro_vm.Isa.{opcode?, decode_op, decode_dst, decode_src, decode_imm, flags_of}
use retro_vm.Memory.{zeroed, mask, mem_load_u32}
use retro_vm.Machine.{Vm, copy_in, new_vm, load_program}
use retro_vm.Dispatch.{label, snapshot_tick, dispatch, tail_dispatch, run_goto}
use retro_vm.Trace.{TraceFrame, flush}
use retro_vm.Session.{Source, record_hooks, recorded, verified, cmd_record, cmd_replay}
use retro_vm.Session.Growth.{SourceFits}
use retro_vm.Session.Replay.{cmd_replay-cmd_record}

-- IN R0; RAND R1; ADD R0, R1; HALT
abbrev pub adding : List ℕ
adding = 0 ∷ 0 ∷ 0 ∷ 0x24 ∷ 0 ∷ 0 ∷ 0x80 ∷ 0x28 ∷ 0 ∷ 0 ∷ 0x10 ∷ 0x0C ∷ 0 ∷ 0 ∷ 0 ∷ 0 ∷ []

-- Inputs that count up.
abbrev pub counting : Source ℕ
counting = record { read_in = λ s. (s % 2 ^ 32, s + 1); next_rand = λ s. (s % 2 ^ 32, s + 1) }

pub counting-SourceFits : SourceFits counting
counting-SourceFits s = omega arith

abbrev pub added : Vm
added = record {
  mem = copy_in zeroed adding;
  state = record {
    cycle_count = 4;
    regs = 83 ∷ 42 ∷ 0 ∷ 0 ∷ 0 ∷ 0 ∷ 0 ∷ 0 ∷ [];
    pc = 16;
    sp = 0xFFFFC;
    flags = 0;
    halted = 1;
    snap_interval = 0;
    snap_timer = 0;
  };
  deltas = [];
}

abbrev pub drawn : List TraceFrame
drawn =
    record { cycle = 1; opcode = 9; payload = 41 }
    ∷ record { cycle = 2; opcode = 10; payload = 42 }
    ∷ []

pub record_adding : cmd_record counting 9 adding 41 ≡ recorded 1 added (flush drawn)
unfolding cmd_record load_program new_vm record_hooks run_goto tail_dispatch dispatch label
    snapshot_tick mem_load_u32 mask join_bytes opcode? decode_op decode_dst decode_src decode_imm
    flags_of sign_bit flush
record_adding = refl

cmd_replay-cmd_record_example : cmd_replay 9 adding (flush drawn) ≡ verified 1 added
cmd_replay-cmd_record_example =
    cmd_replay-cmd_record counting counting-SourceFits 9 adding 41 1 added (flush drawn)
      (omega arith) record_adding
