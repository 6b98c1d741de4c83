-- ===== src/Tests/Savepoints.antt =====
-- A replay of a small program, saved before its second input and restored.
use retro_vm.Prelude.{ℕ, ◌+◌, ◌≡◌, refl, arith, List, [], ◌∷◌, some, true, All}
use retro_vm.Word.{IsU8, join_bytes}
use retro_vm.Isa.{halt_checkpoint, opcode?, decode_op, decode_dst, decode_src, decode_imm}
use retro_vm.Memory.{zeroed, mask, mem_load_u32}
use retro_vm.Machine.{Vm, copy_in, new_vm, load_program, take_snapshot}
use retro_vm.Dispatch.{
  advance, make_snapshot, snapshot_fire, snapshot_tick, label, dispatch, tail_dispatch, run_goto,
}
use retro_vm.Dispatch.Validity.{IsValid}
use retro_vm.Trace.{
  TraceFrame, TraceReader, flush, open_trace, frame_at, frame_of, read_u32_le, write_u32_le,
  frames_bytes, frame_bytes,
}
use retro_vm.Trace.Codec.{open_trace-flush, frame_at-flush}
use retro_vm.Session.{consume, cmd_replay}
use retro_vm.Checkpoint.{checkpoint_save, regs_bytes}
use retro_vm.Savepoint.{
  checkpoint_of, save_sink, save_hooks, saved_at, save_from, cmd_save, end_restore, cmd_restore,
}
use retro_vm.Savepoint.Resume.{booted}
use retro_vm.Savepoint.Reach.{Reaches}
use retro_vm.Savepoint.RoundTrip.{resumed, cmd_restore-cmd_save}
use retro_vm.Savepoint.Agreement.{Agree, cmd_restore-cmd_replay}

-- IN R0; RAND R1; HALT
abbrev reading : List ℕ
reading = 0 ∷ 0 ∷ 0 ∷ 0x24 ∷ 0 ∷ 0 ∷ 0x80 ∷ 0x28 ∷ 0 ∷ 0 ∷ 0 ∷ 0 ∷ []

abbrev inputs : List TraceFrame
inputs =
    record { cycle = 1; opcode = 9; payload = 41 }
    ∷ record { cycle = 2; opcode = 10; payload = 42 }
    ∷ []

abbrev reader : TraceReader
reader = record { mapped = flush inputs; frame_count = 2; version = 1 }

-- The VM that stops before RAND.
abbrev halfway : Vm
halfway = record {
  mem = copy_in zeroed reading;
  state = record {
    cycle_count = 2;
    regs = 41 ∷ 0 ∷ 0 ∷ 0 ∷ 0 ∷ 0 ∷ 0 ∷ 0 ∷ [];
    pc = 8;
    sp = 0xFFFFC;
    flags = 0;
    halted = 6;
    snap_interval = 1;
    snap_timer = 1;
  };
  deltas = [];
}

abbrev saved_file : List ℕ
saved_file =
    b'R' ∷ b'V' ∷ b'M' ∷ b'S' ∷ b'T' ∷ b'A' ∷ b'T' ∷ b'E' ∷ 1 ∷ 0 ∷ 0 ∷ 0 ∷ 1 ∷ 0 ∷ 0 ∷ 0 ∷ 6 ∷ 0
    ∷ 0 ∷ 0 ∷ 0 ∷ 0 ∷ 0 ∷ 0 ∷ 41 ∷ 0 ∷ 0 ∷ 0 ∷ 0 ∷ 0 ∷ 0 ∷ 0 ∷ 0 ∷ 0 ∷ 0 ∷ 0 ∷ 0 ∷ 0 ∷ 0 ∷ 0 ∷ 0 ∷ 0
    ∷ 0 ∷ 0 ∷ 0 ∷ 0 ∷ 0 ∷ 0 ∷ 0 ∷ 0 ∷ 0 ∷ 0 ∷ 0 ∷ 0 ∷ 0 ∷ 0 ∷ 4 ∷ 0 ∷ 0 ∷ 0 ∷ 0xFC ∷ 0xFF ∷ 0x0F ∷ 0
    ∷ []

mapped_bytes : All IsU8 (flush inputs)
unfolding flush write_u32_le frames_bytes frame_bytes
mapped_bytes = omega arith

saves : cmd_save true 9 reading (flush inputs) 1 ≡ saved_at halfway (some saved_file)
unfolding cmd_save save_from load_program new_vm save_hooks save_sink consume run_goto tail_dispatch
    dispatch label snapshot_tick snapshot_fire make_snapshot take_snapshot mem_load_u32 mask
    join_bytes opcode? decode_op decode_dst decode_src decode_imm open_trace frame_at frame_of flush
    read_u32_le write_u32_le frames_bytes frame_bytes checkpoint_of checkpoint_save regs_bytes
saves = refl

cmd_restore-cmd_save_example :
    (before : Vm) × IsValid before
    × (halfway.mem ≡ before.mem)
    × (halfway.state ≡ record ((advance before).state) {
      halted = halt_checkpoint;
      snap_timer = before.state.snap_interval;
    })
    × ((more : ℕ)
        → cmd_restore more reading (flush inputs) saved_file
          ≡ end_restore 2 (resumed more reading reader before 1))
    × Reaches (frame_at reader) (booted reading) before 1
cmd_restore-cmd_save_example =
    cmd_restore-cmd_save true 9 reading (flush inputs) saved_file reader
      (record { cycle = 2; opcode = 10; payload = 42 }) 1 halfway (omega arith) mapped_bytes
      (omega arith) (open_trace-flush inputs) (frame_at-flush inputs 1 (omega arith)) (omega arith)
      saves

cmd_restore-cmd_replay_example :
    (n : ℕ) × ((more : ℕ)
      → Agree
          (cmd_replay (n + more) reading (flush inputs))
          (cmd_restore more reading (flush inputs) saved_file))
cmd_restore-cmd_replay_example =
    cmd_restore-cmd_replay true 9 reading (flush inputs) saved_file reader
      (record { cycle = 2; opcode = 10; payload = 42 }) 1 halfway (omega arith) mapped_bytes
      (omega arith) (open_trace-flush inputs) (frame_at-flush inputs 1 (omega arith)) (omega arith)
      saves refl
