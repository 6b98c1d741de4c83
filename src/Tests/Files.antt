-- ===== src/Tests/Files.antt =====
-- The instruction codec, the arena and the file formats at concrete values.
use retro_vm.Prelude.{if◌then◌else◌, ltb, ℕ, ◌≡◌, refl, arith, List, [], ◌∷◌, ◌++◌, get_elem?, take}
use retro_vm.Word.{IsU8}
use retro_vm.Isa.{encode, decode_op, decode_dst, decode_src, decode_imm}
use retro_vm.Isa.Codec.{decode-encode, encode-decode}
use retro_vm.Memory.{IsMemory, MemDelta, zeroed, mask, mem_load_u32, mem_store_u32}
use retro_vm.Memory.Laws.{mem_load_u32-mem_store_u32, mem_store_u32_undo}
use retro_vm.Machine.{log_store}
use retro_vm.Machine.Log.{undo_deltas, undo_deltas-log_store}
use retro_vm.Trace.{TraceFrame, flush, opened, open_trace, frame_at}
use retro_vm.Trace.Codec.{open_trace-flush, frame_at-flush}
use retro_vm.Checkpoint.{CheckpointState, checkpoint_save, checkpoint_load, loaded, short_read}
use retro_vm.Checkpoint.Codec.{checkpoint_load-checkpoint_save, checkpoint_load-take}

-- STORE R2, 0x100
encode_store : encode 2 2 0 0x100 ≡ 0x09000100
unfolding encode
encode_store = refl

decode-encode_example :
    (decode_op (encode 2 2 0 0x100) ≡ 2)
    × (decode_dst (encode 2 2 0 0x100) ≡ 2)
    × (decode_src (encode 2 2 0 0x100) ≡ 0)
    × (decode_imm (encode 2 2 0 0x100) ≡ 0x100)
decode-encode_example =
    decode-encode 2 2 0 0x100 (omega arith) (omega arith) (omega arith) (omega arith)

abbrev add_word : ℕ
add_word = 0x0C100000

encode-decode_example :
    encode (decode_op add_word) (decode_dst add_word) (decode_src add_word) (decode_imm add_word)
    ≡ add_word
encode-decode_example = encode-decode add_word (omega arith)

zeroed_bytes : IsMemory zeroed
zeroed_bytes a = omega arith

-- A word across the end of the arena.
wraps : mem_store_u32 zeroed 0xFFFFE 0x11223344 1 ≡ 0x11
unfolding mem_store_u32 mask
wraps = refl

mem_load_u32-mem_store_u32_example :
    mem_load_u32 (mem_store_u32 zeroed 0xFFFFE 0x11223344) 0xFFFFE ≡ 0x11223344
mem_load_u32-mem_store_u32_example =
    mem_load_u32-mem_store_u32 zeroed 0xFFFFE 0x11223344 zeroed_bytes (omega arith)

mem_store_u32_undo_example :
    mem_store_u32 (mem_store_u32 zeroed 0x100 7) 0x100 (mem_load_u32 zeroed 0x100) ≡ zeroed
mem_store_u32_undo_example = mem_store_u32_undo zeroed 0x100 7 zeroed_bytes

-- Two stores of one cell make one entry.
folded :
    log_store zeroed 0x1004 (log_store zeroed 0x1004 [])
    ≡ record { run_count = 2; page = 1; offset = 4; old_value = 0 } ∷ []
unfolding log_store mem_load_u32 mask retro_vm.Word.join_bytes
folded = refl

abbrev burst : List MemDelta
burst = record { run_count = 3; page = 1; offset = 4; old_value = 9 } ∷ []

undo_deltas-log_store_example :
    undo_deltas (mem_store_u32 zeroed 0x1004 5) (log_store zeroed 0x1004 burst)
    ≡ undo_deltas zeroed burst
undo_deltas-log_store_example =
    undo_deltas-log_store zeroed 0x1004 5 burst (omega arith) zeroed_bytes (omega arith)

abbrev two_frames : List TraceFrame
two_frames =
    record { cycle = 1; opcode = 9; payload = 42 }
    ∷ record { cycle = 2; opcode = 10; payload = 0xDEADBEEF }
    ∷ []

open_trace-flush_example :
    open_trace (flush two_frames)
    ≡ opened (record { mapped = flush two_frames; frame_count = 2; version = 1 })
open_trace-flush_example = open_trace-flush two_frames

frame_at-flush_example :
    frame_at (record { mapped = flush two_frames; frame_count = 2; version = 1 }) 1
    ≡ get_elem? two_frames 1
frame_at-flush_example = frame_at-flush two_frames 1 (omega arith)

abbrev at_four : CheckpointState
at_four = record {
  frame_index = 4;
  halted = 6;
  flags = 2;
  regs = 1 ∷ 2 ∷ 3 ∷ 4 ∷ 5 ∷ 6 ∷ 7 ∷ 0xFFFFFFFF ∷ [];
  pc = 0x24;
  sp = 0xFFFFC;
}

checkpoint_load-checkpoint_save_example :
    checkpoint_load (checkpoint_save at_four ++ 1 ∷ 2 ∷ []) ≡ loaded at_four
checkpoint_load-checkpoint_save_example =
    checkpoint_load-checkpoint_save at_four (1 ∷ 2 ∷ []) (omega arith)

checkpoint_load-take_example :
    checkpoint_load (take 60 (checkpoint_save at_four))
    ≡ (if ltb 60 64 then short_read else loaded at_four)
checkpoint_load-take_example = checkpoint_load-take at_four 60 (omega arith)
