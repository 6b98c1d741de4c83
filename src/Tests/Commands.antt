-- ===== src/Tests/Commands.antt =====
-- Calls of the program, the offline readers, the disassembler and the benchmarks at concrete inputs.
use retro_vm.Prelude.{
  ℕ, ◌≡◌, ◌↔◌, refl, ap, arith, true, List, [], ◌∷◌, ◌++◌, none, some, take, All,
}
use retro_vm.Word.{join_bytes, sign_bit, IsU8}
use retro_vm.Isa.{opcode?, decode_op, decode_dst, decode_src, decode_imm, encode, flags_of}
use retro_vm.Memory.{mask, mem_load_u32, mem_store_u32}
use retro_vm.Machine.{new_vm, load_program}
use retro_vm.Machine.{log_store}
use retro_vm.Dispatch.{label, snapshot_tick, dispatch, tail_dispatch, run_goto}
use retro_vm.Trace.{flush}
use retro_vm.Text.{
  Str, pop_front, pop_back, scan, word_of, after_word, trim, strip_comment, strip_comma, atoi,
  parse_reg,
}
use retro_vm.Text.Numerals.{codes}
use retro_vm.CommandLine.{parse_args, record_run, usage, trace}
use retro_vm.CommandLine.Options.{whole_number, frame_options}
use retro_vm.CommandLine.Bounds.{InRange, parse_args-InRange}
use retro_vm.Checkpoint.{CheckpointState, regs_bytes, checkpoint_save}
use retro_vm.Checkpoint.Codec.{StateFits, checkpoint_load-checkpoint_save}
use retro_vm.Checkpoint.Resave.{checkpoint_save-checkpoint_load}
use retro_vm.Inspect.{cmd_inspect_diff, cmd_inspect_trace, Summary, summary_shown}
use retro_vm.Inspect.Equal.{cmd_inspect_diff-equal}
use retro_vm.Inspect.Counts.{IsRecording, cmd_inspect_trace-cmd_record}
use retro_vm.Assembler.{
  word, assemble_line, assemble_words, find_opcode, read_operands, put_word, put_words,
}
use retro_vm.Disassembler.{word_text}
use retro_vm.Disassembler.RoundTrip.{assemble_line-word_text}
use retro_vm.Benchmark.{cmd_benchmark, cmd_benchmark_dispatch_cmp}
use retro_vm.Benchmark.Exit.{cmd_benchmark-exit}
use retro_vm.Program.{ProgramEnd, exits, end_recorded, default_hooks, main, perform}
use retro_vm.Program.Store.{Files, trace_path, write_file}
use retro_vm.Program.Demo.{demo_program, run_builtin_demo}
use retro_vm.Program.EndToEnd.{main_replay-main_record}
use retro_vm.Tests.Sessions.{adding, counting, counting-SourceFits, added, drawn, record_adding}

abbrev seeded_call : List Str
seeded_call = codes "record" ∷ codes "a.bin" ∷ codes "--seed=123" ∷ []

reads_seed : parse_args seeded_call ≡ record_run (codes "a.bin") 123
unfolding parse_args whole_number pop_front scan
reads_seed = refl

-- One more than the largest seed, and a depth of the whole ring.
refuses_seed : parse_args (codes "record" ∷ codes "a" ∷ codes "--seed=4294967296" ∷ []) ≡ usage
unfolding parse_args whole_number pop_front scan
refuses_seed = refl

refuses_depth : parse_args (codes "bench-back" ∷ codes "7" ∷ codes "256" ∷ []) ≡ usage
unfolding parse_args whole_number pop_front scan
refuses_depth = refl

-- A minus sign is read.
reads_minus :
    parse_args (codes "trace" ∷ codes "t" ∷ codes "--frame=-1" ∷ [])
    ≡ trace (codes "t") (some (0xFFFFFFFFFFFFFFFF))
unfolding parse_args whole_number frame_options pop_front scan
reads_minus = refl

parse_args-InRange_example : InRange (parse_args seeded_call)
parse_args-InRange_example = parse_args-InRange seeded_call

abbrev disk : Files
disk = write_file (codes "a.bin") adding (λ path. none)

abbrev call : List Str → Files → ProgramEnd
call = main counting (λ seed. 41) 0 [] (λ path. true) true 9

abbrev disk_after : Files
disk_after = write_file (trace_path (codes "a.bin")) (flush drawn) disk

records : call seeded_call disk ≡ exits 0 disk_after
unfolding main perform parse_args whole_number pop_front scan
records = ap (end_recorded (λ path. true) disk (codes "a.bin")) record_adding

main_replay-main_record_example :
    call (codes "replay" ∷ codes "a.bin" ∷ trace_path (codes "a.bin") ∷ []) disk_after
    ≡ exits 0 disk_after
main_replay-main_record_example =
    main_replay-main_record counting (λ seed. 41) 0 [] (λ path. true) true 9 counting-SourceFits
      (codes "a.bin") (codes "--seed=123" ∷ []) disk disk_after adding 0 refl (omega arith) records
      (omega arith)

abbrev at_six : CheckpointState
at_six = record {
  frame_index = 6;
  halted = 6;
  flags = 1;
  regs = 1 ∷ 2 ∷ 3 ∷ 4 ∷ 5 ∷ 6 ∷ 7 ∷ 0xFFFFFFFF ∷ [];
  pc = 0x20;
  sp = 0xFFFFC;
}

abbrev long_file : List ℕ
long_file = checkpoint_save at_six ++ 7 ∷ []

abbrev short_file : List ℕ
short_file = checkpoint_save at_six ++ []

long_file_bytes : All IsU8 long_file
unfolding checkpoint_save regs_bytes
long_file_bytes = omega arith

short_file_bytes : All IsU8 short_file
unfolding checkpoint_save regs_bytes
short_file_bytes = omega arith

at_six-StateFits : StateFits at_six
at_six-StateFits = omega arith

checkpoint_save-checkpoint_load_example : checkpoint_save at_six ≡ take 64 long_file
checkpoint_save-checkpoint_load_example =
    checkpoint_save-checkpoint_load long_file at_six long_file_bytes
      (checkpoint_load-checkpoint_save at_six (7 ∷ []) at_six-StateFits)

cmd_inspect_diff-equal_example :
    (cmd_inspect_diff long_file short_file ≡ some []) ↔ (take 64 long_file ≡ take 64 short_file)
cmd_inspect_diff-equal_example =
    cmd_inspect_diff-equal long_file short_file at_six at_six long_file_bytes short_file_bytes
      (checkpoint_load-checkpoint_save at_six (7 ∷ []) at_six-StateFits)
      (checkpoint_load-checkpoint_save at_six [] at_six-StateFits)

cmd_inspect_trace-cmd_record_example :
    (shows : Summary) × (cmd_inspect_trace (flush drawn) none ≡ summary_shown shows)
    × IsRecording shows
cmd_inspect_trace-cmd_record_example =
    cmd_inspect_trace-cmd_record counting counting-SourceFits 9 adding 41 1 added (flush drawn)
      (omega arith) record_adding

-- ADD R7, R2
assembles_add : assemble_line (codes "add r7, r2 ") ≡ word 0x0FA00000
unfolding assemble_line assemble_words trim strip_comment pop_back pop_front strip_comma word_of
    after_word find_opcode read_operands parse_reg atoi scan encode
assembles_add = refl

assemble_line-word_text_example : assemble_line (word_text 0x0FA00000) ≡ word 0x0FA00000
unfolding decode_op
assemble_line-word_text_example =
    assemble_line-word_text (codes "add r7, r2 ") 0x0FA00000 assembles_add

cmd_benchmark-exit_example :
    (cmd_benchmark (default_hooks counting) 10000 3 5 ≡ some 0)
    × (cmd_benchmark_dispatch_cmp (default_hooks counting) 10000 3 5 ≡ some 0)
cmd_benchmark-exit_example = cmd_benchmark-exit (default_hooks counting) 10000 (omega arith) 3 5

demo_passes : run_builtin_demo (default_hooks counting) 7 5 ≡ some 0
unfolding run_builtin_demo demo_program put_words put_word encode load_program new_vm run_goto
    tail_dispatch dispatch label snapshot_tick mem_load_u32 mem_store_u32 log_store mask join_bytes
    opcode? decode_op decode_dst decode_src decode_imm flags_of sign_bit
demo_passes = refl
