-- ===== src/Lib.antt =====
-- RetroVM: a register machine with twelve instructions whose runs can be recorded, replayed,
-- checkpointed and rolled back. This library models the engine under src/ and include/retrovm/
-- and proves the properties that the tools built on it rely on.
--
-- The parts of the program, and the files that model them:
--
--   Isa         include/retrovm/opcodes.hpp: the opcodes, `encode` and `decode_*`, halt reasons,
--               flag bits.
--   Memory      the arena of class VM with `mem_load_u32`, `mem_store_u32` (src/vm.cpp) and
--               `MemDelta`, `VM::apply_old_value` (include/retrovm/vm.hpp).
--   Machine     the state of class VM and the operations that run no instruction: `reset_state`,
--               `reset_cpu_for_reuse`, `load_program`, `take_snapshot`, `set_state`,
--               `request_halt`, `set_snapshot_interval`, and the delta log that STORE keeps.
--   Hooks       `IOHooks` and `SnapshotSink`, and the ways in which a piece of the loop can end.
--   Dispatch    `VM::run` as the chain of TAIL_DISPATCH and labels; Dispatch/Naive is the loop
--               with the switch. Each label and each case is a definition of its own or a clause.
--   Trace       include/retrovm/trace.hpp, src/trace.cpp: writer, file format and reader.
--   Checkpoint  include/retrovm/checkpoint.hpp, src/checkpoint.cpp: the `.state` file.
--   Assembler   `assemble_file` of src/assembler.cpp; Text has its string helpers and the
--               functions of the C library that they call.
--   Session     `cmd_record` and `cmd_replay` of src/main.cpp, from the bytes of the program and
--               of the trace to the verdict.
--   Savepoint   `cmd_save` and `cmd_restore` of src/main.cpp, likewise.
--   Debugger    `cmd_debug` of src/main.cpp: its state, the sink with its snapshot ring, and the
--               commands `step`, `continue`, `back`, `breakpoint` and `save`. Debugger/Console reads
--               the command lines and runs a batch file, Debugger/Phrases writes such lines, and
--               Debugger/Reached has the relation of the states that the commands lead to.
--   Snapfile    `cmd_snapshot` of src/main.cpp and the files that it writes, whose layout is in
--               include/retrovm/vm.hpp.
--   Inspect     `cmd_inspect`, `cmd_inspect_diff` and `cmd_inspect_trace` of src/main.cpp, up to
--               the rows and numbers that they print.
--   Disassembler `disassemble_one` of src/main.cpp, up to the bytes that it prints.
--   Benchmark   `cmd_benchmark` and `cmd_benchmark_dispatch_cmp` of src/main.cpp, and, in
--               Benchmark/Rewind, `cmd_benchmark_backn` and `cmd_benchmark_back_sweep`.
--   CommandLine the arguments of `main` in src/main.cpp, as the call that they ask for.
--   Program     `main` of src/main.cpp, from the arguments and the files to the exit code and the
--               files that are left; Program/Demo has `run_builtin_demo`, Program/Store the files.
--
-- Prelude, Bits, Word and Bytes hold what these share: lists, tests, bit operations, words of a
-- fixed width and little-endian fields. The files below a part hold its theorems, and Tests the
-- runs and theorems at concrete inputs.
--
-- How the parts interact: the loop reads and writes the arena and the state, calls the hooks for
-- IN and RAND and the sink for a snapshot. The hooks and the sink act on a state of the world, a
-- type `W` that each theorem leaves open or that a command fixes: the recorder's is its input
-- source with the frames written so far, the replayer's is the cursor into the trace.
--
-- Words are native numbers, and every operation that can leave its width wraps by a remainder of
-- `2 ^ w`. The arena is a function from an address to its byte; all accesses mask the address to
-- 20 bits. A file is the sequence of its bytes. A register index decoded from an instruction is
-- below 8, so that the access to `regs` needs no case of its own.
--
-- Fuel: a program of the machine may run for ever, so `run_goto` and `run_naive` take the number of
-- instructions to execute, and end in `next` when the program has not stopped by then. Fuel bounds
-- nothing else: theorems about a run hold for every fuel, and those about a command that ends need
-- no more of it than that command had, but that a replay from the start executes the instructions
-- before a savepoint as well.
--
-- The workload of the benchmarks takes 9219 instructions, so that this is the fuel that its runs need.
--
-- Not modelled: the operating system's part of file access (map, sync, close), the allocation of the
-- arena, printing other than that of the disassembler, and the clock of the benchmarks. That a path
-- can be opened for reading or for writing is a parameter of Program, and so are what stdin and the
-- random generator deliver (`Source`), the lines typed at the prompt of the debugger, and whether
-- the rounds of `--bench-back` are fast enough.
pub mod Prelude
pub mod Bits
pub mod Word
pub mod Isa
pub mod Memory
pub mod Machine
pub mod Hooks
pub mod Dispatch
pub mod Bytes
pub mod Trace
pub mod Session
pub mod Checkpoint
pub mod CommandLine
pub mod Text
pub mod Assembler
pub mod Savepoint
pub mod Debugger
pub mod Snapfile
pub mod Inspect
pub mod Benchmark
pub mod Program
pub mod Disassembler
mod Tests
