-- ===== src/Inspect.antt =====
-- src/main.cpp, `cmd_inspect`, `cmd_inspect_diff` and `cmd_inspect_trace`: what the offline readers
-- print, as the rows and the numbers of the output. The layout of a row is left out.
pub mod Equal
pub mod Counts
use retro_vm.Prelude.{
  ℕ, suc, ◌+◌, Bool, List, [], ◌∷◌, ◌++◌, Option, none, some, bit_and, length, get_or, take, ◌==◌,
  if◌then◌else◌,
}
use retro_vm.Word.{sub64}
use retro_vm.Isa.{op_code, op_in, op_rand}
use retro_vm.Text.{Str}
use retro_vm.Trace.{
  TraceFrame, TraceError, TraceReader, Opened, opened, refused, open_trace, frame_at,
}
use retro_vm.Checkpoint.{CheckpointState, Loaded, checkpoint_load}

-- The three characters of the flags.
unfoldable pub zcs : ℕ → Str
zcs flags =
    (if bit_and flags 1 == 0 then b'-' else b'Z')
    ∷ (if bit_and flags 2 == 0 then b'-' else b'C')
    ∷ (if bit_and flags 4 == 0 then b'-' else b'S')
    ∷ []

-- The rows of `inspect`, for a state that loads.
pub record Inspected : Type 0 where
  pub frame_index : ℕ
  pub halt_reason : ℕ
  pub pc : ℕ
  pub sp : ℕ
  pub flags : Str
  pub regs : List ℕ

unfoldable pub inspected : CheckpointState → Inspected
unfolding zcs
inspected c = record {
  frame_index = c.frame_index;
  halt_reason = c.halted;
  pc = c.pc;
  sp = c.sp;
  flags = zcs c.flags;
  regs = take 8 c.regs;
}

-- `!checkpoint_load(path, state)` is the exit code 1.
abbrev pub loaded_state : Loaded → Option CheckpointState
loaded_state (Loaded.loaded c) = some c
loaded_state Loaded.short_read = none
loaded_state Loaded.bad_magic = none
loaded_state (Loaded.bad_version v) = none

unfoldable pub cmd_inspect : List ℕ → Option Inspected
unfolding inspected
cmd_inspect state = elim (loaded_state (checkpoint_load state)) [
  | none ↦ none
  | some c ↦ some (inspected c)
]

-- The rows of `inspect --diff`, each with the value of both states.
pub data Row : Type 0 where
  index_row reason_row pc_row sp_row : ℕ → ℕ → Row
  flags_row : Str → Str → Row
  reg_row : ℕ → ℕ → ℕ → Row

abbrev pub unless_equal : ℕ → ℕ → Row → List Row → List Row
unless_equal a b row rows = if a == b then rows else row ∷ rows

-- The loop over the registers, from number `i` on.
unfoldable pub reg_rows : ℕ → ℕ → List ℕ → List ℕ → List Row
reg_rows ℕ.zero i a b = []
reg_rows (suc n) i a b =
    unless_equal (get_or a i 0) (get_or b i 0) (reg_row i (get_or a i 0) (get_or b i 0))
      (reg_rows n (suc i) a b)

unfoldable pub diff_rows : CheckpointState → CheckpointState → List Row
unfolding reg_rows zcs
diff_rows a b = unless_equal a.frame_index b.frame_index (index_row a.frame_index b.frame_index) (
    unless_equal a.halted b.halted (reason_row a.halted b.halted) (
      unless_equal a.pc b.pc (pc_row a.pc b.pc) (
        unless_equal a.sp b.sp (sp_row a.sp b.sp) (
          unless_equal a.flags b.flags (flags_row (zcs a.flags) (zcs b.flags))
            (reg_rows 8 0 a.regs b.regs)))))

-- The rows that are printed; with none of them, the line "(no differing fields)".
unfoldable pub cmd_inspect_diff : List ℕ → List ℕ → Option (List Row)
unfolding diff_rows
cmd_inspect_diff a b = elim (loaded_state (checkpoint_load a)) [
  | none ↦ none
  | some x ↦ elim (loaded_state (checkpoint_load b)) [ none ↦ none | some y ↦ some (diff_rows x y) ]
]

-- The aggregates of a trace.
pub record Totals : Type 0 where
  pub first_cycle : ℕ
  pub last_cycle : ℕ
  pub op_in_count : ℕ
  pub op_rand_count : ℕ
  pub op_other_count : ℕ

abbrev pub no_frames : Totals
no_frames = record {
  first_cycle = 0;
  last_cycle = 0;
  op_in_count = 0;
  op_rand_count = 0;
  op_other_count = 0;
}

-- The body of the loop at frame `i`.
unfoldable pub count_frame : ℕ → TraceFrame → Totals → Totals
count_frame i f t =
    let seen = record t {
      first_cycle = if i == 0 then f.cycle else t.first_cycle;
      last_cycle = f.cycle;
    } in
    if f.opcode == op_code op_in
    then record seen { op_in_count = suc t.op_in_count }
    else if f.opcode == op_code op_rand
    then record seen { op_rand_count = suc t.op_rand_count }
    else record seen { op_other_count = suc t.op_other_count }

-- The loop over `n` frames from number `i` on; a frame that is not there ends it.
unfoldable pub count_frames : (ℕ → Option TraceFrame) → ℕ → ℕ → Totals → Totals
unfolding count_frame
count_frames frame ℕ.zero i t = t
count_frames frame (suc n) i t = elim (frame i) [
  | none ↦ t
  | some f ↦ count_frames frame n (suc i) (count_frame i f t)
]

pub record Summary : Type 0 where
  pub size_bytes : ℕ
  pub version : ℕ
  pub frame_count : ℕ
  pub totals : Totals
  pub cycle_delta : ℕ

pub data TraceShown : Type 0 where
  frame_shown : ℕ → TraceFrame → TraceShown
  summary_shown : Summary → TraceShown
  cannot_open : TraceError → TraceShown
  out_of_range : TraceShown

unfoldable pub summary : TraceReader → Summary
unfolding count_frames
summary reader =
    let t = count_frames (frame_at reader) reader.frame_count 0 no_frames in
    record {
      size_bytes = length reader.mapped;
      version = reader.version;
      frame_count = reader.frame_count;
      totals = t;
      cycle_delta = sub64 t.last_cycle t.first_cycle;
    }

-- With a number the frame, and without one the whole trace.
unfoldable pub shown : TraceReader → Option ℕ → TraceShown
unfolding summary
shown reader none = summary_shown (summary reader)
shown reader (some i) = elim (frame_at reader i) [ none ↦ out_of_range | some f ↦ frame_shown i f ]

unfoldable pub cmd_inspect_trace : List ℕ → Option ℕ → TraceShown
unfolding shown
cmd_inspect_trace trace number = elim (open_trace trace) [
  | refused e ↦ cannot_open e
  | opened reader ↦ shown reader number
]
