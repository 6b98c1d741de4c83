-- ===== src/Debugger/Console.antt =====
-- src/main.cpp, `parse_numeric_arg` and the loop of `cmd_debug_run`: the lines that the debugger
-- reads, as commands, and a session over them. A string is the sequence of its bytes.
use retro_vm.Prelude.{
  ℕ, Bool, true, false, ◌&&◌, ◌||◌, List, [], ◌∷◌, Option, none, some, ◌==◌, if◌then◌else◌, drop,
}
use retro_vm.Text.{Str, is_space, is_empty, pop_back, pop_front, ends, split_lines}
use retro_vm.Text.Numerals.{strtoull}
use retro_vm.Machine.{Vm}
use retro_vm.Trace.{same_bytes, TraceReader}
use retro_vm.Session.{Source}
use retro_vm.Checkpoint.{checkpoint_save}
use retro_vm.Debugger.{
  Debug, insert_breakpoint, erase_breakpoint, breakpoint_pc, Outcome, prompt, diverged, running,
  step, continue_run, back, debug_checkpoint, debug_start,
}

abbrev pub hex_prefix : Str → Bool
hex_prefix (z ∷ x ∷ cs) = z == b'0' && (x == b'x' || x == b'X')
hex_prefix s = false

-- `none` is the result `false`.
unfoldable pub parse_numeric_arg : Str → Option ℕ
unfolding strtoull
parse_numeric_arg tok =
    let base = if hex_prefix tok then 16 else 10 in
    let digits = if hex_prefix tok then drop 2 tok else tok in
    if is_empty tok then none else if ends digits then none else elim (strtoull base digits) [
      | none ↦ none
      | some (v, rest) ↦ if ends rest then some v else none
    ]

-- `while (iss >> word) tok.push_back(word)`.
abbrev pub at_space : Str → Bool
at_space [] = true
at_space (c ∷ cs) = is_space c

unfoldable pub tokens : Str → List Str
tokens [] = []
tokens (c ∷ cs) =
    let rest = tokens cs in
    if is_space c
    then rest
    else if at_space cs
    then (c ∷ []) ∷ rest
    else elim rest [ [] ↦ (c ∷ []) ∷ [] | w ∷ ws ↦ (c ∷ w) ∷ ws ]

-- The branches of the dispatch. `complaint` prints a diagnostic, and `nothing` is a blank line or a
-- comment.
pub data Command : Type 0 where
  nothing complaint help_cmd regs_cmd where_cmd list_breakpoints continue_cmd quit_cmd : Command
  step_cmd back_cmd set_breakpoint delete_breakpoint : ℕ → Command
  save_cmd : Str → Command

-- A count, 1 where it is left out, or an address.
abbrev pub numeric : (ℕ → Command) → Str → Command
numeric k tok = elim (parse_numeric_arg tok) [ none ↦ complaint | some n ↦ k n ]

abbrev pub counted : (ℕ → Command) → List Str → Command
counted k [] = k 1
counted k (tok ∷ toks) = numeric k tok

abbrev pub delete_flag : Str
delete_flag = b'-' ∷ b'd' ∷ []

abbrev pub breakpoint_args : List Str → Command
breakpoint_args [] = list_breakpoints
breakpoint_args (a ∷ []) = if same_bytes a delete_flag then complaint else numeric set_breakpoint a
breakpoint_args (a ∷ b ∷ []) =
    if same_bytes a delete_flag then numeric delete_breakpoint b else complaint
breakpoint_args (a ∷ b ∷ c ∷ toks) = complaint

abbrev pub save_args : List Str → Command
save_args (path ∷ []) = save_cmd path
save_args toks = complaint

-- The dispatch on the first word, with the words behind it.
unfoldable pub command : Str → List Str → Command
unfolding parse_numeric_arg
command cmd args =
    if same_bytes cmd (b'h' ∷ b'e' ∷ b'l' ∷ b'p' ∷ []) || same_bytes cmd (b'?' ∷ [])
    then help_cmd
    else if same_bytes cmd (b's' ∷ b't' ∷ b'e' ∷ b'p' ∷ [])
    then counted step_cmd args
    else if same_bytes cmd (b'b' ∷ b'a' ∷ b'c' ∷ b'k' ∷ [])
    then counted back_cmd args
    else if same_bytes cmd (b'c' ∷ b'o' ∷ b'n' ∷ b't' ∷ b'i' ∷ b'n' ∷ b'u' ∷ b'e' ∷ [])
        || same_bytes cmd (b'c' ∷ [])
    then continue_cmd
    else if same_bytes cmd (b'r' ∷ b'e' ∷ b'g' ∷ b's' ∷ [])
    then regs_cmd
    else if same_bytes cmd (b'w' ∷ b'h' ∷ b'e' ∷ b'r' ∷ b'e' ∷ [])
    then where_cmd
    else if same_bytes cmd
          (b'b' ∷ b'r' ∷ b'e' ∷ b'a' ∷ b'k' ∷ b'p' ∷ b'o' ∷ b'i' ∷ b'n' ∷ b't' ∷ [])
        || same_bytes cmd (b'b' ∷ b'p' ∷ [])
    then breakpoint_args args
    else if same_bytes cmd (b's' ∷ b'a' ∷ b'v' ∷ b'e' ∷ [])
    then save_args args
    else if same_bytes cmd (b'q' ∷ b'u' ∷ b'i' ∷ b't' ∷ [])
        || (same_bytes cmd (b'e' ∷ b'x' ∷ b'i' ∷ b't' ∷ []) || same_bytes cmd (b'q' ∷ []))
    then quit_cmd
    else complaint

abbrev pub command_words : List Str → Command
command_words [] = nothing
command_words (cmd ∷ args) = command cmd args

abbrev pub is_comment : Str → Bool
is_comment [] = true
is_comment (c ∷ cs) = c == b'#'

abbrev pub is_line_end : ℕ → Bool
is_line_end c = c == 13 || c == 10

-- A line, trimmed and split.
unfoldable pub command_of : Str → Command
unfolding command tokens pop_back pop_front
command_of line =
    let trimmed = pop_back is_space (pop_front is_space (pop_back is_line_end line)) in
    if is_comment trimmed then nothing else command_words (tokens trimmed)

module _ {S : Type 0} (src : Source S) (trace : Option TraceReader) where
  -- A command that writes no file and does not leave. A run has `fuel` instructions.
  unfoldable pub obey : ℕ → Command → Vm → Debug S → Outcome S
  obey fuel (step_cmd n) vm d = step src trace fuel n vm d
  obey fuel (back_cmd n) vm d = let (vm1, d1) = back trace n vm d in prompt vm1 d1
  obey fuel continue_cmd vm d = continue_run src trace fuel vm d
  obey fuel (set_breakpoint n) vm d =
      prompt vm (record d { breakpoints = insert_breakpoint (breakpoint_pc n) d.breakpoints })
  obey fuel (delete_breakpoint n) vm d =
      prompt vm (record d { breakpoints = erase_breakpoint (breakpoint_pc n) d.breakpoints })
  obey fuel _ vm d = prompt vm d

  -- What a line leads to, where the rest of the session is `rest`: the files that `save` writes, and
  -- the end.
  abbrev pub obeyed :
      Outcome S → (Vm → Debug S → List (Str × List ℕ) × Outcome S) → List (Str × List ℕ) × Outcome S
  obeyed (prompt vm d) rest = rest vm d
  obeyed (diverged e) rest = ([], diverged e)
  obeyed running rest = ([], running)

  abbrev pub saved :
      Str → Vm → Debug S → List (Str × List ℕ) × Outcome S → List (Str × List ℕ) × Outcome S
  saved path vm d (files, end) =
      ((path, checkpoint_save (debug_checkpoint trace vm d)) ∷ files, end)

  unfoldable pub debug_line :
      ℕ
      → Command
      → Vm
      → Debug S
      → (Vm → Debug S → List (Str × List ℕ) × Outcome S)
      → List (Str × List ℕ) × Outcome S
  unfolding obey
  debug_line fuel quit_cmd vm d rest = ([], prompt vm d)
  debug_line fuel (save_cmd path) vm d rest = saved path vm d (rest vm d)
  debug_line fuel c vm d rest = obeyed (obey fuel c vm d) rest

  -- The loop over the lines.
  unfoldable pub debug_lines : ℕ → List Str → Vm → Debug S → List (Str × List ℕ) × Outcome S
  unfolding debug_line command_of
  debug_lines fuel [] vm d = ([], prompt vm d)
  debug_lines fuel (line ∷ lines) vm d =
      debug_line fuel (command_of line) vm d (λ vm1 d1. debug_lines fuel lines vm1 d1)

  -- `cmd_debug` on a batch file. `none`: the program is larger than the arena.
  unfoldable pub cmd_debug : ℕ → List ℕ → Str → S → Option (List (Str × List ℕ) × Outcome S)
  cmd_debug fuel bin batch s = elim (debug_start bin s) [
    | none ↦ none
    | some (vm, d) ↦ some (debug_lines fuel (split_lines batch) vm d)
  ]
