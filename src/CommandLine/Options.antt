-- ===== src/CommandLine/Options.antt =====
-- src/main.cpp, `main`: the numbers and the options behind a mode.
use retro_vm.Prelude.{
  ℕ, ◌-◌, Bool, ◌&&◌, List, [], ◌∷◌, Option, none, some, leb, length, take, drop, if◌then◌else◌,
}
use retro_vm.Text.{Str, is_empty, ends}
use retro_vm.Text.Numerals.{codes, strtoull}
use retro_vm.Trace.{same_bytes}

-- `strtoull(digits, &end, 10)` with `end != digits` and `*end == '\0'`.
unfoldable pub whole_number : Str → Option ℕ
unfolding strtoull
whole_number digits = elim (strtoull 10 digits) [
  | none ↦ none
  | some (v, rest) ↦ if ends rest then some v else none
]

abbrev pub number_in : ℕ → ℕ → Str → Option ℕ
number_in low high digits = elim (whole_number digits) [
  | none ↦ none
  | some v ↦ if leb low v && leb v high then some v else none
]

-- `N` of the benchmarks, and `depth`, which is less than `kBenchRingCap`.
abbrev pub iterations : Str → Option ℕ
iterations = number_in 1 100000000

abbrev pub depth_below : Str → Option ℕ
depth_below = number_in 1 (256 - 1)

-- `arg.rfind(prefix, 0) == 0`.
abbrev pub has_prefix : Str → Str → Bool
has_prefix pre arg = same_bytes (take (length pre) arg) pre

-- What follows the prefix of an option, when it is there and not empty.
abbrev pub option_value : Str → Str → Option Str
option_value pre arg =
    let digits = drop (length pre) arg in
    if has_prefix pre arg then (if is_empty digits then none else some digits) else none

abbrev pub number_option : Str → (Str → Option ℕ) → Str → Option ℕ
number_option pre read arg = elim (option_value pre arg) [ none ↦ none | some digits ↦ read digits ]

-- `kRecordRandSeed`.
abbrev pub default_seed : ℕ
default_seed = 0xC0FFEE

abbrev pub seed_option : Str → Option ℕ
seed_option = number_option (codes "--seed=") (number_in 0 0xFFFFFFFF)

abbrev pub at_frame_option : Str → Option ℕ
at_frame_option = number_option (codes "--at-frame=") whole_number

abbrev pub frame_option : Str → Option ℕ
frame_option = number_option (codes "--frame=") whole_number

-- The loop over options of one kind: the last one counts, and a wrong one ends it.
unfoldable pub options : (Str → Option ℕ) → ℕ → List Str → Option ℕ
options read v [] = some v
options read v (arg ∷ args) = elim (read arg) [ none ↦ none | some n ↦ options read n args ]

-- `has_frame` and `frame_idx`.
unfoldable pub frame_options : Option ℕ → List Str → Option (Option ℕ)
frame_options found [] = some found
frame_options found (arg ∷ args) = elim (frame_option arg) [
  | none ↦ none
  | some n ↦ frame_options (some n) args
]

-- `trace_arg` and `batch_arg`, empty where they are not given.
pub record DebugFiles : Type 0 where
  pub trace_arg : Str
  pub batch_arg : Str

abbrev pub no_files : DebugFiles
no_files = record { trace_arg = []; batch_arg = [] }

unfoldable pub debug_options : DebugFiles → List Str → Option DebugFiles
debug_options d [] = some d
debug_options d (arg ∷ []) = none
debug_options d (arg ∷ path ∷ args) =
    let traced = debug_options (record d { trace_arg = path }) args in
    let batched = debug_options (record d { batch_arg = path }) args in
    if same_bytes arg (codes "--trace")
    then traced
    else if same_bytes arg (codes "--batch")
    then batched
    else none
