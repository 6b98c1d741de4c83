-- ===== src/Debugger/Phrases.antt =====
-- src/main.cpp, the commands of `cmd_debug_run` in the words of its help text: each is read back.
use mathlib.Core.Path.{subst}
use retro_vm.Prelude.{
  ℕ, ◌^◌, ◌<◌, ◌≡◌, refl, sym, ap, ◌∙◌, arith, Bool, true, false, not, ◌&&◌, ◌==◌, ◌++◌, map,
  All-append, List, [], ◌∷◌, none, some, All,
}
use retro_vm.Text.{Str, is_space, split_lines}
use retro_vm.Text.Numerals.{codes}
use retro_vm.Text.Printed.{digit_char, printed}
use retro_vm.Text.Digits.{decimal-IsBase, hex-IsBase, printed-All, printed-cons}
use retro_vm.Debugger.Console.{
  Command, nothing, complaint, help_cmd, regs_cmd, where_cmd, list_breakpoints, continue_cmd,
  quit_cmd, step_cmd, back_cmd, set_breakpoint, delete_breakpoint, save_cmd, delete_flag, numeric,
  command, command_of,
}
use retro_vm.Debugger.Words.{NoSpace, IsWord, joined, command_of-joined}
use retro_vm.Debugger.Numbers.{parse_numeric_arg-decimal, parse_numeric_arg-hex}

-- The words of a command: counts in decimal, addresses in hexadecimal.
abbrev pub phrase : Command → List Str
phrase nothing = codes "#" ∷ []
phrase complaint = codes "!" ∷ []
phrase help_cmd = codes "help" ∷ []
phrase regs_cmd = codes "regs" ∷ []
phrase where_cmd = codes "where" ∷ []
phrase list_breakpoints = codes "breakpoint" ∷ []
phrase continue_cmd = codes "continue" ∷ []
phrase quit_cmd = codes "quit" ∷ []
phrase (step_cmd n) = codes "step" ∷ printed 10 n ∷ []
phrase (back_cmd n) = codes "back" ∷ printed 10 n ∷ []
phrase (set_breakpoint n) = codes "breakpoint" ∷ (b'0' ∷ b'x' ∷ printed 16 n) ∷ []
phrase (delete_breakpoint n) = codes "breakpoint" ∷ delete_flag ∷ (b'0' ∷ b'x' ∷ printed 16 n) ∷ []
phrase (save_cmd path) = codes "save" ∷ path ∷ []

-- Numbers below 2 ^ 31, and a path that is a word.
abbrev pub IsSayable : Command → Type 0
IsSayable (step_cmd n) = n < 2 ^ 31
IsSayable (back_cmd n) = n < 2 ^ 31
IsSayable (set_breakpoint n) = n < 2 ^ 31
IsSayable (delete_breakpoint n) = n < 2 ^ 31
IsSayable (save_cmd path) = IsWord path
IsSayable _ = Unit

abbrev pub line_of : Command → Str
line_of c = joined (phrase c)

digit_char-NoSpace : (d : ℕ) → d < 16 → NoSpace (digit_char d)
digit_char-NoSpace d h = ground arith

decimal-IsWord : (n : ℕ) → IsWord (printed 10 n)
decimal-IsWord n =
    let (h, t, e) = printed-cons 10 n in
    subst IsWord (sym e) (
      subst (All NoSpace) e
        (printed-All 10 decimal-IsBase NoSpace (λ d l. digit_char-NoSpace d (omega arith)) n))

hex-IsWord : (n : ℕ) → IsWord (b'0' ∷ b'x' ∷ printed 16 n)
hex-IsWord n = (refl, (refl, printed-All 16 hex-IsBase NoSpace digit_char-NoSpace n))

all_visible : Str → Bool
all_visible [] = true
all_visible (c ∷ cs) = not (is_space c) && all_visible cs

all_visible-NoSpace : (w : Str) → all_visible w ≡ true → All NoSpace w
unfolding all_visible
all_visible-NoSpace [] h = tt
all_visible-NoSpace (c ∷ cs) h = ((ground arith), all_visible-NoSpace cs (ground arith))

-- The names of the commands.
named :
    IsWord (codes "help")
    × IsWord (codes "regs")
    × IsWord (codes "where")
    × IsWord (codes "continue")
    × IsWord (codes "quit")
    × IsWord (codes "step")
    × IsWord (codes "back")
    × IsWord (codes "breakpoint")
    × IsWord (codes "save")
    × IsWord delete_flag
unfolding all_visible
named = (
  all_visible-NoSpace (codes "help") refl,
  all_visible-NoSpace (codes "regs") refl,
  all_visible-NoSpace (codes "where") refl,
  all_visible-NoSpace (codes "continue") refl,
  all_visible-NoSpace (codes "quit") refl,
  all_visible-NoSpace (codes "step") refl,
  all_visible-NoSpace (codes "back") refl,
  all_visible-NoSpace (codes "breakpoint") refl,
  all_visible-NoSpace (codes "save") refl,
  all_visible-NoSpace delete_flag refl,
)

phrase-IsWord : (c : Command) → IsSayable c → All IsWord (phrase c)
phrase-IsWord nothing h = ((refl, tt), tt)
phrase-IsWord complaint h = ((refl, tt), tt)
phrase-IsWord help_cmd h = (named.0, tt)
phrase-IsWord regs_cmd h = (named.1, tt)
phrase-IsWord where_cmd h = (named.2, tt)
phrase-IsWord continue_cmd h = (named.3, tt)
phrase-IsWord quit_cmd h = (named.4, tt)
phrase-IsWord (step_cmd n) h = (named.5, (decimal-IsWord n, tt))
phrase-IsWord (back_cmd n) h = (named.6, (decimal-IsWord n, tt))
phrase-IsWord list_breakpoints h = (named.7, tt)
phrase-IsWord (set_breakpoint n) h = (named.7, (hex-IsWord n, tt))
phrase-IsWord (delete_breakpoint n) h = (named.7, (named.9, (hex-IsWord n, tt)))
phrase-IsWord (save_cmd path) h = (named.8, (h, tt))

counted_lem : (k : ℕ → Command) (n : ℕ) → n < 2 ^ 31 → numeric k (printed 10 n) ≡ k n
counted_lem k n h =
    ap (λ o. elim o [ none ↦ complaint | some n ↦ k n ]) (parse_numeric_arg-decimal n h)

address_lem : (k : ℕ → Command) (n : ℕ) → n < 2 ^ 31 → numeric k (b'0' ∷ b'x' ∷ printed 16 n) ≡ k n
address_lem k n h = ap (λ o. elim o [ none ↦ complaint | some n ↦ k n ]) (parse_numeric_arg-hex n h)

-- The line of a command, its words with a blank between them, a count in decimal and an address in
-- hexadecimal behind `0x`, is read by the debugger as the command. The numbers are below 2 ^ 31,
-- and the path of `save` is a word.
pub command_of-line_of : (c : Command) → IsSayable c → command_of (line_of c) ≡ c
unfolding command
command_of-line_of nothing h = unfold command_of in refl
command_of-line_of (step_cmd n) h =
    command_of-joined (codes "step") (printed 10 n ∷ []) (phrase-IsWord (step_cmd n) h) refl
    ∙ counted_lem step_cmd n h
command_of-line_of (back_cmd n) h =
    command_of-joined (codes "back") (printed 10 n ∷ []) (phrase-IsWord (back_cmd n) h) refl
    ∙ counted_lem back_cmd n h
command_of-line_of (set_breakpoint n) h =
    command_of-joined (codes "breakpoint") ((b'0' ∷ b'x' ∷ printed 16 n) ∷ [])
      (phrase-IsWord (set_breakpoint n) h) refl
    ∙ address_lem set_breakpoint n h
command_of-line_of (delete_breakpoint n) h =
    command_of-joined (codes "breakpoint") (delete_flag ∷ (b'0' ∷ b'x' ∷ printed 16 n) ∷ [])
      (phrase-IsWord (delete_breakpoint n) h) refl
    ∙ address_lem delete_breakpoint n h
command_of-line_of (save_cmd path) h =
    command_of-joined (codes "save") (path ∷ []) (phrase-IsWord (save_cmd path) h) refl
command_of-line_of complaint h = command_of-joined _ [] (phrase-IsWord complaint h) refl
command_of-line_of help_cmd h = command_of-joined _ [] (phrase-IsWord help_cmd h) refl
command_of-line_of regs_cmd h = command_of-joined _ [] (phrase-IsWord regs_cmd h) refl
command_of-line_of where_cmd h = command_of-joined _ [] (phrase-IsWord where_cmd h) refl
command_of-line_of continue_cmd h = command_of-joined _ [] (phrase-IsWord continue_cmd h) refl
command_of-line_of quit_cmd h = command_of-joined _ [] (phrase-IsWord quit_cmd h) refl
command_of-line_of list_breakpoints h =
    command_of-joined _ [] (phrase-IsWord list_breakpoints h) refl

-- The lines of a batch file.
abbrev pub batch_text : List Command → Str
batch_text [] = []
batch_text (c ∷ cs) = line_of c ++ 10 ∷ batch_text cs

NotEnd : ℕ → Type 0
NotEnd c = (c == 10) ≡ false

word-NotEnd : (w : Str) → All NoSpace w → All NotEnd w
unfolding NotEnd
word-NotEnd [] h = tt
word-NotEnd (c ∷ cs) h = let visible = h.0 in (ground arith, word-NotEnd cs h.1)

joined-NotEnd : (ws : List Str) → All IsWord ws → All NotEnd (joined ws)
unfolding NotEnd
joined-NotEnd [] h = tt
joined-NotEnd ([] ∷ ws) h = absurd (h.0)
joined-NotEnd ((c ∷ cs) ∷ []) h = word-NotEnd (c ∷ cs) h.0
joined-NotEnd ((c ∷ cs) ∷ v ∷ ws) h =
    All-append NotEnd (c ∷ cs) (32 ∷ joined (v ∷ ws)) (word-NotEnd (c ∷ cs) h.0)
      (refl, joined-NotEnd (v ∷ ws) h.1)

split_lines-append :
    (l rest : Str) → All NotEnd l → split_lines (l ++ 10 ∷ rest) ≡ l ∷ split_lines rest
unfolding split_lines NotEnd
split_lines-append [] rest h = refl
split_lines-append (c ∷ l) rest h = rw (h.0) (
    ap (λ t. elim t [ [] ↦ (c ∷ []) ∷ [] | l ∷ ls ↦ (c ∷ l) ∷ ls ]) (split_lines-append l rest h.1))

pub split_lines-batch_text :
    (cs : List Command) → All IsSayable cs → split_lines (batch_text cs) ≡ map line_of cs
split_lines-batch_text [] h = unfold split_lines in refl
split_lines-batch_text (c ∷ cs) h =
    split_lines-append (line_of c) (batch_text cs) (joined-NotEnd (phrase c) (phrase-IsWord c h.0))
    ∙ ap (λ t. line_of c ∷ t) (split_lines-batch_text cs h.1)
