-- ===== src/Debugger/Transcript.antt =====
-- src/main.cpp, batch files of the debugger: the session of a file whose lines are commands, and one
-- that goes on from the end of another.
use retro_vm.Prelude.{ℕ, ◌≡◌, refl, sym, ap, ◌∙◌, List, [], ◌∷◌, ◌++◌, Option, none, some, map, All}
use retro_vm.Text.{Str}
use retro_vm.Machine.{Vm}
use retro_vm.Trace.{TraceReader}
use retro_vm.Session.{Source}
use retro_vm.Debugger.{Debug, Outcome, prompt, diverged, running, debug_start}
use retro_vm.Debugger.Phrases.{
  IsSayable, line_of, command_of-line_of, batch_text, split_lines-batch_text,
}
use retro_vm.Debugger.Console.{
  Command, quit_cmd, save_cmd, obey, obeyed, saved, debug_line, debug_lines, cmd_debug,
}

-- Every command but `quit`.
abbrev pub Stays : Command → Type 0
Stays quit_cmd = ⊥
Stays _ = Unit

-- The files that a session has written, and its end.
abbrev pub Ended : Type 0 → Type 0
Ended S = List (Str × List ℕ) × Outcome S

module _ {S : Type 0} (src : Source S) (trace : Option TraceReader) (fuel : ℕ) where
  unfoldable pub said : List Command → Vm → Debug S → Ended S
  said [] vm d = ([], prompt vm d)
  said (c ∷ cs) vm d = debug_line src trace fuel c vm d (λ vm1 d1. said cs vm1 d1)

  debug_lines-line_of :
      (cs : List Command) (vm : Vm) (d : Debug S)
      → All IsSayable cs
      → debug_lines src trace fuel (map line_of cs) vm d ≡ said cs vm d
  unfolding debug_lines said
  debug_lines-line_of [] vm d h = refl
  debug_lines-line_of (c ∷ cs) vm d h = λ i.
      debug_line src trace fuel (command_of-line_of c h.0 i) vm d
        (λ vm1 d1. debug_lines-line_of cs vm1 d1 h.1 i)

  cmd_debug-batch_text :
      (bin : List ℕ) (cs : List Command) (s : S)
      → All IsSayable cs
      → cmd_debug src trace fuel bin (batch_text cs) s
        ≡ (elim (debug_start bin s) [ none ↦ none | some (vm, d) ↦ some (said cs vm d) ])
  unfolding cmd_debug
  cmd_debug-batch_text bin cs s h = λ i. elim (debug_start bin s) [
    | none ↦ none
    | some (vm, d) ↦ some (
        (ap (λ ls. debug_lines src trace fuel ls vm d) (split_lines-batch_text cs h)
            ∙ debug_lines-line_of cs vm d h)
          i)
  ]

  -- A session, and what follows at its prompt.
  unfoldable pub after : Ended S → (Vm → Debug S → Ended S) → Ended S
  after (files, prompt vm d) k = let (more, end) = k vm d in (files ++ more, end)
  after (files, diverged e) k = (files, diverged e)
  after (files, running) k = (files, running)

  saved-after :
      (path : Str) (vm : Vm) (d : Debug S) (e : Ended S) (k : Vm → Debug S → Ended S)
      → saved src trace path vm d (after e k) ≡ after (saved src trace path vm d e) k
  unfolding after
  saved-after path vm d (files, prompt vm1 d1) k = refl
  saved-after path vm d (files, diverged e) k = refl
  saved-after path vm d (files, running) k = refl

  obeyed-after :
      (o : Outcome S) (one two k : Vm → Debug S → Ended S)
      → ((vm : Vm) (d : Debug S) → two vm d ≡ after (one vm d) k)
      → obeyed src trace o two ≡ after (obeyed src trace o one) k
  unfolding after
  obeyed-after (prompt vm d) one two k same = same vm d
  obeyed-after (diverged e) one two k same = refl
  obeyed-after running one two k same = refl

  debug_line-after :
      (c : Command) (vm : Vm) (d : Debug S) (one two k : Vm → Debug S → Ended S)
      → Stays c
      → ((vm : Vm) (d : Debug S) → two vm d ≡ after (one vm d) k)
      → debug_line src trace fuel c vm d two ≡ after (debug_line src trace fuel c vm d one) k
  unfolding debug_line
  debug_line-after quit_cmd vm d one two k h same = absurd h
  debug_line-after (save_cmd path) vm d one two k h same =
      ap (saved src trace path vm d) (same vm d) ∙ saved-after path vm d (one vm d) k
  debug_line-after c vm d one two k h same =
      obeyed-after (obey src trace fuel c vm d) one two k same

  -- More commands go on from where the first ones end.
  pub said-append :
      (cs more : List Command) (vm : Vm) (d : Debug S)
      → All Stays cs
      → said (cs ++ more) vm d ≡ after (said cs vm d) (said more)
  unfolding said after
  said-append [] more vm d h = refl
  said-append (c ∷ cs) more vm d h =
      debug_line-after c vm d (said cs) (said (cs ++ more)) (said more) h.0
        (λ vm1 d1. said-append cs more vm1 d1 h.1)

  -- The session of a batch file that ends at a prompt, from the prompt that it starts at.
  pub started_session :
      (bin : List ℕ) (cs : List Command) (s : S) (e : Ended S)
      → All IsSayable cs
      → cmd_debug src trace fuel bin (batch_text cs) s ≡ some e
      → (vm0 : Vm) × (d0 : Debug S) × (debug_start bin s ≡ some (vm0, d0)) × (said cs vm0 d0 ≡ e)
  started_session bin cs s e h r =
      go (debug_start bin s) refl (sym (cmd_debug-batch_text bin cs s h) ∙ r)
    where
      go :
          (o : Option (Vm × Debug S))
          → debug_start bin s ≡ o
          → (elim o [ none ↦ none | some (vm, d) ↦ some (said cs vm d) ]) ≡ some e
          → (vm0 : Vm) × (d0 : Debug S) × (debug_start bin s ≡ some (vm0, d0))
            × (said cs vm0 d0 ≡ e)
      go none l g = cc
      go (some (vm0, d0)) l g = (vm0, d0, l, cc)

  pub cmd_debug-said :
      (bin : List ℕ) (cs : List Command) (s : S) (vm0 : Vm) (d0 : Debug S)
      → All IsSayable cs
      → debug_start bin s ≡ some (vm0, d0)
      → cmd_debug src trace fuel bin (batch_text cs) s ≡ some (said cs vm0 d0)
  cmd_debug-said bin cs s vm0 d0 h l =
      cmd_debug-batch_text bin cs s h
      ∙ ap (λ o. elim o [ none ↦ none | some (vm, d) ↦ some (said cs vm d) ]) l
