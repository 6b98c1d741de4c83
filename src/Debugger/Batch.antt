-- ===== src/Debugger/Batch.antt =====
-- src/main.cpp, a session of the debugger over the lines of a file: it goes through the states that
-- the commands lead to.
use mathlib.Core.Path.{subst}
use retro_vm.Prelude.{ℕ, ◌^◌, ◌<◌, ◌≡◌, refl, List, [], ◌∷◌, Option, none, some, All}
use retro_vm.Text.{Str, split_lines}
use retro_vm.Machine.{Vm}
use retro_vm.Trace.{TraceReader}
use retro_vm.Session.{Source}
use retro_vm.Debugger.{Debug, Outcome, prompt, diverged, running, step, continue_run, debug_start}
use retro_vm.Debugger.Reached.{Reached, started, stepped, continued, gone_back, marked, unmarked}
use retro_vm.Debugger.Console.{
  Command, step_cmd, back_cmd, continue_cmd, set_breakpoint, delete_breakpoint, quit_cmd, save_cmd,
  command_of, obey, obeyed, debug_line, debug_lines, cmd_debug,
}

module _ {S : Type 0} (src : Source S) (trace : Option TraceReader) where
  -- The prompt at the end, where there is one.
  abbrev AtReached : Outcome S → Type 0
  AtReached (prompt vm d) = Reached src trace vm d
  AtReached (diverged e) = Unit
  AtReached running = Unit

  outcome-AtReached :
      (o : Outcome S)
      → ((vm1 : Vm) (d1 : Debug S) → o ≡ prompt vm1 d1 → Reached src trace vm1 d1)
      → AtReached o
  outcome-AtReached (prompt vm d) h = h vm d refl
  outcome-AtReached (diverged e) h = tt
  outcome-AtReached running h = tt

  obey-AtReached :
      (fuel : ℕ) (c : Command) (vm : Vm) (d : Debug S)
      → Reached src trace vm d
      → AtReached (obey src trace fuel c vm d)
  unfolding obey
  obey-AtReached fuel (step_cmd n) vm d h =
      outcome-AtReached (step src trace fuel n vm d) (λ vm1 d1 e. stepped fuel n vm vm1 d d1 h e)
  obey-AtReached fuel (back_cmd n) vm d h = gone_back n vm d h
  obey-AtReached fuel continue_cmd vm d h =
      outcome-AtReached (continue_run src trace fuel vm d)
        (λ vm1 d1 e. continued fuel vm vm1 d d1 h e)
  obey-AtReached fuel (set_breakpoint n) vm d h = marked n vm d h
  obey-AtReached fuel (delete_breakpoint n) vm d h = unmarked n vm d h
  obey-AtReached fuel _ vm d h = h

  obeyed-AtReached :
      (o : Outcome S) (rest : Vm → Debug S → List (Str × List ℕ) × Outcome S)
      → AtReached o
      → ((vm1 : Vm) (d1 : Debug S) → Reached src trace vm1 d1 → AtReached (rest vm1 d1).1)
      → AtReached (obeyed src trace o rest).1
  obeyed-AtReached (prompt vm d) rest h next = next vm d h
  obeyed-AtReached (diverged e) rest h next = tt
  obeyed-AtReached running rest h next = tt

  debug_line-AtReached :
      (fuel : ℕ) (c : Command) (vm : Vm) (d : Debug S)
      (rest : Vm → Debug S → List (Str × List ℕ) × Outcome S)
      → Reached src trace vm d
      → ((vm1 : Vm) (d1 : Debug S) → Reached src trace vm1 d1 → AtReached (rest vm1 d1).1)
      → AtReached (debug_line src trace fuel c vm d rest).1
  unfolding debug_line
  debug_line-AtReached fuel quit_cmd vm d rest h next = h
  debug_line-AtReached fuel (save_cmd path) vm d rest h next = next vm d h
  debug_line-AtReached fuel c vm d rest h next =
      obeyed-AtReached (obey src trace fuel c vm d) rest (obey-AtReached fuel c vm d h) next

  debug_lines-AtReached :
      (fuel : ℕ) (lines : List Str) (vm : Vm) (d : Debug S)
      → Reached src trace vm d
      → AtReached (debug_lines src trace fuel lines vm d).1
  unfolding debug_lines
  debug_lines-AtReached fuel [] vm d h = h
  debug_lines-AtReached fuel (line ∷ lines) vm d h =
      debug_line-AtReached fuel (command_of line) vm d _ h
        (λ vm1 d1 r. debug_lines-AtReached fuel lines vm1 d1 r)

  abbrev EndReached : Option (List (Str × List ℕ) × Outcome S) → Type 0
  EndReached none = Unit
  EndReached (some (files, o)) = AtReached o

  cmd_debug-EndReached :
      (fuel : ℕ) (bin : List ℕ) (batch : Str) (s : S)
      → All (λ b. b < 2 ^ 8) bin
      → EndReached (cmd_debug src trace fuel bin batch s)
  unfolding cmd_debug
  cmd_debug-EndReached fuel bin batch s hb = go (debug_start bin s) refl
    where
      go :
          (o : Option (Vm × Debug S))
          → debug_start bin s ≡ o
          → EndReached (elim o [
            | none ↦ none
            | some (vm, d) ↦ some (debug_lines src trace fuel (split_lines batch) vm d)
          ])
      go none e = tt
      go (some (vm, d)) e =
          debug_lines-AtReached fuel (split_lines batch) vm d (started bin s vm d hb e)

  -- When a session of the debugger over the lines of a batch file comes to its end without a
  -- divergence, its VM and its state are ones that the relation of the commands reaches from the
  -- loaded program, for any bytes as program and any text as batch file.
  pub cmd_debug-Reached :
      (fuel : ℕ) (bin : List ℕ) (batch : Str) (s : S) (files : List (Str × List ℕ)) (vm : Vm)
      (d : Debug S)
      → All (λ b. b < 2 ^ 8) bin
      → cmd_debug src trace fuel bin batch s ≡ some (files, prompt vm d)
      → Reached src trace vm d
  cmd_debug-Reached fuel bin batch s files vm d hb e =
      subst EndReached e (cmd_debug-EndReached fuel bin batch s hb)
