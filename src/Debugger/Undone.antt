-- ===== src/Debugger/Undone.antt =====
-- src/main.cpp, batch files of the debugger: a session that takes a run back.
use mathlib.Core.List.{append-nil}
use retro_vm.Prelude.{
  ℕ, ◌+◌, ◌-◌, ◌^◌, ◌≤◌, ◌<◌, ◌≡◌, refl, sym, ap, ◌∙◌, arith, List, [], ◌∷◌, ◌++◌, Option, some,
  All, All-append,
}
use retro_vm.Text.{Str}
use retro_vm.Isa.{halt_running}
use retro_vm.Machine.{Vm, request_halt}
use retro_vm.Dispatch.Validity.{HooksFit}
use retro_vm.Trace.{TraceReader}
use retro_vm.Session.{Source}
use retro_vm.Debugger.{Debug, Outcome, prompt, diverged, running, back, debug_hooks}
use retro_vm.Debugger.Prompt.{SameCursor}
use retro_vm.Debugger.Commands.{Undoes}
use retro_vm.Debugger.Reached.{Reached, back-step, back-continue_run}
use retro_vm.Debugger.Batch.{cmd_debug-Reached}
use retro_vm.Debugger.Phrases.{IsSayable, batch_text}
use retro_vm.Debugger.Console.{
  Command, continue_cmd, step_cmd, back_cmd, obey, obeyed, debug_line, cmd_debug,
}
use retro_vm.Debugger.Transcript.{
  Stays, Ended, said, after, said-append, started_session, cmd_debug-said,
}

-- The commands that run the VM.
abbrev pub IsRun : Command → Type 0
IsRun (step_cmd n) = Unit
IsRun continue_cmd = Unit
IsRun _ = ⊥

some_inj : {A : Type 0} {x y : A} → some x ≡ some y → x ≡ y
some_inj e = cc

module _ {S : Type 0} (src : Source S) (trace : Option TraceReader) (fuel : ℕ) where
  -- The end of a session of one run is the end of the run.
  only : Outcome S → Ended S
  only o = obeyed src trace o (λ vm d. ([], prompt vm d))

  only-end : (o : Outcome S) → (only o).1 ≡ o
  unfolding only
  only-end (prompt vm d) = refl
  only-end (diverged e) = refl
  only-end running = refl

  run_line :
      (c : Command) (vm : Vm) (d : Debug S) (rest : Vm → Debug S → Ended S)
      → IsRun c
      → debug_line src trace fuel c vm d rest ≡ obeyed src trace (obey src trace fuel c vm d) rest
  unfolding debug_line
  run_line (step_cmd n) vm d rest h = refl
  run_line continue_cmd vm d rest h = refl
  run_line _ vm d rest h = absurd h

  -- The run that a session ends with, told from the session.
  said-run :
      (c : Command) (cs : List Command) (vm0 vm vm1 : Vm) (d0 d d1 : Debug S)
      (files files1 : List (Str × List ℕ))
      → All Stays cs
      → IsRun c
      → said src trace fuel cs vm0 d0 ≡ (files, prompt vm d)
      → said src trace fuel (cs ++ c ∷ []) vm0 d0 ≡ (files1, prompt vm1 d1)
      → obey src trace fuel c vm d ≡ prompt vm1 d1
  unfolding said after only
  said-run c cs vm0 vm vm1 d0 d d1 files files1 hs hc e e1 =
      sym (
        ap (λ p. p.1)
          (said-append src trace fuel cs (c ∷ []) vm0 d0 hs
            ∙ ap (λ p. after src trace fuel p (said src trace fuel (c ∷ []))) e)
        ∙ ap (λ p. p.1) (run_line c vm d (λ v x. ([], prompt v x)) hc)
        ∙ only-end (obey src trace fuel c vm d))
      ∙ ap (λ p. p.1) e1

  -- The session that goes back after the run.
  said-back :
      (c : Command) (cs : List Command) (k : ℕ) (vm0 vm vm1 : Vm) (d0 d d1 : Debug S)
      (files : List (Str × List ℕ))
      → All Stays cs
      → IsRun c
      → said src trace fuel cs vm0 d0 ≡ (files, prompt vm d)
      → obey src trace fuel c vm d ≡ prompt vm1 d1
      → said src trace fuel (cs ++ c ∷ back_cmd k ∷ []) vm0 d0
        ≡ (files, prompt (back trace k vm1 d1).0 (back trace k vm1 d1).1)
  unfolding said after debug_line
  said-back c cs k vm0 vm vm1 d0 d d1 files hs hc e ran =
      said-append src trace fuel cs (c ∷ back_cmd k ∷ []) vm0 d0 hs
      ∙ ap (λ p. after src trace fuel p (said src trace fuel (c ∷ back_cmd k ∷ []))) e
      ∙ ap (λ p. (files ++ p.0, p.1))
          (run_line c vm d (said src trace fuel (back_cmd k ∷ [])) hc
            ∙ ap (λ o. obeyed src trace o (said src trace fuel (back_cmd k ∷ []))) ran)
      ∙ ap (λ fs. (fs, prompt (back trace k vm1 d1).0 (back trace k vm1 d1).1)) (append-nil files)

  run-Undoes :
      (c : Command) (vm vm1 : Vm) (d d1 : Debug S)
      → HooksFit (debug_hooks src trace)
      → Reached src trace vm d
      → vm.state.cycle_count + fuel < 2 ^ 64
      → IsRun c
      → obey src trace fuel c vm d ≡ prompt vm1 d1
      → vm1.state.cycle_count - vm.state.cycle_count ≤ 255
      → Undoes trace vm d vm1 d1
  unfolding obey
  run-Undoes (step_cmd n) vm vm1 d d1 hf r room h ran few =
      back-step src trace fuel n vm vm1 d d1 hf r room ran few
  run-Undoes continue_cmd vm vm1 d d1 hf r room h ran few =
      back-continue_run src trace fuel vm vm1 d d1 hf r room ran few
  run-Undoes _ vm vm1 d d1 hf r room h ran few = absurd h

  -- Take a batch file of any commands but `quit`, each on its line in the words of the help text,
  -- whose session ends at a prompt, and the same file with a line of `step` or `continue` more,
  -- whose session ends at a prompt as well, at most 255 cycles further. With a last line of `back`
  -- by just these cycles, the session writes the same files as the first and ends in the same VM,
  -- its halt reason aside, and in a replay with the same cursor. The program is bytes, the numbers
  -- in the lines are below 2 ^ 31 and their paths are words, the cycle count does not overflow, and
  -- the input hooks return 32-bit values.
  pub cmd_debug-back :
      (c : Command) (cs : List Command) (bin : List ℕ) (s : S) (vm vm1 : Vm) (d d1 : Debug S)
      (files files1 : List (Str × List ℕ))
      → HooksFit (debug_hooks src trace)
      → All (λ b. b < 2 ^ 8) bin
      → All IsSayable cs
      → All Stays cs
      → IsSayable c
      → IsRun c
      → cmd_debug src trace fuel bin (batch_text cs) s ≡ some (files, prompt vm d)
      → cmd_debug src trace fuel bin (batch_text (cs ++ c ∷ [])) s ≡ some (files1, prompt vm1 d1)
      → vm.state.cycle_count + fuel < 2 ^ 64
      → vm1.state.cycle_count - vm.state.cycle_count ≤ 255
      → (let k = vm1.state.cycle_count - vm.state.cycle_count in
          (vm2 : Vm) × (d2 : Debug S) × (cmd_debug src trace fuel bin
              (batch_text (cs ++ c ∷ back_cmd k ∷ []))
              s
            ≡ some (files, prompt vm2 d2))
          × (request_halt vm2 halt_running ≡ request_halt vm halt_running)
          × SameCursor trace d2.cursor d.cursor)
  cmd_debug-back c cs bin s vm vm1 d d1 files files1 hf hb say stay say1 run first second room few =
      let k = vm1.state.cycle_count - vm.state.cycle_count in
      let (vm0, d0, start, e) =
        started_session src trace fuel bin cs s (files, prompt vm d) say first in
      let with_run = All-append IsSayable cs (c ∷ []) say (say1, tt) in
      let with_back = All-append IsSayable cs (c ∷ back_cmd k ∷ []) say (say1, (omega arith, tt)) in
      let e1 : said src trace fuel (cs ++ c ∷ []) vm0 d0 ≡ (files1, prompt vm1 d1) =
        some_inj (
          sym (cmd_debug-said src trace fuel bin (cs ++ c ∷ []) s vm0 d0 with_run start)
          ∙ second) in
      let ran = said-run c cs vm0 vm vm1 d0 d d1 files files1 stay run e e1 in
      let reached = cmd_debug-Reached src trace fuel bin (batch_text cs) s files vm d hb first in
      let undone = run-Undoes c vm vm1 d d1 hf reached room run ran few in
      (
        (back trace k vm1 d1).0,
        (back trace k vm1 d1).1,
        cmd_debug-said src trace fuel bin (cs ++ c ∷ back_cmd k ∷ []) s vm0 d0 with_back start
            ∙ ap some (said-back c cs k vm0 vm vm1 d0 d d1 files stay run e ran),
        undone.0,
        undone.1,
      )
