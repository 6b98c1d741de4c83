-- ===== src/Session/Replay.antt =====
-- src/main.cpp: `cmd_replay` on the trace file that `cmd_record` wrote.
use mathlib.Core.List.{append-nil, append_assoc}
use retro_vm.Prelude.{
  ℕ, zero, suc, ◌≡◌, refl, sym, ap, ◌∙◌, arith, List, [], ◌++◌, Option, none, some, length,
  get_elem?, All, fun_ext,
}
use retro_vm.Word.{IsU8}
use retro_vm.Isa.{HaltReason}
use retro_vm.Machine.{Vm, new_vm, load_program}
use retro_vm.Hooks.{Flow, next, halt, throw, ◌>>=◌, Each}
use retro_vm.Dispatch.{tail_dispatch, run_goto}
use retro_vm.Dispatch.Validity.{IsValid, tail_dispatch-IsValid}
use retro_vm.Dispatch.Boot.{new_vm-IsValid, load_program-IsValid}
use retro_vm.Trace.{TraceFrame, TraceReader, flush, opened, refused, frame_at}
use retro_vm.Trace.Codec.{FrameFits, open_trace-flush, frame_at-flush}
use retro_vm.Session.{
  Source, Recording, record_hooks, replay_hooks, recorded, verified, cmd_record, cmd_replay,
  replay_reader, trace_refused, replay_too_large, record_too_large, end_record, end_replay,
}
use retro_vm.Session.Growth.{
  SourceFits, FromInput, All-FrameFits, Grows, record_hooks-HooksFit, run_goto-Grown,
}
use retro_vm.Session.Mirror.{mirror, Prefix, tail_dispatch-mirror}

module _ {S : Type 0} (src : Source S) (fits : SourceFits src) where
  abbrev run_record : ℕ → Vm → Recording S → Flow (Recording S)
  run_record = run_goto (record_hooks src) none

  abbrev run_replay : List TraceFrame → ℕ → Vm → ℕ → Flow ℕ
  run_replay trace = run_goto (replay_hooks (get_elem? trace)) none

  -- What a later state has written of the trace, an earlier one has written a part of.
  earlier :
      (trace : List TraceFrame) (w : Recording S) (rest : Flow (Recording S))
      → Each (λ vm1 w1. Grows w.frames w1.frames) rest
      → Each (λ vm1 w1. Prefix w1.frames trace) rest
      → Prefix w.frames trace
  earlier trace w (next vm w1) (n, e, f) (r, p) =
      (n ++ r, sym (append_assoc w.frames n r) ∙ (ap (λ t. t ++ r) e ∙ p))
  earlier trace w (halt x vm w1) (n, e, f) (r, p) =
      (n ++ r, sym (append_assoc w.frames n r) ∙ (ap (λ t. t ++ r) e ∙ p))
  earlier trace w (throw x vm w1) (n, e, f) (r, p) =
      (n ++ r, sym (append_assoc w.frames n r) ∙ (ap (λ t. t ++ r) e ∙ p))

  -- The recording's first instruction, when the whole recording writes a part of the trace.
  first_written :
      (trace : List TraceFrame) (fuel : ℕ) (step : Flow (Recording S))
      → Each (λ vm1 w1. IsValid vm1) step
      → Each (λ vm1 w1. Prefix w1.frames trace) (step >>= λ (vm1, w1). run_record fuel vm1 w1)
      → Each (λ vm1 w1. Prefix w1.frames trace) step
  first_written trace fuel (next vm w) v p =
      earlier trace w (run_record fuel vm w) (run_goto-Grown src fits fuel vm w v) p
  first_written trace fuel (halt r vm w) v p = p
  first_written trace fuel (throw e vm w) v p = p

  -- A recording and its replay go on alike after a step that is mirrored.
  then_mirror :
      (trace : List TraceFrame) (fuel : ℕ) (step : Flow (Recording S)) (again : Flow ℕ)
      → ((vm : Vm) (w : Recording S)
          → IsValid vm
          → Each (λ vm1 w1. Prefix w1.frames trace) (run_record fuel vm w)
          → run_replay trace fuel vm (length w.frames) ≡ mirror (run_record fuel vm w))
      → Each (λ vm1 w1. IsValid vm1) step
      → Each (λ vm1 w1. Prefix w1.frames trace) (step >>= λ (vm1, w1). run_record fuel vm1 w1)
      → again ≡ mirror step
      → (again >>= λ (vm1, c1). run_replay trace fuel vm1 c1)
        ≡ mirror (step >>= λ (vm1, w1). run_record fuel vm1 w1)
  then_mirror trace fuel (next vm w) again rest v p e =
      ap (λ t. t >>= λ (vm1, c1). run_replay trace fuel vm1 c1) e ∙ rest vm w v p
  then_mirror trace fuel (halt r vm w) again rest v p e =
      ap (λ t. t >>= λ (vm1, c1). run_replay trace fuel vm1 c1) e
  then_mirror trace fuel (throw x vm w) again rest v p e =
      ap (λ t. t >>= λ (vm1, c1). run_replay trace fuel vm1 c1) e

  -- For every number of instructions: if what the recording has written is a part of the trace,
  -- the replay against it ends in the same VM in the same way, its cursor behind those frames.
  pub run_goto-mirror :
      (trace : List TraceFrame) (fuel : ℕ) (vm : Vm) (w : Recording S)
      → IsValid vm
      → Each (λ vm1 w1. Prefix w1.frames trace) (run_goto (record_hooks src) none fuel vm w)
      → run_goto (replay_hooks (get_elem? trace)) none fuel vm (length w.frames)
        ≡ mirror (run_goto (record_hooks src) none fuel vm w)
  unfolding run_goto
  run_goto-mirror trace zero vm w v p = refl
  run_goto-mirror trace (suc fuel) vm w v p =
      let step = tail_dispatch (record_hooks src) none vm w in
      let valid =
        tail_dispatch-IsValid (record_hooks src) none vm w (record_hooks-HooksFit src fits) v in
      then_mirror trace fuel step _ (run_goto-mirror trace fuel) valid p
        (tail_dispatch-mirror src trace vm w (first_written trace fuel step valid p))

  recorded_inv :
      (f : Flow (Recording S)) (r : HaltReason) (vm : Vm) (bytes : List ℕ)
      → end_record f ≡ recorded r vm bytes
      → (w : Recording S) × (f ≡ halt r vm w) × (bytes ≡ flush w.frames)
  recorded_inv (next vm1 w) r vm bytes e = cc
  recorded_inv (halt r1 vm1 w) r vm bytes e = (w, cc, cc)
  recorded_inv (throw x vm1 w) r vm bytes e = cc

  -- The replay of a loaded program, on the frames that its recording has written.
  replay_loaded :
      (fuel : ℕ) (start : Vm) (s : S) (r : HaltReason) (vm : Vm) (w : Recording S)
      → IsValid start
      → run_record fuel start (record { source = s; frames = [] }) ≡ halt r vm w
      → end_replay (length w.frames) (run_replay w.frames fuel start 0) ≡ verified r vm
  replay_loaded fuel start s r vm w v e =
      let all : Each (λ vm1 w1. Prefix w1.frames w.frames)
          (run_record fuel start (record { source = s; frames = [] })) =
        rw e ([], append-nil w.frames) in
      ap (end_replay (length w.frames)) (
        run_goto-mirror w.frames fuel start (record { source = s; frames = [] }) v all
        ∙ ap mirror e)
      ∙ ground arith

  frames_from :
      (fuel : ℕ) (start : Vm) (s : S) (r : HaltReason) (vm : Vm) (w : Recording S)
      → IsValid start
      → run_record fuel start (record { source = s; frames = [] }) ≡ halt r vm w
      → All FromInput w.frames
  frames_from fuel start s r vm w v e =
      let g : Grows [] w.frames =
        rw e at (run_goto-Grown src fits fuel start (record { source = s; frames = [] }) v) in
      rw g.1 at g.2

  -- The trace file of the frames `fs`, opened and replayed on a program that loads.
  cmd_replay-flush :
      (fuel : ℕ) (bin : List ℕ) (start : Vm) (fs : List TraceFrame)
      → All FrameFits fs
      → load_program new_vm bin ≡ some start
      → cmd_replay fuel bin (flush fs) ≡ end_replay (length fs) (run_replay fs fuel start 0)
  unfolding cmd_replay replay_reader
  cmd_replay-flush fuel bin start fs h load =
      let reader : TraceReader = record {
        mapped = flush fs;
        frame_count = length fs;
        version = 1;
      } in
      let frames : frame_at reader ≡ get_elem? fs = fun_ext (λ i. frame_at-flush fs i h) in
      (λ i. elim (open_trace-flush fs i) [
        | refused e ↦ trace_refused e
        | opened reader ↦ replay_reader fuel bin reader
      ])
      ∙ ((λ i. elim (load i) [
        | none ↦ replay_too_large
        | some vm ↦
            end_replay (length fs) (run_goto (replay_hooks (frame_at reader)) none fuel vm 0)
      ])
          ∙ ap (λ g. end_replay (length fs) (run_goto (replay_hooks g) none fuel start 0)) frames)

  cmd_record_inv :
      (fuel : ℕ) (bin : List ℕ) (s : S) (r : HaltReason) (vm : Vm) (trace : List ℕ)
      → cmd_record src fuel bin s ≡ recorded r vm trace
      → (start : Vm) × (load_program new_vm bin ≡ some start)
        × (end_record (run_record fuel start (record { source = s; frames = [] }))
            ≡ recorded r vm trace)
  unfolding cmd_record
  cmd_record_inv fuel bin s r vm trace e = go (load_program new_vm bin) refl e
    where
      go :
          (o : Option Vm)
          → load_program new_vm bin ≡ o
          → (elim o [
            | none ↦ record_too_large
            | some start ↦ end_record (run_record fuel start (record { source = s; frames = [] }))
          ])
            ≡ recorded r vm trace
          → (start : Vm) × (load_program new_vm bin ≡ some start)
            × (end_record (run_record fuel start (record { source = s; frames = [] }))
                ≡ recorded r vm trace)
      go none l e = cc
      go (some start) l e = (start, l, e)

  -- The frames of the trace that a recording leaves.
  pub recorded_frames :
      (fuel : ℕ) (bin : List ℕ) (s : S) (r : HaltReason) (vm : Vm) (trace : List ℕ)
      → All IsU8 bin
      → cmd_record src fuel bin s ≡ recorded r vm trace
      → (fs : List TraceFrame) × (trace ≡ flush fs) × All FromInput fs
  recorded_frames fuel bin s r vm trace hb e =
      let (start, load, ended) = cmd_record_inv fuel bin s r vm trace e in
      let (w, halted, bytes) =
        recorded_inv (run_record fuel start (record { source = s; frames = [] })) r vm trace
          ended in
      let v = load_program-IsValid new_vm start bin hb new_vm-IsValid load in
      (w.frames, bytes, frames_from fuel start s r vm w v halted)

  -- Whatever a program of bytes reads from inputs that deliver 32-bit values, a recording of it
  -- that halts leaves a trace file against which the replay of the same program, given as many
  -- instructions, is verified: every frame is consumed, and the VM ends in the state and with the
  -- reason of the recording.
  pub cmd_replay-cmd_record :
      (fuel : ℕ) (bin : List ℕ) (s : S) (r : HaltReason) (vm : Vm) (trace : List ℕ)
      → All IsU8 bin
      → cmd_record src fuel bin s ≡ recorded r vm trace
      → cmd_replay fuel bin trace ≡ verified r vm
  cmd_replay-cmd_record fuel bin s r vm trace hb e =
      let (start, load, ended) = cmd_record_inv fuel bin s r vm trace e in
      let (w, halted, bytes) =
        recorded_inv (run_record fuel start (record { source = s; frames = [] })) r vm trace
          ended in
      let v = load_program-IsValid new_vm start bin hb new_vm-IsValid load in
      ap (cmd_replay fuel bin) bytes
      ∙ (cmd_replay-flush fuel bin start w.frames
            (All-FrameFits w.frames (frames_from fuel start s r vm w v halted)) load
          ∙ replay_loaded fuel start s r vm w v halted)
