-- ===== src/Session/Mirror.antt =====
-- src/main.cpp: a replay against the trace that a recording leaves does what the recording did,
-- instruction by instruction.
use mathlib.Core.List.{append_assoc}
use retro_vm.Prelude.{
  ℕ, ◌≡◌, refl, sym, ap, ◌∙◌, arith, List, [], ◌∷◌, ◌++◌, Option, none, some, length, get_elem?,
  get_elem?-append_next, length-append,
}
use retro_vm.Isa.{
  Opcode, op_code, opcode?, halt_unknown_op, decode_op, decode_dst, decode_src, decode_imm,
}
use retro_vm.Memory.{mem_load_u32}
use retro_vm.Machine.{Vm, request_halt}
use retro_vm.Hooks.{value, IoHooks, Flow, next, halt, throw, ◌>>=◌, Each}
use retro_vm.Dispatch.{
  advance, make_snapshot, snapshot_fire, snapshot_tick, received, label, dispatch, tail_dispatch,
}
use retro_vm.Trace.{TraceFrame, append}
use retro_vm.Session.{Source, Recording, record_hooks, consume, replay_hooks}

-- A recording seen as a replay: the frames written are the frames consumed.
abbrev pub mirror : {S : Type 0} → Flow (Recording S) → Flow ℕ
mirror (next vm w) = next vm (length w.frames)
mirror (halt r vm w) = halt r vm (length w.frames)
mirror (throw e vm w) = throw e vm (length w.frames)

abbrev pub Prefix : List TraceFrame → List TraceFrame → Type 0
Prefix xs trace = (rest : List TraceFrame) × (xs ++ rest ≡ trace)

module _ {S : Type 0} (src : Source S) (trace : List TraceFrame) where
  abbrev Written : Vm → Recording S → Type 0
  Written vm w = Prefix w.frames trace

  -- One frame just written is the frame that the cursor stands at.
  next_frame :
      (frames : List TraceFrame) (cycle op v : ℕ)
      → Prefix (append frames cycle op v) trace
      → get_elem? trace (length frames) ≡ some (record { cycle = cycle; opcode = op; payload = v })
  unfolding append
  next_frame frames cycle op v (rest, e) =
      ap (λ t. get_elem? t (length frames)) (sym e ∙ append_assoc frames _ rest)
      ∙ get_elem?-append_next frames rest _

  consume_written :
      (frames : List TraceFrame) (cycle op v : ℕ)
      → Prefix (append frames cycle op v) trace
      → consume (get_elem? trace) op cycle (length frames)
        ≡ value v (length (append frames cycle op v))
  unfolding consume append
  consume_written frames cycle op v p = ground (
    arith,
    next_frame frames cycle op v p,
    length-append frames (record { cycle = cycle; opcode = op; payload = v } ∷ []),
  )

  label-mirror :
      (o : Opcode) (dst s imm : ℕ) (vm : Vm) (w : Recording S)
      → Each Written (label (record_hooks src) o dst s imm vm w)
      → label (replay_hooks (get_elem? trace)) o dst s imm vm (length w.frames)
        ≡ mirror (label (record_hooks src) o dst s imm vm w)
  unfolding label record_hooks replay_hooks
  label-mirror Opcode.op_in dst s imm vm w p =
      ap (received (replay_hooks (get_elem? trace)) (op_code Opcode.op_in) dst vm)
        (consume_written w.frames vm.state.cycle_count (op_code Opcode.op_in) _ p)
  label-mirror Opcode.op_rand dst s imm vm w p =
      ap (received (replay_hooks (get_elem? trace)) (op_code Opcode.op_rand) dst vm)
        (consume_written w.frames vm.state.cycle_count (op_code Opcode.op_rand) _ p)
  label-mirror Opcode.op_div dst s imm vm w p = ground arith
  label-mirror Opcode.op_jnz dst s imm vm w p = ground arith
  label-mirror _ dst s imm vm w p = refl

  snapshot_tick-mirror :
      (vm : Vm) (w : Recording S)
      → snapshot_tick none vm (length w.frames) ≡ mirror (snapshot_tick none vm w)
  unfolding snapshot_tick snapshot_fire make_snapshot
  snapshot_tick-mirror vm w = ground arith

  dispatch-mirror :
      (instr : ℕ) (vm : Vm) (w : Recording S)
      → Each Written (dispatch (record_hooks src) instr vm w)
      → dispatch (replay_hooks (get_elem? trace)) instr vm (length w.frames)
        ≡ mirror (dispatch (record_hooks src) instr vm w)
  unfolding dispatch
  dispatch-mirror instr vm w = go (opcode? (decode_op instr))
    where
      to : {W : Type 0} → IoHooks W → Option Opcode → W → Flow W
      to io o w1 = elim o [
        | none ↦ halt halt_unknown_op (request_halt vm halt_unknown_op) w1
        | some o ↦ label io o (decode_dst instr) (decode_src instr) (decode_imm instr) vm w1
      ]

      go :
          (o : Option Opcode)
          → Each Written (to (record_hooks src) o w)
          → to (replay_hooks (get_elem? trace)) o (length w.frames)
            ≡ mirror (to (record_hooks src) o w)
      go none p = refl
      go (some o) p = label-mirror o _ _ _ vm w p

  -- A flow that writes a part of the trace, and a continuation that is mirrored wherever it goes on.
  bind-mirror :
      (f : Flow (Recording S)) (g : Flow ℕ) (k : Vm × Recording S → Flow (Recording S))
      (l : Vm × ℕ → Flow ℕ)
      → g ≡ mirror f
      → ((vm : Vm) (w : Recording S)
          → Each Written (k (vm, w))
          → l (vm, length w.frames) ≡ mirror (k (vm, w)))
      → Each Written (f >>= k)
      → (g >>= l) ≡ mirror (f >>= k)
  bind-mirror (next vm w) g k l e rest p = ap (λ t. t >>= l) e ∙ rest vm w p
  bind-mirror (halt r vm w) g k l e rest p = ap (λ t. t >>= l) e
  bind-mirror (throw x vm w) g k l e rest p = ap (λ t. t >>= l) e

  pub tail_dispatch-mirror :
      (vm : Vm) (w : Recording S)
      → Each Written (tail_dispatch (record_hooks src) none vm w)
      → tail_dispatch (replay_hooks (get_elem? trace)) none vm (length w.frames)
        ≡ mirror (tail_dispatch (record_hooks src) none vm w)
  unfolding tail_dispatch
  tail_dispatch-mirror vm w =
      bind-mirror (snapshot_tick none (advance vm) w) _ _ _ (snapshot_tick-mirror (advance vm) w)
        (λ vm1 w1. dispatch-mirror (mem_load_u32 vm.mem vm.state.pc) vm1 w1)
