-- ===== src/Session/Growth.antt =====
-- src/main.cpp, `cmd_record`: a recording only adds frames, and each fits the trace format.
use mathlib.Core.List.{append_assoc, append-nil}
use retro_vm.Prelude.{
  ℕ, zero, suc, ◌<◌, ◌^◌, ◌≡◌, ◌⊎◌, inl, inr, refl, sym, ap, ◌∙◌, arith, Bool, true, false, List,
  [], ◌∷◌, ◌++◌, none, some, ◌==◌, if◌then◌else◌, All, All-append,
}
use retro_vm.Word.{IsU32}
use retro_vm.Isa.{
  Opcode, op_code, op_in, op_rand, opcode?, halt_unknown_op, decode_op, decode_dst, decode_src,
  decode_imm,
}
use retro_vm.Memory.{mem_load_u32}
use retro_vm.Machine.{Vm, read_reg, request_halt}
use retro_vm.Hooks.{Flow, halt, Each, Each-bind, Each-map, Each-and}
use retro_vm.Dispatch.{
  advance, make_snapshot, snapshot_fire, snapshot_tick, label, dispatch, tail_dispatch, run_goto,
}
use retro_vm.Dispatch.Validity.{
  IsValid, HooksFit, advance-IsValid, snapshot_tick-IsValid, tail_dispatch-IsValid,
}
use retro_vm.Trace.{TraceFrame, append}
use retro_vm.Trace.Codec.{FrameFits}
use retro_vm.Session.{Source, Recording, record_hooks}

-- The result types of `scanf("%u")` and of the generator's cast.
abbrev pub SourceFits : {S : Type 0} → Source S → Type 0
SourceFits {S} src = (s : S) → IsU32 (src.read_in s).0 × IsU32 (src.next_rand s).0

-- A frame that a recording writes: within its types, and of one of the two input instructions.
abbrev pub FromInput : TraceFrame → Type 0
FromInput f = FrameFits f × ((f.opcode ≡ op_code op_in) ⊎ (f.opcode ≡ op_code op_rand))

-- From `xs` to `ys` frames were added, each by an input instruction.
abbrev pub Grows : List TraceFrame → List TraceFrame → Type 0
Grows xs ys = (news : List TraceFrame) × (xs ++ news ≡ ys) × All FromInput news

pub All-FrameFits : (fs : List TraceFrame) → All FromInput fs → All FrameFits fs
All-FrameFits [] h = tt
All-FrameFits (f ∷ fs) h = (h.0.0, All-FrameFits fs h.1)

Grows-refl : (xs : List TraceFrame) → Grows xs xs
Grows-refl xs = ([], append-nil xs, tt)

Grows-trans : (xs ys zs : List TraceFrame) → Grows xs ys → Grows ys zs → Grows xs zs
Grows-trans xs ys zs (n1, e1, f1) (n2, e2, f2) = (
  n1 ++ n2,
  sym (append_assoc xs n1 n2) ∙ (ap (λ t. t ++ n2) e1 ∙ e2),
  All-append FromInput n1 n2 f1 f2,
)

module _ {S : Type 0} (src : Source S) (fits : SourceFits src) where
  abbrev Grown : Recording S → Vm → Recording S → Type 0
  Grown w vm w1 = Grows w.frames w1.frames

  pub record_hooks-HooksFit : HooksFit (record_hooks src)
  unfolding record_hooks
  record_hooks-HooksFit = (λ cycle w. (fits w.source).0, λ cycle w. (fits w.source).1)

  grown :
      (frames : List TraceFrame) (cycle op v : ℕ)
      → cycle < 2 ^ 64
      → (op ≡ op_code op_in) ⊎ (op ≡ op_code op_rand)
      → IsU32 v
      → Grows frames (append frames cycle op v)
  unfolding append
  grown frames cycle op v hc ho hv =
      (record { cycle = cycle; opcode = op; payload = v } ∷ [], refl, ((ground arith, ho), tt))

  if-Grown :
      (w : Recording S) (b : Bool) (x y : Flow (Recording S))
      → Each (Grown w) x
      → Each (Grown w) y
      → Each (Grown w) (if b then x else y)
  if-Grown w true x y hx hy = hx
  if-Grown w false x y hx hy = hy

  label-Grown :
      (o : Opcode) (dst s imm : ℕ) (vm : Vm) (w : Recording S)
      → IsValid vm
      → Each (Grown w) (label (record_hooks src) o dst s imm vm w)
  unfolding label record_hooks
  label-Grown Opcode.op_in dst s imm vm w v =
      grown w.frames vm.state.cycle_count _ _ v.cycle_fits (inl refl) (fits w.source).0
  label-Grown Opcode.op_rand dst s imm vm w v =
      grown w.frames vm.state.cycle_count _ _ v.cycle_fits (inr refl) (fits w.source).1
  label-Grown Opcode.op_div dst s imm vm w v =
      if-Grown w (read_reg vm s == 0) _ _ (Grows-refl w.frames) (Grows-refl w.frames)
  label-Grown Opcode.op_jnz dst s imm vm w v =
      if-Grown w (read_reg vm dst == 0) _ _ (Grows-refl w.frames) (Grows-refl w.frames)
  label-Grown _ dst s imm vm w v = Grows-refl w.frames

  dispatch-Grown :
      (instr : ℕ) (vm : Vm) (w : Recording S)
      → IsValid vm
      → Each (Grown w) (dispatch (record_hooks src) instr vm w)
  unfolding dispatch
  dispatch-Grown instr vm w v =
      elim (opcode? (decode_op instr))
        as (λ o. Each (Grown w) (elim o [
          | none ↦ halt halt_unknown_op (request_halt vm halt_unknown_op) w
          | some o ↦
              label (record_hooks src) o (decode_dst instr) (decode_src instr) (decode_imm instr) vm
                w
        ])) [ none ↦ Grows-refl w.frames | some o ↦ label-Grown o _ _ _ vm w v ]

  snapshot_tick-Same :
      (vm : Vm) (w : Recording S) → Each (λ vm1 w1. w1 ≡ w) (snapshot_tick none vm w)
  unfolding snapshot_tick snapshot_fire make_snapshot
  snapshot_tick-Same vm w = ground arith

  -- What grows from a state in between grows from the start.
  then_Grown :
      (vm1 : Vm) (w w1 : Recording S) (rest : Flow (Recording S))
      → Grows w.frames w1.frames
      → Each (Grown w1) rest
      → Each (Grown w) rest
  then_Grown vm1 w w1 rest first =
      Each-map (Grown w1) (Grown w) rest (λ vm2 w2. Grows-trans w.frames w1.frames w2.frames first)

  tail_dispatch-Grown :
      (vm : Vm) (w : Recording S)
      → IsValid vm
      → Each (Grown w) (tail_dispatch (record_hooks src) none vm w)
  unfolding tail_dispatch
  tail_dispatch-Grown vm w v =
      let tick = snapshot_tick none (advance vm) w in
      let Between = λ (vm1 : Vm) (w1 : Recording S). (w1 ≡ w) × IsValid vm1 in
      Each-bind Between (Grown w) tick _ (λ vm1 w1 h. rw h.0 (Grows-refl w.frames))
        (Each-and (λ vm1 w1. w1 ≡ w) (λ vm1 w1. IsValid vm1) tick
          (snapshot_tick-Same (advance vm) w)
          (snapshot_tick-IsValid (record_hooks src) none (advance vm) w (advance-IsValid vm v)))
        (λ vm1 w1 h. rw h.0 (dispatch-Grown (mem_load_u32 vm.mem vm.state.pc) vm1 w h.1))

  pub run_goto-Grown :
      (fuel : ℕ) (vm : Vm) (w : Recording S)
      → IsValid vm
      → Each (λ vm1 w1. Grows w.frames w1.frames) (run_goto (record_hooks src) none fuel vm w)
  unfolding run_goto
  run_goto-Grown zero vm w v = Grows-refl w.frames
  run_goto-Grown (suc fuel) vm w v =
      let step = tail_dispatch (record_hooks src) none vm w in
      let Between = λ (vm1 : Vm) (w1 : Recording S). Grown w vm1 w1 × IsValid vm1 in
      Each-bind Between (Grown w) step _ (λ vm1 w1 h. h.0)
        (Each-and (Grown w) (λ vm1 w1. IsValid vm1) step (tail_dispatch-Grown vm w v)
          (tail_dispatch-IsValid (record_hooks src) none vm w record_hooks-HooksFit v))
        (λ vm1 w1 h. then_Grown vm1 w w1 _ h.0 (run_goto-Grown fuel vm1 w1 h.1))
