-- ===== src/Dispatch/Validity.antt =====
-- src/vm.cpp: what every operation of class VM keeps of its state. The fields stay within the
-- types that include/retrovm/vm.hpp gives them, the register file keeps its eight registers, and
-- each entry of the log addresses a cell of the arena.
use retro_vm.Prelude.{
  ℕ, ◌/◌, ◌^◌, ◌<◌, ◌≡◌, arith, Bool, false, Option, none, some, ◌==◌, length, length-set, All,
  All-set, All-get_or, inl, inr,
}
use retro_vm.Word.{sub32, IsU32, sign_bit}
use retro_vm.Isa.{
  Opcode, op_code, halt_normal, halt_unknown_op, opcode?, flags_of, decode_op, decode_dst,
  decode_src, decode_imm,
}
use retro_vm.Isa.Codec.{decode-eq-div}
use retro_vm.Memory.{IsMemory, mem_load_u32}
use retro_vm.Memory.Laws.{mem_load_u32-lt, mem_store_u32-IsMemory}
use retro_vm.Machine.{Vm, IsDelta, read_reg, write_reg, set_flags, set_pc, request_halt}
use retro_vm.Machine.Log.{log_store-IsDelta}
use retro_vm.Hooks.{Answer, value, thrown, IoHooks, SnapshotSink, next, halt, Each, Each-bind}
use retro_vm.Dispatch.Snapshots.{snapped, snapshot_tick-cases}
use retro_vm.Dispatch.{
  advance, set_timer, snapshot_tick, label, label_store, label_div, received, dispatch,
  tail_dispatch,
}

pub record IsValid (vm : Vm) : Type 0 where
  pub eight : length vm.state.regs ≡ 8
  pub regs_fit : All IsU32 vm.state.regs
  pub pc_fits : IsU32 vm.state.pc
  pub sp_fits : IsU32 vm.state.sp
  pub flags_fit : IsU32 vm.state.flags
  pub cycle_fits : vm.state.cycle_count < 2 ^ 64
  pub interval_fits : IsU32 vm.state.snap_interval
  pub timer_fits : IsU32 vm.state.snap_timer
  pub bytes : IsMemory vm.mem
  pub logged : All IsDelta vm.deltas

-- An input hook has the result type `uint32_t`.
abbrev pub AnswerFits : {W : Type 0} → Answer W → Type 0
AnswerFits (value v w) = IsU32 v
AnswerFits (thrown e w) = Unit

abbrev pub HookFits : {W : Type 0} → Option (ℕ → W → Answer W) → Type 0
HookFits {W} none = Unit
HookFits {W} (some f) = (cycle : ℕ) (w : W) → AnswerFits (f cycle w)

abbrev pub HooksFit : {W : Type 0} → IoHooks W → Type 0
HooksFit io = HookFits io.in_hook × HookFits io.rand_hook

abbrev Valid : {W : Type 0} → Vm → W → Type 0
Valid vm w = IsValid vm

module _ (vm : Vm) (v : IsValid vm) where
  write_reg-IsValid : (i x : ℕ) → IsU32 x → IsValid (write_reg vm i x)
  write_reg-IsValid i x h =
      ground (arith, length-set vm.state.regs i x, All-set IsU32 vm.state.regs i x v.regs_fit h)

  set_flags-IsValid : (f : ℕ) → IsU32 f → IsValid (set_flags vm f)
  set_flags-IsValid f h = ground arith

  set_pc-IsValid : (a : ℕ) → IsU32 a → IsValid (set_pc vm a)
  set_pc-IsValid a h = ground arith

  pub request_halt-IsValid : (r : ℕ) → IsValid (request_halt vm r)
  request_halt-IsValid r = ground arith

  read_reg-lt : (i : ℕ) → IsU32 (read_reg vm i)
  read_reg-lt i = All-get_or IsU32 vm.state.regs i 0 v.regs_fit (omega arith)

flags_of-lt : (z c s : Bool) → IsU32 (flags_of z c s)
unfolding flags_of
flags_of-lt z c s = ground arith

quotient-lt : (a b : ℕ) → IsU32 a → IsU32 (a / b)
quotient-lt a b h = grind arith

pub decoded-lt : (i : ℕ) → (decode_dst i < 8) × (decode_src i < 8) × (decode_imm i < 2 ^ 20)
decoded-lt i = omega (arith, decode-eq-div i)

-- A result written to a register, with its flags.
result-IsValid :
    (vm : Vm) (dst r : ℕ) (z c s : Bool)
    → IsValid vm
    → IsU32 r
    → IsValid (set_flags (write_reg vm dst r) (flags_of z c s))
result-IsValid vm dst r z c s v h =
    set_flags-IsValid (write_reg vm dst r) (write_reg-IsValid vm v dst r h) (flags_of z c s)
      (flags_of-lt z c s)

module _ {W : Type 0} where
  store-IsValid :
      (dst imm : ℕ) (vm : Vm) (w : W)
      → imm < 2 ^ 20
      → IsValid vm
      → Each Valid (label_store dst imm vm w)
  unfolding label_store
  store-IsValid dst imm vm w h v = record {
    eight = v.eight;
    regs_fit = v.regs_fit;
    pc_fits = v.pc_fits;
    sp_fits = v.sp_fits;
    flags_fit = v.flags_fit;
    cycle_fits = v.cycle_fits;
    interval_fits = v.interval_fits;
    timer_fits = v.timer_fits;
    bytes = mem_store_u32-IsMemory vm.mem imm (read_reg vm dst) v.bytes;
    logged = log_store-IsDelta vm.mem imm vm.deltas h v.bytes v.logged;
  }

  received-IsValid :
      (io : IoHooks W) (op dst : ℕ) (vm : Vm) (a : Answer W)
      → AnswerFits a
      → IsValid vm
      → Each Valid (received io op dst vm a)
  received-IsValid io op dst vm (value x w) h v = write_reg-IsValid vm v dst x h
  received-IsValid io op dst vm (thrown e w) h v = v

  input-IsValid :
      (io : IoHooks W) (op dst : ℕ) (hook : Option (ℕ → W → Answer W)) (vm : Vm) (w : W)
      → HookFits hook
      → IsValid vm
      → Each Valid (elim hook [
        | none ↦ next vm w
        | some f ↦ received io op dst vm (f vm.state.cycle_count w)
      ])
  input-IsValid io op dst none vm w h v = v
  input-IsValid io op dst (some f) vm w h v =
      received-IsValid io op dst vm (f vm.state.cycle_count w) (h _ w) v

  div-IsValid : (dst src : ℕ) (vm : Vm) (w : W) → IsValid vm → Each Valid (label_div dst src vm w)
  unfolding label_div
  div-IsValid dst src vm w v =
      let a = read_reg vm dst in
      let b = read_reg vm src in
      ground (
        arith,
        result-IsValid vm dst (a / b) (a / b == 0) false (sign_bit (a / b)) v
            (quotient-lt a b (read_reg-lt vm v dst)),
      )

  label-IsValid :
      (io : IoHooks W) (o : Opcode) (dst src imm : ℕ) (vm : Vm) (w : W)
      → HooksFit io
      → imm < 2 ^ 20
      → IsValid vm
      → Each Valid (label io o dst src imm vm w)
  unfolding label
  label-IsValid io Opcode.op_halt dst src imm vm w hf h v = request_halt-IsValid vm v halt_normal
  label-IsValid io Opcode.op_load dst src imm vm w hf h v =
      write_reg-IsValid vm v dst (mem_load_u32 vm.mem imm) (mem_load_u32-lt vm.mem imm v.bytes)
  label-IsValid io Opcode.op_store dst src imm vm w hf h v = store-IsValid dst imm vm w h v
  label-IsValid io Opcode.op_add dst src imm vm w hf h v =
      result-IsValid vm dst _ _ _ _ v (omega arith)
  label-IsValid io Opcode.op_sub dst src imm vm w hf h v =
      result-IsValid vm dst _ _ _ _ v (omega arith)
  label-IsValid io Opcode.op_mul dst src imm vm w hf h v =
      result-IsValid vm dst _ _ _ _ v (omega arith)
  label-IsValid io Opcode.op_div dst src imm vm w hf h v = div-IsValid dst src vm w v
  label-IsValid io Opcode.op_jump dst src imm vm w hf h v = set_pc-IsValid vm v imm (omega arith)
  label-IsValid io Opcode.op_jnz dst src imm vm w hf h v =
      ground (arith, set_pc-IsValid vm v imm (omega arith))
  label-IsValid io Opcode.op_in dst src imm vm w hf h v =
      input-IsValid io (op_code Opcode.op_in) dst io.in_hook vm w hf.0 v
  label-IsValid io Opcode.op_rand dst src imm vm w hf h v =
      input-IsValid io (op_code Opcode.op_rand) dst io.rand_hook vm w hf.1 v
  label-IsValid io Opcode.op_li dst src imm vm w hf h v =
      write_reg-IsValid vm v dst imm (omega arith)

  pub dispatch-IsValid :
      (io : IoHooks W) (instr : ℕ) (vm : Vm) (w : W)
      → HooksFit io
      → IsValid vm
      → Each Valid (dispatch io instr vm w)
  unfolding dispatch
  dispatch-IsValid io instr vm w hf v =
      elim (opcode? (decode_op instr))
        as (λ o. Each Valid (elim o [
          | none ↦ halt halt_unknown_op (request_halt vm halt_unknown_op) w
          | some o ↦ label io o (decode_dst instr) (decode_src instr) (decode_imm instr) vm w
        ])) [
          | none ↦ request_halt-IsValid vm v halt_unknown_op
          | some o ↦ label-IsValid io o _ _ (decode_imm instr) vm w hf (decoded-lt instr).2 v
        ]

set_timer-IsValid : (vm : Vm) (t : ℕ) → IsValid vm → IsU32 t → IsValid (set_timer vm t)
set_timer-IsValid vm t v h = ground arith

pub snapped-IsValid : (vm : Vm) (h : ℕ) → IsValid vm → IsValid (snapped vm h)
snapped-IsValid vm h v = ground arith

pub advance-IsValid : (vm : Vm) → IsValid vm → IsValid (advance vm)
advance-IsValid vm v = ground arith

module _ {W : Type 0} (io : IoHooks W) (sink : Option (SnapshotSink W)) where
  pub snapshot_tick-IsValid : (vm : Vm) (w : W) → IsValid vm → Each Valid (snapshot_tick sink vm w)
  snapshot_tick-IsValid vm w v = elim (snapshot_tick-cases sink vm w) [
    | inl e ↦ rw e v
    | inr (inl e) ↦ rw e (set_timer-IsValid vm (sub32 vm.state.snap_timer 1) v (omega arith))
    | inr (inr (h, e)) ↦ rw e (ground (arith, snapped-IsValid vm h v))
  ]

  pub tail_dispatch-IsValid :
      (vm : Vm) (w : W) → HooksFit io → IsValid vm → Each Valid (tail_dispatch io sink vm w)
  unfolding tail_dispatch
  tail_dispatch-IsValid vm w hf v =
      Each-bind Valid Valid (snapshot_tick sink (advance vm) w) _ (λ vm1 w1 v1. v1)
        (snapshot_tick-IsValid (advance vm) w (advance-IsValid vm v))
        (λ vm1 w1 v1. dispatch-IsValid io _ vm1 w1 hf v1)
