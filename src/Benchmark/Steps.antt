-- ===== src/Benchmark/Steps.antt =====
-- src/main.cpp, the benchmarks' workload: its run, an instruction at a time.
use retro_vm.Prelude.{
  ℕ, suc, ◌+◌, ◌-◌, ◌^◌, ◌<◌, ◌≤◌, ◌≡◌, refl, ap, ◌∙◌, arith, List, [], ◌∷◌, none, get_or, ◌==◌,
  if_false,
}
use retro_vm.Word.{u64, sub32}
use retro_vm.Isa.{halt_normal, halt_running, op_load, op_store, op_add, op_sub, op_mul, op_div}
use retro_vm.Memory.{Memory, MemDelta, mem_size, mem_load_u32}
use retro_vm.Machine.{Vm, request_halt}
use retro_vm.Hooks.{IoHooks, Flow, next, halt, throw, ◌>>=◌}
use retro_vm.Dispatch.{
  advance, dispatch, label, tail_dispatch, run_goto, label_add, label_sub, label_mul, label_div,
  label_load, label_store, label_jnz, label_li, label_halt,
}
use retro_vm.Dispatch.Snapshots.{snapshot_tick_off}
use retro_vm.Benchmark.Workload.{Holds, fetched, mem_store_u32-Holds}
use retro_vm.Benchmark.Words.{
  word_at, li0_at, li1_at, add2_at, add3_at, sub4_at, mul5_at, div6_at, store2_at, load7_at,
  sub0_at, jnz0_at, halt0_at,
}

-- What the loop changes and its course does not depend on.
pub record Cells : Type 0 where
  pub mem : Memory
  pub deltas : List MemDelta
  pub flags : ℕ
  pub r2 : ℕ
  pub r3 : ℕ
  pub r4 : ℕ
  pub r5 : ℕ
  pub r6 : ℕ
  pub r7 : ℕ

-- A running VM with the cycle count `c`, `k` in R0, `one` in R1 and the program counter `pc`.
abbrev pub vm_at : ℕ → ℕ → ℕ → ℕ → Cells → Vm
vm_at c k one pc x = record {
  mem = x.mem;
  state = record {
    cycle_count = c;
    regs = k ∷ one ∷ x.r2 ∷ x.r3 ∷ x.r4 ∷ x.r5 ∷ x.r6 ∷ x.r7 ∷ [];
    pc = pc;
    sp = mem_size - 4;
    flags = x.flags;
    halted = halt_running;
    snap_interval = 0;
    snap_timer = 0;
  };
  deltas = x.deltas;
}

abbrev pub cells_of : Vm → Cells
cells_of vm = record {
  mem = vm.mem;
  deltas = vm.deltas;
  flags = vm.state.flags;
  r2 = get_or vm.state.regs 2 0;
  r3 = get_or vm.state.regs 3 0;
  r4 = get_or vm.state.regs 4 0;
  r5 = get_or vm.state.regs 5 0;
  r6 = get_or vm.state.regs 6 0;
  r7 = get_or vm.state.regs 7 0;
}

abbrev pub vm_of : {W : Type 0} → Vm → Flow W → Vm
vm_of vm (next vm1 w) = vm1
vm_of vm (halt r vm1 w) = vm1
vm_of vm (throw e vm1 w) = vm1

module _ {W : Type 0} (io : IoHooks W) (w : W) where
  abbrev pub Leads : ℕ → Vm → ℕ → ℕ → ℕ → ℕ → Type 0
  Leads n vm c k one pc =
      (x : Cells) × Holds x.mem
      × ((fuel : ℕ)
          → run_goto io none (n + fuel) vm w ≡ run_goto io none fuel (vm_at c k one pc x) w)

  pub stepped :
      (vm : Vm)
      → Holds vm.mem
      → vm.state.pc ≤ 44
      → vm.state.snap_interval ≡ 0
      → tail_dispatch io none vm w ≡ dispatch io (word_at vm.state.pc) (advance vm) w
  unfolding tail_dispatch
  stepped vm h l off =
      ap (λ f. f >>= λ (vm1, w1). dispatch io (mem_load_u32 vm.mem vm.state.pc) vm1 w1)
        (snapshot_tick_off none (advance vm) w off)
      ∙ ap (λ instr. dispatch io instr (advance vm) w) (fetched vm.mem h vm.state.pc l)

  -- One instruction that goes on.
  pub one_step :
      (vm : Vm) (c k one pc : ℕ) (x : Cells)
      → Holds vm.mem
      → vm.state.pc ≤ 44
      → vm.state.snap_interval ≡ 0
      → c < 2 ^ 64
      → dispatch io (word_at vm.state.pc) (advance vm) w ≡ next (vm_at (u64 c) k one pc x) w
      → Holds x.mem
      → Leads 1 vm c k one pc
  unfolding run_goto
  one_step vm c k one pc x h l off hc e hx =
      let same : u64 c ≡ c = omega arith in
      let step = stepped vm h l off ∙ (e ∙ ap (λ c. next (vm_at c k one pc x) w) same) in
      (
        x,
        hx,
        λ fuel.
            ap (λ n. run_goto io none n vm w) (one_more fuel)
            ∙ ap (λ f. f >>= λ (vm1, w1). run_goto io none fuel vm1 w1) step,
      )
    where
      one_more : (fuel : ℕ) → 1 + fuel ≡ suc fuel
      one_more fuel = omega arith

  -- One run behind another.
  pub followed :
      (n m p : ℕ) (vm : Vm) (c k one pc : ℕ) (c1 k1 one1 pc1 : ℕ)
      → Leads n vm c k one pc
      → ((x : Cells) → Holds x.mem → Leads m (vm_at c k one pc x) c1 k1 one1 pc1)
      → p ≡ n + m
      → Leads p vm c1 k1 one1 pc1
  followed n m p vm c k one pc c1 k1 one1 pc1 (x, h, f) g e =
      let (x1, h1, f1) = g x h in
      (x1, h1, λ fuel. ap (λ q. run_goto io none q vm w) (both fuel) ∙ (f (m + fuel) ∙ f1 fuel))
    where
      both : (fuel : ℕ) → p + fuel ≡ n + (m + fuel)
      both fuel = omega arith

  -- The instructions of a round with `k` in R0, each from its address to the next.
  module _ (c k : ℕ) (hc : c + 1 < 2 ^ 64) (x : Cells) (h : Holds x.mem) where
    pub add2 : Leads 1 (vm_at c k 1 8 x) (c + 1) k 1 12
    unfolding label label_add
    add2 =
        let vm = vm_at c k 1 8 x in
        one_step vm (c + 1) k 1 12 (cells_of (vm_of vm (label io op_add 2 1 0 (advance vm) w))) h
          (omega arith) refl hc (add2_at io (advance vm) w) h

    pub add3 : Leads 1 (vm_at c k 1 12 x) (c + 1) k 1 16
    unfolding label label_add
    add3 =
        let vm = vm_at c k 1 12 x in
        one_step vm (c + 1) k 1 16 (cells_of (vm_of vm (label io op_add 3 1 0 (advance vm) w))) h
          (omega arith) refl hc (add3_at io (advance vm) w) h

    pub sub4 : Leads 1 (vm_at c k 1 16 x) (c + 1) k 1 20
    unfolding label label_sub
    sub4 =
        let vm = vm_at c k 1 16 x in
        one_step vm (c + 1) k 1 20 (cells_of (vm_of vm (label io op_sub 4 0 0 (advance vm) w))) h
          (omega arith) refl hc (sub4_at io (advance vm) w) h

    pub mul5 : Leads 1 (vm_at c k 1 20 x) (c + 1) k 1 24
    unfolding label label_mul
    mul5 =
        let vm = vm_at c k 1 20 x in
        one_step vm (c + 1) k 1 24 (cells_of (vm_of vm (label io op_mul 5 1 0 (advance vm) w))) h
          (omega arith) refl hc (mul5_at io (advance vm) w) h

    pub div6 : Leads 1 (vm_at c k 1 24 x) (c + 1) k 1 28
    unfolding label label_div
    div6 =
        let vm = vm_at c k 1 24 x in
        one_step vm (c + 1) k 1 28 (cells_of (vm_of vm (label io op_div 6 1 0 (advance vm) w))) h
          (omega arith) refl hc (div6_at io (advance vm) w) h

    pub store2 : Leads 1 (vm_at c k 1 28 x) (c + 1) k 1 32
    unfolding label label_store
    store2 =
        let vm = vm_at c k 1 28 x in
        one_step vm (c + 1) k 1 32
          (cells_of (vm_of vm (label io op_store 2 0 0x100 (advance vm) w))) h (omega arith) refl hc
          (store2_at io (advance vm) w) (mem_store_u32-Holds x.mem x.r2 h)

    pub load7 : Leads 1 (vm_at c k 1 32 x) (c + 1) k 1 36
    unfolding label label_load
    load7 =
        let vm = vm_at c k 1 32 x in
        one_step vm (c + 1) k 1 36 (cells_of (vm_of vm (label io op_load 7 0 0x100 (advance vm) w)))
          h (omega arith) refl hc (load7_at io (advance vm) w) h

    pub sub0 : Leads 1 (vm_at c k 1 36 x) (c + 1) (sub32 k 1) 1 40
    unfolding label label_sub
    sub0 =
        let vm = vm_at c k 1 36 x in
        one_step vm (c + 1) (sub32 k 1) 1 40
          (cells_of (vm_of vm (label io op_sub 0 1 0 (advance vm) w))) h (omega arith) refl hc
          (sub0_at io (advance vm) w) h

  -- The first two instructions.
  module _ (x : Cells) (h : Holds x.mem) where
    pub li0 : Leads 1 (vm_at 0 0 0 0 x) 1 1024 0 4
    unfolding label label_li
    li0 =
        one_step (vm_at 0 0 0 0 x) 1 1024 0 4 x h (omega arith) refl (omega arith)
          (li0_at io (advance (vm_at 0 0 0 0 x)) w) h

    pub li1 : Leads 1 (vm_at 1 1024 0 4 x) 2 1024 1 8
    unfolding label label_li
    li1 =
        one_step (vm_at 1 1024 0 4 x) 2 1024 1 8 x h (omega arith) refl (omega arith)
          (li1_at io (advance (vm_at 1 1024 0 4 x)) w) h

  -- The branch at the end of a round, taken and not taken.
  module _ (c : ℕ) (hc : c + 1 < 2 ^ 64) (x : Cells) (h : Holds x.mem) where
    pub jnz0_back : (j : ℕ) → Leads 1 (vm_at c (suc j) 1 40 x) (c + 1) (suc j) 1 8
    unfolding label label_jnz
    jnz0_back j =
        one_step (vm_at c (suc j) 1 40 x) (c + 1) (suc j) 1 8 x h (omega arith) refl hc
          (jnz0_at io (advance (vm_at c (suc j) 1 40 x)) w
            ∙ if_false (suc j == 0) _ _ (ground arith))
          h

    pub jnz0_on : Leads 1 (vm_at c 0 1 40 x) (c + 1) 0 1 44
    unfolding label label_jnz
    jnz0_on =
        one_step (vm_at c 0 1 40 x) (c + 1) 0 1 44 x h (omega arith) refl hc
          (jnz0_at io (advance (vm_at c 0 1 40 x)) w) h

  -- The last instruction.
  pub halt0 :
      (fuel c : ℕ) (x : Cells)
      → Holds x.mem
      → c + 1 < 2 ^ 64
      → run_goto io none (1 + fuel) (vm_at c 0 1 44 x) w
        ≡ halt halt_normal (request_halt (vm_at (c + 1) 0 1 48 x) halt_normal) w
  unfolding run_goto label label_halt
  halt0 fuel c x h hc =
      let vm = vm_at c 0 1 44 x in
      let same : u64 (c + 1) ≡ c + 1 = omega arith in
      ap (λ n. run_goto io none n vm w) (one_more fuel)
      ∙ ap (λ f. f >>= λ (vm1, w1). run_goto io none fuel vm1 w1)
          (stepped vm h (omega arith) refl ∙ halt0_at io (advance vm) w)
      ∙ ap (λ c. halt halt_normal (request_halt (vm_at c 0 1 48 x) halt_normal) w) same
    where
      one_more : (fuel : ℕ) → 1 + fuel ≡ suc fuel
      one_more fuel = omega arith
