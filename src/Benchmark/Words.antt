-- ===== src/Benchmark/Words.antt =====
-- src/main.cpp, the benchmarks' workload: the instruction at each address of the program.
use retro_vm.Prelude.{ℕ, ◌+◌, ◌≡◌, refl}
use retro_vm.Word.{join_bytes}
use retro_vm.Isa.{
  op_halt, op_load, op_store, op_add, op_sub, op_mul, op_div, op_jnz, op_li, opcode?, encode,
  decode_op, decode_dst, decode_src, decode_imm,
}
use retro_vm.Machine.{Vm}
use retro_vm.Hooks.{IoHooks}
use retro_vm.Dispatch.{dispatch, label}
use retro_vm.Assembler.{put_word, put_words}
use retro_vm.Benchmark.{workload, workload_bytes}
use retro_vm.Benchmark.Workload.{workload_byte}

-- The word of the program at `pc`.
abbrev pub word_at : ℕ → ℕ
word_at pc =
    join_bytes (workload_byte pc) (workload_byte (pc + 1)) (workload_byte (pc + 2))
      (workload_byte (pc + 3))

module _ {W : Type 0} (io : IoHooks W) (vm : Vm) (w : W) where
  pub li0_at : dispatch io (word_at 0) vm w ≡ label io op_li 0 0 1024 vm w
  unfolding dispatch opcode? encode decode_op decode_dst decode_src decode_imm join_bytes put_words
      put_word workload_bytes workload
  li0_at = refl

  pub li1_at : dispatch io (word_at 4) vm w ≡ label io op_li 1 0 1 vm w
  unfolding dispatch opcode? encode decode_op decode_dst decode_src decode_imm join_bytes put_words
      put_word workload_bytes workload
  li1_at = refl

  pub add2_at : dispatch io (word_at 8) vm w ≡ label io op_add 2 1 0 vm w
  unfolding dispatch opcode? encode decode_op decode_dst decode_src decode_imm join_bytes put_words
      put_word workload_bytes workload
  add2_at = refl

  pub add3_at : dispatch io (word_at 12) vm w ≡ label io op_add 3 1 0 vm w
  unfolding dispatch opcode? encode decode_op decode_dst decode_src decode_imm join_bytes put_words
      put_word workload_bytes workload
  add3_at = refl

  pub sub4_at : dispatch io (word_at 16) vm w ≡ label io op_sub 4 0 0 vm w
  unfolding dispatch opcode? encode decode_op decode_dst decode_src decode_imm join_bytes put_words
      put_word workload_bytes workload
  sub4_at = refl

  pub mul5_at : dispatch io (word_at 20) vm w ≡ label io op_mul 5 1 0 vm w
  unfolding dispatch opcode? encode decode_op decode_dst decode_src decode_imm join_bytes put_words
      put_word workload_bytes workload
  mul5_at = refl

  pub div6_at : dispatch io (word_at 24) vm w ≡ label io op_div 6 1 0 vm w
  unfolding dispatch opcode? encode decode_op decode_dst decode_src decode_imm join_bytes put_words
      put_word workload_bytes workload
  div6_at = refl

  pub store2_at : dispatch io (word_at 28) vm w ≡ label io op_store 2 0 0x100 vm w
  unfolding dispatch opcode? encode decode_op decode_dst decode_src decode_imm join_bytes put_words
      put_word workload_bytes workload
  store2_at = refl

  pub load7_at : dispatch io (word_at 32) vm w ≡ label io op_load 7 0 0x100 vm w
  unfolding dispatch opcode? encode decode_op decode_dst decode_src decode_imm join_bytes put_words
      put_word workload_bytes workload
  load7_at = refl

  pub sub0_at : dispatch io (word_at 36) vm w ≡ label io op_sub 0 1 0 vm w
  unfolding dispatch opcode? encode decode_op decode_dst decode_src decode_imm join_bytes put_words
      put_word workload_bytes workload
  sub0_at = refl

  pub jnz0_at : dispatch io (word_at 40) vm w ≡ label io op_jnz 0 0 8 vm w
  unfolding dispatch opcode? encode decode_op decode_dst decode_src decode_imm join_bytes put_words
      put_word workload_bytes workload
  jnz0_at = refl

  pub halt0_at : dispatch io (word_at 44) vm w ≡ label io op_halt 0 0 0 vm w
  unfolding dispatch opcode? encode decode_op decode_dst decode_src decode_imm join_bytes put_words
      put_word workload_bytes workload
  halt0_at = refl
