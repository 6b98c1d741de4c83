-- ===== src/Program/Demo.antt =====
-- src/main.cpp, `run_builtin_demo`: the program, its run and the assertions on the VM that is left.
use retro_vm.Prelude.{ℕ, Bool, ◌&&◌, List, [], ◌∷◌, Option, none, some, ◌==◌, bit_or, if◌then◌else◌}
use retro_vm.Word.{shl}
use retro_vm.Isa.{HaltReason, op_halt, op_load, op_store, op_add, op_li, op_code, encode}
use retro_vm.Memory.{Memory}
use retro_vm.Machine.{Vm, new_vm, load_program, read_reg}
use retro_vm.Hooks.{IoHooks, next, halt, throw}
use retro_vm.Dispatch.{run_goto}
use retro_vm.Assembler.{put_words}

unfoldable pub demo_program : List ℕ
demo_program =
    encode (op_code op_li) 0 0 5
    ∷ encode (op_code op_li) 1 0 7
    ∷ encode (op_code op_li) 2 0 5
    ∷ encode (op_code op_add) 2 1 0
    ∷ encode (op_code op_store) 2 0 0x100
    ∷ encode (op_code op_load) 3 0 0x100
    ∷ encode (op_code op_halt) 0 0 0
    ∷ []

-- `mem100`, read byte by byte.
abbrev pub mem100 : Memory → ℕ
mem100 m =
    bit_or (bit_or (bit_or (m 0x100) (shl (m 0x101) 8)) (shl (m 0x102) 16)) (shl (m 0x103) 24)

-- The calls of `check`: what is expected, in their order.
abbrev pub demo_checks : HaltReason → Vm → Bool
demo_checks r vm =
    read_reg vm 0 == 5
    && (read_reg vm 1 == 7
        && (read_reg vm 2 == 12
            && (read_reg vm 3 == 12
                && (r == 1 && (vm.state.cycle_count == 7 && mem100 vm.mem == 12)))))

-- The exit code; `none` is a run that does not end. The result of `load_program` is not looked at.
unfoldable pub run_builtin_demo : {W : Type 0} → IoHooks W → ℕ → W → Option ℕ
unfolding demo_program
run_builtin_demo io fuel w =
    let started : Vm = elim (load_program new_vm (put_words demo_program)) [
      | none ↦ new_vm
      | some vm ↦ vm
    ] in
    elim (run_goto io none fuel started w) [
      | next vm w1 ↦ none
      | halt r vm w1 ↦ some (if demo_checks r vm then 0 else 2)
      | throw e vm w1 ↦ none
    ]
