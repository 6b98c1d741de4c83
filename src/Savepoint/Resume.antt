-- ===== src/Savepoint/Resume.antt =====
-- `cmd_restore` (src/main.cpp) on a file that the sink of `cmd_save` wrote.
use mathlib.Core.List.{append-nil}
use mathlib.Core.Path.{subst}
use retro_vm.Prelude.{
  ◌+◌, ◌≤◌, ◌≡◌, ◌≢◌, sym, ap, ◌∙◌, arith, List, [], take-length, some, none, length, take, All,
  ◌==◌, false, ℕ,
}
use retro_vm.Word.{u32, sub32, sub64, IsU32}
use retro_vm.Isa.{halt_running}
use retro_vm.Memory.{zeroed, mem_size}
use retro_vm.Machine.{Vm, copy_in, new_vm, load_program}
use retro_vm.Dispatch.{advance, run_goto}
use retro_vm.Dispatch.Validity.{IsValid}
use retro_vm.Trace.{TraceFrame, TraceReader, opened, open_trace, frame_at}
use retro_vm.Session.{replay_hooks}
use retro_vm.Checkpoint.{checkpoint_save, checkpoint_load, loaded}
use retro_vm.Checkpoint.Codec.{StateFits, checkpoint_load-checkpoint_save}
use retro_vm.Savepoint.{
  checkpoint_of, restored_state, end_restore, restore_from, restore_at, cmd_restore,
}
use retro_vm.Savepoint.Plain.{unticked}

-- The VM that a command starts with.
abbrev pub booted : List ℕ → Vm
booted bin = record new_vm { mem = copy_in zeroed bin }

pub load_program-fits :
    (bin : List ℕ) → length bin ≤ mem_size → load_program new_vm bin ≡ some (booted bin)
unfolding load_program new_vm
load_program-fits bin h = ground arith

module _ (vm : Vm) (v : IsValid vm) (at_index : ℕ) (small : IsU32 at_index) where
  all_regs : take 8 vm.state.regs ≡ vm.state.regs
  all_regs = take-length 8 vm.state.regs v.eight

  checkpoint_of-StateFits : StateFits (checkpoint_of at_index (advance vm).state)
  unfolding checkpoint_of
  checkpoint_of-StateFits = record {
    index_fits = omega arith;
    halted_fits = omega arith;
    flags_fit = v.flags_fit;
    eight = ap length all_regs ∙ v.eight;
    regs_fit = subst (All IsU32) (sym all_regs) v.regs_fit;
    pc_fits = omega arith;
    sp_fits = v.sp_fits;
  }

  -- Taking the saved `pc` back, and the cycle count from the frame, undoes the fetch.
  restored_state-checkpoint_of :
      (f : TraceFrame)
      → f.cycle ≡ (advance vm).state.cycle_count
      → vm.state.halted ≡ halt_running
      → restored_state f (checkpoint_of at_index (advance vm).state) ≡ unticked vm.state
  unfolding checkpoint_of restored_state
  restored_state-checkpoint_of f e h =
      let cycle : sub64 f.cycle 1 ≡ vm.state.cycle_count = omega (arith, v.cycle_fits) in
      let pc : sub32 (u32 (vm.state.pc + 4)) 4 ≡ vm.state.pc = omega (arith, v.pc_fits) in
      let regs : take 8 (take 8 vm.state.regs) ≡ vm.state.regs = ap (take 8) all_regs ∙ all_regs in
      λ i. record {
        cycle_count = cycle i;
        regs = regs i;
        pc = pc i;
        sp = vm.state.sp;
        flags = vm.state.flags;
        halted = sym h i;
        snap_interval = 0;
        snap_timer = 0;
      }

  frame_index-checkpoint_of : (checkpoint_of at_index (advance vm).state).frame_index ≡ at_index
  unfolding checkpoint_of
  frame_index-checkpoint_of = omega arith

  saved_loads :
      checkpoint_load (checkpoint_save (checkpoint_of at_index (advance vm).state))
      ≡ loaded (checkpoint_of at_index (advance vm).state)
  saved_loads =
      ap checkpoint_load
        (sym (append-nil (checkpoint_save (checkpoint_of at_index (advance vm).state))))
      ∙ checkpoint_load-checkpoint_save _ [] checkpoint_of-StateFits

  -- On the file that the sink writes for the fetch of a valid running VM, the replay goes on from
  -- before the fetch, over the memory of the program image.
  pub cmd_restore-checkpoint_of :
      (fuel : ℕ) (bin trace : List ℕ) (reader : TraceReader) (f : TraceFrame)
      → length bin ≤ mem_size
      → open_trace trace ≡ opened reader
      → frame_at reader at_index ≡ some f
      → f.cycle ≡ (advance vm).state.cycle_count
      → f.cycle ≢ 0
      → vm.state.halted ≡ halt_running
      → cmd_restore fuel bin trace (checkpoint_save (checkpoint_of at_index (advance vm).state))
        ≡ end_restore reader.frame_count (
            run_goto
              (replay_hooks (frame_at reader))
              none
              fuel
              (record { mem = copy_in zeroed bin; state = unticked vm.state; deltas = [] })
              at_index)
  unfolding cmd_restore restore_at restore_from new_vm
  cmd_restore-checkpoint_of fuel bin trace reader f fits_bin opens at_f e nz h =
      let later : (f.cycle == 0) ≡ false = ground arith in
      rw
        (
          cmd_restore,
          opens,
          saved_loads,
          restore_at,
          frame_index-checkpoint_of,
          at_f,
          later,
          restore_from,
          load_program-fits bin fits_bin,
        )
        (λ i. end_restore reader.frame_count (
          run_goto (replay_hooks (frame_at reader)) none fuel
            (record {
              mem = copy_in zeroed bin;
              state = restored_state-checkpoint_of f e h i;
              deltas = [];
            })
            (frame_index-checkpoint_of i)))
