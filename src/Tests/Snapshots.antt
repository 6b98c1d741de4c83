-- ===== src/Tests/Snapshots.antt =====
-- A run that writes snapshots, and the file of one.
use retro_vm.Prelude.{ℕ, ◌≡◌, refl, arith, List, [], ◌∷◌, ◌++◌, map, reverse}
use retro_vm.Word.{join_bytes}
use retro_vm.Isa.{HaltReason, opcode?, decode_op, decode_dst, decode_src, decode_imm}
use retro_vm.Memory.{zeroed, mask, mem_load_u32, mem_store_u32}
use retro_vm.Machine.{Vm, Snapshot, copy_in, new_vm, load_program, take_snapshot, log_store}
use retro_vm.Machine.Log.{undo_deltas}
use retro_vm.Dispatch.{
  label, snapshot_tick, snapshot_fire, make_snapshot, dispatch, tail_dispatch, run_goto,
}
use retro_vm.Dispatch.Rollback.{all_deltas}
use retro_vm.Snapfile.{
  Snapshotted, written, snapshot_bytes, snapping_hooks, snapping_sink, cmd_snapshot,
}
use retro_vm.Snapfile.Codec.{SnapshotFits, read_snapshot, read_snapshot-snapshot_bytes}
use retro_vm.Snapfile.Undo.{cmd_snapshot-undone}
use retro_vm.Tests.Sessions.{counting, counting-SourceFits}
use retro_vm.Tests.Debugging.{storing}

abbrev stored : Snapshot
stored = record {
  cycle_count = 3;
  regs = 5 ∷ 0 ∷ 0 ∷ 0 ∷ 0 ∷ 0 ∷ 0 ∷ 0xFFFFFFFF ∷ [];
  pc = 12;
  sp = 0xFFFFC;
  flags = 4;
  halted = 0;
  deltas =
      record { run_count = 2; page = 1; offset = 8; old_value = 7 }
      ∷ record { run_count = 1; page = 0; offset = 0x100; old_value = 0 }
      ∷ [];
}

stored-SnapshotFits : SnapshotFits stored
stored-SnapshotFits = ground arith

read_snapshot-snapshot_bytes_example :
    read_snapshot (snapshot_bytes stored) ≡ record stored { flags = 0 }
read_snapshot-snapshot_bytes_example = read_snapshot-snapshot_bytes stored stored-SnapshotFits

abbrev snapshotted : Snapshotted
snapshotted = cmd_snapshot counting 2 9 storing 41

abbrev reason_of : Snapshotted → HaltReason
reason_of (written r vm files) = r
reason_of _ = 0

abbrev vm_of : Snapshotted → Vm
vm_of (written r vm files) = vm
vm_of _ = unfold new_vm in new_vm

abbrev files_of : Snapshotted → List (List ℕ)
files_of (written r vm files) = files
files_of _ = []

snapshotted_written :
    snapshotted ≡ written (reason_of snapshotted) (vm_of snapshotted) (files_of snapshotted)
unfolding cmd_snapshot load_program new_vm snapping_hooks snapping_sink run_goto tail_dispatch
    dispatch label snapshot_tick snapshot_fire make_snapshot take_snapshot mem_load_u32
    mem_store_u32 mask join_bytes opcode? decode_op decode_dst decode_src decode_imm log_store
snapshotted_written = refl

cmd_snapshot-undone_example :
    (snaps : List Snapshot) × (files_of snapshotted ≡ map snapshot_bytes (reverse snaps))
    × (undo_deltas (vm_of snapshotted).mem ((vm_of snapshotted).deltas ++ all_deltas snaps)
        ≡ copy_in zeroed storing)
cmd_snapshot-undone_example =
    cmd_snapshot-undone counting 2 9 storing 41 (reason_of snapshotted) (vm_of snapshotted)
      (files_of snapshotted) counting-SourceFits (omega arith) (omega arith) snapshotted_written
