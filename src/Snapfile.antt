-- ===== src/Snapfile.antt =====
-- include/retrovm/vm.hpp and src/main.cpp, `cmd_snapshot`: the files that it writes, one for each
-- snapshot of a run. A file is the sequence of its bytes, and a failure to open one is not modelled.
pub mod Codec
pub mod Undo
use retro_vm.Prelude.{ℕ, List, [], ◌∷◌, ◌++◌, Option, none, some, length, map, reverse, take}
use retro_vm.Isa.{HaltReason}
use retro_vm.Bytes.{le_bytes}
use retro_vm.Memory.{MemDelta}
use retro_vm.Machine.{Vm, Snapshot, new_vm, load_program, set_snapshot_interval}
use retro_vm.Hooks.{Answer, value, IoHooks, SnapshotSink, Flow, next, halt, throw}
use retro_vm.Dispatch.{run_goto}
use retro_vm.Checkpoint.{regs_bytes}
use retro_vm.Session.{Source}

-- "RVMSNAP" and its terminator.
abbrev pub snap_magic : List ℕ
snap_magic = b'R' ∷ b'V' ∷ b'M' ∷ b'S' ∷ b'N' ∷ b'A' ∷ b'P' ∷ 0 ∷ []

abbrev pub delta_bytes : MemDelta → List ℕ
delta_bytes d =
    le_bytes 1 d.run_count ++ (le_bytes 1 d.page ++ (le_bytes 2 d.offset ++ le_bytes 4 d.old_value))

-- The log in the order of its vector: the oldest entry first.
unfoldable pub deltas_bytes : List MemDelta → List ℕ
deltas_bytes [] = []
deltas_bytes (d ∷ ds) = deltas_bytes ds ++ delta_bytes d

-- `SnapshotFileHeader`, 32 bytes.
abbrev pub snap_header_bytes : Snapshot → List ℕ
snap_header_bytes s =
    snap_magic
    ++ (le_bytes 4 1
        ++ (le_bytes 4 0
            ++ (le_bytes 8 s.cycle_count ++ (le_bytes 4 s.halted ++ le_bytes 4 (length s.deltas)))))

-- The header, `SnapshotFileRegs` and the log.
unfoldable pub snapshot_bytes : Snapshot → List ℕ
unfolding regs_bytes deltas_bytes
snapshot_bytes s =
    snap_header_bytes s
    ++ (regs_bytes (take 8 s.regs)
        ++ (le_bytes 4 s.pc ++ (le_bytes 4 s.sp ++ deltas_bytes s.deltas)))

-- The source of inputs, and the snapshots that were written, newest first.
pub record Snapping (S : Type 0) : Type 0 where
  pub source : S
  pub taken : List Snapshot

module _ {S : Type 0} where
  abbrev pub drawn : (S → ℕ × S) → Snapping S → Answer (Snapping S)
  drawn f w = let (v, s) = f w.source in value v (record w { source = s })

  -- The hooks that the constructor of VM sets.
  unfoldable pub snapping_hooks : Source S → IoHooks (Snapping S)
  snapping_hooks src = record {
    on_nondeterministic = none;
    in_hook = some (λ cycle w. drawn src.read_in w);
    rand_hook = some (λ cycle w. drawn src.next_rand w);
  }

  unfoldable pub snapping_sink : SnapshotSink (Snapping S)
  snapping_sink vs s w = (record w { taken = s ∷ w.taken }, none)

pub data Snapshotted : Type 0 where
  written : HaltReason → Vm → List (List ℕ) → Snapshotted
  snapshot_too_large snapshot_failed snapshot_running : Snapshotted

-- The files in the order of their index. No hook throws.
abbrev pub end_snapshot : {S : Type 0} → Flow (Snapping S) → Snapshotted
end_snapshot (next vm w) = snapshot_running
end_snapshot (halt r vm w) = written r vm (map snapshot_bytes (reverse w.taken))
end_snapshot (throw e vm w) = snapshot_failed

unfoldable pub cmd_snapshot : {S : Type 0} → Source S → ℕ → ℕ → List ℕ → S → Snapshotted
cmd_snapshot src interval fuel bin s = elim (load_program new_vm bin) [
  | none ↦ snapshot_too_large
  | some vm ↦ end_snapshot (
      run_goto (snapping_hooks src) (some snapping_sink) fuel (set_snapshot_interval vm interval)
        (record { source = s; taken = [] }))
]
