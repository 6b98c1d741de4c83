-- ===== src/Snapfile/Undo.antt =====
-- src/main.cpp, `cmd_snapshot`: the logs in the files that a run writes lead back to the program.
use mathlib.Core.Path.{subst}
use mathlib.Core.List.{append-nil}
use retro_vm.Prelude.{
  ℕ, ◌^◌, ◌<◌, ◌≡◌, refl, ap, ◌∙◌, arith, List, [], ◌++◌, Option, none, some, All, map, reverse,
}
use retro_vm.Word.{IsU32}
use retro_vm.Isa.{HaltReason}
use retro_vm.Memory.{zeroed}
use retro_vm.Machine.{Vm, Snapshot, copy_in, new_vm, load_program, set_snapshot_interval}
use retro_vm.Machine.Log.{undo_deltas}
use retro_vm.Hooks.{Flow, next, halt, throw, Each}
use retro_vm.Dispatch.{run_goto}
use retro_vm.Dispatch.Boot.{new_vm-IsValid, load_program-IsValid, load_program-eq-some}
use retro_vm.Dispatch.Rollback.{RollsBack, all_deltas, run_goto-RollsBack}
use retro_vm.Dispatch.Validity.{IsValid}
use retro_vm.Session.{Source}
use retro_vm.Session.Growth.{SourceFits}
use retro_vm.Snapfile.{
  Snapping, Snapshotted, written, snapshot_too_large, snapshot_failed, snapshot_running,
  end_snapshot, snapshot_bytes, snapping_hooks, snapping_sink, cmd_snapshot,
}

-- The logs of the files, newest first, behind the pending one, lead back to the program.
abbrev LeadsBack : List ℕ → Snapshotted → Type 0
LeadsBack bin (written r vm files) =
    (snaps : List Snapshot) × (files ≡ map snapshot_bytes (reverse snaps))
    × (undo_deltas vm.mem (vm.deltas ++ all_deltas snaps) ≡ copy_in zeroed bin)
LeadsBack bin snapshot_too_large = Unit
LeadsBack bin snapshot_failed = Unit
LeadsBack bin snapshot_running = Unit

module _ {S : Type 0} (src : Source S) where
  end_snapshot-LeadsBack :
      (bin : List ℕ) (vm : Vm) (s : S) (f : Flow (Snapping S))
      → undo_deltas vm.mem vm.deltas ≡ copy_in zeroed bin
      → Each (RollsBack (λ w. w.taken) vm (record { source = s; taken = [] })) f
      → LeadsBack bin (end_snapshot f)
  end_snapshot-LeadsBack bin vm s (next vm1 w) image h = tt
  end_snapshot-LeadsBack bin vm s (halt r vm1 w) image (news, taken, back) =
      (news, ap (λ ss. map snapshot_bytes (reverse ss)) (taken ∙ append-nil news), back ∙ image)
  end_snapshot-LeadsBack bin vm s (throw e vm1 w) image h = tt

  loaded-LeadsBack :
      (interval fuel : ℕ) (bin : List ℕ) (s : S) (vm : Vm)
      → SourceFits src
      → IsU32 interval
      → All (λ b. b < 2 ^ 8) bin
      → load_program new_vm bin ≡ some vm
      → LeadsBack bin (
          end_snapshot (
            run_goto
              (snapping_hooks src)
              (some snapping_sink)
              fuel
              (set_snapshot_interval vm interval)
              (record { source = s; taken = [] })))
  unfolding snapping_hooks snapping_sink undo_deltas new_vm
  loaded-LeadsBack interval fuel bin s vm fits hi hb l =
      let v = load_program-IsValid new_vm vm bin hb new_vm-IsValid l in
      let same = load_program-eq-some new_vm vm bin l in
      let ready : IsValid (set_snapshot_interval vm interval) = ground arith in
      end_snapshot-LeadsBack bin (set_snapshot_interval vm interval) s _
        (λ i. undo_deltas (same i).mem (same i).deltas)
        (run_goto-RollsBack (λ w. w.taken) (snapping_hooks src) snapping_sink fuel
          (set_snapshot_interval vm interval) (record { source = s; taken = [] })
          ((λ c w. refl), (λ c w. refl), (λ c op x w. refl)) (λ st snap w. refl)
          ((λ c w. (fits w.source).0), (λ c w. (fits w.source).1)) ready)

  cmd_snapshot-LeadsBack :
      (interval fuel : ℕ) (bin : List ℕ) (s : S)
      → SourceFits src
      → IsU32 interval
      → All (λ b. b < 2 ^ 8) bin
      → LeadsBack bin (cmd_snapshot src interval fuel bin s)
  unfolding cmd_snapshot
  cmd_snapshot-LeadsBack interval fuel bin s fits hi hb = go (load_program new_vm bin) refl
    where
      go :
          (o : Option Vm)
          → load_program new_vm bin ≡ o
          → LeadsBack bin (elim o [
            | none ↦ snapshot_too_large
            | some vm ↦ end_snapshot (
                run_goto
                  (snapping_hooks src)
                  (some snapping_sink)
                  fuel
                  (set_snapshot_interval vm interval)
                  (record { source = s; taken = [] }))
          ])
      go none l = tt
      go (some vm) l = loaded-LeadsBack interval fuel bin s vm fits hi hb l

  -- When `cmd_snapshot` ends, its files are those of a sequence of snapshots whose logs, newest
  -- first, behind the log that is still pending, take the memory back to the program image. The
  -- interval has 32 bits, the program is bytes, and the inputs have 32 bits.
  pub cmd_snapshot-undone :
      (interval fuel : ℕ) (bin : List ℕ) (s : S) (r : HaltReason) (vm : Vm) (files : List (List ℕ))
      → SourceFits src
      → IsU32 interval
      → All (λ b. b < 2 ^ 8) bin
      → cmd_snapshot src interval fuel bin s ≡ written r vm files
      → (snaps : List Snapshot) × (files ≡ map snapshot_bytes (reverse snaps))
        × (undo_deltas vm.mem (vm.deltas ++ all_deltas snaps) ≡ copy_in zeroed bin)
  cmd_snapshot-undone interval fuel bin s r vm files fits hi hb e =
      subst (LeadsBack bin) e (cmd_snapshot-LeadsBack interval fuel bin s fits hi hb)
