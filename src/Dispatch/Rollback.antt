-- ===== src/Dispatch/Rollback.antt =====
-- src/vm.cpp with a sink that keeps every snapshot, as `cmd_snapshot` of src/main.cpp does: undoing
-- the pending log and then the logs of the snapshots, newest first, takes the memory back.
use mathlib.Core.List.{append_assoc, append-nil}
use retro_vm.Prelude.{
  ℕ, zero, suc, ◌≡◌, refl, sym, ap, ◌∙◌, Bool, true, false, List, [], ◌∷◌, ◌++◌, some, ◌==◌,
  if◌then◌else◌, inl, inr,
}
use retro_vm.Isa.{halt_running}
use retro_vm.Memory.{Memory, MemDelta, mem_load_u32, apply_old_value}
use retro_vm.Machine.{Vm, VmState, Snapshot, take_snapshot}
use retro_vm.Machine.Log.{undo_deltas}
use retro_vm.Hooks.{IoHooks, SnapshotSink, Flow, Each, Each-bind, Each-map, Each-and}
use retro_vm.Dispatch.{advance, snapshot_tick, dispatch, tail_dispatch, run_goto}
use retro_vm.Dispatch.Still.{Keeps, Still, dispatch-Still}
use retro_vm.Dispatch.Snapshots.{after_snapshot, snapshot_tick-cases}
use retro_vm.Dispatch.Validity.{
  IsValid, HooksFit, advance-IsValid, tail_dispatch-IsValid, snapshot_tick-IsValid,
}

-- The logs of the snapshots, newest first.
abbrev pub all_deltas : List Snapshot → List MemDelta
all_deltas [] = []
all_deltas (s ∷ ss) = s.deltas ++ all_deltas ss

pub undo_deltas-append :
    (m : Memory) (xs ys : List MemDelta)
    → undo_deltas m (xs ++ ys) ≡ undo_deltas (undo_deltas m xs) ys
unfolding undo_deltas
undo_deltas-append m [] ys = refl
undo_deltas-append m (x ∷ xs) ys = undo_deltas-append (apply_old_value m x) xs ys

all_deltas-append : (xs ys : List Snapshot) → all_deltas (xs ++ ys) ≡ all_deltas xs ++ all_deltas ys
all_deltas-append [] ys = refl
all_deltas-append (x ∷ xs) ys = simp (all_deltas-append xs ys, append_assoc)

-- The sink adds the snapshot that it is given to `history`.
abbrev pub Collects : {W : Type 0} → (W → List Snapshot) → SnapshotSink W → Type 0
Collects {W} history f =
    (s : VmState) (snap : Snapshot) (w : W) → history (f s snap w).0 ≡ snap ∷ history w

module _ {W : Type 0} (history : W → List Snapshot) where
  -- From `vm` to `vm1` the snapshots `news` were taken, and with them the memory can be taken back
  -- to where the log of `vm` leads.
  abbrev pub RollsBack : Vm → W → Vm → W → Type 0
  RollsBack vm w vm1 w1 =
      (news : List Snapshot) × (history w1 ≡ news ++ history w)
      × (undo_deltas vm1.mem (vm1.deltas ++ all_deltas news) ≡ undo_deltas vm.mem vm.deltas)

  RollsBack-trans :
      (vm vm1 vm2 : Vm) (w w1 w2 : W)
      → RollsBack vm w vm1 w1
      → RollsBack vm1 w1 vm2 w2
      → RollsBack vm w vm2 w2
  RollsBack-trans vm vm1 vm2 w w1 w2 (n1, h1, u1) (n2, h2, u2) = (
    n2 ++ n1,
    h2 ∙ (ap (λ t. n2 ++ t) h1 ∙ sym (append_assoc n2 n1 (history w))),
    ap (λ t. undo_deltas vm2.mem (vm2.deltas ++ t)) (all_deltas-append n2 n1)
        ∙ (ap (undo_deltas vm2.mem) (sym (append_assoc vm2.deltas (all_deltas n2) (all_deltas n1)))
            ∙ (undo_deltas-append vm2.mem (vm2.deltas ++ all_deltas n2) (all_deltas n1)
                ∙ (ap (λ m. undo_deltas m (all_deltas n1)) u2
                    ∙ (sym (undo_deltas-append vm1.mem vm1.deltas (all_deltas n1)) ∙ u1)))),
  )

  Still-RollsBack : (vm vm1 : Vm) (w w1 : W) → Still history vm w vm1 w1 → RollsBack vm w vm1 w1
  Still-RollsBack vm vm1 w w1 (h, u) = ([], h, ap (undo_deltas vm1.mem) (append-nil vm1.deltas) ∙ u)

  if-RollsBack :
      (vm : Vm) (w : W) (b : Bool) (x y : Flow W)
      → Each (RollsBack vm w) x
      → Each (RollsBack vm w) y
      → Each (RollsBack vm w) (if b then x else y)
  if-RollsBack vm w true x y hx hy = hx
  if-RollsBack vm w false x y hx hy = hy

  dispatch-RollsBack :
      (io : IoHooks W) (instr : ℕ) (vm : Vm) (w : W)
      → Keeps history io
      → IsValid vm
      → Each (RollsBack vm w) (dispatch io instr vm w)
  dispatch-RollsBack io instr vm w k v =
      Each-map (Still history vm w) (RollsBack vm w) (dispatch io instr vm w)
        (λ vm1 w1 s. Still-RollsBack vm vm1 w w1 s) (dispatch-Still history io instr vm w k v)

  snapshot-RollsBack :
      (vm : Vm) (h : ℕ) (w w1 : W) (s : Snapshot)
      → s.deltas ≡ vm.deltas
      → history w1 ≡ s ∷ history w
      → Each (RollsBack vm w) (after_snapshot vm h w1)
  snapshot-RollsBack vm h w w1 s d e =
      if-RollsBack vm w (h == halt_running) _ _ (s ∷ [], e, undone) (s ∷ [], e, undone)
    where
      undone : undo_deltas vm.mem (s.deltas ++ []) ≡ undo_deltas vm.mem vm.deltas
      undone = ap (undo_deltas vm.mem) (append-nil s.deltas ∙ d)

  snapshot_tick-RollsBack :
      (f : SnapshotSink W) (vm : Vm) (w : W)
      → Collects history f
      → Each (RollsBack vm w) (snapshot_tick (some f) vm w)
  unfolding take_snapshot
  snapshot_tick-RollsBack f vm w c = elim (snapshot_tick-cases (some f) vm w) [
    | inl e ↦ rw e (Still-RollsBack vm vm w w (refl, refl))
    | inr (inl e) ↦ rw e (Still-RollsBack vm vm w w (refl, refl))
    | inr (inr (h, e)) ↦ rw e (snapshot-RollsBack vm h w _ _ refl (c _ _ w))
  ]

module _ {W : Type 0} (history : W → List Snapshot) (io : IoHooks W) (f : SnapshotSink W) where
  -- What rolls back to a state in between rolls back to the start.
  then_RollsBack :
      (vm vm1 : Vm) (w w1 : W) (rest : Flow W)
      → RollsBack history vm w vm1 w1
      → Each (RollsBack history vm1 w1) rest
      → Each (RollsBack history vm w) rest
  then_RollsBack vm vm1 w w1 rest first =
      Each-map (RollsBack history vm1 w1) (RollsBack history vm w) rest
        (λ vm2 w2. RollsBack-trans history vm vm1 vm2 w w1 w2 first)

  tail_dispatch-RollsBack :
      (vm : Vm) (w : W)
      → Keeps history io
      → Collects history f
      → IsValid vm
      → Each (RollsBack history vm w) (tail_dispatch io (some f) vm w)
  unfolding tail_dispatch
  tail_dispatch-RollsBack vm w k c v =
      let tick = snapshot_tick (some f) (advance vm) w in
      let va = advance-IsValid vm v in
      Each-bind (λ vm1 w1. RollsBack history vm w vm1 w1 × IsValid vm1) (RollsBack history vm w)
        tick _ (λ vm1 w1 h. h.0)
        (Each-and (RollsBack history vm w) (λ vm1 w1. IsValid vm1) tick
          (snapshot_tick-RollsBack history f (advance vm) w c)
          (snapshot_tick-IsValid io (some f) (advance vm) w va))
        (λ vm1 w1 h.
          then_RollsBack vm vm1 w w1 _ h.0
            (dispatch-RollsBack history io (mem_load_u32 vm.mem vm.state.pc) vm1 w1 k h.1))

  -- Whatever a run does, undoing the log that is pending at its end and then the logs of the
  -- snapshots that were taken in it, newest first, gives the memory that the log pending at its
  -- start led back to, when the sink keeps every snapshot, the hooks leave the collection alone and
  -- return 32-bit values, and the VM is valid at the start.
  pub run_goto-RollsBack :
      (fuel : ℕ) (vm : Vm) (w : W)
      → Keeps history io
      → Collects history f
      → HooksFit io
      → IsValid vm
      → Each (RollsBack history vm w) (run_goto io (some f) fuel vm w)
  unfolding run_goto
  run_goto-RollsBack zero vm w k c hf v = ([], refl, ap (undo_deltas vm.mem) (append-nil vm.deltas))
  run_goto-RollsBack (suc fuel) vm w k c hf v =
      let step = tail_dispatch io (some f) vm w in
      Each-bind (λ vm1 w1. RollsBack history vm w vm1 w1 × IsValid vm1) (RollsBack history vm w)
        step _ (λ vm1 w1 h. h.0)
        (Each-and (RollsBack history vm w) (λ vm1 w1. IsValid vm1) step
          (tail_dispatch-RollsBack vm w k c v) (tail_dispatch-IsValid io (some f) vm w hf v))
        (λ vm1 w1 h. then_RollsBack vm vm1 w w1 _ h.0 (run_goto-RollsBack fuel vm1 w1 k c hf h.1))
