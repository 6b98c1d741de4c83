-- ===== src/Debugger/Story.antt =====
-- src/main.cpp, what the snapshot ring of the debugger stands for: the states of the VM at the
-- instructions that it fetched, newest first. The ring holds the newest of them.
use mathlib.Core.Path.{subst}
use retro_vm.Prelude.{
  ℕ, zero, suc, ◌+◌, ◌-◌, ◌≡◌, sym, arith, List, [], ◌∷◌, ◌++◌, inl, inr, get_or, drop,
}
use retro_vm.Memory.{Memory}
use retro_vm.Isa.{halt_running}
use retro_vm.Machine.{Vm, VmState}
use retro_vm.Machine.Log.{undo_deltas}
use retro_vm.Dispatch.Validity.{IsValid}
use retro_vm.Debugger.{ReplSnapshot, empty_snapshot, Debug, push_ring, restore_core, undo_range}
use retro_vm.Debugger.Ring.{
  RingFits, past, past-drop, pushed, past-pushed, length-pushed, push_ring-cases,
}

-- The VM and the cursor at a snapshot.
pub record Moment : Type 0 where
  pub mem : Memory
  pub state : VmState
  pub cursor : ℕ

-- The VM of a moment: its log has just been taken.
abbrev pub vm_at : Moment → Vm
vm_at a = record { mem = a.mem; state = a.state; deltas = [] }

-- A running VM that takes a snapshot on every instruction.
abbrev pub IsStepping : Vm → Type 0
IsStepping vm =
    IsValid vm
    × (vm.state.halted ≡ halt_running)
    × (vm.state.snap_interval ≡ 1)
    × (vm.state.snap_timer ≡ 1)

-- The snapshot gives back the moment, over the memory `m`.
abbrev pub Shows : Memory → ReplSnapshot → Moment → Type 0
Shows m r a =
    (m ≡ a.mem)
    × (restore_core r.core a.state ≡ a.state)
    × IsStepping (vm_at a)
    × (r.cursor ≡ a.cursor)

-- The snapshots, newest first, give back the moments, the memory taken back by their logs.
abbrev pub Tells : Memory → List ReplSnapshot → List Moment → Type 0
Tells m [] ms = Unit
Tells m (r ∷ rs) [] = ⊥
Tells m (r ∷ rs) (a ∷ ms) = Shows m r a × Tells (undo_deltas m r.core.deltas) rs ms

-- The oldest snapshot can be forgotten.
Tells-prefix :
    (m : Memory) (rs qs : List ReplSnapshot) (ms : List Moment)
    → Tells m (rs ++ qs) ms
    → Tells m rs ms
Tells-prefix m [] qs ms h = tt
Tells-prefix m (r ∷ rs) qs [] h = h
Tells-prefix m (r ∷ rs) qs (a ∷ ms) h =
    (h.0, Tells-prefix (undo_deltas m r.core.deltas) rs qs ms h.1)

-- What the ring tells when the memory behind the pending log is `m`.
abbrev pub Recalls : {S : Type 0} → List Moment → Memory → Debug S → Type 0
Recalls ms m d = Tells m (past d.ring (suc d.history_index)) ms

one_more : (n : ℕ) → suc n ≡ n + 1
one_more n = omega arith

-- A push adds a moment.
pub push_ring-Recalls :
    {S : Type 0} (m : Memory) (rs : ReplSnapshot) (a : Moment) (ms : List Moment) (d : Debug S)
    → RingFits d
    → Shows m rs a
    → Recalls ms (undo_deltas m rs.core.deltas) d
    → Recalls (a ∷ ms) m (push_ring rs d)
push_ring-Recalls m rs a ms d fits shown told =
    let ring = pushed rs d.ring d.history_index in
    let whole : Tells m (past ring (suc (suc d.history_index))) (a ∷ ms) =
      subst (λ rs. Tells m rs (a ∷ ms)) (sym (past-pushed rs d.ring d.history_index))
        (shown, told) in
    elim (push_ring-cases rs d fits) [
      | inl (room, e) ↦
          subst (Recalls (a ∷ ms) m) (sym e)
            (subst (λ n. Tells m (past ring (suc n)) (a ∷ ms)) (one_more d.history_index) whole)
      | inr (full, e) ↦ subst (Recalls (a ∷ ms) m) (sym e) (
          Tells-prefix m (past (drop 1 ring) (suc d.history_index)) _ (a ∷ ms) (
            subst (λ rs. Tells m rs (a ∷ ms))
              (past-drop ring (suc d.history_index)
                (omega (arith, length-pushed rs d.ring d.history_index)))
              whole))
    ]

-- Going back along the ring goes back along the moments.
pub undo_range-Tells :
    (ring : List ReplSnapshot) (n i j : ℕ) (m : Memory) (ms : List Moment)
    → j + n ≡ i
    → Tells m (past ring (suc i)) ms
    → Tells (undo_range ring i n m) (past ring (suc j)) (drop n ms)
unfolding undo_range
undo_range-Tells ring zero i j m ms h t = subst (λ k. Tells m (past ring (suc k)) ms) (same i j h) t
  where
    same : (i j : ℕ) → j + 0 ≡ i → i ≡ j
    same i j h = omega arith
undo_range-Tells ring (suc n) zero j m ms h t = absurd (omega arith)
undo_range-Tells ring (suc n) (suc i) j m [] h t = elim t [ ]
undo_range-Tells ring (suc n) (suc i) j m (a ∷ ms) h t =
    undo_range-Tells ring n (suc i - 1) j
      (undo_deltas m (get_or ring (suc i) empty_snapshot).core.deltas) ms (omega arith)
      (subst
        (λ k.
          Tells (undo_deltas m (get_or ring (suc i) empty_snapshot).core.deltas) (past ring (suc k))
            ms)
        (less_one i) t.1)
  where
    less_one : (i : ℕ) → i ≡ suc i - 1
    less_one i = omega arith
