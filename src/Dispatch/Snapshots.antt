-- ===== src/Dispatch/Snapshots.antt =====
-- src/vm.cpp, `make_snapshot` and the timer of TAIL_DISPATCH: what a snapshot does to the VM,
-- whatever its sink does, and when it fires.
use retro_vm.Prelude.{
  ◌^◌, ◌<◌, ◌≡◌, ◌≢◌, refl, ap, ◌∙◌, arith, true, [], Option, none, some, ◌==◌, ltb, if◌then◌else◌,
  ◌⊎◌, inl, inr, Bool-cases,
}
use retro_vm.Word.{sub32}
use retro_vm.Isa.{HaltReason, halt_running}
use retro_vm.Machine.{Vm, take_snapshot}
use retro_vm.Hooks.{SnapshotSink, Flow, next, halt}
use retro_vm.Dispatch.{set_timer, requested, make_snapshot, snapshot_fire, snapshot_tick}

-- The VM after a snapshot that leaves `h` as its halt reason: an empty log and a fresh timer.
abbrev pub snapped : Vm → HaltReason → Vm
snapped vm h = record {
  mem = vm.mem;
  state = record (vm.state) { halted = h; snap_timer = vm.state.snap_interval };
  deltas = [];
}

-- Control after a snapshot.
abbrev pub after_snapshot : {W : Type 0} → Vm → HaltReason → W → Flow W
after_snapshot vm h w = if h == halt_running then next (snapped vm h) w else halt h (snapped vm h) w

module _ {W : Type 0} where
  -- The halt reason that the sink leaves, and the world.
  abbrev pub sink_halt : Option (SnapshotSink W) → Vm → W → HaltReason
  sink_halt none vm w = vm.state.halted
  sink_halt (some f) vm w = elim ((f vm.state (take_snapshot vm).0 w).1) [
    | none ↦ vm.state.halted
    | some r ↦ r
  ]

  abbrev pub sink_world : Option (SnapshotSink W) → Vm → W → W
  sink_world none vm w = w
  sink_world (some f) vm w = (f vm.state (take_snapshot vm).0 w).0

  fire_requested :
      (vm : Vm) (r : Option HaltReason) (w : W)
      → (let vm1 = requested (record vm { deltas = [] }) r in
          let vm2 = set_timer vm1 vm1.state.snap_interval in
          if vm2.state.halted == halt_running then next vm2 w else halt vm2.state.halted vm2 w)
        ≡ after_snapshot vm (elim r [ none ↦ vm.state.halted | some h ↦ h ]) w
  fire_requested vm none w = refl
  fire_requested vm (some h) w = refl

  pub snapshot_fire_lem :
      (sink : Option (SnapshotSink W)) (vm : Vm) (w : W)
      → snapshot_fire sink vm w ≡ after_snapshot vm (sink_halt sink vm w) (sink_world sink vm w)
  unfolding snapshot_fire make_snapshot take_snapshot
  snapshot_fire_lem none vm w = refl
  snapshot_fire_lem (some f) vm w =
      fire_requested vm (f vm.state (take_snapshot vm).0 w).1 (f vm.state (take_snapshot vm).0 w).0

  -- The three ways through the timer.
  pub snapshot_tick_off :
      (sink : Option (SnapshotSink W)) (vm : Vm) (w : W)
      → vm.state.snap_interval ≡ 0
      → snapshot_tick sink vm w ≡ next vm w
  unfolding snapshot_tick
  snapshot_tick_off sink vm w h = ground arith

  pub snapshot_tick_count :
      (sink : Option (SnapshotSink W)) (vm : Vm) (w : W)
      → 0 < vm.state.snap_interval
      → vm.state.snap_timer < 2 ^ 32
      → vm.state.snap_timer ≢ 1
      → snapshot_tick sink vm w ≡ next (set_timer vm (sub32 vm.state.snap_timer 1)) w
  unfolding snapshot_tick
  snapshot_tick_count sink vm w h t ne = ground arith

  fires :
      (sink : Option (SnapshotSink W)) (vm : Vm) (w : W)
      → 0 < vm.state.snap_interval
      → vm.state.snap_timer ≡ 1
      → snapshot_tick sink vm w ≡ snapshot_fire sink (set_timer vm (sub32 vm.state.snap_timer 1)) w
  unfolding snapshot_tick
  fires sink vm w h t = ground arith

  pub snapshot_tick_fire :
      (sink : Option (SnapshotSink W)) (vm : Vm) (w : W)
      → 0 < vm.state.snap_interval
      → vm.state.snap_timer ≡ 1
      → snapshot_tick sink vm w
        ≡ after_snapshot vm (sink_halt sink (set_timer vm 0) w) (sink_world sink (set_timer vm 0) w)
  snapshot_tick_fire sink vm w h t =
      fires sink vm w h t
      ∙ ap (λ n. snapshot_fire sink (set_timer vm n) w) (omega arith)
      ∙ snapshot_fire_lem sink (set_timer vm 0) w

  fires_now :
      (sink : Option (SnapshotSink W)) (vm : Vm) (w : W)
      → ltb 0 vm.state.snap_interval ≡ true
      → (sub32 vm.state.snap_timer 1 == 0) ≡ true
      → snapshot_tick sink vm w ≡ snapshot_fire sink (set_timer vm (sub32 vm.state.snap_timer 1)) w
  unfolding snapshot_tick
  fires_now sink vm w on now = rw (on, now)

  -- The three ways again, as cases with the flow that each gives.
  pub snapshot_tick-cases :
      (sink : Option (SnapshotSink W)) (vm : Vm) (w : W)
      → (snapshot_tick sink vm w ≡ next vm w)
        ⊎ (snapshot_tick sink vm w ≡ next (set_timer vm (sub32 vm.state.snap_timer 1)) w)
        ⊎ ((h : HaltReason) × (snapshot_tick sink vm w
              ≡ after_snapshot vm h
                  (sink_world sink (set_timer vm (sub32 vm.state.snap_timer 1)) w)))
  unfolding snapshot_tick
  snapshot_tick-cases sink vm w =
      let ticked = set_timer vm (sub32 vm.state.snap_timer 1) in
      elim (Bool-cases (ltb 0 vm.state.snap_interval)) [
        | inr off ↦ inl (rw off)
        | inl on ↦ elim (Bool-cases (sub32 vm.state.snap_timer 1 == 0)) [
          | inr later ↦ inr (inl (rw (on, later)))
          | inl now ↦ inr (
              inr (
                sink_halt sink ticked w,
                fires_now sink vm w on now ∙ snapshot_fire_lem sink ticked w,
              ))
        ]
      ]
