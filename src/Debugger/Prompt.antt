-- ===== src/Debugger/Prompt.antt =====
-- src/main.cpp, the debugger at its prompt: what the ring tells there, and where the VM stands.
use mathlib.Core.Path.{subst}
use retro_vm.Prelude.{
  ℕ, suc, ◌≤◌, ◌<◌, ◌≡◌, refl, sym, [], ◌∷◌, List, Option, none, some, ◌⊎◌, length,
}
use retro_vm.Isa.{halt_running, op_code, op_in, op_rand}
use retro_vm.Memory.{Memory}
use retro_vm.Machine.{Vm, request_halt}
use retro_vm.Hooks.{Answer, value, thrown}
use retro_vm.Dispatch.Validity.{IsValid}
use retro_vm.Dispatch.Still.{Untouched, Keeps}
use retro_vm.Trace.{TraceReader, frame_at}
use retro_vm.Session.{Source, consume}
use retro_vm.Debugger.{ReplSnapshot, Debug, ring_cap, consumed, debug_hooks, debug_resume}
use retro_vm.Debugger.Ring.{RingFits, past}
use retro_vm.Debugger.Story.{Moment, vm_at, Tells, Recalls}
use retro_vm.Debugger.Watch.{seen}

-- The ring and the index.
abbrev pub history : {S : Type 0} → Debug S → List ReplSnapshot × ℕ
history d = (d.ring, d.history_index)

abbrev pub RingFitsOf : List ReplSnapshot × ℕ → Type 0
RingFitsOf p = (p.1 < length p.0) × (length p.0 ≤ ring_cap)

-- The cursor of a replay.
abbrev pub SameCursor : Option TraceReader → ℕ → ℕ → Type 0
SameCursor none c1 c = Unit
SameCursor (some r) c1 c = c1 ≡ c

pub seen-SameCursor :
    {S : Type 0} (trace : Option TraceReader) (d d1 : Debug S)
    → d1.cursor ≡ d.cursor
    → SameCursor trace d1.cursor (seen trace d)
seen-SameCursor none d d1 e = tt
seen-SameCursor (some r) d d1 e = e

-- The VM is at the newest moment, its halt reason aside.
abbrev pub AtHead : Option TraceReader → List Moment → Vm → ℕ → Type 0
AtHead trace [] vm c = ⊥
AtHead trace (a ∷ ms) vm c = (request_halt vm halt_running ≡ vm_at a) × SameCursor trace c a.cursor

-- The debugger at its prompt: the ring tells the moments `ms`, and the VM stands at the newest of
-- them or has met a halt that cannot be resumed.
pub record Settled {S : Type 0} (trace : Option TraceReader) (ms : List Moment) (vm : Vm)
    (d : Debug S) : Type 0 where
  pub valid : IsValid vm
  pub every : vm.state.snap_interval ≡ 1
  pub timer : vm.state.snap_timer ≡ 1
  pub flushed : vm.deltas ≡ []
  pub fits : RingFits d
  pub recalls : Recalls ms vm.mem d
  pub head : (debug_resume vm ≡ none) ⊎ AtHead trace ms vm d.cursor

-- The hooks change the source and the cursor only.
pub debug_hooks-Keeps :
    {S X : Type 0} (view : Debug S → X) (src : Source S) (trace : Option TraceReader)
    → ((d : Debug S) (s : S) → view (record d { source = s }) ≡ view d)
    → ((d : Debug S) (c : ℕ) → view (record d { cursor = c }) ≡ view d)
    → Keeps view (debug_hooks src trace)
unfolding debug_hooks
debug_hooks-Keeps view src none hs hc = ((λ c d. hs d _), (λ c d. hs d _), (λ c op v d. refl))
debug_hooks-Keeps {S} view src (some r) hs hc = (
  (λ c d. consumed-Untouched d (consume (frame_at r) (op_code op_in) c d.cursor)),
  (λ c d. consumed-Untouched d (consume (frame_at r) (op_code op_rand) c d.cursor)),
  (λ c op v d. refl),
)
  where
    consumed-Untouched : (d : Debug S) (a : Answer ℕ) → Untouched view d (consumed d a)
    consumed-Untouched d (value v c) = hc d c
    consumed-Untouched d (thrown e c) = hc d c

-- The ring and the memory behind the log, carried over.
pub Recalls-history :
    {S : Type 0} (ms : List Moment) (m m1 : Memory) (d d1 : Debug S)
    → m1 ≡ m
    → history d1 ≡ history d
    → Recalls ms m d
    → Recalls ms m1 d1
Recalls-history ms m m1 d d1 e h told =
    subst (λ k. Recalls ms k d1) (sym e) (subst (λ p. Tells m (past p.0 (suc p.1)) ms) (sym h) told)
