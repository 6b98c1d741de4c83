-- ===== src/Hooks.antt =====
-- include/retrovm/vm.hpp: `IOHooks` and `SnapshotSink`, the callbacks through which src/vm.cpp
-- meets the outside world, and the ways in which a piece of the dispatch loop can end. `W` is the
-- state of the world that the callbacks close over: stdin and a generator, a writer, or a cursor.
use retro_vm.Prelude.{ℕ, Bool, Option, none, some, ◌≡◌, refl}
use retro_vm.Isa.{HaltReason}
use retro_vm.Machine.{Vm, VmState, Snapshot}

-- The exception that a replay hook throws (class TraceMismatch of include/retrovm/trace.hpp).
pub record TraceMismatch : Type 0 where
  pub expected_cycle : ℕ
  pub expected_op : ℕ
  pub actual_cycle : ℕ
  pub actual_op : ℕ
  pub frame_idx : ℕ
  pub premature_eof : Bool

-- What an input hook does: it returns a value, or it throws.
pub data Answer (W : Type 0) : Type 0 where
  value : ℕ → W → Answer W
  thrown : TraceMismatch → W → Answer W

-- An empty `std::function` is `none`.
pub record IoHooks (W : Type 0) : Type 0 where
  pub on_nondeterministic : Option (ℕ → ℕ → ℕ → W → W)
  pub in_hook : Option (ℕ → W → Answer W)
  pub rand_hook : Option (ℕ → W → Answer W)

-- A sink sees the state of the VM and the snapshot. Its one effect on the VM is `request_halt`,
-- the second result.
abbrev pub SnapshotSink : Type 0 → Type 0
SnapshotSink W = VmState → Snapshot → W → W × Option HaltReason

-- The end of a piece of the loop: control goes on, `run` returns, or an exception leaves it.
pub data Flow (W : Type 0) : Type 0 where
  next : Vm → W → Flow W
  halt : HaltReason → Vm → W → Flow W
  throw : TraceMismatch → Vm → W → Flow W

infixl 5 ◌>>=◌
abbrev pub ◌>>=◌ : {W : Type 0} → Flow W → (Vm × W → Flow W) → Flow W
next vm w >>= k = k (vm, w)
halt r vm w >>= k = halt r vm w
throw e vm w >>= k = throw e vm w

-- The observer, where one is set.
abbrev pub notify : {W : Type 0} → IoHooks W → ℕ → ℕ → ℕ → W → W
notify io cycle op v w = elim (io.on_nondeterministic) [ none ↦ w | some f ↦ f cycle op v w ]

-- `P` of the state with which control goes on.
abbrev pub Next : {W : Type 0} → (Vm → W → Type 0) → Flow W → Type 0
Next P (next vm w) = P vm w
Next P (halt r vm w) = Unit
Next P (throw e vm w) = Unit

-- `P` of the state at the end, however it ends.
abbrev pub Each : {W : Type 0} → (Vm → W → Type 0) → Flow W → Type 0
Each P (next vm w) = P vm w
Each P (halt r vm w) = P vm w
Each P (throw e vm w) = P vm w

module _ {W : Type 0} where
  pub Next-bind :
      (P Q : Vm → W → Type 0) (f : Flow W) (k : Vm × W → Flow W)
      → Next P f
      → ((vm : Vm) (w : W) → P vm w → Next Q (k (vm, w)))
      → Next Q (f >>= k)
  Next-bind P Q (next vm w) k h rest = rest vm w h
  Next-bind P Q (halt r vm w) k h rest = tt
  Next-bind P Q (throw e vm w) k h rest = tt

  pub Each-bind :
      (P Q : Vm → W → Type 0) (f : Flow W) (k : Vm × W → Flow W)
      → ((vm : Vm) (w : W) → P vm w → Q vm w)
      → Each P f
      → ((vm : Vm) (w : W) → P vm w → Each Q (k (vm, w)))
      → Each Q (f >>= k)
  Each-bind P Q (next vm w) k weaken h rest = rest vm w h
  Each-bind P Q (halt r vm w) k weaken h rest = weaken vm w h
  Each-bind P Q (throw e vm w) k weaken h rest = weaken vm w h

  pub Each-map :
      (P Q : Vm → W → Type 0) (f : Flow W)
      → ((vm : Vm) (w : W) → P vm w → Q vm w)
      → Each P f
      → Each Q f
  Each-map P Q (next vm w) weaken h = weaken vm w h
  Each-map P Q (halt r vm w) weaken h = weaken vm w h
  Each-map P Q (throw e vm w) weaken h = weaken vm w h

  -- Two facts of the same end, and a continuation that needs both.
  pub Each-and :
      (P Q : Vm → W → Type 0) (f : Flow W) → Each P f → Each Q f → Each (λ vm w. P vm w × Q vm w) f
  Each-and P Q (next vm w) p q = (p, q)
  Each-and P Q (halt r vm w) p q = (p, q)
  Each-and P Q (throw e vm w) p q = (p, q)

  -- Two continuations that agree wherever control goes on.
  pub bind_congr :
      (P : Vm → W → Type 0) (f : Flow W) (k l : Vm × W → Flow W)
      → Next P f
      → ((vm : Vm) (w : W) → P vm w → k (vm, w) ≡ l (vm, w))
      → (f >>= k) ≡ (f >>= l)
  bind_congr P (next vm w) k l h same = same vm w h
  bind_congr P (halt r vm w) k l h same = refl
  bind_congr P (throw e vm w) k l h same = refl
