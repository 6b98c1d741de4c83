-- ===== src/Benchmark/Loop.antt =====
-- src/main.cpp, the benchmarks' workload: its run, a round of the loop at a time.
use mathlib.Core.Path.{subst}
use retro_vm.Prelude.{ℕ, zero, suc, ◌+◌, ◌-◌, ◌*◌, ◌^◌, ◌<◌, ◌≤◌, ◌≡◌, refl, ap, ◌∙◌, arith, none}
use retro_vm.Word.{sub32}
use retro_vm.Isa.{halt_normal}
use retro_vm.Machine.{Vm, request_halt}
use retro_vm.Hooks.{IoHooks, halt}
use retro_vm.Dispatch.{run_goto}
use retro_vm.Benchmark.Workload.{Holds}
use retro_vm.Benchmark.Steps.{
  Cells, vm_at, Leads, followed, li0, li1, add2, add3, sub4, mul5, div6, store2, load7, sub0,
  jnz0_back, jnz0_on, halt0,
}

module _ {W : Type 0} (io : IoHooks W) (w : W) where
  retimed :
      (n : ℕ) (vm : Vm) (c c1 k k1 one pc : ℕ)
      → c ≡ c1
      → k ≡ k1
      → Leads io w n vm c k one pc
      → Leads io w n vm c1 k1 one pc
  retimed n vm c c1 k k1 one pc ec ek l =
      subst (λ k. Leads io w n vm c1 k one pc) ek (subst (λ c. Leads io w n vm c k one pc) ec l)

  -- A round up to its branch.
  module _ (c k : ℕ) (hc : c + 8 < 2 ^ 64) (x : Cells) (h : Holds x.mem) where
    abbrev start : Vm
    start = vm_at c k 1 8 x

    -- One more instruction.
    also :
        (i k0 pc0 k1 pc1 : ℕ)
        → i < 8
        → Leads io w i start (c + i) k0 1 pc0
        → ((c1 : ℕ)
            → c1 + 1 < 2 ^ 64
            → (x1 : Cells) → Holds x1.mem
            → Leads io w 1 (vm_at c1 k0 1 pc0 x1) (c1 + 1) k1 1 pc1)
        → Leads io w (i + 1) start (c + (i + 1)) k1 1 pc1
    also i k0 pc0 k1 pc1 hi l step =
        followed io w i 1 (i + 1) start (c + i) k0 1 pc0 (c + (i + 1)) k1 1 pc1 l
          (λ x1 h1.
            retimed 1 _ (c + i + 1) (c + (i + 1)) k1 k1 1 pc1 (omega arith) refl
              (step (c + i) (omega arith) x1 h1))
          refl

    round : Leads io w 8 start (c + 8) (sub32 k 1) 1 40
    round =
        let l1 =
          retimed 1 start (c + 1) (c + 1) k k 1 12 refl refl (add2 io w c k (omega arith) x h) in
        let l2 = also 1 k 12 k 16 (omega arith) l1 (λ c1. add3 io w c1 k) in
        let l3 = also 2 k 16 k 20 (omega arith) l2 (λ c1. sub4 io w c1 k) in
        let l4 = also 3 k 20 k 24 (omega arith) l3 (λ c1. mul5 io w c1 k) in
        let l5 = also 4 k 24 k 28 (omega arith) l4 (λ c1. div6 io w c1 k) in
        let l6 = also 5 k 28 k 32 (omega arith) l5 (λ c1. store2 io w c1 k) in
        let l7 = also 6 k 32 k 36 (omega arith) l6 (λ c1. load7 io w c1 k) in
        also 7 k 36 (sub32 k 1) 40 (omega arith) l7 (λ c1. sub0 io w c1 k)

  -- All rounds, from `suc j` of them on.
  rounds :
      (j c : ℕ) (x : Cells)
      → suc j < 2 ^ 32
      → c + 9 * suc j < 2 ^ 64
      → Holds x.mem
      → Leads io w (9 * suc j) (vm_at c (suc j) 1 8 x) (c + 9 * suc j) 0 1 44
  rounds zero c x hj hc h =
      followed io w 8 1 9 (vm_at c 1 1 8 x) (c + 8) 0 1 40 (c + 9) 0 1 44
        (round c 1 (omega arith) x h)
        (λ x1 h1.
          retimed 1 _ (c + 8 + 1) (c + 9) 0 0 1 44 (omega arith) refl
            (jnz0_on io w (c + 8) (omega arith) x1 h1))
        refl
  rounds (suc j) c x hj hc h =
      let first =
        followed io w 8 1 9 (vm_at c (suc (suc j)) 1 8 x) (c + 8) (suc j) 1 40 (c + 9) (suc j) 1 8
          (retimed 8 _ (c + 8) (c + 8) (sub32 (suc (suc j)) 1) (suc j) 1 40 refl (omega arith)
            (round c (suc (suc j)) (omega arith) x h))
          (λ x1 h1.
            retimed 1 _ (c + 8 + 1) (c + 9) (suc j) (suc j) 1 8 (omega arith) refl
              (jnz0_back io w (c + 8) (omega arith) x1 h1 j))
          refl in
      followed io w 9 (9 * suc j) (9 * suc (suc j)) _ (c + 9) (suc j) 1 8 (c + 9 * suc (suc j)) 0 1
        44 first
        (λ x1 h1.
          retimed (9 * suc j) _ (c + 9 + 9 * suc j) (c + 9 * suc (suc j)) 0 0 1 44 (omega arith)
            refl (rounds j (c + 9) x1 (omega arith) (omega arith) h1))
        (omega arith)

  -- The whole program, from a reset VM.
  pub workload-run :
      (fuel : ℕ) (x : Cells)
      → 9219 ≤ fuel
      → Holds x.mem
      → (x1 : Cells) × Holds x1.mem
        × (run_goto io none fuel (vm_at 0 0 0 0 x) w
            ≡ halt halt_normal (request_halt (vm_at 9219 0 1 48 x1) halt_normal) w)
  workload-run fuel x enough h =
      let vm = vm_at 0 0 0 0 x in
      let l1 =
        followed io w 1 1 2 vm 1 1024 0 4 2 1024 1 8 (li0 io w x h) (λ x1 h1. li1 io w x1 h1)
          refl in
      let (x1, h1, f) =
        followed io w 2 9216 9218 vm 2 1024 1 8 9218 0 1 44 l1
          (λ x1 h1. rounds 1023 2 x1 (omega arith) (omega arith) h1) refl in
      (
        x1,
        h1,
        ap (λ n. run_goto io none n vm w) (split fuel enough)
            ∙ (f (1 + (fuel - 9219)) ∙ halt0 io w (fuel - 9219) 9218 x1 h1 (omega arith)),
      )
    where
      split : (fuel : ℕ) → 9219 ≤ fuel → fuel ≡ 9218 + (1 + (fuel - 9219))
      split fuel l = omega arith
