-- ===== src/Inspect/Equal.antt =====
-- src/main.cpp, `cmd_inspect_diff`: when it finds nothing to print.
use mathlib.Core.Path.{ap₂, subst}
use retro_vm.Prelude.{
  ℕ, zero, suc, ◌+◌, ◌≡◌, ◌↔◌, ◌<◌, ◌≤◌, refl, sym, ap, ◌∙◌, arith, List, [], ◌∷◌, ◌++◌, none, some,
  take, get_or, length, ◌==◌, ==_iff, All, Bool-cases, inl, inr,
}
use retro_vm.Word.{IsU8}
use retro_vm.Checkpoint.{CheckpointState, checkpoint_save, loaded, checkpoint_load}
use retro_vm.Checkpoint.Codec.{StateFits, checkpoint_load-checkpoint_save}
use retro_vm.Checkpoint.Resave.{checkpoint_save-checkpoint_load, loaded-StateFits}
use retro_vm.Inspect.{loaded_state, Row, unless_equal, reg_rows, diff_rows, cmd_inspect_diff}

unless_equal_self : (a : ℕ) (r : Row) (rows : List Row) → unless_equal a a r rows ≡ rows
unless_equal_self a r rows = ground arith

-- No rows: the two values are equal, and nothing follows.
unless_equal_inv :
    (a b : ℕ) (r : Row) (rows : List Row) → unless_equal a b r rows ≡ [] → (a ≡ b) × (rows ≡ [])
unless_equal_inv a b r rows e = ground arith

reg_rows_self : (n i : ℕ) (a : List ℕ) → reg_rows n i a a ≡ []
unfolding reg_rows
reg_rows_self zero i a = refl
reg_rows_self (suc n) i a =
    unless_equal_self (get_or a i 0) _ (reg_rows n (suc i) a a) ∙ reg_rows_self n (suc i) a

diff_rows_self : (c : CheckpointState) → diff_rows c c ≡ []
unfolding diff_rows
diff_rows_self c =
    unless_equal_self c.frame_index _ _
    ∙ (unless_equal_self c.halted _ _
        ∙ (unless_equal_self c.pc _ _
            ∙ (unless_equal_self c.sp _ _
                ∙ (unless_equal_self c.flags _ _ ∙ reg_rows_self 8 0 c.regs))))

-- With no rows, the registers agree at each of the `n` numbers from `i` on.
reg_rows_inv :
    (n i : ℕ) (a b : List ℕ)
    → reg_rows n i a b ≡ []
    → (k : ℕ) → i ≤ k
    → k < i + n
    → get_or a k 0 ≡ get_or b k 0
unfolding reg_rows
reg_rows_inv zero i a b e k l h = absurd (omega arith)
reg_rows_inv (suc n) i a b e k l h =
    let (first, rest) = unless_equal_inv _ _ _ _ e in
    elim (Bool-cases (i == k)) [
      | inl at ↦ subst (λ k. get_or a k 0 ≡ get_or b k 0) ((==_iff i k).0 at) first
      | inr beyond ↦ reg_rows_inv n (suc i) a b rest k (ground arith) (omega arith)
    ]

get_or-ext :
    (a b : List ℕ)
    → length a ≡ length b
    → ((j : ℕ) → j < length a → get_or a j 0 ≡ get_or b j 0)
    → a ≡ b
get_or-ext [] [] l h = refl
get_or-ext [] (y ∷ b) l h = absurd (omega arith)
get_or-ext (x ∷ a) [] l h = absurd (omega arith)
get_or-ext (x ∷ a) (y ∷ b) l h =
    ap₂ ◌∷◌ (h 0 (omega arith)) (get_or-ext a b (omega arith) (λ j lt. h (suc j) (omega arith)))

diff_rows_inv : (a b : CheckpointState) → StateFits a → StateFits b → diff_rows a b ≡ [] → a ≡ b
unfolding diff_rows
diff_rows_inv a b ha hb e =
    let (index, e1) = unless_equal_inv _ _ _ _ e in
    let (reason, e2) = unless_equal_inv _ _ _ _ e1 in
    let (pc, e3) = unless_equal_inv _ _ _ _ e2 in
    let (sp, e4) = unless_equal_inv _ _ _ _ e3 in
    let (flags, e5) = unless_equal_inv _ _ _ _ e4 in
    let regs =
      get_or-ext a.regs b.regs (ha.eight ∙ sym hb.eight)
        (λ j lt. reg_rows_inv 8 0 a.regs b.regs e5 j (omega arith) (omega (arith, ha.eight))) in
    λ i. record {
      frame_index = index i;
      halted = reason i;
      flags = flags i;
      regs = regs i;
      pc = pc i;
      sp = sp i;
    }

module _ (a b : List ℕ) (x y : CheckpointState) (ha : All IsU8 a) (hb : All IsU8 b)
    (ea : checkpoint_load a ≡ loaded x) (eb : checkpoint_load b ≡ loaded y) where
  same_state : take 64 a ≡ take 64 b → x ≡ y
  same_state e =
      let saved : checkpoint_save x ≡ checkpoint_save y =
        checkpoint_save-checkpoint_load a x ha ea
        ∙ (e ∙ sym (checkpoint_save-checkpoint_load b y hb eb)) in
      let loads : loaded x ≡ loaded y =
        sym (checkpoint_load-checkpoint_save x [] (loaded-StateFits a x ha ea))
        ∙ (ap (λ s. checkpoint_load (s ++ [])) saved
            ∙ checkpoint_load-checkpoint_save y [] (loaded-StateFits b y hb eb)) in
      cc

  cmd_inspect_diff-rows : cmd_inspect_diff a b ≡ some (diff_rows x y)
  unfolding cmd_inspect_diff
  cmd_inspect_diff-rows = λ i. elim (loaded_state (ea i)) [
    | none ↦ none
    | some x ↦ elim (loaded_state (eb i)) [ none ↦ none | some y ↦ some (diff_rows x y) ]
  ]

  no_rows : cmd_inspect_diff a b ≡ some [] → x ≡ y
  no_rows e =
      let rows : some (diff_rows x y) ≡ some [] = sym cmd_inspect_diff-rows ∙ e in
      diff_rows_inv x y (loaded-StateFits a x ha ea) (loaded-StateFits b y hb eb) cc

  -- For two files of bytes that load as states, `inspect --diff` prints no differing field exactly
  -- when the first 64 bytes of the files are the same.
  pub cmd_inspect_diff-equal : (cmd_inspect_diff a b ≡ some []) ↔ (take 64 a ≡ take 64 b)
  cmd_inspect_diff-equal = (
    λ e.
        sym (checkpoint_save-checkpoint_load a x ha ea)
        ∙ (ap checkpoint_save (no_rows e) ∙ checkpoint_save-checkpoint_load b y hb eb),
    λ e. cmd_inspect_diff-rows ∙ ap some (ap (diff_rows x) (sym (same_state e)) ∙ diff_rows_self x),
  )
