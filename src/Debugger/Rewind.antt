-- ===== src/Debugger/Rewind.antt =====
-- src/main.cpp, the command `back` of the debugger: it takes the VM back along the moments that the
-- ring tells.
use mathlib.Core.Path.{subst}
use retro_vm.Prelude.{
  ℕ, suc, ◌-◌, ◌≤◌, ◌≡◌, refl, sym, ap, ◌∙◌, arith, false, [], ◌∷◌, ◌++◌, List, Option, none, some,
  inl, inr, ◌⊎◌, length, ltb, ◌==◌, get_or, drop, Bool-cases,
}
use retro_vm.Isa.{halt_running}
use retro_vm.Memory.{Memory}
use retro_vm.Machine.{Vm, request_halt}
use retro_vm.Dispatch.Validity.{IsValid}
use retro_vm.Trace.{TraceReader}
use retro_vm.Debugger.{ReplSnapshot, empty_snapshot, Debug, restore_core, undo_range, back}
use retro_vm.Debugger.Ring.{past}
use retro_vm.Debugger.Story.{Moment, vm_at, Shows, Tells, undo_range-Tells}
use retro_vm.Debugger.Prompt.{SameCursor, Settled}

-- The VM that `back` leaves, and the debugger.
abbrev rewound_vm : {S : Type 0} → ℕ → Vm → Debug S → Vm
rewound_vm n vm d = record vm {
  mem = undo_range d.ring d.history_index n vm.mem;
  state = restore_core (get_or d.ring (d.history_index - n) empty_snapshot).core vm.state;
}

abbrev rewound : {S : Type 0} → Option TraceReader → ℕ → Debug S → Debug S
rewound trace n d = record d {
  cursor = elim trace [
    | none ↦ d.cursor
    | some r ↦ (get_or d.ring (d.history_index - n) empty_snapshot).cursor
  ];
  history_index = d.history_index - n;
}

-- The newest moment that the ring tells.
Tells-head :
    (m : Memory) (r : ReplSnapshot) (rs : List ReplSnapshot) (ms : List Moment)
    → Tells m (r ∷ rs) ms
    → (a : Moment) × (rest : List Moment) × (ms ≡ a ∷ rest) × Shows m r a
Tells-head m r rs [] t = elim t [ ]
Tells-head m r rs (a ∷ ms) t = (a, ms, refl, t.0)

rewound-SameCursor :
    {S : Type 0} (trace : Option TraceReader) (n : ℕ) (d : Debug S) (c : ℕ)
    → (get_or d.ring (d.history_index - n) empty_snapshot).cursor ≡ c
    → SameCursor trace (rewound trace n d).cursor c
rewound-SameCursor none n d c e = tt
rewound-SameCursor (some r) n d c e = e

drop-append : {A : Type 0} (xs ys : List A) → drop (length xs) (xs ++ ys) ≡ ys
drop-append [] ys = refl
drop-append (x ∷ xs) ys = drop-append xs ys

module _ {S : Type 0} (trace : Option TraceReader) where
  back-lem :
      (n : ℕ) (vm : Vm) (d : Debug S)
      → 1 ≤ n
      → n ≤ d.history_index
      → back trace n vm d ≡ (rewound_vm n vm d, rewound trace n d)
  unfolding back
  back-lem n vm d pos le =
      let some_steps : (n == 0) ≡ false = ground arith in
      let enough : ltb d.history_index n ≡ false = ground arith in rw (some_steps, enough) refl

  back-cases :
      (n : ℕ) (vm : Vm) (d : Debug S)
      → (back trace n vm d ≡ (vm, d))
        ⊎ ((n ≤ d.history_index) × (back trace n vm d ≡ (rewound_vm n vm d, rewound trace n d)))
  unfolding back
  back-cases n vm d = elim (Bool-cases (n == 0)) [
    | inl none_at_all ↦ inl (rw none_at_all refl)
    | inr some_steps ↦ elim (Bool-cases (ltb d.history_index n)) [
      | inl refused ↦ inl (rw (some_steps, refused) refl)
      | inr enough ↦ inr (ground arith, rw (some_steps, enough) refl)
    ]
  ]

  module _ (n : ℕ) (ms : List Moment) (vm : Vm) (d : Debug S) (h : Settled trace ms vm d) where
    abbrev target : ReplSnapshot
    target = get_or d.ring (d.history_index - n) empty_snapshot

    gone_back :
        n ≤ d.history_index
        → Tells
            (undo_range d.ring d.history_index n vm.mem)
            (past d.ring (suc (d.history_index - n)))
            (drop n ms)
    gone_back le =
        undo_range-Tells d.ring n d.history_index (d.history_index - n) vm.mem ms (omega arith)
          h.recalls

    -- The VM of the moment that the target shows.
    shown_vm :
        (a : Moment)
        → Shows (undo_range d.ring d.history_index n vm.mem) target a
        → rewound_vm n vm d ≡ vm_at a
    shown_vm a s =
        let i : vm.state.snap_interval ≡ a.state.snap_interval = h.every ∙ sym s.2.2 in
        let t : vm.state.snap_timer ≡ a.state.snap_timer = h.timer ∙ sym s.2.3 in
        (λ j. record {
          mem = s.0 j;
          state =
              restore_core target.core
                (record (vm.state) { snap_interval = i j; snap_timer = t j });
          deltas = h.flushed j;
        })
        ∙ ap (λ st. record { mem = a.mem; state = st; deltas = [] }) s.1

    rewound-Settled :
        (a : Moment) (rest : List Moment)
        → n ≤ d.history_index
        → drop n ms ≡ a ∷ rest
        → Shows (undo_range d.ring d.history_index n vm.mem) target a
        → Settled trace (a ∷ rest) (rewound_vm n vm d) (rewound trace n d)
    rewound-Settled a rest le e s =
        let there : rewound_vm n vm d ≡ vm_at a = shown_vm a s in
        record {
          valid = subst IsValid (sym there) s.2.0;
          every = h.every;
          timer = h.timer;
          flushed = h.flushed;
          fits = (omega (arith, h.fits.0), h.fits.1);
          recalls =
              subst
                (Tells (undo_range d.ring d.history_index n vm.mem)
                  (past d.ring (suc (d.history_index - n))))
                e (gone_back le);
          head = inr (
            ap (λ x. request_halt x halt_running) there
                ∙ (λ j. record (vm_at a) { state = record (a.state) { halted = sym s.2.1 j } }),
            rewound-SameCursor trace n d a.cursor s.3,
          );
        }

  -- The prompt after `back`.
  pub back-Settled :
      (n : ℕ) (ms : List Moment) (vm : Vm) (d : Debug S)
      → Settled trace ms vm d
      → (earlier : List Moment) × Settled trace earlier (back trace n vm d).0 (back trace n vm d).1
  back-Settled n ms vm d h = elim (back-cases n vm d) [
    | inl e ↦ (ms, subst (λ p. Settled trace ms p.0 p.1) (sym e) h)
    | inr (le, e) ↦
        let (a, rest, told, s) = Tells-head _ _ _ (drop n ms) (gone_back n ms vm d h le) in
        (
          a ∷ rest,
          subst (λ p. Settled trace (a ∷ rest) p.0 p.1) (sym e)
              (rewound-Settled n ms vm d h a rest le told s),
        )
  ]

  -- Back by as many steps as there are moments above `a`.
  pub back-moment :
      (a : Moment) (news ms : List Moment) (vm : Vm) (d : Debug S)
      → Settled trace (news ++ a ∷ ms) vm d
      → 1 ≤ length news
      → length news ≤ d.history_index
      → ((back trace (length news) vm d).0 ≡ vm_at a)
        × SameCursor trace (back trace (length news) vm d).1.cursor a.cursor
  back-moment a news ms vm d h pos le =
      let told =
        subst
          (Tells (undo_range d.ring d.history_index (length news) vm.mem)
            (past d.ring (suc (d.history_index - length news))))
          (drop-append news (a ∷ ms)) (gone_back (length news) _ vm d h le) in
      subst (λ p. (p.0 ≡ vm_at a) × SameCursor trace p.1.cursor a.cursor)
        (sym (back-lem (length news) vm d pos le))
        (
          shown_vm (length news) _ vm d h a told.0,
          rewound-SameCursor trace (length news) d a.cursor told.0.3,
        )
