-- ===== src/Debugger/Ring.antt =====
-- src/main.cpp, the snapshot ring of the debugger: its size, and what a push keeps of it.
use retro_vm.Prelude.{
  ℕ, zero, suc, ◌+◌, ◌≤◌, ◌<◌, ◌≡◌, refl, ap, ◌∙◌, arith, List, [], ◌∷◌, ◌++◌, inl, inr, Bool-cases,
  ltb, ◌⊎◌, length, length-append, length-drop, get_or, drop,
}
use retro_vm.Debugger.{ReplSnapshot, empty_snapshot, Debug, ring_cap, resize, push_ring}

-- The snapshots below index `n`, newest first.
abbrev pub past : List ReplSnapshot → ℕ → List ReplSnapshot
past ring zero = []
past ring (suc i) = get_or ring i empty_snapshot ∷ past ring i

-- The index is inside the ring, and the ring within its bound.
abbrev pub RingFits : {S : Type 0} → Debug S → Type 0
RingFits d = (d.history_index < length d.ring) × (length d.ring ≤ ring_cap)

length-resize {ℓ} : {A : Type ℓ} (n : ℕ) (e : A) (xs : List A) → length (resize n e xs) ≡ n
unfolding resize
length-resize zero e xs = refl
length-resize (suc n) e [] = ap suc (length-resize n e [])
length-resize (suc n) e (x ∷ xs) = ap suc (length-resize n e xs)

get_or-resize {ℓ} :
    {A : Type ℓ} (n i : ℕ) (e : A) (xs : List A)
    → i < n
    → get_or (resize n e xs) i e ≡ get_or xs i e
unfolding resize
get_or-resize zero i e xs h = absurd (omega arith)
get_or-resize (suc n) zero e [] h = refl
get_or-resize (suc n) (suc i) e [] h = get_or-resize n i e [] (omega arith)
get_or-resize (suc n) zero e (x ∷ xs) h = refl
get_or-resize (suc n) (suc i) e (x ∷ xs) h = get_or-resize n i e xs (omega arith)

get_or-append {ℓ} :
    {A : Type ℓ} (i : ℕ) (e : A) (xs ys : List A)
    → i < length xs
    → get_or (xs ++ ys) i e ≡ get_or xs i e
get_or-append i e [] ys h = absurd (omega arith)
get_or-append zero e (x ∷ xs) ys h = refl
get_or-append (suc i) e (x ∷ xs) ys h = get_or-append i e xs ys (omega arith)

get_or-append_next {ℓ} :
    {A : Type ℓ} (i : ℕ) (e x : A) (xs : List A) → i ≡ length xs → get_or (xs ++ x ∷ []) i e ≡ x
get_or-append_next zero e x [] h = refl
get_or-append_next zero e x (y ∷ xs) h = absurd (omega arith)
get_or-append_next (suc i) e x [] h = absurd (omega arith)
get_or-append_next (suc i) e x (y ∷ xs) h = get_or-append_next i e x xs (omega arith)

past_congr :
    (xs ys : List ReplSnapshot) (n : ℕ)
    → ((i : ℕ) → i < n → get_or xs i empty_snapshot ≡ get_or ys i empty_snapshot)
    → past xs n ≡ past ys n
past_congr xs ys zero h = refl
past_congr xs ys (suc n) h =
    λ i. h n (omega arith) i ∷ past_congr xs ys n (λ j hj. h j (omega arith)) i

-- The ring that a push makes, before the oldest is dropped.
abbrev pub pushed : ReplSnapshot → List ReplSnapshot → ℕ → List ReplSnapshot
pushed rs ring hi = resize (hi + 1) empty_snapshot ring ++ rs ∷ []

pub length-pushed :
    (rs : ReplSnapshot) (ring : List ReplSnapshot) (hi : ℕ) → length (pushed rs ring hi) ≡ hi + 2
length-pushed rs ring hi = omega (
  arith,
  length-append (resize (hi + 1) empty_snapshot ring) (rs ∷ []),
  length-resize (hi + 1) empty_snapshot ring,
)

pub past-pushed :
    (rs : ReplSnapshot) (ring : List ReplSnapshot) (hi : ℕ)
    → past (pushed rs ring hi) (suc (suc hi)) ≡ rs ∷ past ring (suc hi)
past-pushed rs ring hi =
    let len = length-resize (hi + 1) empty_snapshot ring in
    λ i.
      get_or-append_next (suc hi) empty_snapshot rs (resize (hi + 1) empty_snapshot ring)
        (omega (arith, len)) i
      ∷ past_congr (pushed rs ring hi) ring (suc hi)
          (λ j hj.
            get_or-append j empty_snapshot (resize (hi + 1) empty_snapshot ring) (rs ∷ [])
              (omega (arith, len))
            ∙ get_or-resize (hi + 1) j empty_snapshot ring (omega arith))
          i

-- Dropping the oldest.
pub past-drop :
    (xs : List ReplSnapshot) (n : ℕ)
    → 1 ≤ length xs
    → past xs (suc n) ≡ past (drop 1 xs) n ++ get_or xs 0 empty_snapshot ∷ []
past-drop [] n h = absurd (omega arith)
past-drop (x ∷ xs) zero h = refl
past-drop (x ∷ xs) (suc n) h =
    λ i. get_or xs n empty_snapshot ∷ past-drop (x ∷ xs) n (omega arith) i

-- The two ways of a push.
pub push_ring-cases :
    {S : Type 0} (rs : ReplSnapshot) (d : Debug S)
    → RingFits d
    → ((d.history_index < 255)
        × (push_ring rs d ≡ record d {
          ring = pushed rs d.ring d.history_index;
          history_index = d.history_index + 1;
        }))
      ⊎ ((d.history_index ≡ 255)
          × (push_ring rs d ≡ record d { ring = drop 1 (pushed rs d.ring d.history_index) }))
unfolding push_ring
push_ring-cases rs d h =
    let len = length-pushed rs d.ring d.history_index in
    elim (Bool-cases (ltb ring_cap (length (pushed rs d.ring d.history_index)))) [
      | inl full ↦ inr (ground (arith, len), rw full)
      | inr room ↦ inl (ground (arith, len), rw room)
    ]

-- A push keeps the bounds, and leaves the index at the newest snapshot.
pub push_ring-RingFits :
    {S : Type 0} (rs : ReplSnapshot) (d : Debug S)
    → RingFits d
    → RingFits (push_ring rs d)
      × ((push_ring rs d).history_index + 1 ≡ length (push_ring rs d).ring)
push_ring-RingFits rs d h = elim (push_ring-cases rs d h) [
  | inl (room, e) ↦ rw e (omega (arith, length-pushed rs d.ring d.history_index))
  | inr (full, e) ↦ rw e (
      omega (
        arith,
        length-pushed rs d.ring d.history_index,
        length-drop 1 (pushed rs d.ring d.history_index),
      ))
]
