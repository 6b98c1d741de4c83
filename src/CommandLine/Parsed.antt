-- ===== src/CommandLine/Parsed.antt =====
-- src/main.cpp, the options of `main`: the ranges of the numbers that they are read as.
use retro_vm.Prelude.{
  ℕ, ◌≤◌, ◌<◌, ◌^◌, ◌==◌, Bool, List, [], ◌∷◌, Option, none, some, if◌then◌else◌, arith,
}
use retro_vm.Text.{Str, pop_front, is_space, signed, scan, digit_of, ends}
use retro_vm.Text.Numerals.{as_u64, after_prefix, strtoull, codes}
use retro_vm.CommandLine.Options.{
  whole_number, number_in, option_value, number_option, seed_option, frame_option, options,
  frame_options,
}

-- What a parsed value satisfies.
abbrev pub Holds {κ} : {A : Type 0} → (A → Type κ) → Option A → Type κ
Holds P none = Unit
Holds P (some a) = P a

abbrev pub Between : ℕ → ℕ → ℕ → Type 0
Between low high n = (low ≤ n) × (n ≤ high)

abbrev pub Small : Option ℕ → Type 0
Small none = Unit
Small (some n) = n < 2 ^ 64

as_u64-Small : (minus : Bool) (v : ℕ) → as_u64 minus v < 2 ^ 64
as_u64-Small minus v = ground arith

Holds-bind {κ μ} :
    {A B : Type 0} (P : A → Type κ) (Q : B → Type μ) (o : Option A) (k : A → Option B)
    → Holds P o
    → ((a : A) → P a → Holds Q (k a))
    → Holds Q (elim o [ none ↦ none | some a ↦ k a ])
Holds-bind P Q none k h f = tt
Holds-bind P Q (some a) k h f = f a h

abbrev pub True : {A : Type 0} → A → Type 0
True a = Unit

pub Holds-True : {A : Type 0} (o : Option A) → Holds True o
Holds-True none = tt
Holds-True (some a) = tt

SmallEnd : ℕ × Str → Type 0
SmallEnd r = r.0 < 2 ^ 64

strtoull-Small : (base : ℕ) (s : Str) → Holds SmallEnd (strtoull base s)
unfolding strtoull SmallEnd
strtoull-Small base s =
    let (minus, t) = signed (pop_front is_space s) in
    let u = if base == 16 then after_prefix t else t in
    let (v, rest) = scan base 0 u in digits-Small minus v rest u
  where
    digits-Small :
        (minus : Bool) (v : ℕ) (rest u : Str)
        → Holds SmallEnd (elim u [
          | [] ↦ none
          | c ∷ cs ↦ elim (digit_of base c) [ none ↦ none | some d ↦ some (as_u64 minus v, rest) ]
        ])
    digits-Small minus v rest [] = tt
    digits-Small minus v rest (c ∷ cs) =
        Holds-bind True SmallEnd (digit_of base c) _ (Holds-True (digit_of base c))
          (λ d h. as_u64-Small minus v)

pub whole_number-Small : (s : Str) → Holds (λ v. v < 2 ^ 64) (whole_number s)
unfolding whole_number SmallEnd
whole_number-Small s =
    Holds-bind SmallEnd (λ v. v < 2 ^ 64) (strtoull 10 s) (λ r. if ends r.1 then some r.0 else none)
      (strtoull-Small 10 s) (λ r h. ground arith)

pub number_in-Between : (low high : ℕ) (s : Str) → Holds (Between low high) (number_in low high s)
number_in-Between low high s = ground arith

pub option-Holds :
    (P : ℕ → Type 0) (pre : Str) (read : Str → Option ℕ) (arg : Str)
    → ((s : Str) → Holds P (read s))
    → Holds P (number_option pre read arg)
option-Holds P pre read arg h =
    Holds-bind True P (option_value pre arg) read (Holds-True (option_value pre arg)) (λ s t. h s)

-- The last option decides, and each is in range.
pub options-Holds :
    (P : ℕ → Type 0) (read : Str → Option ℕ) (v : ℕ) (args : List Str)
    → ((s : Str) → Holds P (read s))
    → P v
    → Holds P (options read v args)
unfolding options
options-Holds P read v [] h hv = hv
options-Holds P read v (arg ∷ args) h hv =
    Holds-bind P P (read arg) (λ n. options read n args) (h arg)
      (λ n hn. options-Holds P read n args h hn)

pub frame_options-Small :
    (found : Option ℕ) (args : List Str) → Small found → Holds Small (frame_options found args)
unfolding frame_options
frame_options-Small found [] h = h
frame_options-Small found (arg ∷ args) h =
    let small = λ (n : ℕ). n < 2 ^ 64 in
    Holds-bind small Small (frame_option arg) (λ n. frame_options (some n) args)
      (option-Holds small (codes "--frame=") whole_number arg whole_number-Small)
      (λ n hn. frame_options-Small (some n) args hn)

pub seed-Small : (arg : Str) → Holds (λ n. n < 2 ^ 32) (seed_option arg)
seed-Small arg =
    let small = λ (n : ℕ). n < 2 ^ 32 in
    option-Holds small (codes "--seed=") (number_in 0 0xFFFFFFFF) arg (λ s. seed_digits-Small s)
  where
    seed_digits-Small : (s : Str) → Holds (λ n. n < 2 ^ 32) (number_in 0 0xFFFFFFFF s)
    seed_digits-Small s = ground arith
