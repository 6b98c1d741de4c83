-- ===== src/Debugger/Words.antt =====
-- src/main.cpp, the loop of `cmd_debug_run`: a line of words with a blank between them is trimmed and
-- split into these words.
use mathlib.Core.Path.{subst}
use retro_vm.Prelude.{
  ℕ, ◌≡◌, refl, sym, ap, ◌∙◌, arith, Bool, false, List, [], ◌∷◌, ◌++◌, All, if◌then◌else◌,
}
use retro_vm.Text.{Str, is_space, pop_back, pop_front}
use retro_vm.Text.Splits.{pop_back-All, pop_back-append}
use retro_vm.Debugger.Console.{
  nothing, tokens, at_space, is_comment, is_line_end, command_words, command_of,
}

abbrev pub NoSpace : ℕ → Type 0
NoSpace c = is_space c ≡ false

abbrev pub IsWord : Str → Type 0
IsWord [] = ⊥
IsWord (c ∷ cs) = All NoSpace (c ∷ cs)

-- The words with a blank between them.
abbrev pub joined : List Str → Str
joined [] = []
joined (w ∷ []) = w
joined (w ∷ v ∷ ws) = w ++ 32 ∷ joined (v ∷ ws)

-- A character in front of the first word.
abbrev glued : ℕ → List Str → List Str
glued c ws = elim ws [ [] ↦ (c ∷ []) ∷ [] | v ∷ vs ↦ (c ∷ v) ∷ vs ]

tokens_inside :
    (c : ℕ) (cs : Str) → NoSpace c → at_space cs ≡ false → tokens (c ∷ cs) ≡ glued c (tokens cs)
unfolding tokens
tokens_inside c cs h inside = rw (h, inside) refl

tokens-word : (c : ℕ) (cs : Str) → All NoSpace (c ∷ cs) → tokens (c ∷ cs) ≡ (c ∷ cs) ∷ []
unfolding tokens
tokens-word c [] h = rw (h.0) refl
tokens-word c (d ∷ cs) h = tokens_inside c (d ∷ cs) h.0 h.1.0 ∙ ap (glued c) (tokens-word d cs h.1)

tokens-append :
    (c : ℕ) (cs ys : Str)
    → All NoSpace (c ∷ cs)
    → tokens (c ∷ (cs ++ 32 ∷ ys)) ≡ (c ∷ cs) ∷ tokens ys
unfolding tokens
tokens-append c [] ys h = rw (h.0) refl
tokens-append c (d ∷ cs) ys h =
    tokens_inside c (d ∷ (cs ++ 32 ∷ ys)) h.0 h.1.0 ∙ ap (glued c) (tokens-append d cs ys h.1)

tokens-joined : (ws : List Str) → All IsWord ws → tokens (joined ws) ≡ ws
tokens-joined [] h = unfold tokens in refl
tokens-joined ([] ∷ ws) h = absurd (h.0)
tokens-joined ((c ∷ cs) ∷ []) h = tokens-word c cs h.0
tokens-joined ((c ∷ cs) ∷ v ∷ ws) h =
    tokens-append c cs (joined (v ∷ ws)) h.0 ∙ ap (λ t. (c ∷ cs) ∷ t) (tokens-joined (v ∷ ws) h.1)

-- A line that starts with a visible character and from whose end nothing is dropped.
abbrev Kept : (ℕ → Bool) → Str → Type 0
Kept p s = (y : ℕ) × (ys : Str) × (s ≡ y ∷ ys) × NoSpace y × (pop_back p s ≡ s)

-- `p` drops spaces only.
abbrev OnlySpaces : (ℕ → Bool) → Type 0
OnlySpaces p = (c : ℕ) → NoSpace c → p c ≡ false

All-OnlySpaces :
    (p : ℕ → Bool) (xs : Str) → OnlySpaces p → All NoSpace xs → All (λ c. p c ≡ false) xs
All-OnlySpaces p [] o h = tt
All-OnlySpaces p (x ∷ xs) o h = (o x h.0, All-OnlySpaces p xs o h.1)

joined-Kept :
    (p : ℕ → Bool) (w : Str) (ws : List Str)
    → OnlySpaces p
    → All IsWord (w ∷ ws)
    → Kept p (joined (w ∷ ws))
joined-Kept p [] ws o h = absurd (h.0)
joined-Kept p (c ∷ cs) [] o h =
    (c, cs, refl, h.0.0, pop_back-All p (c ∷ cs) (All-OnlySpaces p (c ∷ cs) o h.0))
joined-Kept p (c ∷ cs) (v ∷ ws) o h =
    let (y, ys, e, visible, kept) = joined-Kept p v ws o h.1 in
    let behind =
      subst (λ s. pop_back p s ≡ s → pop_back p (32 ∷ s) ≡ 32 ∷ s) (sym e)
        (pop_back-append p (32 ∷ []) y ys) kept in
    (
      c,
      cs ++ 32 ∷ joined (v ∷ ws),
      refl,
      h.0.0,
      pop_back-append p (c ∷ cs) 32 (joined (v ∷ ws)) behind,
    )

pop_front-visible : (y : ℕ) (ys : Str) → NoSpace y → pop_front is_space (y ∷ ys) ≡ y ∷ ys
unfolding pop_front
pop_front-visible y ys h = rw h refl

trimmed :
    (w : Str) (ws : List Str)
    → All IsWord (w ∷ ws)
    → pop_back is_space (pop_front is_space (pop_back is_line_end (joined (w ∷ ws))))
      ≡ joined (w ∷ ws)
trimmed w ws h =
    let (y, ys, e, visible, no_end) = joined-Kept is_line_end w ws (λ c s. ground arith) h in
    let (y1, ys1, e1, visible1, no_space) = joined-Kept is_space w ws (λ c s. s) h in
    ap (λ s. pop_back is_space (pop_front is_space s)) (no_end ∙ e)
    ∙ ap (pop_back is_space) (pop_front-visible y ys visible ∙ sym e)
    ∙ no_space

-- A line of words that is no comment is the command that the words are.
pub command_of-joined :
    (w : Str) (ws : List Str)
    → All IsWord (w ∷ ws)
    → is_comment (joined (w ∷ ws)) ≡ false
    → command_of (joined (w ∷ ws)) ≡ command_words (w ∷ ws)
unfolding command_of
command_of-joined w ws h plain =
    ap (λ t. if is_comment t then nothing else command_words (tokens t)) (trimmed w ws h)
    ∙ (ap (λ b. if b then nothing else command_words (tokens (joined (w ∷ ws)))) plain
        ∙ ap command_words (tokens-joined (w ∷ ws) h))
