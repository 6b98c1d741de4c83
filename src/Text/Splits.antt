-- ===== src/Text/Splits.antt =====
-- src/assembler.cpp: what the helpers on strings leave of a line of words.
use retro_vm.Prelude.{
  ℕ, ◌≡◌, refl, sym, ap, ◌∙◌, arith, Bool, false, ◌&&◌, [], ◌∷◌, ◌++◌, All, ◌==◌, if◌then◌else◌,
  if_false,
}
use retro_vm.Text.{
  Str, is_space, is_empty, pop_back, pop_front, is_comma, strip_comma, strip_comment, word_of,
  after_word,
}

pub strip_comment-All : (xs : Str) → All (λ c. (c == b';') ≡ false) xs → strip_comment xs ≡ xs
unfolding strip_comment
strip_comment-All [] h = refl
strip_comment-All (x ∷ xs) h = rw (h.0, strip_comment-All xs h.1) refl

pub pop_back-All : (p : ℕ → Bool) (xs : Str) → All (λ c. p c ≡ false) xs → pop_back p xs ≡ xs
unfolding pop_back
pop_back-All p [] h = refl
pop_back-All p (x ∷ xs) h =
    ap (λ rest. if is_empty rest && p x then [] else x ∷ rest) (pop_back-All p xs h.1)
    ∙ if_false (is_empty xs && p x) _ _ (kept (is_empty xs) (p x) h.0)
  where
    kept : (a b : Bool) → b ≡ false → (a && b) ≡ false
    kept a b e = ground arith

is_empty-append : (xs : Str) (y : ℕ) (ys : Str) → is_empty (xs ++ y ∷ ys) ≡ false
is_empty-append [] y ys = refl
is_empty-append (x ∷ xs) y ys = refl

-- Nothing is dropped in front of what stays.
pub pop_back-append :
    (p : ℕ → Bool) (xs : Str) (y : ℕ) (ys : Str)
    → pop_back p (y ∷ ys) ≡ y ∷ ys
    → pop_back p (xs ++ y ∷ ys) ≡ xs ++ y ∷ ys
unfolding pop_back
pop_back-append p [] y ys h = h
pop_back-append p (x ∷ xs) y ys h =
    ap (λ rest. if is_empty rest && p x then [] else x ∷ rest) (pop_back-append p xs y ys h)
    ∙ if_false (is_empty (xs ++ y ∷ ys) && p x) _ _ (ap (λ b. b && p x) (is_empty-append xs y ys))

pub word_of-All : (xs : Str) → All (λ c. is_space c ≡ false) xs → word_of xs ≡ xs
unfolding word_of
word_of-All [] h = refl
word_of-All (x ∷ xs) h = rw (h.0, word_of-All xs h.1) refl

pub after_word-All : (xs : Str) → All (λ c. is_space c ≡ false) xs → after_word xs ≡ []
unfolding after_word
after_word-All [] h = refl
after_word-All (x ∷ xs) h = rw (h.0, after_word-All xs h.1) refl

-- The word before a comma and a blank, and what follows it.
pub word_of-append :
    (xs ys : Str)
    → All (λ c. is_space c ≡ false) xs
    → word_of (xs ++ b',' ∷ b' ' ∷ ys) ≡ xs ++ b',' ∷ []
unfolding word_of
word_of-append [] ys h = refl
word_of-append (x ∷ xs) ys h = rw (h.0, word_of-append xs ys h.1) refl

pub after_word-append :
    (xs ys : Str)
    → All (λ c. is_space c ≡ false) xs
    → after_word (xs ++ b',' ∷ b' ' ∷ ys) ≡ b' ' ∷ ys
unfolding after_word
after_word-append [] ys h = refl
after_word-append (x ∷ xs) ys h = rw (h.0, after_word-append xs ys h.1) refl

dropped : (xs : Str) → All (λ c. is_comma c ≡ false) xs → pop_back is_comma (xs ++ b',' ∷ []) ≡ xs
unfolding pop_back
dropped [] h = refl
dropped (x ∷ xs) h =
    ap (λ rest. if is_empty rest && is_comma x then [] else x ∷ rest) (dropped xs h.1)
    ∙ (sym (
          ap (λ rest. if is_empty rest && is_comma x then [] else x ∷ rest)
            (pop_back-All is_comma xs h.1))
        ∙ pop_back-All is_comma (x ∷ xs) h)

-- A comma behind a word that starts with `c` is dropped, and nothing of a word is.
pub strip_comma-append :
    (c : ℕ) (xs : Str)
    → is_comma c ≡ false
    → All (λ c. is_comma c ≡ false) xs
    → strip_comma (c ∷ (xs ++ b',' ∷ [])) ≡ c ∷ xs
unfolding strip_comma pop_front
strip_comma-append c xs hc h =
    ap (pop_front is_comma) (dropped (c ∷ xs) (hc, h)) ∙ if_false (is_comma c) _ _ hc

pub strip_comma-All :
    (c : ℕ) (xs : Str)
    → is_comma c ≡ false
    → All (λ c. is_comma c ≡ false) xs
    → strip_comma (c ∷ xs) ≡ c ∷ xs
unfolding strip_comma pop_front
strip_comma-All c xs hc h =
    ap (pop_front is_comma) (pop_back-All is_comma (c ∷ xs) (hc, h)) ∙ if_false (is_comma c) _ _ hc
