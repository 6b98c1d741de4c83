-- ===== src/Text.antt =====
-- src/assembler.cpp: the helpers on strings, and what they call of the C library. A string is the
-- sequence of its bytes. `atoi` of a number that no `int` holds is undefined in C; here it is the
-- number itself, which no register has.
pub mod Numerals
pub mod Printed
pub mod Digits
pub mod Splits
use retro_vm.Prelude.{
  ℕ, ◌+◌, ◌-◌, ◌*◌, ◌^◌, ◌%◌, Bool, true, false, ◌&&◌, ◌||◌, List, [], ◌∷◌, Option, none, some, ltb,
  leb, ◌==◌, if◌then◌else◌,
}

abbrev pub Str : Type 0
Str = List ℕ

-- `isspace` and `toupper` of the C locale.
abbrev pub is_space : ℕ → Bool
is_space c = c == 32 || (leb 9 c && leb c 13)

abbrev pub to_upper : ℕ → ℕ
to_upper c = if leb 97 c && leb c 122 then c - 32 else c

abbrev pub is_empty : Str → Bool
is_empty [] = true
is_empty (c ∷ cs) = false

-- The loops that drop characters at the back and at the front.
unfoldable pub pop_back : (ℕ → Bool) → Str → Str
pop_back p [] = []
pop_back p (c ∷ cs) = let rest = pop_back p cs in if is_empty rest && p c then [] else c ∷ rest

unfoldable pub pop_front : (ℕ → Bool) → Str → Str
pop_front p [] = []
pop_front p (c ∷ cs) = let rest = pop_front p cs in if p c then rest else c ∷ cs

abbrev pub is_comma : ℕ → Bool
is_comma c = c == b',' || is_space c

unfoldable pub strip_comma : Str → Str
strip_comma s = pop_front is_comma (pop_back is_comma s)

unfoldable pub trim : Str → Str
trim s = pop_front is_space (pop_back is_space s)

unfoldable pub strip_comment : Str → Str
strip_comment [] = []
strip_comment (c ∷ cs) = let rest = strip_comment cs in if c == b';' then [] else c ∷ rest

-- `iss >> word`: the word, and what follows it.
unfoldable pub word_of : Str → Str
word_of [] = []
word_of (c ∷ cs) = let rest = word_of cs in if is_space c then [] else c ∷ rest

unfoldable pub after_word : Str → Str
after_word [] = []
after_word (c ∷ cs) = let rest = after_word cs in if is_space c then c ∷ cs else rest

-- The lines that `getline` delivers.
unfoldable pub split_lines : Str → List Str
split_lines [] = []
split_lines (c ∷ cs) =
    let rest = split_lines cs in
    if c == 10 then [] ∷ rest else elim rest [ [] ↦ (c ∷ []) ∷ [] | l ∷ ls ↦ (c ∷ l) ∷ ls ]

abbrev pub digit_of : ℕ → ℕ → Option ℕ
digit_of base c =
    let d =
      if leb 48 c && leb c 57
      then c - 48
      else if leb 97 c && leb c 102
      then c - 87
      else if leb 65 c && leb c 70
      then c - 55
      else base in
    if ltb d base then some d else none

-- The longest run of digits, after `acc`, and the rest.
unfoldable pub scan : ℕ → ℕ → Str → ℕ × Str
scan base acc [] = (acc, [])
scan base acc (c ∷ cs) = elim (digit_of base c) [
  | none ↦ (acc, c ∷ cs)
  | some d ↦ scan base (acc * base + d) cs
]

-- A sign, where there is one: whether it is a minus, and the rest.
abbrev pub signed : Str → Bool × Str
signed [] = (false, [])
signed (c ∷ cs) =
    if c == b'-' then (true, cs) else if c == b'+' then (false, cs) else (false, c ∷ cs)

-- `atoi`, where a negative number is `none`.
unfoldable pub atoi : Str → Option ℕ
atoi s =
    let (minus, t) = signed (pop_front is_space s) in
    let (n, rest) = scan 10 0 t in if minus && ltb 0 n then none else some n

-- The digits of `strtoul` in base 0: after `0x` before a hexadecimal digit, after `0`, or decimal.
unfoldable pub prefixed : Str → ℕ × Str
prefixed [] = (0, [])
prefixed (x ∷ []) = scan 8 0 (x ∷ [])
prefixed (x ∷ h ∷ cs) = elim (digit_of 16 h) [
  | none ↦ scan 8 0 (x ∷ h ∷ cs)
  | some d ↦ if x == b'x' || x == b'X' then scan 16 0 (h ∷ cs) else scan 8 0 (x ∷ h ∷ cs)
]

unfoldable pub digits : Str → Option (ℕ × Str)
digits [] = none
digits (c ∷ cs) =
    if c == b'0'
    then some (prefixed cs)
    else if leb 48 c && leb c 57
    then some (scan 10 0 (c ∷ cs))
    else none

-- `strtoul(s, &end, 0)`: the value, clamped and negated in 64 bits, and what `end` points to. With
-- no digits the value is 0 and `end` is `s`.
unfoldable pub strtoul : Str → ℕ × Str
strtoul s =
    let (minus, t) = signed (pop_front is_space s) in
    elim (digits t) [
      | none ↦ (0, s)
      | some (v, rest) ↦
          (if leb (2 ^ 64) v then 2 ^ 64 - 1 else if minus then (2 ^ 64 - v) % 2 ^ 64 else v, rest)
    ]

-- `*end == '\0'`.
abbrev pub ends : Str → Bool
ends [] = true
ends (c ∷ cs) = c == 0

unfoldable pub parse_reg : Str → Option ℕ
parse_reg [] = none
parse_reg (c ∷ []) = none
parse_reg (c ∷ d ∷ cs) = elim (atoi (d ∷ cs)) [
  | none ↦ none
  | some n ↦ if to_upper c == b'R' then (if leb n 7 then some n else none) else none
]

-- `none` stands for the value `~0u`, which reports an error.
unfoldable pub parse_imm : Str → Option ℕ
parse_imm tok =
    let (v, rest) = strtoul tok in
    if is_empty tok
    then none
    else if ends rest
    then (if ltb 0xFFFFF v then none else some v)
    else none
