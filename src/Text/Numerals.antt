-- ===== src/Text/Numerals.antt =====
-- The C library's `strtoull` in the bases that src/main.cpp uses, and text literals as bytes.
use Prim.Native.String.{String}
use Prim.Native.Char.{code}
use retro_vm.Prelude.{
  ℕ, ◌-◌, ◌^◌, ◌%◌, Bool, ◌&&◌, ◌||◌, [], ◌∷◌, Option, none, some, leb, ◌==◌, if◌then◌else◌,
}
use retro_vm.Text.{Str, is_space, pop_front, digit_of, scan, signed}

-- The bytes of a text literal.
abbrev pub codes : String → Str
codes String.[] = []
codes (String.◌∷◌ c s) = code c ∷ codes s

-- `0x` before a hexadecimal digit, which `strtoull` passes over in base 16.
abbrev pub after_prefix : Str → Str
after_prefix (z ∷ x ∷ h ∷ cs) =
    if z == b'0' && (x == b'x' || x == b'X')
    then elim (digit_of 16 h) [ none ↦ z ∷ x ∷ h ∷ cs | some d ↦ h ∷ cs ]
    else z ∷ x ∷ h ∷ cs
after_prefix s = s

-- The value of `strtoull`, clamped and negated in 64 bits.
abbrev pub as_u64 : Bool → ℕ → ℕ
as_u64 minus v = if leb (2 ^ 64) v then 2 ^ 64 - 1 else if minus then (2 ^ 64 - v) % 2 ^ 64 else v

-- `strtoull(s, &end, base)` in base 10 or 16: the value and what `end` points to; `none` when there
-- is no digit, so that `end` is `s`.
unfoldable pub strtoull : ℕ → Str → Option (ℕ × Str)
strtoull base s =
    let (minus, t) = signed (pop_front is_space s) in
    let u = if base == 16 then after_prefix t else t in
    let (v, rest) = scan base 0 u in
    elim u [
      | [] ↦ none
      | c ∷ cs ↦ elim (digit_of base c) [ none ↦ none | some d ↦ some (as_u64 minus v, rest) ]
    ]
