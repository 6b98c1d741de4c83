-- ===== src/Text/Printed.antt =====
-- The numbers that `printf` prints for `%u` and `%x`, with zeros in front for a width.
use retro_vm.Prelude.{
  ℕ, zero, suc, ◌+◌, ◌-◌, ◌/◌, ◌%◌, [], ◌∷◌, ◌++◌, ltb, length, replicate, if◌then◌else◌,
}
use retro_vm.Text.{Str}

abbrev pub digit_char : ℕ → ℕ
digit_char d = if ltb d 10 then 48 + d else 87 + d

-- The digits of `n` before `out`, on fuel.
unfoldable pub put_digits : ℕ → ℕ → ℕ → Str → Str
put_digits zero base n out = out
put_digits (suc fuel) base n out =
    let longer = put_digits fuel base (n / base) (digit_char (n % base) ∷ out) in
    if ltb n base then digit_char (n % base) ∷ out else longer

-- A 32-bit number has at most 32 digits in any base.
unfoldable pub printed : ℕ → ℕ → Str
unfolding put_digits
printed base n = put_digits 32 base n []

abbrev pub padded : ℕ → Str → Str
padded width s = replicate (width - length s) b'0' ++ s
