-- ===== src/Disassembler/Operands.antt =====
-- src/main.cpp and src/assembler.cpp: the printed operands, parsed.
use mathlib.Core.Path.{subst}
use retro_vm.Prelude.{
  ℕ, zero, suc, ◌-◌, ◌^◌, ◌<◌, ◌≡◌, refl, sym, ap, ◌∙◌, arith, [], ◌∷◌, none, some, ltb, leb, All,
  if◌then◌else◌,
}
use retro_vm.Text.{
  digit_of, scan, pop_front, atoi, prefixed, digits, strtoul, parse_reg, parse_imm, ends,
}
use retro_vm.Text.Printed.{digit_char, put_digits, printed}
use retro_vm.Text.Digits.{decimal-IsBase, hex-IsBase, scan-printed, printed-All, printed-cons}
use retro_vm.Disassembler.{reg_text, imm_text}
use retro_vm.Disassembler.Lines.{Plain}

digit_char-Plain : (d : ℕ) → d < 16 → Plain (digit_char d)
digit_char-Plain d h = ground arith

pub decimal-Plain : (n : ℕ) → All Plain (printed 10 n)
decimal-Plain n = printed-All 10 decimal-IsBase Plain (λ d h. digit_char-Plain d (omega arith)) n

pub hex-Plain : (n : ℕ) → All Plain (b'x' ∷ printed 16 n)
hex-Plain n = ((refl, refl, refl), printed-All 16 hex-IsBase Plain digit_char-Plain n)

pub parse_reg-reg_text : (r : ℕ) → r < 8 → parse_reg (reg_text r) ≡ some r
unfolding parse_reg printed put_digits atoi scan pop_front
parse_reg-reg_text zero h = refl
parse_reg-reg_text (suc zero) h = refl
parse_reg-reg_text (suc (suc zero)) h = refl
parse_reg-reg_text (suc (suc (suc zero))) h = refl
parse_reg-reg_text (suc (suc (suc (suc zero)))) h = refl
parse_reg-reg_text (suc (suc (suc (suc (suc zero))))) h = refl
parse_reg-reg_text (suc (suc (suc (suc (suc (suc zero)))))) h = refl
parse_reg-reg_text (suc (suc (suc (suc (suc (suc (suc zero))))))) h = refl
parse_reg-reg_text (suc (suc (suc (suc (suc (suc (suc (suc r)))))))) h = absurd (omega arith)

IsHex : ℕ → Type 0
IsHex c = (d : ℕ) × (digit_of 16 c ≡ some d)

digit_char-IsHex : (d : ℕ) → d < 16 → IsHex (digit_char d)
unfolding IsHex
digit_char-IsHex d h = (d, ground arith)

-- The base is told from the digits by the `x`.
prefixed-printed : (n : ℕ) → n < 2 ^ 20 → prefixed (b'x' ∷ printed 16 n) ≡ (n, [])
unfolding prefixed IsHex
prefixed-printed n small =
    let (h, t, e) = printed-cons 16 n in
    let all = subst (All IsHex) e (printed-All 16 hex-IsBase IsHex digit_char-IsHex n) in
    ap (λ s. prefixed (b'x' ∷ s)) e
    ∙ ((λ i. elim (all.0.1 i) [ none ↦ scan 8 0 (b'x' ∷ h ∷ t) | some d ↦ scan 16 0 (h ∷ t) ])
        ∙ (ap (scan 16 0) (sym e) ∙ scan-printed 16 hex-IsBase n (omega arith)))

unclamped : (n : ℕ) → n < 2 ^ 20 → (if leb (2 ^ 64) n then 2 ^ 64 - 1 else n) ≡ n
unclamped n h = ground arith

strtoul-imm_text : (n : ℕ) → n < 2 ^ 20 → strtoul (imm_text n) ≡ (n, [])
unfolding strtoul digits pop_front
strtoul-imm_text n h =
    ap (λ r. (if leb (2 ^ 64) r.0 then 2 ^ 64 - 1 else r.0, r.1)) (prefixed-printed n h)
    ∙ ap (λ v. (v, [])) (unclamped n h)

in_range : (n : ℕ) → n < 2 ^ 20 → (if ltb 0xFFFFF n then none else some n) ≡ some n
in_range n h = ground arith

pub parse_imm-imm_text : (n : ℕ) → n < 2 ^ 20 → parse_imm (imm_text n) ≡ some n
unfolding parse_imm
parse_imm-imm_text n h =
    ap (λ r. if ends r.1 then (if ltb 0xFFFFF r.0 then none else some r.0) else none)
      (strtoul-imm_text n h)
    ∙ in_range n h
