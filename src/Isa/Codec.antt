-- ===== src/Isa/Codec.antt =====
-- include/retrovm/opcodes.hpp: `encode` and the four decoders.
use retro_vm.Prelude.{ℕ, ◌+◌, ◌*◌, ◌/◌, ◌%◌, ◌^◌, ◌<◌, ◌≡◌, refl, arith, some}
use retro_vm.Bits.{bit_or-eq-add, bit_and-eq-mod}
use retro_vm.Isa.{Opcode, op_code, opcode?, encode, decode_op, decode_dst, decode_src, decode_imm}

-- The fields are read off by division.
pub decode-eq-div :
    (i : ℕ)
    → (decode_op i ≡ i / 2 ^ 26 % 2 ^ 6)
      × (decode_dst i ≡ i / 2 ^ 23 % 2 ^ 3)
      × (decode_src i ≡ i / 2 ^ 20 % 2 ^ 3)
      × (decode_imm i ≡ i % 2 ^ 20)
unfolding decode_op decode_dst decode_src decode_imm
decode-eq-div i = (
  bit_and-eq-mod 6 (i / 2 ^ 26),
  bit_and-eq-mod 3 (i / 2 ^ 23),
  bit_and-eq-mod 3 (i / 2 ^ 20),
  bit_and-eq-mod 20 i,
)

-- An instruction word is the weighted sum of its masked fields.
pub encode-eq-sum :
    (op dst src imm : ℕ)
    → encode op dst src imm
      ≡ op % 2 ^ 6 * 2 ^ 26 + dst % 2 ^ 3 * 2 ^ 23 + src % 2 ^ 3 * 2 ^ 20 + imm % 2 ^ 20
unfolding encode
encode-eq-sum op dst src imm =
    let o = op % 2 ^ 6 in
    let d = dst % 2 ^ 3 in
    let s = src % 2 ^ 3 in
    ground (
      arith,
      bit_and-eq-mod 6 op,
      bit_and-eq-mod 3 dst,
      bit_and-eq-mod 3 src,
      bit_and-eq-mod 20 imm,
      bit_or-eq-add 26 o (d * 2 ^ 23) (omega arith),
      bit_or-eq-add 23 (o * 2 ^ 3 + d) (s * 2 ^ 20) (omega arith),
      bit_or-eq-add 20 (o * 2 ^ 6 + d * 2 ^ 3 + s) (imm % 2 ^ 20) (omega arith),
    )

pub encode-lt : (op dst src imm : ℕ) → encode op dst src imm < 2 ^ 32
encode-lt op dst src imm = omega (arith, encode-eq-sum op dst src imm)

-- The decoders read back what `encode` packed, when each operand fits its field.
pub decode-encode :
    (op dst src imm : ℕ)
    → op < 2 ^ 6
    → dst < 2 ^ 3
    → src < 2 ^ 3
    → imm < 2 ^ 20
    → (decode_op (encode op dst src imm) ≡ op)
      × (decode_dst (encode op dst src imm) ≡ dst)
      × (decode_src (encode op dst src imm) ≡ src)
      × (decode_imm (encode op dst src imm) ≡ imm)
decode-encode op dst src imm ho hd hs hi =
    omega (arith, encode-eq-sum op dst src imm, decode-eq-div (encode op dst src imm))

-- Encoding the four decoded fields of a 32-bit word gives the word back.
pub encode-decode :
    (i : ℕ) → i < 2 ^ 32 → encode (decode_op i) (decode_dst i) (decode_src i) (decode_imm i) ≡ i
encode-decode i h = omega (
  arith,
  decode-eq-div i,
  encode-eq-sum (decode_op i) (decode_dst i) (decode_src i) (decode_imm i),
)

-- Every opcode is at its own place in the table.
pub opcode?-op_code : (o : Opcode) → opcode? (op_code o) ≡ some o
unfolding opcode?
opcode?-op_code Opcode.op_halt = refl
opcode?-op_code _ = refl
