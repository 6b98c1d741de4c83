-- ===== src/Isa.antt =====
-- include/retrovm/opcodes.hpp: the opcodes, the codec of the 32-bit instruction word, the halt
-- reasons and the flag bits. `HaltReason` is an enum over `uint32_t`, and a checkpoint file may
-- hold any value of it, so it is a number here.
pub mod Codec
use retro_vm.Prelude.{
  ℕ, ◌*◌, ◌^◌, bit_and, bit_or, ◌||◌, Bool, true, false, List, [], ◌∷◌, Option, get_elem?,
  if◌then◌else◌,
}
use retro_vm.Word.{shl, shr}

pub data Opcode : Type 0 where
  op_halt op_load op_store op_add op_sub op_mul op_div op_jump op_jnz op_in op_rand op_li : Opcode

abbrev pub op_code : Opcode → ℕ
op_code op_halt = 0x00
op_code op_load = 0x01
op_code op_store = 0x02
op_code op_add = 0x03
op_code op_sub = 0x04
op_code op_mul = 0x05
op_code op_div = 0x06
op_code op_jump = 0x07
op_code op_jnz = 0x08
op_code op_in = 0x09
op_code op_rand = 0x0A
op_code op_li = 0x0B

-- The order of the enumerators, which is that of the dispatch table.
abbrev pub opcodes : List Opcode
opcodes =
    op_halt ∷ op_load ∷ op_store ∷ op_add ∷ op_sub ∷ op_mul ∷ op_div ∷ op_jump ∷ op_jnz ∷ op_in
    ∷ op_rand ∷ op_li ∷ []

-- `none` from `OP_COUNT` on.
unfoldable pub opcode? : ℕ → Option Opcode
opcode? op = get_elem? opcodes op

abbrev pub HaltReason : Type 0
HaltReason = ℕ

abbrev pub halt_running : HaltReason
halt_running = 0

abbrev pub halt_normal : HaltReason
halt_normal = 1

abbrev pub halt_div_zero : HaltReason
halt_div_zero = 2

abbrev pub halt_unknown_op : HaltReason
halt_unknown_op = 3

abbrev pub halt_trace_eof : HaltReason
halt_trace_eof = 4

abbrev pub halt_diverged : HaltReason
halt_diverged = 5

abbrev pub halt_checkpoint : HaltReason
halt_checkpoint = 6

abbrev pub halt_breakpoint : HaltReason
halt_breakpoint = 7

abbrev pub halt_step : HaltReason
halt_step = 8

abbrev pub flag_zf : ℕ
flag_zf = 1

abbrev pub flag_cf : ℕ
flag_cf = 2

abbrev pub flag_sf : ℕ
flag_sf = 4

-- `f = 0; if (z) f |= FLAG_ZF; if (c) f |= FLAG_CF; if (s) f |= FLAG_SF;`
unfoldable pub flags_of : Bool → Bool → Bool → ℕ
flags_of z c s =
    bit_or (bit_or (bit_or 0 (if z then flag_zf else 0)) (if c then flag_cf else 0))
      (if s then flag_sf else 0)

unfoldable pub encode : ℕ → ℕ → ℕ → ℕ → ℕ
encode op dst src imm =
    bit_or
      (bit_or (bit_or (shl (bit_and op 0x3F) 26) (shl (bit_and dst 0x07) 23))
        (shl (bit_and src 0x07) 20))
      (bit_and imm 0xFFFFF)

unfoldable pub decode_op : ℕ → ℕ
decode_op i = bit_and (shr i 26) 0x3F

unfoldable pub decode_dst : ℕ → ℕ
decode_dst i = bit_and (shr i 23) 0x07

unfoldable pub decode_src : ℕ → ℕ
decode_src i = bit_and (shr i 20) 0x07

unfoldable pub decode_imm : ℕ → ℕ
decode_imm i = bit_and i 0xFFFFF
