-- ===== src/Trace.antt =====
-- include/retrovm/trace.hpp and src/trace.cpp: the frames of a trace, the writer, the file format
-- and the reader. A file is the sequence of its bytes; the system calls that open, map and sync it
-- are not modelled.
pub mod Codec
use retro_vm.Prelude.{
  ℕ, ◌+◌, ◌-◌, ◌*◌, ◌/◌, ◌%◌, ◌^◌, Bool, List, [], ◌∷◌, ◌++◌, Option, none, some, bit_and, bit_or,
  ltb, leb, ◌==◌, length, take, drop, get_or, if◌then◌else◌, ◌≡◌,
}
use retro_vm.Word.{u8, shl, shr}
use retro_vm.Bytes.{le_bytes, field_at}

pub record TraceFrame : Type 0 where
  pub cycle : ℕ
  pub opcode : ℕ
  pub payload : ℕ

-- "RVMTRACE".
abbrev pub trace_magic : List ℕ
trace_magic = b'R' ∷ b'V' ∷ b'M' ∷ b'T' ∷ b'R' ∷ b'A' ∷ b'C' ∷ b'E' ∷ []

unfoldable pub write_u32_le : ℕ → List ℕ
write_u32_le v =
    u8 (bit_and (shr v 0) 0xFF)
    ∷ u8 (bit_and (shr v 8) 0xFF)
    ∷ u8 (bit_and (shr v 16) 0xFF)
    ∷ u8 (bit_and (shr v 24) 0xFF)
    ∷ []

-- Four bytes from offset `i`, the highest first: `r = (r << 8) | p[i]`.
unfoldable pub read_u32_le : List ℕ → ℕ → ℕ
read_u32_le bytes i =
    let r3 = bit_or (shl 0 8) (get_or bytes (i + 3) 0) in
    let r2 = bit_or (shl r3 8) (get_or bytes (i + 2) 0) in
    let r1 = bit_or (shl r2 8) (get_or bytes (i + 1) 0) in bit_or (shl r1 8) (get_or bytes i 0)

-- `TraceWriter::append`.
unfoldable pub append : List TraceFrame → ℕ → ℕ → ℕ → List TraceFrame
append frames cycle op v = frames ++ record { cycle = cycle; opcode = op; payload = v } ∷ []

-- The 16 bytes of a frame. The padding is zero, since `append` value-initialises the frame.
unfoldable pub frame_bytes : TraceFrame → List ℕ
frame_bytes f = le_bytes 8 f.cycle ++ (u8 f.opcode ∷ 0 ∷ 0 ∷ 0 ∷ le_bytes 4 f.payload)

unfoldable pub frames_bytes : List TraceFrame → List ℕ
frames_bytes [] = []
frames_bytes (f ∷ fs) = frame_bytes f ++ frames_bytes fs

-- `TraceWriter::flush_to_file`.
unfoldable pub flush : List TraceFrame → List ℕ
flush frames = trace_magic ++ (write_u32_le 1 ++ (write_u32_le 0 ++ frames_bytes frames))

pub data TraceError : Type 0 where
  empty_file too_small bad_magic not_integer : TraceError
  bad_version : ℕ → TraceError

pub record TraceReader : Type 0 where
  pub mapped : List ℕ
  pub frame_count : ℕ
  pub version : ℕ

pub data Opened : Type 0 where
  opened : TraceReader → Opened
  refused : TraceError → Opened

-- `memcmp(a, b, n) == 0`.
abbrev pub same_bytes : List ℕ → List ℕ → Bool
same_bytes [] [] = Bool.true
same_bytes [] (y ∷ ys) = Bool.false
same_bytes (x ∷ xs) [] = Bool.false
same_bytes (x ∷ xs) (y ∷ ys) = if x == y then same_bytes xs ys else Bool.false

-- The constructor `TraceReader::TraceReader`, past the mapping of the file.
unfoldable pub open_trace : List ℕ → Opened
open_trace bytes =
    let size = length bytes in
    let version = read_u32_le bytes 8 in
    let frames_size = size - 16 in
    if size == 0
    then refused empty_file
    else if ltb size 16
    then refused too_small
    else if same_bytes (take 8 bytes) trace_magic
    then (if version == 1
        then (if size == 16
            then opened (record { mapped = bytes; frame_count = 0; version = version })
            else if frames_size % 16 == 0
            then opened
                (record { mapped = bytes; frame_count = frames_size / 16; version = version })
            else refused not_integer)
        else refused (bad_version version))
    else refused bad_magic

-- The frame in the 16 bytes from offset `i`.
unfoldable pub frame_of : List ℕ → ℕ → TraceFrame
frame_of bytes i = record {
  cycle = field_at bytes i 8;
  opcode = field_at bytes (i + 8) 1;
  payload = field_at bytes (i + 12) 4;
}

unfoldable pub frame_at : TraceReader → ℕ → Option TraceFrame
frame_at r i = if leb r.frame_count i then none else some (frame_of r.mapped (16 + i * 16))
