-- ===== src/Checkpoint.antt =====
-- include/retrovm/checkpoint.hpp and src/checkpoint.cpp: the `.state` file. A file is the sequence
-- of its bytes. What the calls of stdio can fail at (open, write, close) is not modelled, but for
-- the short read, which the length of the file decides.
pub mod Codec
pub mod Resave
use retro_vm.Prelude.{
  ℕ, zero, suc, ◌+◌, List, [], ◌∷◌, ◌++◌, take, length, ltb, ◌==◌, if◌then◌else◌,
}
use retro_vm.Isa.{HaltReason}
use retro_vm.Bytes.{le_bytes, field_at}
use retro_vm.Trace.{same_bytes}

pub record CheckpointState : Type 0 where
  pub frame_index : ℕ
  pub halted : HaltReason
  pub flags : ℕ
  pub regs : List ℕ
  pub pc : ℕ
  pub sp : ℕ

-- "RVMSTATE".
abbrev pub state_magic : List ℕ
state_magic = b'R' ∷ b'V' ∷ b'M' ∷ b'S' ∷ b'T' ∷ b'A' ∷ b'T' ∷ b'E' ∷ []

-- `std::uint32_t regs[8]` in memory.
unfoldable pub regs_bytes : List ℕ → List ℕ
regs_bytes [] = []
regs_bytes (r ∷ rs) = le_bytes 4 r ++ regs_bytes rs

unfoldable pub regs_at : ℕ → List ℕ → ℕ → List ℕ
regs_at zero bytes i = []
regs_at (suc n) bytes i = field_at bytes i 4 ∷ regs_at n bytes (i + 4)

-- The header of 16 bytes, which `checkpoint_save` fills.
abbrev pub header_bytes : CheckpointState → List ℕ
header_bytes s = state_magic ++ (le_bytes 4 1 ++ le_bytes 4 s.frame_index)

-- `make_body`: 48 bytes.
abbrev pub body_bytes : CheckpointState → List ℕ
body_bytes s =
    le_bytes 4 s.halted
    ++ (le_bytes 4 s.flags ++ (regs_bytes (take 8 s.regs) ++ (le_bytes 4 s.pc ++ le_bytes 4 s.sp)))

unfoldable pub checkpoint_save : CheckpointState → List ℕ
checkpoint_save s = header_bytes s ++ body_bytes s

pub data Loaded : Type 0 where
  loaded : CheckpointState → Loaded
  short_read bad_magic : Loaded
  bad_version : ℕ → Loaded

unfoldable pub checkpoint_load : List ℕ → Loaded
checkpoint_load bytes =
    let version = field_at bytes 8 4 in
    if ltb (length bytes) 64
    then short_read
    else if same_bytes (take 8 bytes) state_magic
    then (if version == 1
        then loaded (record {
          frame_index = field_at bytes 12 4;
          halted = field_at bytes 16 4;
          flags = field_at bytes 20 4;
          regs = regs_at 8 bytes 24;
          pc = field_at bytes 56 4;
          sp = field_at bytes 60 4;
        })
        else bad_version version)
    else bad_magic
