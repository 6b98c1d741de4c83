-- ===== src/Trace/Codec.antt =====
-- src/trace.cpp: reading back what the writer flushed.
use retro_vm.Prelude.{
  ℕ, zero, suc, ◌+◌, ◌*◌, ◌^◌, ◌<◌, ◌≡◌, refl, ap, ◌∙◌, arith, List, [], ◌∷◌, ◌++◌, some, length,
  take, get_elem?, All, leb, Bool-cases, inl, inr, sym, leb→le, get_elem?-past,
}
use retro_vm.Word.{IsU32}
use retro_vm.Bytes.{drop-append_past, of_le, field_at}
use retro_vm.Trace.{
  TraceFrame, opened, write_u32_le, read_u32_le, frame_bytes, frames_bytes, flush, open_trace,
  frame_of, frame_at,
}

-- The types of a frame's fields.
pub record FrameFits (f : TraceFrame) : Type 0 where
  pub cycle_fits : f.cycle < 2 ^ 64
  pub opcode_fits : f.opcode < 2 ^ 8
  pub payload_fits : IsU32 f.payload

frame_of-frame_bytes :
    (f : TraceFrame) (rest : List ℕ) → FrameFits f → frame_of (frame_bytes f ++ rest) 0 ≡ f
unfolding frame_of frame_bytes
frame_of-frame_bytes f rest h =
    let c : field_at (frame_bytes f ++ rest) 0 8 ≡ f.cycle = omega arith in
    let o : field_at (frame_bytes f ++ rest) (0 + 8) 1 ≡ f.opcode = omega arith in
    let p : field_at (frame_bytes f ++ rest) (0 + 12) 4 ≡ f.payload = omega arith in
    λ i. record { cycle = c i; opcode = o i; payload = p i }

-- A frame behind `xs` is read at its own offset plus the length of `xs`.
frame_of-append :
    (j k : ℕ) (xs ys : List ℕ) → j ≡ length xs + k → frame_of (xs ++ ys) j ≡ frame_of ys k
unfolding frame_of
frame_of-append j k xs ys e =
    let c = drop-append_past j k xs ys e in
    let o = drop-append_past (j + 8) (k + 8) xs ys (omega arith) in
    let p = drop-append_past (j + 12) (k + 12) xs ys (omega arith) in
    λ i. record {
      cycle = of_le (take 8 (c i));
      opcode = of_le (take 1 (o i));
      payload = of_le (take 4 (p i));
    }

length-frame_bytes : (f : TraceFrame) → length (frame_bytes f) ≡ 16
unfolding frame_bytes
length-frame_bytes f = refl

-- The frame of number `i`, behind any number of bytes.
frame_of-frames_bytes :
    (fs : List TraceFrame) (i : ℕ)
    → All FrameFits fs
    → i < length fs
    → some (frame_of (frames_bytes fs) (i * 16)) ≡ get_elem? fs i
unfolding frames_bytes
frame_of-frames_bytes [] i h lt = absurd (omega arith)
frame_of-frames_bytes (f ∷ fs) zero h lt = ap some (frame_of-frame_bytes f (frames_bytes fs) h.0)
frame_of-frames_bytes (f ∷ fs) (suc i) h lt =
    ap some (
      frame_of-append (suc i * 16) (i * 16) (frame_bytes f) (frames_bytes fs)
        (omega (arith, length-frame_bytes f)))
    ∙ frame_of-frames_bytes fs i h.1 (omega arith)

length-frames_bytes : (fs : List TraceFrame) → length (frames_bytes fs) ≡ length fs * 16
unfolding frames_bytes frame_bytes
length-frames_bytes [] = refl
length-frames_bytes (f ∷ fs) = omega (arith, length-frames_bytes fs)

pub length-flush : (fs : List TraceFrame) → length (flush fs) ≡ 16 + length fs * 16
unfolding flush write_u32_le
length-flush fs = omega (arith, length-frames_bytes fs)

-- A flushed trace opens with the number of its frames.
pub open_trace-flush :
    (fs : List TraceFrame)
    → open_trace (flush fs)
      ≡ opened (record { mapped = flush fs; frame_count = length fs; version = 1 })
unfolding open_trace flush write_u32_le read_u32_le
open_trace-flush fs = ground (arith, length-frames_bytes fs)

abbrev header : List ℕ
header = 82 ∷ 86 ∷ 77 ∷ 84 ∷ 82 ∷ 65 ∷ 67 ∷ 69 ∷ 1 ∷ 0 ∷ 0 ∷ 0 ∷ 0 ∷ 0 ∷ 0 ∷ 0 ∷ []

-- Every frame of a flushed trace reads back as it was appended, if its fields fit their widths, and
-- there is no frame beyond them.
pub frame_at-flush :
    (fs : List TraceFrame) (i : ℕ)
    → All FrameFits fs
    → frame_at (record { mapped = flush fs; frame_count = length fs; version = 1 }) i
      ≡ get_elem? fs i
unfolding frame_at flush write_u32_le
frame_at-flush fs i h = elim (Bool-cases (leb (length fs) i)) [
  | inl past ↦ rw past (sym (get_elem?-past fs i (leb→le _ _ past)))
  | inr inside ↦ rw inside (
      ap some (frame_of-append (16 + i * 16) (i * 16) header (frames_bytes fs) refl)
      ∙ frame_of-frames_bytes fs i h (ground arith))
]
