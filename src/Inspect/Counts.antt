-- ===== src/Inspect/Counts.antt =====
-- src/main.cpp, `cmd_inspect_trace`: the aggregates of a trace that was recorded.
use retro_vm.Prelude.{
  ℕ, suc, ◌+◌, ◌*◌, ◌≡◌, inl, inr, refl, ap, ◌∙◌, arith, List, [], ◌∷◌, Option, none, some, length,
  get_elem?, All,
}
use retro_vm.Word.{IsU8}
use retro_vm.Isa.{HaltReason}
use retro_vm.Machine.{Vm}
use retro_vm.Trace.{TraceFrame, TraceReader, opened, refused, frame_at, flush}
use retro_vm.Trace.Codec.{open_trace-flush, frame_at-flush, length-flush}
use retro_vm.Session.{Source, recorded, cmd_record}
use retro_vm.Session.Growth.{SourceFits, FromInput, All-FrameFits}
use retro_vm.Session.Replay.{recorded_frames}
use retro_vm.Inspect.{
  Totals, no_frames, count_frame, count_frames, Summary, summary_shown, cannot_open, summary, shown,
  cmd_inspect_trace,
}

-- The frames one after the other, from number `i` on.
count_all : ℕ → List TraceFrame → Totals → Totals
count_all i [] t = t
count_all i (f ∷ fs) t = count_all (suc i) fs (count_frame i f t)

count_frames-list :
    (frame : ℕ → Option TraceFrame) (fs : List TraceFrame) (i : ℕ) (t : Totals)
    → ((j k : ℕ) → k ≡ i + j → frame k ≡ get_elem? fs j)
    → count_frames frame (length fs) i t ≡ count_all i fs t
unfolding count_frames count_all
count_frames-list frame [] i t h = refl
count_frames-list frame (f ∷ fs) i t h =
    (λ p. elim (h 0 i (omega arith) p) [
      | none ↦ t
      | some f ↦ count_frames frame (length fs) (suc i) (count_frame i f t)
    ])
    ∙ count_frames-list frame fs (suc i) (count_frame i f t) (λ j k e. h (suc j) k (omega arith))

-- How the three counts grow over frames of input instructions.
count_frame-FromInput :
    (i : ℕ) (f : TraceFrame) (t : Totals)
    → FromInput f
    → ((count_frame i f t).op_other_count ≡ t.op_other_count)
      × ((count_frame i f t).op_in_count + (count_frame i f t).op_rand_count
          ≡ suc (t.op_in_count + t.op_rand_count))
unfolding count_frame
count_frame-FromInput i f t (h, inl e) = ground arith
count_frame-FromInput i f t (h, inr e) = ground arith

count_all-FromInput :
    (i : ℕ) (fs : List TraceFrame) (t : Totals)
    → All FromInput fs
    → ((count_all i fs t).op_other_count ≡ t.op_other_count)
      × ((count_all i fs t).op_in_count + (count_all i fs t).op_rand_count
          ≡ length fs + (t.op_in_count + t.op_rand_count))
unfolding count_all
count_all-FromInput i [] t h = omega arith
count_all-FromInput i (f ∷ fs) t h =
    omega (
      arith,
      count_frame-FromInput i f t h.0,
      count_all-FromInput (suc i) fs (count_frame i f t) h.1,
    )

reader_of : List TraceFrame → TraceReader
reader_of fs = record { mapped = flush fs; frame_count = length fs; version = 1 }

shown-flush :
    (fs : List TraceFrame)
    → cmd_inspect_trace (flush fs) none ≡ summary_shown (summary (reader_of fs))
unfolding cmd_inspect_trace reader_of shown
shown-flush fs = λ i. elim (open_trace-flush fs i) [
  | refused e ↦ cannot_open e
  | opened reader ↦ shown reader none
]

-- What the summary of a recorded trace says.
pub record IsRecording (s : Summary) : Type 0 where
  pub no_other : s.totals.op_other_count ≡ 0
  pub all_counted : s.totals.op_in_count + s.totals.op_rand_count ≡ s.frame_count
  pub size : s.size_bytes ≡ 16 + s.frame_count * 16

summary-IsRecording :
    (fs : List TraceFrame) → All FromInput fs → IsRecording (summary (reader_of fs))
unfolding summary reader_of
summary-IsRecording fs h =
    let frames : (j k : ℕ) → k ≡ 0 + j → frame_at (reader_of fs) k ≡ get_elem? fs j =
      λ j k e. frame_at-flush fs k (All-FrameFits fs h) ∙ ap (get_elem? fs) (omega arith) in
    let totals = count_frames-list (frame_at (reader_of fs)) fs 0 no_frames frames in
    let counts = count_all-FromInput 0 fs no_frames h in
    record {
      no_other = ap (λ t. t.op_other_count) totals ∙ counts.0;
      all_counted = ap (λ t. t.op_in_count + t.op_rand_count) totals ∙ omega (arith, counts.1);
      size = length-flush fs;
    }

module _ {S : Type 0} (src : Source S) (fits : SourceFits src) where
  -- The summary of a trace that a recording of a program of bytes leaves counts no frame of another
  -- opcode than IN and RAND, counts each of its frames, and has a size of 16 bytes for the header
  -- and for each frame, if the input sources deliver 32-bit values.
  pub cmd_inspect_trace-cmd_record :
      (fuel : ℕ) (bin : List ℕ) (s : S) (r : HaltReason) (vm : Vm) (trace : List ℕ)
      → All IsU8 bin
      → cmd_record src fuel bin s ≡ recorded r vm trace
      → (shows : Summary) × (cmd_inspect_trace trace none ≡ summary_shown shows) × IsRecording shows
  cmd_inspect_trace-cmd_record fuel bin s r vm trace hb e =
      let (fs, bytes, from) = recorded_frames src fits fuel bin s r vm trace hb e in
      (
        summary (reader_of fs),
        ap (λ t. cmd_inspect_trace t none) bytes ∙ shown-flush fs,
        summary-IsRecording fs from,
      )
