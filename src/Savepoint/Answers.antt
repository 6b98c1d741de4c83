-- ===== src/Savepoint/Answers.antt =====
-- src/main.cpp, `consume` in `cmd_save`: on a trace of bytes it answers with 32-bit values.
use mathlib.Core.Path.{subst}
use retro_vm.Prelude.{
  Option-cases, ◌&&◌, ℕ, zero, suc, ◌+◌, ◌*◌, ◌^◌, ◌<◌, arith, Bool, true, false, List, [], ◌∷◌,
  Option, none, some, inl, inr, leb, ◌==◌, if◌then◌else◌, All, take, drop,
}
use retro_vm.Word.{IsU8, IsU32}
use retro_vm.Bytes.{of_le}
use retro_vm.Hooks.{Answer, value, thrown}
use retro_vm.Dispatch.Validity.{HooksFit, AnswerFits}
use retro_vm.Trace.{TraceFrame, TraceReader, frame_of, frame_at}
use retro_vm.Session.{consume}
use retro_vm.Savepoint.{Saving, on_cursor, save_hooks}

All-drop : (n : ℕ) (xs : List ℕ) → All IsU8 xs → All IsU8 (drop n xs)
All-drop zero xs h = h
All-drop (suc n) [] h = tt
All-drop (suc n) (x ∷ xs) h = All-drop n xs h.1

of_le-lt : (xs : List ℕ) → All IsU8 xs → of_le (take 4 xs) < 2 ^ 32
of_le-lt [] h = omega arith
of_le-lt (a ∷ []) h = omega arith
of_le-lt (a ∷ b ∷ []) h = omega arith
of_le-lt (a ∷ b ∷ c ∷ []) h = omega arith
of_le-lt (a ∷ b ∷ c ∷ d ∷ xs) h = omega arith

payload-lt : (bytes : List ℕ) (i : ℕ) → All IsU8 bytes → (frame_of bytes i).payload < 2 ^ 32
unfolding frame_of
payload-lt bytes i h = of_le-lt (drop (i + 12) bytes) (All-drop (i + 12) bytes h)

-- A frame of a file of bytes, where there is one.
abbrev PayloadFits : Option TraceFrame → Type 0
PayloadFits none = Unit
PayloadFits (some f) = IsU32 f.payload

frame_at-fits :
    (reader : TraceReader) (i : ℕ) → All IsU8 reader.mapped → PayloadFits (frame_at reader i)
unfolding frame_at
frame_at-fits reader i h = go (leb reader.frame_count i)
  where
    go : (b : Bool) → PayloadFits (if b then none else some (frame_of reader.mapped (16 + i * 16)))
    go true = tt
    go false = payload-lt reader.mapped (16 + i * 16) h

if-fits :
    (b : Bool) (x y : Answer ℕ) → AnswerFits x → AnswerFits y → AnswerFits (if b then x else y)
if-fits true x y hx hy = hx
if-fits false x y hx hy = hy

consume-fits :
    (frame : ℕ → Option TraceFrame) (op cycle cursor : ℕ)
    → PayloadFits (frame cursor)
    → AnswerFits (consume frame op cycle cursor)
unfolding consume
consume-fits frame op cycle cursor h = elim (Option-cases (frame cursor)) [
  | inl e ↦ rw (AnswerFits, e) tt
  | inr (f, e) ↦
      rw (AnswerFits, e)
        (if-fits (f.cycle == cycle && f.opcode == op) _ _ (subst PayloadFits e h) tt)
]

-- Moving the shared cursor keeps the value.
on_cursor-fits : (w : Saving) (a : Answer ℕ) → AnswerFits a → AnswerFits (on_cursor w a)
on_cursor-fits w (value x c) h = h
on_cursor-fits w (thrown e c) h = tt

pub save_hooks-HooksFit :
    (reader : TraceReader) → All IsU8 reader.mapped → HooksFit (save_hooks (frame_at reader))
unfolding save_hooks
save_hooks-HooksFit reader h = (
  λ cycle w.
      on_cursor-fits w _
        (consume-fits (frame_at reader) _ cycle w.cursor (frame_at-fits reader _ h)),
  λ cycle w.
      on_cursor-fits w _
        (consume-fits (frame_at reader) _ cycle w.cursor (frame_at-fits reader _ h)),
)
