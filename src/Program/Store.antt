-- ===== src/Program/Store.antt =====
-- src/main.cpp: the files that the commands read and write. A file system is a function from a path
-- to the bytes of its file; whether a path can be opened for writing is a parameter.
use retro_vm.Prelude.{ℕ, suc, Bool, List, [], ◌∷◌, ◌++◌, Option, some, take, if◌then◌else◌}
use retro_vm.Word.{u32}
use retro_vm.Text.{Str}
use retro_vm.Text.Numerals.{codes}
use retro_vm.Text.Printed.{printed, padded}
use retro_vm.Trace.{same_bytes}

abbrev pub Files : Type 0
Files = Str → Option (List ℕ)

abbrev pub write_file : Str → List ℕ → Files → Files
write_file path bytes files p = if same_bytes p path then some bytes else files p

-- `bin + ".trace"`.
abbrev pub trace_path : Str → Str
trace_path bin = bin ++ codes ".trace"

-- `snprintf(path, 512, "%s.snap.%04u", bin, idx)`.
unfoldable pub snap_path : Str → ℕ → Str
snap_path bin idx = take 511 (bin ++ (codes ".snap." ++ padded 4 (printed 10 idx)))

module _ (can_write : Str → Bool) where
  abbrev pub try_write : Str → List ℕ → Files → Files
  try_write path bytes files = if can_write path then write_file path bytes files else files

  -- Files in the order in which they are written; one that does not open is left out.
  unfoldable pub write_each : List (Str × List ℕ) → Files → Files
  write_each [] files = files
  write_each ((path, bytes) ∷ more) files = write_each more (try_write path bytes files)

  -- The snapshots from number `idx` on, where the counter has 32 bits.
  unfoldable pub write_snapshots : Str → ℕ → List (List ℕ) → Files → Files
  unfolding snap_path
  write_snapshots bin idx [] files = files
  write_snapshots bin idx (bytes ∷ more) files =
      write_snapshots bin (u32 (suc idx)) more (try_write (snap_path bin idx) bytes files)
