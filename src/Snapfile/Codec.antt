-- ===== src/Snapfile/Codec.antt =====
-- src/main.cpp, the file of a snapshot: a reader for its layout gives back what was written.
use mathlib.Core.List.{append_assoc, append-nil}
use retro_vm.Prelude.{
  ℕ, zero, suc, ◌+◌, ◌*◌, ◌^◌, ◌<◌, ◌≡◌, refl, sym, ap, ◌∙◌, arith, List, [], ◌∷◌, ◌++◌, drop,
  length, length-append, take-length, All,
}
use retro_vm.Word.{IsU32}
use retro_vm.Bytes.{le_bytes, field_at, drop-append_past}
use retro_vm.Memory.{MemDelta}
use retro_vm.Machine.{Snapshot, IsDelta}
use retro_vm.Checkpoint.{regs_bytes, regs_at}
use retro_vm.Checkpoint.Codec.{field_at-append, regs_at-append, length-regs_bytes}
use retro_vm.Snapfile.{delta_bytes, deltas_bytes, snap_header_bytes, snapshot_bytes}

-- The entries of a file, put on a log.
abbrev read_deltas : ℕ → List ℕ → List MemDelta → List MemDelta
read_deltas zero bytes log = log
read_deltas (suc n) bytes log = read_deltas n (drop 8 bytes) (
    record {
      run_count = field_at bytes 0 1;
      page = field_at bytes 1 1;
      offset = field_at bytes 2 2;
      old_value = field_at bytes 4 4;
    }
    ∷ log)

-- The layout that include/retrovm/vm.hpp describes. It has no place for FLAGS.
abbrev pub read_snapshot : List ℕ → Snapshot
read_snapshot bytes = record {
  cycle_count = field_at bytes 16 8;
  regs = regs_at 8 bytes 32;
  pc = field_at bytes 64 4;
  sp = field_at bytes 68 4;
  flags = 0;
  halted = field_at bytes 24 4;
  deltas = read_deltas (field_at bytes 28 4) (drop 72 bytes) [];
}

-- The types of the fields.
pub record SnapshotFits (s : Snapshot) : Type 0 where
  pub cycle_fits : s.cycle_count < 2 ^ 64
  pub eight : length s.regs ≡ 8
  pub regs_fit : All IsU32 s.regs
  pub pc_fits : IsU32 s.pc
  pub sp_fits : IsU32 s.sp
  pub halted_fits : IsU32 s.halted
  pub count_fits : IsU32 (length s.deltas)
  pub logged : All IsDelta s.deltas

read_deltas-delta_bytes :
    (n : ℕ) (d : MemDelta) (rest : List ℕ) (log : List MemDelta)
    → IsDelta d
    → read_deltas (suc n) (delta_bytes d ++ rest) log ≡ read_deltas n rest (d ∷ log)
read_deltas-delta_bytes n d rest log h =
    let bytes = delta_bytes d ++ rest in
    let run : field_at bytes 0 1 ≡ d.run_count = omega (arith, h) in
    let page : field_at bytes 1 1 ≡ d.page = omega (arith, h) in
    let offset : field_at bytes 2 2 ≡ d.offset = omega (arith, h) in
    let old : field_at bytes 4 4 ≡ d.old_value = omega (arith, h) in
    λ i.
      read_deltas n rest
        (record { run_count = run i; page = page i; offset = offset i; old_value = old i } ∷ log)

read_deltas-deltas_bytes :
    (n k : ℕ) (ds : List MemDelta) (rest : List ℕ) (log : List MemDelta)
    → All IsDelta ds
    → k ≡ length ds + n
    → read_deltas k (deltas_bytes ds ++ rest) log ≡ read_deltas n rest (ds ++ log)
unfolding deltas_bytes
read_deltas-deltas_bytes n k [] rest log h e =
    let same : k ≡ n = omega (arith, e) in ap (λ k. read_deltas k rest log) same
read_deltas-deltas_bytes n k (d ∷ ds) rest log h e =
    ap (λ bytes. read_deltas k bytes log) (append_assoc (deltas_bytes ds) (delta_bytes d) rest)
    ∙ read_deltas-deltas_bytes (suc n) k ds (delta_bytes d ++ rest) log h.1 (omega (arith, e))
    ∙ read_deltas-delta_bytes n d rest (ds ++ log) h.0

-- The file up to each of its parts behind the header.
module _ (s : Snapshot) (h : SnapshotFits s) where
  abbrev log_bytes : List ℕ
  log_bytes = deltas_bytes s.deltas

  abbrev before_pc : List ℕ
  before_pc = snap_header_bytes s ++ regs_bytes s.regs

  abbrev before_sp : List ℕ
  before_sp = before_pc ++ le_bytes 4 s.pc

  abbrev before_log : List ℕ
  before_log = before_sp ++ le_bytes 4 s.sp

  abbrev file : List ℕ
  file =
      snap_header_bytes s
      ++ (regs_bytes s.regs ++ (le_bytes 4 s.pc ++ (le_bytes 4 s.sp ++ log_bytes)))

  snapshot_bytes-file : snapshot_bytes s ≡ file
  unfolding snapshot_bytes
  snapshot_bytes-file =
      ap
        (λ r.
          snap_header_bytes s
          ++ (regs_bytes r ++ (le_bytes 4 s.pc ++ (le_bytes 4 s.sp ++ log_bytes))))
        (take-length 8 s.regs h.eight)

  file-pc : file ≡ before_pc ++ (le_bytes 4 s.pc ++ (le_bytes 4 s.sp ++ log_bytes))
  file-pc = sym (append_assoc (snap_header_bytes s) (regs_bytes s.regs) _)

  file-sp : file ≡ before_sp ++ (le_bytes 4 s.sp ++ log_bytes)
  file-sp = file-pc ∙ sym (append_assoc before_pc (le_bytes 4 s.pc) _)

  file-log : file ≡ before_log ++ log_bytes
  file-log = file-sp ∙ sym (append_assoc before_sp (le_bytes 4 s.sp) log_bytes)

  length-before_pc : length before_pc ≡ 64
  length-before_pc = omega (
    arith,
    h.eight,
    length-regs_bytes s.regs,
    length-append (snap_header_bytes s) (regs_bytes s.regs),
  )

  length-before_sp : length before_sp ≡ 68
  length-before_sp = omega (arith, length-before_pc, length-append before_pc (le_bytes 4 s.pc))

  length-before_log : length before_log ≡ 72
  length-before_log = omega (arith, length-before_sp, length-append before_sp (le_bytes 4 s.sp))

  read_log : read_deltas (field_at file 28 4) (drop 72 file) [] ≡ s.deltas
  read_log =
      let count : field_at file 28 4 ≡ length s.deltas + 0 = omega (arith, h) in
      let behind : drop 72 file ≡ log_bytes =
        ap (drop 72) file-log
        ∙ drop-append_past 72 0 before_log log_bytes (omega (arith, length-before_log)) in
      ap (λ bytes. read_deltas (field_at file 28 4) bytes []) (behind ∙ sym (append-nil log_bytes))
      ∙ read_deltas-deltas_bytes 0 _ s.deltas [] [] h.logged count
      ∙ append-nil s.deltas

  read_file : read_snapshot file ≡ record s { flags = 0 }
  read_file =
      let cycle : field_at file 16 8 ≡ s.cycle_count = omega (arith, h) in
      let reason : field_at file 24 4 ≡ s.halted = omega (arith, h) in
      let regs =
        regs_at-append 8 32 s.regs (snap_header_bytes s)
          (le_bytes 4 s.pc ++ (le_bytes 4 s.sp ++ log_bytes)) (sym h.eight) refl h.regs_fit in
      let pc : field_at file 64 4 ≡ s.pc =
        ap (λ b. field_at b 64 4) file-pc
        ∙ field_at-append 64 s.pc before_pc (le_bytes 4 s.sp ++ log_bytes) (sym length-before_pc)
            h.pc_fits in
      let sp : field_at file 68 4 ≡ s.sp =
        ap (λ b. field_at b 68 4) file-sp
        ∙ field_at-append 68 s.sp before_sp log_bytes (sym length-before_sp) h.sp_fits in
      λ i. record {
        cycle_count = cycle i;
        regs = regs i;
        pc = pc i;
        sp = sp i;
        flags = 0;
        halted = reason i;
        deltas = read_log i;
      }

-- Reading the file of a snapshot by the layout of its header, its registers and its log gives the
-- snapshot back, the flags aside, for which the file has no place, if the fields fit their widths.
pub read_snapshot-snapshot_bytes :
    (s : Snapshot) → SnapshotFits s → read_snapshot (snapshot_bytes s) ≡ record s { flags = 0 }
read_snapshot-snapshot_bytes s h = ap read_snapshot (snapshot_bytes-file s h) ∙ read_file s h

length-deltas_bytes : (ds : List MemDelta) → length (deltas_bytes ds) ≡ length ds * 8
unfolding deltas_bytes
length-deltas_bytes [] = refl
length-deltas_bytes (d ∷ ds) =
    omega (arith, length-deltas_bytes ds, length-append (deltas_bytes ds) (delta_bytes d))

-- The file of a snapshot has 32 + 40 + 8 bytes for each entry of the log, if the fields fit their
-- widths.
pub length-snapshot_bytes :
    (s : Snapshot) → SnapshotFits s → length (snapshot_bytes s) ≡ 32 + 40 + 8 * length s.deltas
length-snapshot_bytes s h = omega (
  arith,
  ap length (snapshot_bytes-file s h ∙ file-log s h),
  length-before_log s h,
  length-deltas_bytes s.deltas,
  length-append (before_log s h) (deltas_bytes s.deltas),
)
