-- ===== src/Wal/Cleanup.antt =====
-- What `cleanup_old_segments` deletes, and what can be recovered afterwards.
use cityhall.Base.{ℕ, ◌<◌, ◌≡◌, refl, arith, [], ◌∷◌, ◌++◌, append-nil}
use cityhall.Base.{
  min, All, ltb, lt→ltb, ◌==◌, ==_iff, Bool-cases, inl, inr, if◌then◌else◌, none, false,
}
use cityhall.Types.{ok}
use cityhall.Types.Bytes.{Buf}
use cityhall.Wal.Dir.{SegmentFile, SegmentDir, find_file, delete_below}
use cityhall.Wal.Dir.Order.{IsBelow, sort_files-delete_below}
use cityhall.Wal.Record.{Crc32}
use cityhall.Wal.Record.RoundTrip.{encode_log}
use cityhall.Wal.Record.Recovery.{entries_of}
use cityhall.Wal.{Wal, mark_flushed, safe_to_delete, cleanup_old_segments, recover}
use cityhall.Wal.Log.{Log, files_of, Holds, segment_entries}

find_file-delete_below :
    (n m : ℕ) (dir : SegmentDir)
    → find_file n (delete_below m dir) ≡ (if ltb n m then none else find_file n dir)
unfolding find_file delete_below
find_file-delete_below n m [] = ground arith
find_file-delete_below n m (f ∷ dir) = ground (arith, find_file-delete_below n m dir)

-- A cleanup deletes just the segments below the last flushed one and, where there are replicas,
-- below the lowest that one of them needs; every other file is found as before.
pub find_file-cleanup :
    (w : Wal) (min_replica_segment n : ℕ)
    → find_file n (cleanup_old_segments w min_replica_segment).dir ≡ (
        if ltb n (
          if ltb 0 min_replica_segment
          then min w.last_flushed_segment min_replica_segment
          else w.last_flushed_segment)
        then none
        else find_file n w.dir)
unfolding cleanup_old_segments
find_file-cleanup w r n = elim (Bool-cases (safe_to_delete w r == 0)) [
  | inl nothing ↦
      let z : safe_to_delete w r ≡ 0 = (==_iff _ _).0 nothing in rw (nothing, z) (ground arith)
  | inr some_files ↦ rw some_files (find_file-delete_below n (safe_to_delete w r) w.dir)
]

module _ ⦃buf : Buf⦄ ⦃crc : Crc32⦄ where
  delete_closed :
      (n : ℕ) (last : SegmentFile) (files : SegmentDir)
      → All (IsBelow n) files
      → last.number ≡ n
      → delete_below n (files ++ last ∷ []) ≡ last ∷ []
  unfolding delete_below
  delete_closed n last [] all e = ground arith
  delete_closed n last (f ∷ files) all e =
      rw (lt→ltb f.number n all.0) (delete_closed n last files all.1 e)

  -- For a log that holds some list of operations, once the current segment is marked as flushed
  -- and a cleanup runs that no replica holds back, recovery returns the flushed operations of the
  -- current segment and of no other.
  pub recover-cleanup :
      (w : Wal) (log : Log) (h : Holds w log)
      → 0 < w.segment_number
      → recover (cleanup_old_segments (mark_flushed w) 0).dir ≡ ok (entries_of h.durable)
  unfolding recover cleanup_old_segments
  recover-cleanup w log h pos =
      let last : SegmentFile = record { number = w.segment_number; bytes = encode_log h.durable } in
      let some_files : (w.segment_number == 0) ≡ false = ground arith in
      rw (
        some_files,
        sort_files-delete_below w.segment_number w.dir,
        h.files,
        delete_closed w.segment_number last (files_of h.closed) h.below refl,
        segment_entries h.durable h.durable_fit,
        append-nil (entries_of h.durable),
      )
