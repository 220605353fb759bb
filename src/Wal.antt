-- ===== src/Wal.antt =====
-- The segmented write-ahead log of src/wal.rs.
pub mod Record
pub mod Dir
pub mod Log
pub mod Runs
pub mod Cleanup
use cityhall.Base.{
  ℕ, ◌+◌, ◌*◌, ◌<◌, min, List, [], ◌∷◌, ◌++◌, length, ltb, leb, ◌==◌, if◌then◌else◌, Bool, true,
  false, ◌&&◌,
}
use cityhall.Base.{Option, none, some}
use cityhall.Types.{Entry, OpType, Result, ok, err, panic, resource_not_found, ◌>>=◌}
use cityhall.Types.Bytes.{Buf}
use Dir.{
  SegmentDir, SegmentFile, find_file, append_file, open_file, latest_number, delete_below,
  sort_files, numbers_below,
}
use Record.{Crc32, encode_record, recover_segment}

abbrev pub default_segment_size : ℕ
default_segment_size = 100 * 1024 * 1024

-- The file of a segment is the one with its number in the directory.
pub record WalSegment : Type 0 where
  pub segment_number : ℕ
  pub buffer : List ℕ
  pub buffer_capacity : ℕ
  pub bytes_written : ℕ

pub record Wal : Type 0 where
  pub dir : SegmentDir
  pub current_segment : WalSegment
  pub segment_number : ℕ
  pub segment_size_limit : ℕ
  pub last_flushed_segment : ℕ

abbrev pub new_segment : ℕ → ℕ → WalSegment
new_segment n capacity = record {
  segment_number = n;
  buffer = [];
  buffer_capacity = capacity;
  bytes_written = 0;
}

-- `Wal::new` on a directory that exists or was just made.
unfoldable pub new : SegmentDir → ℕ → Wal
new dir buffer_size =
    let n = latest_number dir + 1 in
    record {
      dir = open_file n dir;
      current_segment = new_segment n buffer_size;
      segment_number = n;
      segment_size_limit = default_segment_size;
      last_flushed_segment = 0;
    }

abbrev pub set_segment_size_limit : Wal → ℕ → Wal
set_segment_size_limit w limit = record w { segment_size_limit = limit }

abbrev pub is_empty_buffer : List ℕ → Bool
is_empty_buffer [] = true
is_empty_buffer (b ∷ bytes) = false

unfoldable pub flush : Wal → Wal
flush w = if is_empty_buffer w.current_segment.buffer then w else record w {
  dir = append_file w.current_segment.segment_number w.current_segment.buffer w.dir;
  current_segment = record w.current_segment { buffer = [] };
}

unfoldable pub should_rotate : Wal → Bool
should_rotate w = leb w.segment_size_limit w.current_segment.bytes_written

-- `rotate_segment`: flush, count up, open the next segment.
unfoldable pub rotate_segment : Wal → Wal
unfolding flush
rotate_segment w =
    let w' = flush w in
    let n = w'.segment_number + 1 in
    record w' {
      dir = open_file n w'.dir;
      current_segment = new_segment n w'.current_segment.buffer_capacity;
      segment_number = n;
    }

-- `WalSegment::append`.
unfoldable pub append_bytes : Wal → List ℕ → Wal
unfolding flush
append_bytes w bytes =
    let s = w.current_segment in
    let w' = record w {
      current_segment = record s {
        buffer = s.buffer ++ bytes;
        bytes_written = s.bytes_written + length bytes;
      };
    } in
    if leb s.buffer_capacity (length (s.buffer ++ bytes)) then flush w' else w'

-- `mark_flushed`.
abbrev pub mark_flushed : Wal → Wal
mark_flushed w = record w { last_flushed_segment = w.segment_number }

-- The number that a cleanup deletes below.
unfoldable pub safe_to_delete : Wal → ℕ → ℕ
safe_to_delete w min_replica_segment =
    if ltb 0 min_replica_segment
    then min w.last_flushed_segment min_replica_segment
    else w.last_flushed_segment

unfoldable pub cleanup_old_segments : Wal → ℕ → Wal
unfolding safe_to_delete
cleanup_old_segments w min_replica_segment =
    let safe = safe_to_delete w min_replica_segment in
    if safe == 0 then w else record w { dir = delete_below safe w.dir }

-- `list_closed_segments` sorts the numbers; here the files are sorted first.
unfoldable pub list_closed_segments : Wal → List ℕ
list_closed_segments w = numbers_below w.segment_number (sort_files w.dir)

abbrev pub is_some_file : Option SegmentFile → Bool
is_some_file none = false
is_some_file (some f) = true

unfoldable pub is_segment_available : Wal → ℕ → Bool
is_segment_available w n = ltb n w.segment_number && is_some_file (find_file n w.dir)

-- The record, if it was encoded, goes to the current segment.
abbrev pub store_record : Result (List ℕ) → Wal → Wal × Result (Unit {0})
store_record (ok bytes) w = (append_bytes w bytes, ok tt)
store_record (err x) w = (w, err x)
store_record panic w = (w, panic)

module _ ⦃buf : Buf⦄ ⦃crc : Crc32⦄ where
  -- The new state, and the outcome: a rotation stays done where the record is refused.
  unfoldable pub append_operation : OpType → Entry → Wal → Wal × Result (Unit {0})
  unfolding append_bytes rotate_segment should_rotate
  append_operation op e w =
      store_record (encode_record op e) (if should_rotate w then rotate_segment w else w)

  abbrev pub append : Entry → Wal → Wal × Result (Unit {0})
  append = append_operation OpType.put

  abbrev pub append_delete : List ℕ → ℕ → Wal → Wal × Result (Unit {0})
  append_delete key timestamp =
      append_operation OpType.delete (record { key = key; value = []; timestamp = timestamp })

  -- The segments in order, up to the first error.
  unfoldable pub recover_files : SegmentDir → Result (List Entry)
  recover_files [] = ok []
  recover_files (f ∷ files) = do
    entries ← recover_segment f.bytes
    more ← recover_files files
    ok (entries ++ more)

  unfoldable pub recover : SegmentDir → Result (List Entry)
  unfolding recover_files
  recover dir = recover_files (sort_files dir)

  abbrev pub read_found : Option SegmentFile → Result (List Entry)
  read_found none = err resource_not_found
  read_found (some f) = recover_segment f.bytes

  unfoldable pub read_segment : Wal → ℕ → Result (List Entry)
  read_segment w n = read_found (find_file n w.dir)
