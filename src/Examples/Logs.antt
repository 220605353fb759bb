-- ===== src/Examples/Logs.antt =====
-- Runs of the log of src/wal.rs.
use cityhall.Base.{some, ℕ, ◌<◌, ◌≡◌, ◌≢◌, arith, List, [], ◌∷◌, ◌++◌}
use cityhall.Types.{Entry, OpType, as_u8, ok, err, io, ErrorKind}
use cityhall.Types.Bytes.{put_le, to_le_bytes}
use cityhall.Wal.Record.{payload, recover_segment, encode_record, read_record}
use cityhall.Wal.Record.RoundTrip.{
  encode_log, framed, stored_checksum, IsLoggable, read_record-encode_record,
}
use cityhall.Wal.Record.Recovery.{
  entries_of, recover_segment-encode_log, recover_segment_damaged, recover_segment_torn,
}
use cityhall.Wal.{Wal, new, flush, recover, append_operation, mark_flushed, cleanup_old_segments}
use cityhall.Wal.Log.{Log, Holds}
use cityhall.Wal.Log.Append.{append_operation-Holds}
use cityhall.Wal.Runs.{
  Command, write, erase, mark, restart, run, accepted, new_empty-Holds, recover-run,
  recover_after_crash,
}
use cityhall.Wal.Cleanup.{recover-cleanup}
use cityhall.Examples.Instances.{test_buf, test_crc}

abbrev first_entry : Entry
first_entry = record { key = 97 ∷ []; value = 1 ∷ 2 ∷ []; timestamp = 7 }

first_entry-IsLoggable : IsLoggable first_entry
first_entry-IsLoggable = record { sizes = omega arith; timestamp_fits = omega arith }

abbrev first_log : Log
first_log = (OpType.put, first_entry) ∷ []

abbrev commands : List Command
commands = write first_entry ∷ restart 3 ∷ erase (98 ∷ []) 9 ∷ mark ∷ []

abbrev empty_wal : Wal
empty_wal = new [] 30

recover-run_example :
    recover (flush (run commands (new [] 30))).dir ≡ ok (entries_of (accepted commands))
recover-run_example = recover-run commands 30 (omega arith, (tt, (omega arith, (tt, tt))))

recover_after_crash_example :
    (kept lost : Log) × (accepted commands ≡ kept ++ lost)
    × (recover (run commands (new [] 30)).dir ≡ ok (entries_of kept))
    × ((run commands (new [] 30)).current_segment.buffer ≡ encode_log lost)
recover_after_crash_example =
    recover_after_crash commands 30 (omega arith, (tt, (omega arith, (tt, tt))))

append_operation-Holds_example :
    ((append_operation OpType.put first_entry empty_wal).1 ≡ ok tt)
    × Holds (append_operation OpType.put first_entry empty_wal).0 first_log
append_operation-Holds_example =
    append_operation-Holds OpType.put first_entry empty_wal [] first_entry-IsLoggable
      (new_empty-Holds 30)

abbrev big_value : ℕ → List ℕ
big_value n = to_le_bytes n 0

recover_segment-encode_log_example :
    recover_segment (encode_log first_log ++ 1 ∷ 2 ∷ []) ≡ ok (first_entry ∷ [])
recover_segment-encode_log_example =
    recover_segment-encode_log first_log (1 ∷ 2 ∷ []) (first_entry-IsLoggable, tt) (omega arith)

sum_differs : stored_checksum OpType.put first_entry ≢ 5
unfolding payload as_u8 to_le_bytes
sum_differs h = omega arith

recover_segment_damaged_example :
    recover_segment (encode_log first_log ++ (framed 5 OpType.put first_entry ++ 9 ∷ []))
    ≡ ok (first_entry ∷ [])
recover_segment_damaged_example =
    recover_segment_damaged first_log 5 OpType.put first_entry (9 ∷ []) (first_entry-IsLoggable, tt)
      (omega arith) first_entry-IsLoggable sum_differs

recover_segment_torn_example :
    recover_segment (
      encode_log first_log
      ++ (put_le 4 5 ++ (put_le 2 20 ++ (put_le 1 (as_u8 OpType.put) ++ 3 ∷ []))))
    ≡ err (io ErrorKind.unexpected_eof)
recover_segment_torn_example =
    recover_segment_torn first_log 5 20 OpType.put (3 ∷ []) (first_entry-IsLoggable, tt)
      (omega arith) (omega arith) (omega arith)

one_segment : 0 < empty_wal.segment_number
unfolding new
one_segment = omega arith

recover-cleanup_example :
    recover (cleanup_old_segments (mark_flushed empty_wal) 0).dir
    ≡ ok (entries_of (new_empty-Holds 30).durable)
recover-cleanup_example = recover-cleanup empty_wal [] (new_empty-Holds 30) one_segment

read_record-encode_record_example :
    (r : List ℕ) × (encode_record OpType.delete first_entry ≡ ok r)
    × (read_record (r ++ 4 ∷ []) ≡ ok (some (OpType.delete, first_entry, 4 ∷ [])))
read_record-encode_record_example =
    read_record-encode_record OpType.delete first_entry (4 ∷ []) first_entry-IsLoggable
