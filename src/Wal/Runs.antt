-- ===== src/Wal/Runs.antt =====
-- Runs of a `Wal`: any sequence of appends, deletes, flushes, marks, limits of a segment and restarts,
-- against the list of the operations that it accepted. A crash is one between two of them.
use cityhall.Base.{
  ℕ, ◌+◌, ◌^◌, ◌<◌, ◌≡◌, refl, sym, ap, ◌∙◌, subst, List, [], ◌∷◌, ◌++◌, append_assoc,
}
use cityhall.Base.{
  append-nil, length, All, All-append, ltb, ltb→lt, ltb→le, Bool-cases, inl, inr, if◌then◌else◌,
}
use cityhall.Types.{Entry, OpType, ok}
use cityhall.Types.Bytes.{Buf}
use cityhall.Wal.Dir.{SegmentDir, sort_files, latest_number}
use cityhall.Wal.Dir.Order.{IsBelow, latest_number_above, sort_files-open_file, All-sort_files}
use cityhall.Wal.Record.{Crc32}
use cityhall.Wal.Record.RoundTrip.{AllLoggable, encode_log}
use cityhall.Wal.Record.Recovery.{entries_of}
use cityhall.Wal.{
  Wal, new, flush, append_operation, append, append_delete, mark_flushed, recover,
  set_segment_size_limit, set_segment_size_limit,
}
use cityhall.Wal.Log.{
  Log, ClosedLog, logs_of, logs_of-append, files_of, files_of-append, Holds, flush-Holds,
  encode_log_empty,
}
use cityhall.Wal.Log.Append.{append_operation-Holds, append_operation_refused}
use cityhall.Wal.Log.Recover.{recover-Holds}

pub data Command : Type 0 where
  write : Entry → Command
  erase : List ℕ → ℕ → Command
  sync : Command
  mark : Command
  limit : ℕ → Command
  -- The log is dropped, which flushes it, and opened again with a buffer size.
  restart : ℕ → Command

module _ ⦃buf : Buf⦄ ⦃crc : Crc32⦄ where
  unfoldable pub execute : Command → Wal → Wal
  execute (write e) w = (append e w).0
  execute (erase key timestamp) w = (append_delete key timestamp w).0
  execute sync w = flush w
  execute mark w = mark_flushed w
  execute (limit bytes) w = set_segment_size_limit w bytes
  execute (restart size) w = new (flush w).dir size

  unfoldable pub run : List Command → Wal → Wal
  unfolding execute
  run [] w = w
  run (c ∷ commands) w = run commands (execute c w)

abbrev pub fits_record : Entry → Log → Log
fits_record e log = if ltb (length e.key + length e.value + 14) (2 ^ 16) then log else []

abbrev pub accepted_by : Command → Log
accepted_by (write e) = fits_record e ((OpType.put, e) ∷ [])
accepted_by (erase key timestamp) =
    let e : Entry = record { key = key; value = []; timestamp = timestamp } in
    fits_record e ((OpType.delete, e) ∷ [])
accepted_by sync = []
accepted_by mark = []
accepted_by (limit bytes) = []
accepted_by (restart size) = []

-- The operations that a run accepts: those that fit a record.
abbrev pub accepted : List Command → Log
accepted [] = []
accepted (c ∷ commands) = accepted_by c ++ accepted commands

-- Timestamps are of 64 bits.
abbrev pub HasTimestamp : Command → Type 0
HasTimestamp (write e) = e.timestamp < 2 ^ 64
HasTimestamp (erase key timestamp) = timestamp < 2 ^ 64
HasTimestamp sync = Unit
HasTimestamp mark = Unit
HasTimestamp (limit bytes) = Unit
HasTimestamp (restart size) = Unit

module _ ⦃buf : Buf⦄ ⦃crc : Crc32⦄ where
  -- A log that is opened on a directory of closed segments holds what they hold.
  new-Holds :
      (dir : SegmentDir) (closed : List ClosedLog) (size : ℕ)
      → sort_files dir ≡ files_of closed
      → All (λ c. AllLoggable c.log) closed
      → Holds (new dir size) (logs_of closed)
  unfolding new
  new-Holds dir closed size sorted fit =
      let n = latest_number dir + 1 in
      let below = latest_number_above dir in
      record {
        closed = closed;
        durable = [];
        pending = [];
        files = rw (sort_files-open_file n dir below, sorted) (unfold encode_log in refl);
        buffered = unfold encode_log in refl;
        below = subst (All (IsBelow n)) sorted (All-sort_files (IsBelow n) dir below);
        same_number = refl;
        closed_fit = fit;
        durable_fit = tt;
        pending_fit = tt;
        whole = sym (append-nil (logs_of closed));
      }

  -- A new log in an empty directory holds nothing.
  pub new_empty-Holds : (size : ℕ) → Holds (new [] size) []
  new_empty-Holds size = new-Holds [] [] size (unfold sort_files in refl) tt

  -- After a crash, which loses the buffer, the next log holds just what was flushed.
  pub crash-Holds :
      (w : Wal) (log : Log) (h : Holds w log) (size : ℕ)
      → Holds (new w.dir size) (logs_of h.closed ++ h.durable)
  crash-Holds w log h size =
      let last : ClosedLog = record { number = w.segment_number; log = h.durable } in
      subst (Holds (new w.dir size)) (logs_of-append h.closed last) (
        new-Holds w.dir (h.closed ++ last ∷ []) size (h.files ∙ sym (files_of-append h.closed last))
          (All-append (λ c. AllLoggable c.log) h.closed (last ∷ []) h.closed_fit
            (h.durable_fit, tt)))

  -- With nothing buffered, what was flushed is the whole log.
  pub flushed_whole :
      (w : Wal) (log : Log) (h : Holds w log)
      → w.current_segment.buffer ≡ []
      → logs_of h.closed ++ h.durable ≡ log
  flushed_whole w log h empty =
      let none_pending = encode_log_empty h.pending (sym h.buffered ∙ empty) in
      ap (λ l. logs_of h.closed ++ l)
        (sym (ap (λ l. h.durable ++ l) none_pending ∙ append-nil h.durable))
      ∙ sym h.whole

  append_operation_either :
      (op : OpType) (e : Entry) (w : Wal) (log : Log)
      → e.timestamp < 2 ^ 64
      → Holds w log
      → Holds (append_operation op e w).0 (log ++ fits_record e ((op, e) ∷ []))
  append_operation_either op e w log time h =
      elim (Bool-cases (ltb (length e.key + length e.value + 14) (2 ^ 16))) [
        | inl fits ↦
            rw fits
              (append_operation-Holds op e w log
                (record { sizes = ltb→lt _ _ fits; timestamp_fits = time }) h).1
        | inr large ↦
            rw (large, append-nil log) (append_operation_refused op e w log (ltb→le _ _ large) h).1
      ]

  execute-Holds :
      (c : Command) (w : Wal) (log : Log)
      → HasTimestamp c
      → Holds w log
      → Holds (execute c w) (log ++ accepted_by c)
  unfolding execute
  execute-Holds (write e) w log t h = append_operation_either OpType.put e w log t h
  execute-Holds (erase key timestamp) w log t h =
      append_operation_either OpType.delete
        (record { key = key; value = []; timestamp = timestamp }) w log t h
  execute-Holds sync w log t h = rw (append-nil log) (flush-Holds w log h).0
  execute-Holds mark w log t h = rw (append-nil log) (record {
    closed = h.closed;
    durable = h.durable;
    pending = h.pending;
    files = h.files;
    buffered = h.buffered;
    below = h.below;
    same_number = h.same_number;
    closed_fit = h.closed_fit;
    durable_fit = h.durable_fit;
    pending_fit = h.pending_fit;
    whole = h.whole;
  })
  execute-Holds (limit bytes) w log t h = rw (append-nil log) (record {
    closed = h.closed;
    durable = h.durable;
    pending = h.pending;
    files = h.files;
    buffered = h.buffered;
    below = h.below;
    same_number = h.same_number;
    closed_fit = h.closed_fit;
    durable_fit = h.durable_fit;
    pending_fit = h.pending_fit;
    whole = h.whole;
  })
  execute-Holds (restart size) w log t h =
      let (h', empty) = flush-Holds w log h in
      rw (append-nil log) (
        subst (Holds (new (flush w).dir size)) (flushed_whole (flush w) log h' empty)
          (crash-Holds (flush w) log h' size))

  run-Holds :
      (commands : List Command) (w : Wal) (log : Log)
      → All HasTimestamp commands
      → Holds w log
      → Holds (run commands w) (log ++ accepted commands)
  unfolding run
  run-Holds [] w log t h = rw (append-nil log) h
  run-Holds (c ∷ commands) w log t h =
      subst (Holds (run commands (execute c w)))
        (append_assoc log (accepted_by c) (accepted commands))
        (run-Holds commands (execute c w) (log ++ accepted_by c) t.1 (execute-Holds c w log t.0 h))

  -- Whatever sequence of appends, deletes, flushes, marks, segment limits and restarts a log goes
  -- through from an empty directory on, with timestamps below 2^64, recovery after a final flush
  -- returns the operations that were accepted, each once and in order.
  pub recover-run :
      (commands : List Command) (size : ℕ)
      → All HasTimestamp commands
      → recover (flush (run commands (new [] size))).dir ≡ ok (entries_of (accepted commands))
  recover-run commands size t =
      let start = new-Holds [] [] size (unfold sort_files in refl) tt in
      let (h, empty) = flush-Holds _ _ (run-Holds commands (new [] size) [] t start) in
      recover-Holds _ _ h ∙ ap (λ l. ok (entries_of l)) (flushed_whole _ _ h empty)

  -- A crash between two operations of such a run loses just the last accepted operations, those
  -- that are still in the buffer: recovery from the directory returns a first part of the accepted
  -- operations, and the buffer holds the rest.
  pub recover_after_crash :
      (commands : List Command) (size : ℕ)
      → All HasTimestamp commands
      → (kept lost : Log) × (accepted commands ≡ kept ++ lost)
        × (recover (run commands (new [] size)).dir ≡ ok (entries_of kept))
        × ((run commands (new [] size)).current_segment.buffer ≡ encode_log lost)
  recover_after_crash commands size t =
      let start = new-Holds [] [] size (unfold sort_files in refl) tt in
      let h = run-Holds commands (new [] size) [] t start in
      (
        logs_of h.closed ++ h.durable,
        h.pending,
        h.whole ∙ sym (append_assoc (logs_of h.closed) h.durable h.pending),
        recover-Holds _ _ h,
        h.buffered,
      )
