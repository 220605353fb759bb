-- ===== src/Wal/Log.antt =====
-- The log as a list: what a `Wal` holds on disk and in its buffer, and that a flush and a
-- rotation in src/wal.rs keep it so.
pub mod Append
pub mod Recover
use cityhall.Base.{
  ℕ, zero, suc, ◌+◌, ◌≤◌, ◌<◌, ◌≡◌, refl, sym, ap, ◌∙◌, subst, arith, List, [], ◌∷◌, ◌++◌,
}
use cityhall.Base.{
  append_assoc, append-nil, length, length-append, All, All-append, Bool-cases, leb, inl, inr, true,
  false, ◌^◌, if◌then◌else◌,
}
use cityhall.Types.{Entry, OpType, Result, ok, err, invalid_format, ◌>>=◌}
use cityhall.Types.Bytes.{Buf}
use cityhall.Wal.Dir.{SegmentFile, SegmentDir, append_file, open_file, sort_files}
use cityhall.Wal.Dir.Order.{
  sort_files-append_file, sort_files-open_file, append_file_last, IsBelow, All-of_sort_files,
}
use cityhall.Wal.Record.{Crc32, encode_record, recover_segment}
use cityhall.Wal.Record.RoundTrip.{
  IsLoggable, AllLoggable, encode_log, encode_log-append, encode_record_ok, encode_record_too_large,
  framed, length-framed, stored_checksum,
}
use cityhall.Wal.Record.Recovery.{entries_of, recover_segment-encode_log}
use cityhall.Wal.{
  Wal, WalSegment, new_segment, is_empty_buffer, flush, should_rotate, rotate_segment, append_bytes,
  append_operation, recover_files, recover,
}

abbrev pub Log : Type 0
Log = List (OpType × Entry)

-- A segment that is no longer written to, and the operations in it.
pub record ClosedLog : Type 0 where
  pub number : ℕ
  pub log : Log

abbrev pub logs_of : List ClosedLog → Log
logs_of [] = []
logs_of (c ∷ closed) = c.log ++ logs_of closed

pub logs_of-append :
    (xs : List ClosedLog) (c : ClosedLog) → logs_of (xs ++ c ∷ []) ≡ logs_of xs ++ c.log
logs_of-append [] c = append-nil c.log
logs_of-append (x ∷ xs) c =
    ap (λ l. x.log ++ l) (logs_of-append xs c) ∙ sym (append_assoc x.log (logs_of xs) c.log)

module _ ⦃buf : Buf⦄ ⦃crc : Crc32⦄ where
  abbrev pub file_of : ClosedLog → SegmentFile
  file_of c = record { number = c.number; bytes = encode_log c.log }

  abbrev pub files_of : List ClosedLog → SegmentDir
  files_of [] = []
  files_of (c ∷ closed) = file_of c ∷ files_of closed

  pub files_of-append :
      (xs : List ClosedLog) (c : ClosedLog)
      → files_of (xs ++ c ∷ []) ≡ files_of xs ++ file_of c ∷ []
  files_of-append [] c = refl
  files_of-append (x ∷ xs) c = ap (λ d. file_of x ∷ d) (files_of-append xs c)

  -- In the order of their numbers the files are the closed segments, and then the current one with
  -- the operations that were flushed; the buffer has the rest.
  pub record Holds (w : Wal) (log : Log) : Type 0 where
    pub closed : List ClosedLog
    pub durable : Log
    pub pending : Log
    pub files :
        sort_files w.dir
        ≡ files_of closed ++ record { number = w.segment_number; bytes = encode_log durable } ∷ []
    pub buffered : w.current_segment.buffer ≡ encode_log pending
    pub below : All (IsBelow w.segment_number) (files_of closed)
    pub same_number : w.current_segment.segment_number ≡ w.segment_number
    pub closed_fit : All (λ c. AllLoggable c.log) closed
    pub durable_fit : AllLoggable durable
    pub pending_fit : AllLoggable pending
    pub whole : log ≡ logs_of closed ++ (durable ++ pending)

  empty_buffer : (bytes : List ℕ) → is_empty_buffer bytes ≡ true → bytes ≡ []
  empty_buffer [] h = refl
  empty_buffer (b ∷ bytes) h = cc

  pub segment_entries :
      (log : Log) → AllLoggable log → recover_segment (encode_log log) ≡ ok (entries_of log)
  segment_entries log fit =
      subst (λ b. recover_segment b ≡ ok (entries_of log)) (append-nil (encode_log log))
        (recover_segment-encode_log log [] fit (omega arith))

  -- A flush moves what is pending to the disk.
  pub flush-Holds :
      (w : Wal) (log : Log)
      → Holds w log
      → Holds (flush w) log × ((flush w).current_segment.buffer ≡ [])
  unfolding flush
  flush-Holds w log h = elim (Bool-cases (is_empty_buffer w.current_segment.buffer)) [
    | inl empty ↦ rw empty (h, empty_buffer w.current_segment.buffer empty)
    | inr full ↦ rw full (
      record {
        closed = h.closed;
        durable = h.durable ++ h.pending;
        pending = [];
        files =
            rw
              (
                sort_files-append_file w.current_segment.segment_number w.current_segment.buffer
                    w.dir,
                h.files,
                h.same_number,
                h.buffered,
                encode_log-append h.durable h.pending,
              )
              (append_file_last w.segment_number (encode_log h.pending) (encode_log h.durable)
                (files_of h.closed) h.below);
        buffered = unfold encode_log in refl;
        below = h.below;
        same_number = h.same_number;
        closed_fit = h.closed_fit;
        durable_fit =
            All-append (λ p. IsLoggable p.1) h.durable h.pending h.durable_fit h.pending_fit;
        pending_fit = tt;
        whole = rw (append-nil (h.durable ++ h.pending)) h.whole;
      },
      refl,
    )
  ]

  -- The segment that a rotation leaves is closed with all its operations.
  IsBelow-next : (n : ℕ) (files : SegmentDir) → All (IsBelow n) files → All (IsBelow (n + 1)) files
  IsBelow-next n [] all = tt
  IsBelow-next n (f ∷ files) all = (omega arith, IsBelow-next n files all.1)

  pub encode_log_empty : (log : Log) → encode_log log ≡ [] → log ≡ []
  unfolding encode_log
  encode_log_empty [] h = refl
  encode_log_empty ((op, e) ∷ log) h =
      let record_bytes = framed (stored_checksum op e) op e in
      let n1 : length (record_bytes ++ encode_log log)
          ≡ length record_bytes + length (encode_log log) =
        length-append record_bytes (encode_log log) in
      let n2 = length-framed (stored_checksum op e) op e in
      let n3 : length (record_bytes ++ encode_log log) ≡ 0 = ap length h in absurd (omega arith)

  -- Opening the next segment, with nothing buffered.
  open_next-Holds :
      (w : Wal) (log : Log) (h : Holds w log)
      → w.current_segment.buffer ≡ []
      → Holds
          (record w {
            dir = open_file (w.segment_number + 1) w.dir;
            current_segment = new_segment (w.segment_number + 1) w.current_segment.buffer_capacity;
            segment_number = w.segment_number + 1;
          })
          log
  open_next-Holds w log h empty =
      let n = w.segment_number in
      let last : ClosedLog = record { number = n; log = h.durable } in
      let closed' = h.closed ++ last ∷ [] in
      let listed : files_of closed' ≡ files_of h.closed ++ file_of last ∷ [] =
        files_of-append h.closed last in
      let below' : All (IsBelow (n + 1)) (files_of closed') = rw listed (
        All-append (IsBelow (n + 1)) (files_of h.closed) (file_of last ∷ [])
          (IsBelow-next n (files_of h.closed) h.below) (omega arith, tt)) in
      let sorted : All (IsBelow (n + 1)) (sort_files w.dir) = rw h.files (rw (← listed) below') in
      let none_pending : h.pending ≡ [] = encode_log_empty h.pending (sym h.buffered ∙ empty) in
      record {
        closed = closed';
        durable = [];
        pending = [];
        files =
            rw
              (
                sort_files-open_file (n + 1) w.dir
                    (All-of_sort_files (IsBelow (n + 1)) w.dir sorted),
                h.files,
                listed,
              )
              (unfold encode_log in refl);
        buffered = unfold encode_log in refl;
        below = below';
        same_number = refl;
        closed_fit =
            All-append (λ c. AllLoggable c.log) h.closed (last ∷ []) h.closed_fit
              (h.durable_fit, tt);
        durable_fit = tt;
        pending_fit = tt;
        whole =
            h.whole
            ∙ ap (λ l. logs_of h.closed ++ l)
                (ap (λ l. h.durable ++ l) none_pending ∙ append-nil h.durable)
            ∙ sym (append-nil (logs_of closed') ∙ logs_of-append h.closed last);
      }

  pub rotate_segment-Holds : (w : Wal) (log : Log) → Holds w log → Holds (rotate_segment w) log
  unfolding rotate_segment
  rotate_segment-Holds w log h =
      let (h', empty) = flush-Holds w log h in open_next-Holds (flush w) log h' empty
