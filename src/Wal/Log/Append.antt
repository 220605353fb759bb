-- ===== src/Wal/Log/Append.antt =====
-- `append_operation` of src/wal.rs on the log as a list.
use cityhall.Base.{ℕ, ◌+◌, ◌≤◌, ◌≡◌, refl, ap, ◌∙◌, List, [], ◌∷◌, ◌++◌}
use cityhall.Base.{
  append_assoc, append-nil, length, All-append, Bool-cases, leb, inl, inr, ◌^◌, if◌then◌else◌,
}
use cityhall.Types.{Entry, OpType, ok, err, invalid_format}
use cityhall.Types.Bytes.{Buf}
use cityhall.Wal.Record.{Crc32}
use cityhall.Wal.Record.RoundTrip.{
  IsLoggable, encode_log, encode_log-append, encode_record_ok, encode_record_too_large, framed,
  stored_checksum,
}
use cityhall.Wal.{Wal, should_rotate, rotate_segment, append_bytes, append_operation}
use cityhall.Wal.Log.{Log, logs_of, Holds, flush-Holds, rotate_segment-Holds}

module _ ⦃buf : Buf⦄ ⦃crc : Crc32⦄ where
  abbrev buffer_more : Wal → List ℕ → Wal
  buffer_more w bytes = record w {
    current_segment = record w.current_segment {
      buffer = w.current_segment.buffer ++ bytes;
      bytes_written = w.current_segment.bytes_written + length bytes;
    };
  }

  buffer_more-Holds :
      (w : Wal) (log : Log) (op : OpType) (e : Entry)
      → IsLoggable e
      → Holds w log
      → Holds (buffer_more w (framed (stored_checksum op e) op e)) (log ++ (op, e) ∷ [])
  buffer_more-Holds w log op e fits h =
      let x : Log = (op, e) ∷ [] in
      record {
        closed = h.closed;
        durable = h.durable;
        pending = h.pending ++ x;
        files = h.files;
        buffered =
            rw (h.buffered, encode_log-append h.pending x)
              (unfold encode_log in rw (append-nil (framed (stored_checksum op e) op e)) refl);
        below = h.below;
        same_number = h.same_number;
        closed_fit = h.closed_fit;
        durable_fit = h.durable_fit;
        pending_fit = All-append (λ p. IsLoggable p.1) h.pending x h.pending_fit (fits, tt);
        whole = rw h.whole (
            append_assoc (logs_of h.closed) (h.durable ++ h.pending) x
            ∙ ap (λ l. logs_of h.closed ++ l) (append_assoc h.durable h.pending x));
      }

  append_bytes-Holds :
      (w : Wal) (log : Log) (op : OpType) (e : Entry)
      → IsLoggable e
      → Holds w log
      → Holds (append_bytes w (framed (stored_checksum op e) op e)) (log ++ (op, e) ∷ [])
  unfolding append_bytes
  append_bytes-Holds w log op e fits h =
      let bytes = framed (stored_checksum op e) op e in
      let s = w.current_segment in
      let h' = buffer_more-Holds w log op e fits h in
      elim (Bool-cases (leb s.buffer_capacity (length (s.buffer ++ bytes)))) [
        | inl full ↦ rw full (flush-Holds (buffer_more w bytes) (log ++ (op, e) ∷ []) h').0
        | inr room ↦ rw room h'
      ]

  rotated-Holds :
      (w : Wal) (log : Log)
      → Holds w log
      → Holds (if should_rotate w then rotate_segment w else w) log
  rotated-Holds w log h = elim (Bool-cases (should_rotate w)) [
    | inl due ↦ rw due (rotate_segment-Holds w log h)
    | inr fine ↦ rw fine h
  ]

  -- On a log that holds a list of operations, appending an operation that fits a record succeeds,
  -- and the log then holds the list with the operation at its end, whether the append rotated or
  -- flushed or not.
  pub append_operation-Holds :
      (op : OpType) (e : Entry) (w : Wal) (log : Log)
      → IsLoggable e
      → Holds w log
      → ((append_operation op e w).1 ≡ ok tt)
        × Holds (append_operation op e w).0 (log ++ (op, e) ∷ [])
  unfolding append_operation
  append_operation-Holds op e w log fits h =
      let w' = if should_rotate w then rotate_segment w else w in
      rw (encode_record_ok op e fits.sizes)
        (refl, append_bytes-Holds w' log op e fits (rotated-Holds w log h))

  -- An operation that does not fit is refused, and the log stays.
  pub append_operation_refused :
      (op : OpType) (e : Entry) (w : Wal) (log : Log)
      → 2 ^ 16 ≤ length e.key + length e.value + 14
      → Holds w log
      → ((append_operation op e w).1 ≡ err invalid_format) × Holds (append_operation op e w).0 log
  unfolding append_operation
  append_operation_refused op e w log large h =
      rw (encode_record_too_large op e large) (refl, rotated-Holds w log h)
