-- ===== src/Wal/Log/Recover.antt =====
-- `recover` of src/wal.rs on the log as a list.
use cityhall.Base.{ℕ, ◌≡◌, refl, sym, ap, List, [], ◌∷◌, ◌++◌}
use cityhall.Base.{append_assoc, append-nil, All}
use cityhall.Types.{ok}
use cityhall.Types.Bytes.{Buf}
use cityhall.Wal.Record.{Crc32}
use cityhall.Wal.Record.RoundTrip.{AllLoggable, encode_log}
use cityhall.Wal.Record.Recovery.{entries_of}
use cityhall.Wal.{Wal, recover_files, recover}
use cityhall.Wal.Log.{Log, ClosedLog, logs_of, files_of, Holds, segment_entries}

module _ ⦃buf : Buf⦄ ⦃crc : Crc32⦄ where
  entries_of-append : (l m : Log) → entries_of (l ++ m) ≡ entries_of l ++ entries_of m
  entries_of-append [] m = refl
  entries_of-append ((op, e) ∷ l) m = ap (λ es. e ∷ es) (entries_of-append l m)

  recover_files-files_of :
      (closed : List ClosedLog) (n : ℕ) (last : Log)
      → All (λ c. AllLoggable c.log) closed
      → AllLoggable last
      → recover_files (files_of closed ++ record { number = n; bytes = encode_log last } ∷ [])
        ≡ ok (entries_of (logs_of closed ++ last))
  unfolding recover_files
  recover_files-files_of [] n last fit last_fit =
      rw (segment_entries last last_fit) (ap ok (append-nil (entries_of last)))
  recover_files-files_of (c ∷ closed) n last fit last_fit =
      rw
        (
          segment_entries c.log fit.0,
          recover_files-files_of closed n last fit.1 last_fit,
          append_assoc c.log (logs_of closed) last,
        )
        (ap ok (sym (entries_of-append c.log (logs_of closed ++ last))))

  -- Recovery from the directory gives the operations that were flushed, in order: the whole log but
  -- for what is still in the buffer.
  pub recover-Holds :
      (w : Wal) (log : Log) (h : Holds w log)
      → recover w.dir ≡ ok (entries_of (logs_of h.closed ++ h.durable))
  unfolding recover
  recover-Holds w log h =
      rw h.files
        (recover_files-files_of h.closed w.segment_number h.durable h.closed_fit h.durable_fit)
