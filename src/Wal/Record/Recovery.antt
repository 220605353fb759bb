-- ===== src/Wal/Record/Recovery.antt =====
-- What recovery returns for a segment: a run of records that ends cleanly, is cut short in a header
-- or in a payload, or goes on with a damaged record.
use cityhall.Base.{ℕ, zero, suc, ◌+◌, ◌^◌, ◌≤◌, ◌<◌, ◌≡◌, ◌≢◌, refl, ap, ◌∙◌, arith}
use cityhall.Base.{List, [], ◌∷◌, ◌++◌, append_assoc, length, length-append}
use cityhall.Base.{le→ltb, lt→ltb, ==_ne}
use cityhall.Types.{Entry, OpType, as_u8, from_u8-as_u8, ErrorKind, Result, ok, err, io, ◌>>=◌}
use cityhall.Types.Bytes.{Buf, put_le}
use cityhall.Wal.Record.{Crc32, read_record, after_record, recover_loop, recover_segment}
use cityhall.Wal.Record.RoundTrip.{
  IsLoggable, stored_checksum, framed, length-framed, read_framed, read_written, encode_log,
  AllLoggable, as_u8_fits,
}

abbrev pub entries_of : List (OpType × Entry) → List Entry
entries_of [] = []
entries_of ((op, e) ∷ log) = e ∷ entries_of log

-- The entries of a log before what the rest of a segment gives.
abbrev prepend : List (OpType × Entry) → Result (List Entry) → Result (List Entry)
prepend [] r = r
prepend ((op, e) ∷ log) r = prepend log r >>= λ entries. ok (e ∷ entries)

prepend-ok-nil : (log : List (OpType × Entry)) → prepend log (ok []) ≡ ok (entries_of log)
prepend-ok-nil [] = refl
prepend-ok-nil ((op, e) ∷ log) = rw (prepend-ok-nil log)

prepend-err : (log : List (OpType × Entry)) (k : ErrorKind) → prepend log (err (io k)) ≡ err (io k)
prepend-err [] k = refl
prepend-err ((op, e) ∷ log) k = rw (prepend-err log k)

module _ ⦃buf : Buf⦄ ⦃crc : Crc32⦄ where
  recover_step :
      (fuel : ℕ) (op : OpType) (e : Entry) (rest : List ℕ)
      → IsLoggable e
      → recover_loop (suc fuel) (framed (stored_checksum op e) op e ++ rest)
        ≡ (recover_loop fuel rest >>= λ entries. ok (e ∷ entries))
  unfolding recover_loop
  recover_step fuel op e rest fits = rw (read_written op e rest fits)

  -- What recovery makes of a log depends on its end alone; a round for each byte is enough.
  recover_loop-encode_log :
      (log : List (OpType × Entry)) (tail : List ℕ) (r : Result (List Entry))
      → ((fuel : ℕ) → length tail < fuel → recover_loop fuel tail ≡ r)
      → AllLoggable log
      → (fuel : ℕ) → length (encode_log log ++ tail) < fuel
      → recover_loop fuel (encode_log log ++ tail) ≡ prepend log r
  unfolding encode_log
  recover_loop-encode_log [] tail r ends all fuel h = ends fuel h
  recover_loop-encode_log ((op, e) ∷ log) tail r ends all zero h = absurd (omega arith)
  recover_loop-encode_log ((op, e) ∷ log) tail r ends all (suc fuel) h =
      let record_bytes = framed (stored_checksum op e) op e in
      let rest = encode_log log ++ tail in
      let n1 : length (record_bytes ++ rest) ≡ length record_bytes + length rest =
        length-append record_bytes rest in
      let n2 = length-framed (stored_checksum op e) op e in
      let n3 : (record_bytes ++ encode_log log) ++ tail ≡ record_bytes ++ rest =
        append_assoc record_bytes (encode_log log) tail in
      let n4 = ap length n3 in
      rw (
        n3,
        recover_step fuel op e rest all.0,
        recover_loop-encode_log log tail r ends all.1 fuel (omega arith),
      )

  recover_end :
      (tail : List ℕ) (r : Result (List Entry))
      → ((fuel : ℕ) → after_record (read_record tail) (λ rest. recover_loop fuel rest) ≡ r)
      → (fuel : ℕ) → length tail < fuel
      → recover_loop fuel tail ≡ r
  unfolding recover_loop
  recover_end tail r all zero h = absurd (omega arith)
  recover_end tail r all (suc fuel) h = all fuel

  recover_log :
      (log : List (OpType × Entry)) (tail : List ℕ) (r : Result (List Entry))
      → AllLoggable log
      → ((fuel : ℕ) → after_record (read_record tail) (λ rest. recover_loop fuel rest) ≡ r)
      → recover_segment (encode_log log ++ tail) ≡ prepend log r
  unfolding recover_segment
  recover_log log tail r all ends =
      recover_loop-encode_log log tail r (recover_end tail r ends) all
        (suc (length (encode_log log ++ tail))) (omega arith)

  -- Recovery of a segment of records whose entries fit returns the entries in order, also where
  -- fewer than 7 bytes of a further header follow.
  pub recover_segment-encode_log :
      (log : List (OpType × Entry)) (tail : List ℕ)
      → AllLoggable log
      → length tail < 7
      → recover_segment (encode_log log ++ tail) ≡ ok (entries_of log)
  recover_segment-encode_log log tail all short =
      recover_log log tail (ok []) all (λ fuel. at_end fuel) ∙ prepend-ok-nil log
    where
      at_end : (fuel : ℕ) → after_record (read_record tail) (λ rest. recover_loop fuel rest) ≡ ok []
      at_end fuel = unfold read_record in rw (lt→ltb (length tail) 7 short)

  -- A record whose stored checksum differs from that of its data ends the recovery of its segment:
  -- the entries of the records before it are returned, those from it on are not, and there is no
  -- error.
  pub recover_segment_damaged :
      (log : List (OpType × Entry)) (sum : ℕ) (op : OpType) (e : Entry) (rest : List ℕ)
      → AllLoggable log
      → sum < 2 ^ 32
      → IsLoggable e
      → stored_checksum op e ≢ sum
      → recover_segment (encode_log log ++ (framed sum op e ++ rest)) ≡ ok (entries_of log)
  recover_segment_damaged log sum op e rest all hs fits differs =
      recover_log log (framed sum op e ++ rest) (ok []) all
        (λ fuel. rw (read_framed sum op e rest hs fits, ==_ne (stored_checksum op e) sum differs))
      ∙ prepend-ok-nil log

  -- A record whose header is whole and whose payload is cut short makes the recovery of the whole
  -- segment fail with an unexpected end of file, although the records before it are intact.
  pub recover_segment_torn :
      (log : List (OpType × Entry)) (sum data_len : ℕ) (op : OpType) (part : List ℕ)
      → AllLoggable log
      → sum < 2 ^ 32
      → data_len < 2 ^ 16
      → length part < data_len
      → recover_segment
          (encode_log log ++ (put_le 4 sum ++ (put_le 2 data_len ++ (put_le 1 (as_u8 op) ++ part))))
        ≡ err (io ErrorKind.unexpected_eof)
  recover_segment_torn log sum data_len op part all hs hd cut =
      recover_log log (put_le 4 sum ++ (put_le 2 data_len ++ (put_le 1 (as_u8 op) ++ part)))
        (err (io ErrorKind.unexpected_eof)) all (λ fuel. torn_end fuel)
      ∙ prepend-err log ErrorKind.unexpected_eof
    where
      long : 7 ≤ length (put_le 4 sum ++ (put_le 2 data_len ++ (put_le 1 (as_u8 op) ++ part)))
      long = simp (length-append, buf.length-put_le) (omega arith)

      torn_end :
          (fuel : ℕ)
          → after_record
              (read_record (put_le 4 sum ++ (put_le 2 data_len ++ (put_le 1 (as_u8 op) ++ part))))
              (λ rest. recover_loop fuel rest)
            ≡ err (io ErrorKind.unexpected_eof)
      torn_end fuel =
          unfold read_record in
          rw (
            le→ltb (length (put_le 4 sum ++ (put_le 2 data_len ++ (put_le 1 (as_u8 op) ++ part)))) 7
                long,
            buf.get_le-put_le 4 sum _ hs,
            buf.get_le-put_le 2 data_len _ hd,
            buf.get_le-put_le 1 (as_u8 op) _ (as_u8_fits op),
            from_u8-as_u8 op,
            lt→ltb (length part) data_len cut,
          )
