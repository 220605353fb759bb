-- ===== src/Wal/Record.antt =====
-- The records of src/wal.rs: `encode_record` and `read_record`.
pub mod RoundTrip
pub mod Recovery
use cityhall.Base.{ℕ, ◌+◌, ◌%◌, ◌^◌, ◌<◌, List, [], ◌∷◌, ◌++◌, length, take, drop, ltb, ◌==◌, not}
use cityhall.Base.{if◌then◌else◌, Option, none, some, zero, suc}
use cityhall.Types.{
  Entry, OpType, as_u8, from_u8, ErrorKind, Result, ok, err, invalid_format, corruption, io, panic,
  ◌>>=◌,
}
use cityhall.Types.Bytes.{Buf, put_le, get_le, to_le_bytes, u16_max, u32_max}

-- The `crc32fast` crate: a hasher that is fed in parts gives the checksum of the parts in a row.
pub record Crc32 : Type 0 where
  pub checksum : List ℕ → ℕ
  pub checksum_fits : (bytes : List ℕ) → checksum bytes < 2 ^ 32

-- What an `or_invalid` unwraps: `ok_or_else` with the format error.
abbrev pub op_type_of : Option OpType → Result OpType
op_type_of none = err invalid_format
op_type_of (some op) = ok op

module _ ⦃buf : Buf⦄ where
  -- The payload of a record.
  unfoldable pub payload : Entry → List ℕ
  payload e =
      put_le 8 e.timestamp
      ++ (put_le 2 (length e.key) ++ (e.key ++ (put_le 4 (length e.value) ++ e.value)))

  -- The payload of `read_record`; reading an integer past its end panics.
  unfoldable pub read_payload : List ℕ → Result Entry
  read_payload bytes = do
    (timestamp, cursor) ← get_le 8 bytes
    (key_len, cursor) ← get_le 2 cursor
    if ltb (length cursor) key_len then err corruption else do
      let key = take key_len cursor
      (value_len, cursor) ← get_le 4 (drop key_len cursor)
      if ltb (length cursor) value_len
          then err corruption
          else ok (record { key = key; value = take value_len cursor; timestamp = timestamp })

module _ ⦃buf : Buf⦄ ⦃crc : Crc32⦄ where
  abbrev pub record_checksum : ℕ → ℕ → List ℕ → ℕ
  record_checksum data_len op bytes = crc.checksum (to_le_bytes 2 data_len ++ (op ∷ [] ++ bytes))

  unfoldable pub encode_record : OpType → Entry → Result (List ℕ)
  unfolding payload as_u8
  encode_record op e =
      if ltb u16_max (length e.key)
      then err invalid_format
      else if ltb u32_max (length e.value)
      then err invalid_format
      else let bytes = payload e in
        if ltb u16_max (length bytes)
        then err invalid_format
        else ok (
            put_le 4 (record_checksum (length bytes) (as_u8 op) bytes)
            ++ (put_le 2 (length bytes) ++ (put_le 1 (as_u8 op) ++ bytes)))

  -- `read_record` on what is left of a file: `none` at its end, else the record and what follows.
  -- A header that is cut short counts as the end.
  unfoldable pub read_record : List ℕ → Result (Option (OpType × Entry × List ℕ))
  unfolding read_payload from_u8
  read_record file = if ltb (length file) 7 then ok none else do
    (checksum, cursor) ← get_le 4 file
    (data_len, cursor) ← get_le 2 cursor
    (type_byte, cursor) ← get_le 1 cursor
    op ← op_type_of (from_u8 type_byte)
    if ltb (length cursor) data_len then err (io ErrorKind.unexpected_eof) else do
      let bytes = take data_len cursor
      if not (record_checksum data_len type_byte bytes == checksum)
          then err corruption
          else do e ← read_payload bytes; ok (some (op, e, drop data_len cursor))

  abbrev pub after_record :
      Result (Option (OpType × Entry × List ℕ))
      → (List ℕ → Result (List Entry))
      → Result (List Entry)
  after_record (ok none) more = ok []
  after_record (ok (some (op, e, rest))) more = more rest >>= λ entries. ok (e ∷ entries)
  after_record (err corruption) more = ok []
  after_record (err e) more = err e
  after_record panic more = panic

  -- The loop of `recover_segment`, on fuel. Put and delete records are treated alike.
  unfoldable pub recover_loop : ℕ → List ℕ → Result (List Entry)
  unfolding read_record
  recover_loop zero file = panic
  recover_loop (suc fuel) file = after_record (read_record file) (λ rest. recover_loop fuel rest)

  -- Each record takes 7 bytes at least.
  unfoldable pub recover_segment : List ℕ → Result (List Entry)
  unfolding recover_loop
  recover_segment file = recover_loop (suc (length file)) file
