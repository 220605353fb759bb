-- ===== src/Sstable/Index.antt =====
-- The index entries of src/sstable/format.rs, and the loop of `read_index` in src/sstable/reader.rs
-- and of `encode_index` in src/sstable/writer.rs over them.
pub mod RoundTrip
use cityhall.Base.{ℕ, zero, suc, ◌+◌, ◌%◌, ◌^◌, List, [], ◌∷◌, ◌++◌, length, take, drop, ltb}
use cityhall.Base.{if◌then◌else◌}
use cityhall.Types.{Result, ok, err, panic, invalid_format, ◌>>=◌}
use cityhall.Types.Bytes.{Buf, put_le, get_le}

pub record IndexEntry : Type 0 where
  pub first_key : List ℕ
  pub offset : ℕ
  pub size : ℕ

module _ ⦃buf : Buf⦄ where
  -- `first_key.len() as u16` keeps the low 16 bits of the length.
  unfoldable pub encode : IndexEntry → List ℕ
  encode e =
      put_le 2 (length e.first_key % 2 ^ 16)
      ++ (e.first_key ++ (put_le 8 e.offset ++ put_le 4 e.size))

  -- The entry, and the cursor behind it.
  unfoldable pub decode : List ℕ → Result (IndexEntry × List ℕ)
  decode bytes = if ltb (length bytes) 2 then err invalid_format else do
    (key_len, cursor) ← get_le 2 bytes
    if ltb (length cursor) (key_len + 12) then err invalid_format else do
      let first_key = take key_len cursor
      (offset, cursor) ← get_le 8 (drop key_len cursor)
      (size, cursor) ← get_le 4 cursor
      ok (record { first_key = first_key; offset = offset; size = size }, cursor)

  unfoldable pub encode_index : List IndexEntry → List ℕ
  unfolding encode
  encode_index [] = []
  encode_index (e ∷ entries) = encode e ++ encode_index entries

  -- `while cursor.remaining() > 0`, on fuel.
  unfoldable pub decode_index : ℕ → List ℕ → Result (List IndexEntry)
  decode_index fuel [] = ok []
  decode_index zero (b ∷ bytes) = panic
  decode_index (suc fuel) (b ∷ bytes) = do
    (entry, cursor) ← decode (b ∷ bytes)
    entries ← decode_index fuel cursor
    ok (entry ∷ entries)
