-- ===== src/Sstable/Footer.antt =====
-- The file footer of src/sstable/format.rs.
pub mod RoundTrip
use cityhall.Base.{ℕ, List, ◌++◌, length, ltb, if◌then◌else◌}
use cityhall.Types.{Result, ok, err, invalid_format, ◌>>=◌}
use cityhall.Types.Bytes.{Buf, put_le, get_le}
use cityhall.Sstable.Header.{pad_to}

abbrev pub footer_size : ℕ
footer_size = 64

pub record Footer : Type 0 where
  pub index_offset : ℕ
  pub bloom_offset : ℕ
  pub index_size : ℕ
  pub bloom_size : ℕ
  pub checksum : ℕ

module _ ⦃buf : Buf⦄ where
  pub fields : Footer → List ℕ
  fields f =
      put_le 8 f.index_offset
      ++ (put_le 8 f.bloom_offset
          ++ (put_le 4 f.index_size ++ (put_le 4 f.bloom_size ++ put_le 4 f.checksum)))

  unfoldable pub encode : Footer → List ℕ
  unfolding fields
  encode f = pad_to footer_size (fields f)

  unfoldable pub decode : List ℕ → Result Footer
  decode bytes = if ltb (length bytes) footer_size then err invalid_format else do
    (index_offset, cursor) ← get_le 8 bytes
    (bloom_offset, cursor) ← get_le 8 cursor
    (index_size, cursor) ← get_le 4 cursor
    (bloom_size, cursor) ← get_le 4 cursor
    (checksum, cursor) ← get_le 4 cursor
    ok (record {
      index_offset = index_offset;
      bloom_offset = bloom_offset;
      index_size = index_size;
      bloom_size = bloom_size;
      checksum = checksum;
    })
