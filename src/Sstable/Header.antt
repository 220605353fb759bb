-- ===== src/Sstable/Header.antt =====
-- The file header of src/sstable/format.rs.
pub mod RoundTrip
use cityhall.Base.{ℕ, ◌+◌, ◌-◌, ◌^◌, ◌<◌, List, [], ◌++◌, length, replicate, ltb, ◌==◌, not}
use cityhall.Base.{if◌then◌else◌}
use cityhall.Types.{Result, ok, err, invalid_format, ◌>>=◌}
use cityhall.Types.Bytes.{Buf, put_le, get_le, u64_max}

abbrev pub magic_number : ℕ
magic_number = 0x53535442

abbrev pub version_number : ℕ
version_number = 1

abbrev pub header_size : ℕ
header_size = 64

pub record Header : Type 0 where
  pub magic : ℕ
  pub version : ℕ
  pub num_blocks : ℕ
  pub min_timestamp : ℕ
  pub max_timestamp : ℕ

abbrev pub new : Header
new = record {
  magic = magic_number;
  version = version_number;
  num_blocks = 0;
  min_timestamp = u64_max;
  max_timestamp = 0;
}

-- The loop that appends zero bytes until the buffer has `size` bytes.
abbrev pub pad_to : ℕ → List ℕ → List ℕ
pad_to size bytes = bytes ++ replicate (size - length bytes) 0

module _ ⦃buf : Buf⦄ where
  -- The five fields, without the padding.
  pub fields : Header → List ℕ
  fields h =
      put_le 4 h.magic
      ++ (put_le 4 h.version
          ++ (put_le 4 h.num_blocks ++ (put_le 8 h.min_timestamp ++ put_le 8 h.max_timestamp)))

  unfoldable pub encode : Header → List ℕ
  unfolding fields
  encode h = pad_to header_size (fields h)

  unfoldable pub decode : List ℕ → Result Header
  decode bytes = if ltb (length bytes) header_size then err invalid_format else do
    (magic, cursor) ← get_le 4 bytes
    if not (magic == magic_number) then err invalid_format else do
      (version, cursor) ← get_le 4 cursor
      (num_blocks, cursor) ← get_le 4 cursor
      (min_timestamp, cursor) ← get_le 8 cursor
      (max_timestamp, cursor) ← get_le 8 cursor
      ok (record {
        magic = magic;
        version = version;
        num_blocks = num_blocks;
        min_timestamp = min_timestamp;
        max_timestamp = max_timestamp;
      })
