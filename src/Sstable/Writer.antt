-- ===== src/Sstable/Writer.antt =====
-- `SsTableWriter` of src/sstable/writer.rs. The file is the list of its bytes, written at its end but
-- for the header, which `finish` overwrites. Writes succeed; the two sizes of the filter, computed in
-- floating point, are arguments of `new`.
pub mod Blocks
pub mod Flush
pub mod Add
pub mod Finish
pub mod RoundTrip
use cityhall.Base.{
  ℕ, ◌+◌, ◌*◌, ◌%◌, ◌^◌, List, [], ◌∷◌, ◌++◌, length, drop, ltb, leb, if◌then◌else◌, Option, none,
  some,
}
use cityhall.Types.{Entry, Result, ok, err, invalid_format, ◌>>=◌}
use cityhall.Types.Bytes.{Buf}
use cityhall.Sstable.Header
use cityhall.Sstable.Header.{Header, header_size}
use cityhall.Sstable.Footer
use cityhall.Sstable.Footer.{Footer}
use cityhall.Sstable.Index.{IndexEntry, encode_index}
use cityhall.Sstable.Snappy.{Snappy}
use cityhall.Sstable.Block
use cityhall.Sstable.Block.{BlockBuilder}
use cityhall.Sstable.Bloom
use cityhall.Sstable.Bloom.{BloomFilter, KeyHasher}

abbrev pub default_block_size : ℕ
default_block_size = 16 * 1024

pub record SsTableWriter : Type 0 where
  pub file : List ℕ
  pub block_builder : BlockBuilder
  pub index_entries : List IndexEntry
  pub bloom_filter : BloomFilter
  pub block_size : ℕ
  pub offset : ℕ
  pub header : Header

-- The timestamps that a header has seen.
abbrev pub see_timestamp : ℕ → Header → Header
see_timestamp timestamp h = record h {
  min_timestamp = if ltb timestamp h.min_timestamp then timestamp else h.min_timestamp;
  max_timestamp = if ltb h.max_timestamp timestamp then timestamp else h.max_timestamp;
}

abbrev pub first_key_or_error : Option (List ℕ) → Result (List ℕ)
first_key_or_error none = err invalid_format
first_key_or_error (some key) = ok key

-- Bytes written at the front of a file, over those that are there.
abbrev pub overwrite_front : List ℕ → List ℕ → List ℕ
overwrite_front bytes file = bytes ++ drop (length bytes) file

module _ ⦃buf : Buf⦄ where
  unfoldable pub new : ℕ → ℕ → ℕ → SsTableWriter
  new block_size num_bits num_hash_functions = record {
    file = Header.encode Header.new;
    block_builder = Block.new;
    index_entries = [];
    bloom_filter = Bloom.new num_bits num_hash_functions;
    block_size = block_size;
    offset = header_size;
    header = Header.new;
  }

  module _ ⦃snappy : Snappy⦄ where
    -- The state after a block has gone to the file.
    unfoldable pub write_block : SsTableWriter → List ℕ → List ℕ → SsTableWriter
    write_block w first_key compressed = record w {
      file = w.file ++ compressed;
      block_builder = Block.reset w.block_builder;
      index_entries =
          w.index_entries
          ++ record { first_key = first_key; offset = w.offset; size = length compressed % 2 ^ 32 }
            ∷ [];
      offset = (w.offset + length compressed) % 2 ^ 64;
      header = record w.header { num_blocks = (w.header.num_blocks + 1) % 2 ^ 32 };
    }

    unfoldable pub flush_block : SsTableWriter → Result SsTableWriter
    unfolding write_block
    flush_block w = if Block.is_empty w.block_builder then ok w else do
      first_key ← first_key_or_error w.block_builder.first_key
      compressed ← Block.finish w.block_builder
      ok (write_block w first_key compressed)

    module _ ⦃hasher : KeyHasher⦄ where
      unfoldable pub add : SsTableWriter → Entry → Result SsTableWriter
      unfolding flush_block
      add w e = do
        filter ← Bloom.add w.bloom_filter e.key
        let w' = record w {
          bloom_filter = filter;
          header = see_timestamp e.timestamp w.header;
          block_builder = Block.add w.block_builder e;
        }
        if leb w.block_size (Block.size w'.block_builder) then flush_block w' else ok w'

  -- The footer of `finish`: the filter goes to the offset, and the index behind it.
  unfoldable pub footer_of : SsTableWriter → Footer
  footer_of w =
      let bloom_data = Bloom.encode w.bloom_filter in
      let index_data = encode_index w.index_entries in
      record {
        index_offset = (w.offset + length bloom_data) % 2 ^ 64;
        bloom_offset = w.offset;
        index_size = length index_data % 2 ^ 32;
        bloom_size = length bloom_data % 2 ^ 32;
        checksum = 0;
      }

  -- The file with the filter, the index and the footer behind the blocks, and the header again.
  unfoldable pub finished : SsTableWriter → List ℕ
  unfolding footer_of
  finished w = overwrite_front (Header.encode w.header) (
      w.file
      ++ (Bloom.encode w.bloom_filter
          ++ (encode_index w.index_entries ++ Footer.encode (footer_of w))))

  module _ ⦃snappy : Snappy⦄ where
    -- The file that `finish` leaves.
    unfoldable pub finish : SsTableWriter → Result (List ℕ)
    unfolding flush_block finished
    finish w = do w' ← flush_block w; ok (finished w')

    module _ ⦃hasher : KeyHasher⦄ where
      -- The loop that writes the entries of a memtable.
      unfoldable pub add_entries : SsTableWriter → List Entry → Result SsTableWriter
      unfolding add
      add_entries w [] = ok w
      add_entries w (e ∷ entries) = add w e >>= λ w'. add_entries w' entries

      -- What `flush_memtable_to_disk` does with a table that has entries.
      unfoldable pub write_entries : ℕ → ℕ → ℕ → List Entry → Result (List ℕ)
      unfolding new add_entries finish
      write_entries block_size num_bits num_hash_functions entries = do
        w ← add_entries (new block_size num_bits num_hash_functions) entries
        finish w
