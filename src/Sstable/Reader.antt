-- ===== src/Sstable/Reader.antt =====
-- `SsTableReader` of src/sstable/reader.rs on the bytes of a file. `partition_point` and
-- `binary_search_by` are what they promise on lists in order: the first entry past the key, and the
-- entry with the key.
pub mod Blocks
pub mod Lookup
pub mod Within
pub mod Scan
use cityhall.Base.{
  ℕ, zero, suc, ◌+◌, ◌-◌, List, [], ◌∷◌, ◌++◌, length, take, drop, ltb, ◌==◌, if◌then◌else◌, Option,
  none, some, Bool, true, false, not,
}
use cityhall.Types.{Entry, ErrorKind, Result, ok, err, io, invalid_format, corrupted_data, ◌>>=◌}
use cityhall.Types.Bytes.{Buf}
use cityhall.Types.Keys.{key_lt, key_le}
use cityhall.Types.Entries.{find_key}
use cityhall.Sstable.Header
use cityhall.Sstable.Header.{Header, header_size}
use cityhall.Sstable.Footer
use cityhall.Sstable.Footer.{Footer, footer_size}
use cityhall.Sstable.Index.{IndexEntry, decode_index}
use cityhall.Sstable.Snappy.{Snappy}
use cityhall.Sstable.Block.{decode_block}
use cityhall.Sstable.Bloom
use cityhall.Sstable.Bloom.{BloomFilter, KeyHasher}

pub record SsTableReader : Type 0 where
  pub file : List ℕ
  pub file_size : ℕ
  pub index : List IndexEntry
  pub bloom_filter : BloomFilter
  pub header : Header

-- A seek from the start and `read_exact`.
unfoldable pub read_exact_at : ℕ → ℕ → List ℕ → Result (List ℕ)
read_exact_at offset n file =
    if ltb (length (drop offset file)) n
    then err (io ErrorKind.unexpected_eof)
    else ok (take n (drop offset file))

-- How many entries from the front on have a first key at or below the key.
unfoldable pub partition_point : List ℕ → List IndexEntry → ℕ
partition_point key [] = 0
partition_point key (e ∷ index) =
    let rest = partition_point key index in if key_le e.first_key key then suc rest else 0

unfoldable pub find_block_for_key : List ℕ → List IndexEntry → Option ℕ
unfolding partition_point
find_block_for_key key [] = none
find_block_for_key key (e ∷ index) =
    if key_lt key e.first_key
    then none
    else let idx = partition_point key (e ∷ index) in if ltb 0 idx then some (idx - 1) else none

-- The entry at a place in the index.
abbrev pub index_at : List IndexEntry → ℕ → Result IndexEntry
index_at [] i = err invalid_format
index_at (e ∷ index) zero = ok e
index_at (e ∷ index) (suc i) = index_at index i

abbrev pub decompressed : Option (List ℕ) → Result (List ℕ)
decompressed none = err corrupted_data
decompressed (some bytes) = ok bytes

abbrev pub value_and_timestamp : Option Entry → Option (List ℕ × ℕ)
value_and_timestamp none = none
value_and_timestamp (some e) = some (e.value, e.timestamp)

-- The loop of `scan` over the entries of a block: what it takes, and whether it has passed the end.
unfoldable pub scan_entries : List ℕ → List ℕ → List Entry → List Entry × Bool
scan_entries start stop [] = ([], false)
scan_entries start stop (e ∷ entries) =
    let rest = scan_entries start stop entries in
    if key_lt e.key start
    then rest
    else if key_lt stop e.key
    then ([], true)
    else (e ∷ rest.0, rest.1)

module _ ⦃buf : Buf⦄ where
  unfoldable pub read_header : List ℕ → Result Header
  unfolding read_exact_at
  read_header file = do bytes ← read_exact_at 0 header_size file; Header.decode bytes

  -- A seek to before the start is an error.
  unfoldable pub read_footer : List ℕ → Result Footer
  unfolding read_exact_at
  read_footer file = if ltb (length file) footer_size then err (io ErrorKind.other) else do
    bytes ← read_exact_at (length file - footer_size) footer_size file
    Footer.decode bytes

  -- The filter where the file has none is an argument.
  unfoldable pub read_bloom_filter : BloomFilter → List ℕ → Footer → Result BloomFilter
  unfolding read_exact_at
  read_bloom_filter placeholder file footer =
      if footer.bloom_size == 0
      then ok placeholder
      else do bytes ← read_exact_at footer.bloom_offset footer.bloom_size file; Bloom.decode bytes

  unfoldable pub read_index : List ℕ → Footer → Result (List IndexEntry)
  unfolding read_exact_at
  read_index file footer = do
    bytes ← read_exact_at footer.index_offset footer.index_size file
    decode_index (length bytes) bytes

  unfoldable pub open_table : BloomFilter → List ℕ → Result SsTableReader
  unfolding read_header read_footer read_bloom_filter read_index
  open_table placeholder file = do
    header ← read_header file
    footer ← read_footer file
    bloom_filter ← read_bloom_filter placeholder file footer
    index ← read_index file footer
    ok (record {
      file = file;
      file_size = length file;
      index = index;
      bloom_filter = bloom_filter;
      header = header;
    })

  module _ ⦃snappy : Snappy⦄ where
    unfoldable pub read_block_at : List ℕ → IndexEntry → Result (List Entry)
    unfolding read_exact_at
    read_block_at file entry = do
      compressed ← read_exact_at entry.offset entry.size file
      bytes ← decompressed (snappy.decompress compressed)
      decode_block bytes

    unfoldable pub read_and_decompress_block : SsTableReader → ℕ → Result (List Entry)
    unfolding read_block_at
    read_and_decompress_block r block_idx = do
      entry ← index_at r.index block_idx
      read_block_at r.file entry

    -- The blocks from a place on; `none` for a place is the first.
    unfoldable pub scan_blocks : List ℕ → List ℕ → List ℕ → List IndexEntry → Result (List Entry)
    unfolding scan_entries
    scan_blocks file start stop [] = ok []
    scan_blocks file start stop (e ∷ index) = do
      entries ← read_block_at file e
      let (found, past) = scan_entries start stop entries
      let more = scan_blocks file start stop index
      if past then ok found else more >>= λ rest. ok (found ++ rest)

    abbrev pub blocks_from : Option ℕ → List IndexEntry → List IndexEntry
    blocks_from none index = index
    blocks_from (some i) index = drop i index

    unfoldable pub scan : SsTableReader → List ℕ → List ℕ → Result (List Entry)
    unfolding scan_blocks find_block_for_key
    scan r start stop =
        scan_blocks r.file start stop (blocks_from (find_block_for_key start r.index) r.index)

    abbrev pub get_from : SsTableReader → List ℕ → Option ℕ → Result (Option (List ℕ × ℕ))
    get_from r key none = ok none
    get_from r key (some block_idx) = read_and_decompress_block r block_idx >>= λ entries.
        ok (value_and_timestamp (find_key key entries))

    module _ ⦃hasher : KeyHasher⦄ where
      unfoldable pub get : SsTableReader → List ℕ → Result (Option (List ℕ × ℕ))
      unfolding read_and_decompress_block find_block_for_key
      get r key = do
        found ← Bloom.contains r.bloom_filter key
        if not found then ok none else get_from r key (find_block_for_key key r.index)
