-- ===== src/Examples/Tables.antt =====
-- Runs of the formats of src/sstable/.
use cityhall.Base.{◌^◌, ◌≡◌, ◌⊎◌, refl, arith, List, [], ◌∷◌, ◌++◌, length}
use cityhall.Types.{Entry, ok, err, panic, invalid_format}
use cityhall.Types.Keys.{compare_keys}
use cityhall.Types.Entries.{IsAscending}
use cityhall.Sstable.Header.{Header}
use cityhall.Sstable.Footer.{Footer}
use cityhall.Sstable.Index.{IndexEntry, encode_index, decode_index}
use cityhall.Sstable.Index.RoundTrip.{decode_index-encode_index, decode_index_total}
use cityhall.Sstable.Varint.{encode_varint}
use cityhall.Sstable.Block
use cityhall.Sstable.Block.{BlockBuilder, decode_block}
use cityhall.Sstable.Block.RoundTrip.{add_all, decode_block-add_all}
use cityhall.Sstable.Block.Corruption.{Chain, decode_block-Chain, decode_block_panics}
use cityhall.Examples.Instances.{test_buf}

abbrev header : Header
header = record {
  magic = 0x53535442;
  version = 1;
  num_blocks = 3;
  min_timestamp = 5;
  max_timestamp = 70000;
}

abbrev footer : Footer
footer = record {
  index_offset = 300;
  bloom_offset = 200;
  index_size = 16;
  bloom_size = 100;
  checksum = 0;
}

abbrev index : List IndexEntry
index = record { first_key = 97 ∷ []; offset = 64; size = 300 } ∷ []

decode_index-encode_index_example :
    decode_index (length (encode_index index)) (encode_index index) ≡ ok index
decode_index-encode_index_example =
    decode_index-encode_index (length (encode_index index)) index
      (record { key_fits = omega arith; offset_fits = omega arith; size_fits = omega arith }, tt)
      (omega arith)

decode_index_total_example :
    (decode_index 2 (9 ∷ 0 ∷ []) ≡ err invalid_format)
    ⊎ ((entries : List IndexEntry) × (decode_index 2 (9 ∷ 0 ∷ []) ≡ ok entries))
decode_index_total_example = decode_index_total 2 (9 ∷ 0 ∷ []) (omega arith)

abbrev block_entries : List Entry
block_entries =
    record { key = 97 ∷ 98 ∷ []; value = 1 ∷ []; timestamp = 5 }
    ∷ record { key = 97 ∷ 99 ∷ []; value = []; timestamp = 4 }
    ∷ []

block_entries-IsAscending : IsAscending block_entries
unfolding compare_keys
block_entries-IsAscending = (refl, tt)

decode_block-add_all_example :
    decode_block (add_all Block.new block_entries).buffer ≡ ok block_entries
decode_block-add_all_example = decode_block-add_all block_entries block_entries-IsAscending (
  record { key_fits = omega arith; value_fits = omega arith; timestamp_fits = omega arith },
  (record { key_fits = omega arith; value_fits = omega arith; timestamp_fits = omega arith }, tt),
)

decode_block-Chain_example : Chain [] block_entries
decode_block-Chain_example =
    decode_block-Chain (add_all Block.new block_entries).buffer block_entries
      decode_block-add_all_example

decode_block_panics_example :
    decode_block (encode_varint 0 ++ (encode_varint (2 ^ 63) ++ (encode_varint 0 ++ []))) ≡ panic
decode_block_panics_example =
    decode_block_panics (2 ^ 63) 0 [] (omega arith) (omega arith) (omega arith)
