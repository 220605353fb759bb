-- ===== src/Sstable/Block.antt =====
-- The data blocks: `BlockBuilder` of src/sstable/block.rs and `decode_block` of
-- src/sstable/reader.rs. A block entry is an `Entry`.
pub mod Prefix
pub mod RoundTrip
pub mod Size
pub mod Builder
pub mod Corruption
use cityhall.Base.{
  ℕ, zero, suc, ◌+◌, ◌-◌, ◌%◌, ◌^◌, List, [], ◌∷◌, ◌++◌, length, take, drop, ltb, ◌==◌,
}
use cityhall.Base.{if◌then◌else◌, Bool, true, false, not, ◌&&◌, Option, none, some}
use cityhall.Types.{Entry, Result, ok, err, panic, invalid_format, corrupted_data, ◌>>=◌}
use cityhall.Types.Bytes.{Buf, put_le, get_le}
use cityhall.Types.Keys.{key_le}
use cityhall.Sstable.Varint.{encode_varint, read_varint}
use cityhall.Sstable.Snappy.{Snappy}

pub record BlockBuilder : Type 0 where
  pub buffer : List ℕ
  pub last_key : List ℕ
  pub first_key : Option (List ℕ)
  pub entries_count : ℕ

abbrev pub new : BlockBuilder
new = record { buffer = []; last_key = []; first_key = none; entries_count = 0 }

abbrev pub size : BlockBuilder → ℕ
size b = length b.buffer

abbrev pub is_empty : BlockBuilder → Bool
is_empty b = b.entries_count == 0

-- The first index at which two keys differ, or the length of the shorter.
unfoldable pub common_prefix_len : List ℕ → List ℕ → ℕ
common_prefix_len [] b = 0
common_prefix_len (x ∷ a) [] = 0
common_prefix_len (x ∷ a) (y ∷ b) = if x == y then suc (common_prefix_len a b) else 0

abbrev pub is_empty_list : List ℕ → Bool
is_empty_list [] = true
is_empty_list (x ∷ xs) = false

abbrev pub or_first : Option (List ℕ) → List ℕ → Option (List ℕ)
or_first none key = some key
or_first (some k) key = some k

module _ ⦃buf : Buf⦄ where
  -- What `add` appends to the buffer for an entry behind the key `last_key`.
  unfoldable pub encode_entry : List ℕ → Entry → List ℕ
  encode_entry last_key e =
      let shared = common_prefix_len last_key e.key in
      encode_varint shared
      ++ (encode_varint (length e.key - shared)
          ++ (encode_varint (length e.value)
              ++ (drop shared e.key ++ (e.value ++ put_le 8 e.timestamp))))

  unfoldable pub add : BlockBuilder → Entry → BlockBuilder
  unfolding encode_entry
  add b e = record {
    buffer = b.buffer ++ encode_entry b.last_key e;
    last_key = e.key;
    first_key = or_first b.first_key e.key;
    entries_count = b.entries_count + 1;
  }

  -- `Vec::with_capacity` panics above `isize::MAX`; the sum of two lengths wraps.
  abbrev pub capacity_overflows : ℕ → ℕ → Bool
  capacity_overflows shared unshared = ltb (2 ^ 63 - 1) ((shared + unshared) % 2 ^ 64)

  -- One round of `decode_block`: the entry, and the cursor behind it.
  unfoldable pub decode_entry : List ℕ → List ℕ → Result (Entry × List ℕ)
  decode_entry previous_key cursor = do
    (shared_len, cursor) ← read_varint cursor
    (unshared_len, cursor) ← read_varint cursor
    (value_len, cursor) ← read_varint cursor
    if ltb (length previous_key) shared_len
        then err corrupted_data
        else if capacity_overflows shared_len unshared_len
        then panic
        else if ltb (length cursor) unshared_len
        then err corrupted_data
        else do
          let key = take shared_len previous_key ++ take unshared_len cursor
          let cursor = drop unshared_len cursor
          if ltb (length cursor) value_len then err corrupted_data else do
            let value = take value_len cursor
            let cursor = drop value_len cursor
            if ltb (length cursor) 8 then err corrupted_data else do
              (timestamp, cursor) ← get_le 8 cursor
              if not (is_empty_list previous_key) && key_le key previous_key
                  then err corrupted_data
                  else ok (record { key = key; value = value; timestamp = timestamp }, cursor)

  -- `while cursor.remaining() > 0`, on fuel.
  unfoldable pub decode_entries : ℕ → List ℕ → List ℕ → Result (List Entry)
  decode_entries fuel previous_key [] = ok []
  decode_entries zero previous_key (b ∷ bytes) = panic
  decode_entries (suc fuel) previous_key (b ∷ bytes) = do
    (entry, cursor) ← decode_entry previous_key (b ∷ bytes)
    entries ← decode_entries fuel entry.key cursor
    ok (entry ∷ entries)

  -- Each entry takes a byte at least, so a round for each byte is enough.
  unfoldable pub decode_block : List ℕ → Result (List Entry)
  decode_block bytes = decode_entries (length bytes) [] bytes

  module _ ⦃snappy : Snappy⦄ where
    -- `finish` leaves the builder as it is.
    unfoldable pub finish : BlockBuilder → Result (List ℕ)
    finish b =
        if is_empty b
        then ok []
        else elim (snappy.compress b.buffer) [ none ↦ err invalid_format | some out ↦ ok out ]

abbrev pub reset : BlockBuilder → BlockBuilder
reset b = new
