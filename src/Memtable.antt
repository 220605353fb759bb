-- ===== src/Memtable.antt =====
-- src/memtable.rs. A `BTreeMap` from keys to values and timestamps is the list of its entries in
-- ascending order of keys.
pub mod Lookup
pub mod Order
pub mod Size
pub mod Scan
use cityhall.Base.{ℕ, ◌+◌, ◌-◌, List, [], ◌∷◌, length, map, ltb, leb, ◌==◌, if◌then◌else◌}
use cityhall.Base.{Bool, true, false, ◌&&◌, Option, none, some}
use cityhall.Types.{Entry, Result, ok, panic}
use cityhall.Types.Keys.{key_lt, key_le, key_eq}
use cityhall.Types.Entries.{find_key}

pub record MemTable : Type 0 where
  pub entries : List Entry
  pub size_bytes : ℕ
  pub max_size : ℕ

abbrev pub new : ℕ → MemTable
new max_size = record { entries = []; size_bytes = 0; max_size = max_size }

-- `BTreeMap::insert`: the value of a key that is there is replaced.
unfoldable pub insert_entry : Entry → List Entry → List Entry
insert_entry e [] = e ∷ []
insert_entry e (x ∷ entries) =
    let rest = insert_entry e entries in
    if key_lt e.key x.key
    then e ∷ x ∷ entries
    else if key_eq e.key x.key
    then e ∷ entries
    else x ∷ rest

abbrev pub entry_overhead : ℕ
entry_overhead = 40 + 8

abbrev pub value_size_of : Option Entry → ℕ
value_size_of none = 0
value_size_of (some e) = length e.value

-- Whether the table is full now is the result beside the new state.
unfoldable pub put : MemTable → List ℕ → List ℕ → ℕ → MemTable × Bool
unfolding insert_entry find_key
put m key value timestamp =
    let old_value_size = value_size_of (find_key key m.entries) in
    let size =
      if ltb 0 old_value_size
      then m.size_bytes - old_value_size + length value
      else m.size_bytes + (length key + length value + entry_overhead) in
    (
      record m {
        entries =
            insert_entry (record { key = key; value = value; timestamp = timestamp }) m.entries;
        size_bytes = size;
      },
      leb m.max_size size,
    )

abbrev pub value_of : Option Entry → Option (List ℕ)
value_of none = none
value_of (some e) = some e.value

abbrev pub value_and_time_of : Option Entry → Option (List ℕ × ℕ)
value_and_time_of none = none
value_and_time_of (some e) = some (e.value, e.timestamp)

unfoldable pub get : MemTable → List ℕ → Option (List ℕ)
unfolding find_key
get m key = value_of (find_key key m.entries)

unfoldable pub get_with_timestamp : MemTable → List ℕ → Option (List ℕ × ℕ)
unfolding find_key
get_with_timestamp m key = value_and_time_of (find_key key m.entries)

-- The entries of `BTreeMap::range(start..end)`.
unfoldable pub range : List ℕ → List ℕ → List Entry → List Entry
range start stop [] = []
range start stop (e ∷ entries) =
    let rest = range start stop entries in
    if key_le start e.key && key_lt e.key stop then e ∷ rest else rest

-- `BTreeMap::range` panics on a start above the end.
unfoldable pub scan_with_timestamps : MemTable → List ℕ → List ℕ → Result (List Entry)
unfolding range
scan_with_timestamps m start stop =
    if key_lt stop start then panic else ok (range start stop m.entries)

abbrev pub without_timestamp : Entry → List ℕ × List ℕ
without_timestamp e = (e.key, e.value)

unfoldable pub scan : MemTable → List ℕ → List ℕ → Result (List (List ℕ × List ℕ))
unfolding range
scan m start stop =
    if key_lt stop start then panic else ok (map without_timestamp (range start stop m.entries))

abbrev pub len : MemTable → ℕ
len m = length m.entries

abbrev pub is_empty : MemTable → Bool
is_empty m = len m == 0

abbrev pub entries_with_timestamps : MemTable → List Entry
entries_with_timestamps m = m.entries

-- A loop of `put` calls.
unfoldable pub put_all : MemTable → List Entry → MemTable
unfolding put
put_all m [] = m
put_all m (e ∷ entries) = put_all (put m e.key e.value e.timestamp).0 entries
