-- ===== src/Examples/Memory.antt =====
-- Runs of the table of src/memtable.rs.
use cityhall.Base.{
  ℕ, ◌+◌, ◌<◌, ◌≡◌, refl, subst, arith, List, [], ◌∷◌, length, some, none, if◌then◌else◌, false,
}
use cityhall.Types.{Entry, ok}
use cityhall.Types.Keys.{compare_keys, key_eq, key_lt}
use cityhall.Types.Entries.{IsAscending, find_key}
use cityhall.Memtable.{MemTable, put, get_with_timestamp, scan_with_timestamps, entry_overhead}
use cityhall.Memtable.Lookup.{get-put}
use cityhall.Memtable.Size.{total, IsAccounted, put-IsAccounted, put_overcounts}
use cityhall.Memtable.Scan.{in_range, scan_lem}

abbrev entry_a : Entry
entry_a = record { key = 97 ∷ []; value = []; timestamp = 7 }

abbrev entry_b : Entry
entry_b = record { key = 98 ∷ []; value = 5 ∷ []; timestamp = 8 }

abbrev two_entries : List Entry
two_entries = entry_a ∷ entry_b ∷ []

abbrev table : MemTable
table = record { entries = two_entries; size_bytes = 49 + 50; max_size = 200 }

abbrev key_a : List ℕ
key_a = 97 ∷ []

two_entries-IsAscending : IsAscending two_entries
unfolding compare_keys
two_entries-IsAscending = (refl, tt)

get-put_example :
    get_with_timestamp (put table key_a (1 ∷ []) 9).0 key_a
    ≡ (if key_eq key_a key_a then some (1 ∷ [], 9) else get_with_timestamp table key_a)
get-put_example = get-put table key_a (1 ∷ []) 9 key_a

put-IsAccounted_example : IsAccounted (put table key_a (1 ∷ []) 9).0
put-IsAccounted_example =
    put-IsAccounted table key_a (1 ∷ []) 9 two_entries-IsAscending (record { covers = omega arith })

found_filled : (e : Entry) → find_key (98 ∷ []) two_entries ≡ some e → 0 < length e.value
unfolding find_key compare_keys
found_filled e h =
    let same : entry_b ≡ e = ground arith in subst (λ x. 0 < length x.value) same (omega arith)

found_a : find_key key_a two_entries ≡ some entry_a
unfolding find_key compare_keys
found_a = refl

put_overcounts_example :
    (put table key_a (1 ∷ []) 9).0.size_bytes
    ≡ total (put table key_a (1 ∷ []) 9).0.entries + (length key_a + entry_overhead)
put_overcounts_example =
    put_overcounts table key_a (1 ∷ []) 9 two_entries-IsAscending entry_a refl found_a refl

range_fine : key_lt (99 ∷ []) key_a ≡ false
unfolding compare_keys
range_fine = refl

scan_lem_example :
    (found : List Entry) × (scan_with_timestamps table key_a (99 ∷ []) ≡ ok found)
    × IsAscending found
    × ((key : List ℕ)
        → find_key key found
          ≡ (if in_range key_a (99 ∷ []) key then find_key key table.entries else none))
scan_lem_example = scan_lem table key_a (99 ∷ []) two_entries-IsAscending range_fine
