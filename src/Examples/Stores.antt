-- ===== src/Examples/Stores.antt =====
-- Runs of the table writer and reader, of a compaction and of the metrics.
use cityhall.Base.{ℕ, ◌≡◌, refl, arith, List, [], ◌∷◌, some}
use cityhall.Types.Tables.{numbered}
use cityhall.Types.{Entry, ok, panic}
use cityhall.Types.Keys.{compare_keys}
use cityhall.Types.Entries.{find_key}
use cityhall.Sstable.Bloom.{permissive}
use cityhall.Sstable.Writer.{default_block_size, write_entries}
use cityhall.Sstable.Writer.Flush.{IsTable}
use cityhall.Sstable.Writer.RoundTrip.{open_table-write_entries}
use cityhall.Sstable.Reader.{SsTableReader, open_table, get, scan, value_and_timestamp}
use cityhall.Sstable.Reader.Within.{within}
use cityhall.Compaction.{SizedPath, merge_scans, select_sstables_for_compaction}
use cityhall.Base.{All, get_elem?}
use cityhall.Types.Entries.{IsAscending}
use cityhall.Compaction.{MergeState}
use cityhall.Compaction.Start.{scans_of}
use cityhall.Compaction.Invariant.{IsFrom, IsCovered}
use cityhall.Compaction.Merge.{merge_scans_panics, merge_scans_newest}
use cityhall.Compaction.Select.Best.{IsBestGroup, select-IsBestGroup}
use cityhall.Metrics.{Histogram}
use cityhall.Examples.Instances.{test_buf, test_snappy, test_hasher}

abbrev entry_x : Entry
entry_x = record { key = 97 ∷ 98 ∷ []; value = 1 ∷ []; timestamp = 5 }

abbrev entry_y : Entry
entry_y = record { key = 97 ∷ 99 ∷ []; value = []; timestamp = 4 }

abbrev stored_entries : List Entry
stored_entries = entry_x ∷ entry_y ∷ []

stored_entries-IsTable : IsTable stored_entries
unfolding compare_keys
stored_entries-IsTable = record {
  ascending = (refl, tt);
  entries_fit = (
    record { key_fits = omega arith; value_fits = omega arith; timestamp_fits = omega arith },
    (record { key_fits = omega arith; value_fits = omega arith; timestamp_fits = omega arith }, tt),
  );
  small = omega arith;
}

open_table-write_entries_example :
    (file : List ℕ) × (r : SsTableReader) × (write_entries default_block_size 1000 7 stored_entries
      ≡ ok file)
    × (open_table permissive file ≡ ok r)
    × ((key : List ℕ) → get r key ≡ ok (value_and_timestamp (find_key key stored_entries)))
    × ((start stop : List ℕ) → scan r start stop ≡ ok (within start stop stored_entries))
open_table-write_entries_example =
    open_table-write_entries default_block_size 1000 7 stored_entries permissive (omega arith)
      (omega arith) (omega arith) stored_entries-IsTable

abbrev newer_x : Entry
newer_x = record { key = 97 ∷ 98 ∷ []; value = []; timestamp = 8 }

abbrev two_tables : List (List Entry)
two_tables = stored_entries ∷ (newer_x ∷ []) ∷ []

merge_scans_newest_example :
    (s : MergeState) × (merge_scans (scans_of two_tables) ≡ ok s)
    × IsAscending s.written
    × All (IsFrom two_tables) s.written
    × ((id : ℕ) (t : List Entry) (i : ℕ) (e : Entry)
        → get_elem? two_tables id ≡ some t
        → get_elem? t i ≡ some e
        → IsCovered s.written e)
merge_scans_newest_example =
    merge_scans_newest two_tables (stored_entries-IsTable.ascending, (tt, tt))
      (omega arith, (omega arith, tt))

merge_scans_panics_example : merge_scans (some [] ∷ some (entry_x ∷ entry_y ∷ []) ∷ []) ≡ panic
merge_scans_panics_example = merge_scans_panics entry_x (entry_y ∷ [])

abbrev sized_paths : List SizedPath
sized_paths =
    record { path = numbered 1; size = 100 }
    ∷ record { path = numbered 2; size = 300 }
    ∷ record { path = numbered 3; size = 120 }
    ∷ []

select-IsBestGroup_example :
    IsBestGroup 2 sized_paths (select_sstables_for_compaction sized_paths 2)
select-IsBestGroup_example = select-IsBestGroup sized_paths 2

abbrev histogram : Histogram
histogram = record { samples = 9 ∷ 4 ∷ []; max_samples = 2 }
