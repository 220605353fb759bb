-- ===== src/Examples/Scans.antt =====
-- A scan of the engine over its memtables, and a compaction of two files.
use cityhall.Base.{false}
use cityhall.Base.{
  ℕ, ◌≡◌, refl, sym, ◌∙◌, subst, arith, List, [], ◌∷◌, some, All, get_elem?, ◌<◌, ◌≤◌, ◌^◌,
}
use cityhall.Types.{Entry, ok, ok_injective}
use cityhall.Types.Keys.{compare_keys}
use cityhall.Types.Tables.{numbered, compacted, DataDir, name_eq, find_table}
use cityhall.Types.Entries.{IsAscending}
use cityhall.Memtable.{range, scan_with_timestamps}
use cityhall.Sstable.Block.Size.{total_weight}
use cityhall.Sstable.Writer.{default_block_size, write_entries}
use cityhall.Sstable.Writer.Blocks.{IsTableEntry}
use cityhall.Sstable.Writer.Flush.{IsTable}
use cityhall.Sstable.Writer.RoundTrip.{open_table-write_entries}
use cityhall.Sstable.Reader
use cityhall.Compaction.{
  MergeState, merge_scans, merge_loop, pop, take_entry, initial_heap, initial_iterators,
}
use cityhall.Compaction.Start.{scans_of}
use cityhall.Compaction.Invariant.{IsCovered}
use cityhall.Engine.{OpenTable, open_path}
use cityhall.Engine.Scan.{collect, scan_tables, scan}
use cityhall.Engine.Scan.Covers.{scan_newest}
use cityhall.Engine.Compact.{is_among, CompactionStats, compact_sstables}
use cityhall.Engine.Compact.Newest.{
  Input, IsStored, paths_of_inputs, tables_of, compact_sstables_newest,
}
use cityhall.Examples.Instances.{test_buf, test_snappy, test_hasher, test_filters}
use cityhall.Examples.Engines.{
  key_k, newer_table, older_table, newer_entries-IsTable, waiting_engine, filters-IsUsable,
}

abbrev pub newer : Entry
newer = record { key = key_k; value = 2 ∷ []; timestamp = 6 }

abbrev pub older : Entry
older = record { key = key_k; value = 1 ∷ []; timestamp = 5 }

both_collected : collect waiting_engine [] (200 ∷ []) ≡ ok (newer ∷ older ∷ [])
unfolding collect scan_tables scan_with_timestamps range compare_keys
both_collected = refl

scan_newest_example :
    (found : List Entry) × (scan waiting_engine [] (200 ∷ []) ≡ ok found)
    × IsAscending found
    × All (IsCovered found) (newer ∷ older ∷ [])
    × ((P : Entry → Type 0) → All P (newer ∷ older ∷ []) → All P found)
scan_newest_example = scan_newest waiting_engine [] (200 ∷ []) (newer ∷ older ∷ []) both_collected

pub older_entries-IsTable : IsTable older_table.entries
older_entries-IsTable = record {
  ascending = tt;
  entries_fit = (
    record { key_fits = omega arith; value_fits = omega arith; timestamp_fits = omega arith },
    tt,
  );
  small = omega arith;
}

pub written_file :
    (entries : List Entry)
    → IsTable entries
    → (file : List ℕ) × (write_entries default_block_size test_filters.num_bits
          test_filters.num_hash_functions entries
        ≡ ok file)
written_file entries fits =
    let (file, r, written, opened, reads, scans) =
      open_table-write_entries default_block_size test_filters.num_bits
        test_filters.num_hash_functions entries test_filters.placeholder (omega arith) (omega arith)
        (omega arith) fits in
    (file, written)

abbrev pub older_input : Input
older_input = record { path = numbered 1; entries = older_table.entries }

abbrev newer_input : Input
newer_input = record { path = numbered 2; entries = newer_table.entries }

abbrev pub two_files : DataDir
two_files =
    record { path = numbered 1; bytes = (written_file older_table.entries older_entries-IsTable).0 }
    ∷ record {
      path = numbered 2;
      bytes = (written_file newer_table.entries newer_entries-IsTable).0;
    }
    ∷ []

pub older-IsStored : IsStored two_files older_input
unfolding find_table name_eq compare_keys
older-IsStored = record {
  file = (written_file older_table.entries older_entries-IsTable).0;
  is_there = refl;
  was_written = (written_file older_table.entries older_entries-IsTable).1;
  fits = older_entries-IsTable;
  filled = omega arith;
  reached = (refl, tt);
}

newer-IsStored : IsStored two_files newer_input
unfolding find_table name_eq compare_keys
newer-IsStored = record {
  file = (written_file newer_table.entries newer_entries-IsTable).0;
  is_there = refl;
  was_written = (written_file newer_table.entries newer_entries-IsTable).1;
  fits = newer_entries-IsTable;
  filled = omega arith;
  reached = (refl, tt);
}

abbrev inputs : List Input
inputs = older_input ∷ newer_input ∷ []

abbrev merged : MergeState
merged = record {
  heap = [];
  positions = 1 ∷ 1 ∷ [];
  written = newer ∷ [];
  entries_merged = 1;
  duplicates_removed = 1;
  last_key = some key_k;
}

it_merges : merge_scans (scans_of (tables_of inputs)) ≡ ok merged
unfolding merge_scans merge_loop pop take_entry initial_heap initial_iterators compare_keys
it_merges = refl

merged_fits :
    (s : MergeState)
    → merge_scans (scans_of (tables_of inputs)) ≡ ok s
    → All IsTableEntry s.written × (total_weight s.written < 2 ^ 30)
merged_fits s h =
    subst (λ m. All IsTableEntry m.written × (total_weight m.written < 2 ^ 30))
      (ok_injective merged s (sym it_merges ∙ h)) (newer_entries-IsTable.entries_fit, omega arith)

compacted_is_new : is_among (compacted 3) (paths_of_inputs inputs) ≡ false
unfolding name_eq
compacted_is_new = refl

compact_sstables_newest_example :
    (dir' : DataDir) × (stats : CompactionStats) × (t : OpenTable) × (compact_sstables
        (paths_of_inputs inputs)
        (compacted 3)
        two_files
      ≡ (dir', ok stats))
    × (open_path (compacted 3) dir' ≡ ok t)
    × ((id : ℕ) (entries : List Entry) (i : ℕ) (e : Entry)
        → get_elem? (tables_of inputs) id ≡ some entries
        → get_elem? entries i ≡ some e
        → (w : Entry) × (Reader.get t.reader e.key ≡ ok (some (w.value, w.timestamp)))
          × (e.timestamp ≤ w.timestamp))
compact_sstables_newest_example =
    compact_sstables_newest two_files inputs (compacted 3) filters-IsUsable
      (older-IsStored, (newer-IsStored, tt)) compacted_is_new merged_fits
