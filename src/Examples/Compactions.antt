-- ===== src/Examples/Compactions.antt =====
-- A compaction of one of two files, where the other one is the newest table, and one of files that
-- are cut short.
use cityhall.Base.{ℕ, ◌≡◌, refl, ◌∙◌, arith, List, [], ◌∷◌, ◌++◌, some, none, false, true}
use cityhall.Types.{Entry, OpType, ok, err, io, ErrorKind}
use cityhall.Types.Keys.{compare_keys}
use cityhall.Types.Tables.{numbered, compacted, DataDir, find_table, name_eq}
use cityhall.Types.Entries.{find_key}
use cityhall.Memtable
use cityhall.Sstable.Writer.{default_block_size}
use cityhall.Sstable.Writer.Flush.{IsTable}
use cityhall.Sstable.Writer.RoundTrip.{open_table-write_entries}
use cityhall.Sstable.Reader
use cityhall.Sstable.Reader.{open_table, read_header, SsTableReader, value_and_timestamp}
use cityhall.Compaction.{
  MergeState, merge_scans, merge_loop, pop, take_entry, initial_heap, initial_iterators, SizedPath,
  select_sstables_for_compaction, sort_by_size, insert_by_size, best_group_of, group_from,
}
use cityhall.Compaction.Start.{scans_of}
use cityhall.Engine.{StorageEngine, OpenTable, get, open_path}
use cityhall.Wal.Log.{Holds}
use cityhall.Wal.Runs.{new_empty-Holds}
use cityhall.Engine.Put.{put}
use cityhall.Engine.Compact.Failing.{IsDue, put_failing}
use cityhall.Engine.Compact.{
  is_listed, is_among, retain_others, compact_sstables_sync, compact_sstables, open_all, paths_of,
}
use cityhall.Engine.Compact.Newest.{Input, paths_of_inputs, tables_of}
use cityhall.Engine.Compact.Stale.{get-compact_sstables_sync_stale}
use cityhall.Examples.Instances.{test_buf, test_crc, test_snappy, test_hasher, test_filters}
use cityhall.Examples.Engines.{
  moment, key_k, engine, newer_table, older_table, newer_entries-IsTable, filters-IsUsable,
}
use cityhall.Examples.Scans.{older, older_input, two_files, older-IsStored, older_entries-IsTable}

table_reader :
    (entries : List Entry)
    → IsTable entries
    → (r : SsTableReader) × ((key : List ℕ)
        → Reader.get r key ≡ ok (value_and_timestamp (find_key key entries)))
table_reader entries fits =
    let (file, r, written, opened, reads, scans) =
      open_table-write_entries default_block_size test_filters.num_bits
        test_filters.num_hash_functions entries test_filters.placeholder (omega arith) (omega arith)
        (omega arith) fits in
    (r, reads)

abbrev oldest : OpenTable
oldest = record {
  path = numbered 1;
  reader = (table_reader older_table.entries older_entries-IsTable).0;
}

abbrev newest : OpenTable
newest = record {
  path = numbered 2;
  reader = (table_reader newer_table.entries newer_entries-IsTable).0;
}

newest_answers : Reader.get newest.reader key_k ≡ ok (some (2 ∷ [], 6))
newest_answers =
    (table_reader newer_table.entries newer_entries-IsTable).1 key_k
    ∙ (unfold find_key compare_keys in refl)

abbrev two_tables : StorageEngine
two_tables = record engine {
  memtable = Memtable.new 50;
  sstables = oldest ∷ newest ∷ [];
  data_dir = two_files;
  sstable_counter = 3;
}

abbrev compacted_inputs : List Input
compacted_inputs = older_input ∷ []

abbrev merged : MergeState
merged = record {
  heap = [];
  positions = 1 ∷ [];
  written = older ∷ [];
  entries_merged = 1;
  duplicates_removed = 0;
  last_key = some key_k;
}

it_merges : merge_scans (scans_of (tables_of compacted_inputs)) ≡ ok merged
unfolding merge_scans merge_loop pop take_entry initial_heap initial_iterators compare_keys
it_merges = refl

older_is_written : find_key key_k merged.written ≡ some older
unfolding find_key compare_keys
older_is_written = refl

not_in_memory : Memtable.get (Memtable.new 50) key_k ≡ none
unfolding Memtable.get find_key
not_in_memory = refl

stays : is_among (numbered 2) (paths_of_inputs compacted_inputs) ≡ false
unfolding name_eq
stays = refl

output_is_new : is_among (compacted 3) (paths_of_inputs compacted_inputs) ≡ false
unfolding name_eq
output_is_new = refl

output_is_unlisted : is_listed (compacted 3) (oldest ∷ newest ∷ []) ≡ false
unfolding name_eq
output_is_unlisted = refl

get-compact_sstables_sync_stale_example :
    (e' : StorageEngine) × (t : OpenTable) × (compact_sstables_sync
        (paths_of_inputs compacted_inputs)
        two_tables
      ≡ (e', ok tt))
    × (e'.sstables
        ≡ retain_others (paths_of_inputs compacted_inputs) (oldest ∷ []) ++ newest ∷ t ∷ [])
    × (get two_tables key_k ≡ ok (some (2 ∷ [])))
    × (get e' key_k ≡ ok (some older.value))
get-compact_sstables_sync_stale_example =
    get-compact_sstables_sync_stale two_tables compacted_inputs merged (oldest ∷ []) newest key_k
      (2 ∷ []) 6 older filters-IsUsable (older-IsStored, tt) output_is_new output_is_unlisted
      it_merges older_entries-IsTable older_is_written not_in_memory refl refl stays newest_answers
      (omega arith)

-- Four files without a byte.
abbrev cut_files : DataDir
cut_files =
    record { path = numbered 1; bytes = [] }
    ∷ record { path = numbered 2; bytes = [] }
    ∷ record { path = numbered 3; bytes = [] }
    ∷ record { path = numbered 4; bytes = [] }
    ∷ []

abbrev cut_engine : StorageEngine
cut_engine = record engine { data_dir = cut_files; sstable_counter = 5; compaction_enabled = true }

abbrev other_paths : List SizedPath
other_paths =
    record { path = numbered 2; size = 0 }
    ∷ record { path = numbered 3; size = 0 }
    ∷ record { path = numbered 4; size = 0 }
    ∷ []

cut-IsDue : IsDue 2000 cut_engine (record { path = numbered 1; size = 0 }) other_paths
unfolding select_sstables_for_compaction sort_by_size insert_by_size best_group_of group_from
cut-IsDue = record { quiet = refl; enabled = refl; due = refl; many = refl; selected = refl }

cut_fails :
    compact_sstables
      (paths_of (record { path = numbered 1; size = 0 } ∷ other_paths))
      (compacted 5)
      cut_files
    ≡ (cut_files, err (io ErrorKind.unexpected_eof))
unfolding compact_sstables open_all open_path find_table name_eq open_table read_header
cut_fails = refl

put_failing_example :
    (e' : StorageEngine) × (put (moment 2) key_k (3 ∷ []) cut_engine
      ≡ (e', err (io ErrorKind.unexpected_eof)))
    × ((j : List ℕ) → get e' j ≡ get cut_engine j)
    × Holds e'.wal ((OpType.put, record { key = key_k; value = 3 ∷ []; timestamp = 2 }) ∷ [])
put_failing_example =
    put_failing (moment 2) key_k (3 ∷ []) cut_engine [] (record { path = numbered 1; size = 0 })
      other_paths cut_files (io ErrorKind.unexpected_eof)
      (record { sizes = omega arith; timestamp_fits = omega arith }) (new_empty-Holds 30) cut-IsDue
      refl cut_fails
