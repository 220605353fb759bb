-- ===== src/Engine/Compact.antt =====
-- Compaction on files: `compact_sstables` of src/compaction.rs, and its use in src/storage_engine.rs.
pub mod Newest
pub mod Stale
pub mod Failing
use cityhall.Base.{
  ℕ, ◌+◌, ◌-◌, ◌%◌, ◌^◌, List, [], ◌∷◌, ◌++◌, length, ltb, if◌then◌else◌, Bool, true, false, not,
  ◌||◌, Option, none, some, replicate,
}
use cityhall.Types.{Entry, Result, ok, err, panic, ◌>>=◌}
use cityhall.Types.Bytes.{Buf}
use cityhall.Types.Tables.{
  TableName, compacted, name_eq, TableFile, DataDir, find_table, write_table, remove_table,
}
use cityhall.Sstable.Header
use cityhall.Sstable.Snappy.{Snappy}
use cityhall.Sstable.Bloom.{KeyHasher}
use cityhall.Sstable.Writer.{default_block_size, write_entries}
use cityhall.Sstable.Reader
use cityhall.Compaction.{Scans, MergeState, merge_scans, SizedPath, select_sstables_for_compaction}
use cityhall.Engine.{StorageEngine, OpenTable, FilterConfig, Outcome, and_then, next_id, open_path}
use cityhall.Engine.Background.{check_flush_completion}

-- The duration is left out.
pub record CompactionStats : Type 0 where
  pub input_sstables : ℕ
  pub input_bytes : ℕ
  pub output_bytes : ℕ
  pub entries_merged : ℕ
  pub duplicates_removed : ℕ

-- The paths of the files with their sizes, as a directory lists them.
abbrev pub sized_paths : DataDir → List SizedPath
sized_paths [] = []
sized_paths (f ∷ dir) = record { path = f.path; size = length f.bytes } ∷ sized_paths dir

abbrev pub paths_of : List SizedPath → List TableName
paths_of [] = []
paths_of (p ∷ paths) = p.path ∷ paths_of paths

abbrev pub is_among : TableName → List TableName → Bool
is_among path [] = false
is_among path (p ∷ paths) = name_eq path p || is_among path paths

-- `retain` on the tables that were not compacted.
unfoldable pub retain_others : List TableName → List OpenTable → List OpenTable
unfolding name_eq
retain_others paths [] = []
retain_others paths (t ∷ sstables) =
    let rest = retain_others paths sstables in if is_among t.path paths then rest else t ∷ rest

unfoldable pub remove_all : List TableName → DataDir → DataDir
unfolding remove_table
remove_all [] dir = dir
remove_all (path ∷ paths) dir = remove_all paths (remove_table path dir)

abbrev pub input_size : List OpenTable → ℕ
input_size [] = 0
input_size (t ∷ readers) = length t.reader.file + input_size readers

abbrev pub is_listed : TableName → List OpenTable → Bool
is_listed path [] = false
is_listed path (t ∷ readers) = name_eq path t.path || is_listed path readers

-- The readers of a file have it open: after the file was written again they read the new bytes, by
-- the index that they have loaded.
unfoldable pub reread : TableName → List ℕ → List OpenTable → List OpenTable
unfolding name_eq
reread path bytes [] = []
reread path bytes (t ∷ readers) =
    let rest = reread path bytes readers in
    if name_eq path t.path
    then record t { reader = record t.reader { file = bytes } } ∷ rest
    else t ∷ rest

-- The readers of a directory with a file that was written.
abbrev pub reread_from : TableName → Option (List ℕ) → List OpenTable → List OpenTable
reread_from path none readers = readers
reread_from path (some bytes) readers = reread path bytes readers

-- The engine in a directory where a compaction has written its output.
unfoldable pub in_directory : TableName → DataDir → StorageEngine → StorageEngine
unfolding find_table reread
in_directory output_path dir e = record e {
  data_dir = dir;
  sstables = reread_from output_path (find_table output_path dir) e.sstables;
}

-- A scan that failed is a warning; a panic goes on.
abbrev pub scan_or_warn : Result (List Entry) → Result (Option (List Entry))
scan_or_warn (ok entries) = ok (some entries)
scan_or_warn (err x) = ok none
scan_or_warn panic = panic

-- The end of the scan of a whole table.
abbrev pub last_scanned : List ℕ
last_scanned = replicate 1024 255

module _ ⦃buf : Buf⦄ ⦃snappy : Snappy⦄ where
  unfoldable pub scan_all : List OpenTable → Result Scans
  scan_all [] = ok []
  scan_all (t ∷ readers) = do
    entries ← scan_or_warn (Reader.scan t.reader [] last_scanned)
    more ← scan_all readers
    ok (entries ∷ more)

  module _ ⦃hasher : KeyHasher⦄ ⦃filters : FilterConfig⦄ where
    unfoldable pub open_all : List TableName → DataDir → Result (List OpenTable)
    open_all [] dir = ok []
    open_all (path ∷ paths) dir = do
      t ← open_path path dir
      readers ← open_all paths dir
      ok (t ∷ readers)

    -- `merge_sstables` behind the creation of its output: what was merged, and the file.
    unfoldable pub merge_sstables : List OpenTable → Result (MergeState × List ℕ)
    merge_sstables readers = do
      scans ← scan_all readers
      merged ← merge_scans scans
      file ←
          write_entries default_block_size filters.num_bits filters.num_hash_functions
            merged.written
      ok (merged, file)

    abbrev pub finish_output :
        ℕ
        → ℕ
        → TableName
        → DataDir
        → Result (MergeState × List ℕ)
        → DataDir × Result CompactionStats
    finish_output inputs bytes output_path dir (ok (merged, file)) = (
      write_table output_path file dir,
      ok (record {
        input_sstables = inputs;
        input_bytes = bytes;
        output_bytes = length file;
        entries_merged = merged.entries_merged;
        duplicates_removed = merged.duplicates_removed;
      }),
    )
    finish_output inputs bytes output_path dir (err x) = (dir, err x)
    finish_output inputs bytes output_path dir panic = (dir, panic)

    -- The output is created, with a header to be overwritten, before the inputs are scanned: an
    -- input of the same name is emptied. The file stays where the merge fails; the blocks that a
    -- failed merge has written by then are left out.
    abbrev pub merge_opened :
        List TableName
        → TableName
        → DataDir
        → Result (List OpenTable)
        → DataDir × Result CompactionStats
    merge_opened input_paths output_path dir (ok readers) =
        finish_output (length input_paths) (input_size readers) output_path
          (write_table output_path (Header.encode Header.new) dir)
          (merge_sstables (reread output_path (Header.encode Header.new) readers))
    merge_opened input_paths output_path dir (err x) = (dir, err x)
    merge_opened input_paths output_path dir panic = (dir, panic)

    -- `compact_sstables`: the directory that it leaves, and the statistics.
    unfoldable pub compact_sstables :
        List TableName → TableName → DataDir → DataDir × Result CompactionStats
    compact_sstables input_paths output_path dir =
        merge_opened input_paths output_path dir (open_all input_paths dir)

    -- The compacted table takes the place of its inputs: at the end of the list.
    abbrev pub replace_inputs : List TableName → StorageEngine → Result OpenTable → Outcome
    replace_inputs input_paths e (ok t) = (
      record e {
        sstables = retain_others input_paths e.sstables ++ t ∷ [];
        data_dir = remove_all input_paths e.data_dir;
      },
      ok tt,
    )
    replace_inputs input_paths e (err x) = (e, err x)
    replace_inputs input_paths e panic = (e, panic)

    abbrev pub after_compaction :
        List TableName → TableName → StorageEngine → DataDir × Result CompactionStats → Outcome
    after_compaction input_paths output_path e (dir, ok stats) =
        replace_inputs input_paths (in_directory output_path dir e) (open_path output_path dir)
    after_compaction input_paths output_path e (dir, err x) =
        (in_directory output_path dir e, err x)
    after_compaction input_paths output_path e (dir, panic) =
        (in_directory output_path dir e, panic)

    -- `compact_sstables_sync`, up to the line that it prints.
    unfoldable pub compact_sstables_sync : List TableName → StorageEngine → Outcome
    compact_sstables_sync input_paths e =
        after_compaction input_paths (compacted e.sstable_counter)
          (record e { sstable_counter = next_id e })
          (compact_sstables input_paths (compacted e.sstable_counter) e.data_dir)

    abbrev pub compact_selected : List SizedPath → StorageEngine → Outcome
    compact_selected [] e = (e, ok tt)
    compact_selected (p ∷ paths) e = compact_sstables_sync (paths_of (p ∷ paths)) e

    -- `maybe_compact` at an instant: at most once in a second.
    unfoldable pub maybe_compact : ℕ → StorageEngine → Outcome
    maybe_compact now e =
        if not e.compaction_enabled
        then (e, ok tt)
        else if ltb (now - e.last_compaction_check) 1000
        then (e, ok tt)
        else if ltb (length e.data_dir) 4
        then (record e { last_compaction_check = now }, ok tt)
        else compact_selected (select_sstables_for_compaction (sized_paths e.data_dir) 4)
            (record e { last_compaction_check = now })

    unfoldable pub force_compact : ℕ → StorageEngine → Outcome
    force_compact now e = maybe_compact now (record e { last_compaction_check = now - 10000 })

    unfoldable pub check_and_compact : ℕ → StorageEngine → Outcome
    check_and_compact now e = and_then (check_flush_completion e) (maybe_compact now)
