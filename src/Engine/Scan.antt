-- ===== src/Engine/Scan.antt =====
-- `scan`, `stats` and the disk usage of src/storage_engine.rs.
pub mod Newest
pub mod Covers
use cityhall.Base.{
  ℕ, ◌+◌, List, [], ◌∷◌, ◌++◌, length, Ordering, compare, if◌then◌else◌, Option, none, some,
}
use cityhall.Types.{Entry, Result, ok, ◌>>=◌}
use cityhall.Types.Bytes.{Buf}
use cityhall.Types.Keys.{compare_keys, key_eq, is_gt}
use cityhall.Types.Tables.{TableName, DataDir, find_table}
use cityhall.Memtable
use cityhall.Memtable.{MemTable, scan_with_timestamps}
use cityhall.Wal
use cityhall.Wal.Dir.{total_size}
use cityhall.Sstable.Snappy.{Snappy}
use cityhall.Sstable.Reader
use cityhall.Compaction.{then_compare}
use cityhall.Engine.{StorageEngine, OpenTable}

-- By keys, and of equal keys the newer entry first.
abbrev pub compare_results : Entry → Entry → Ordering
compare_results a b = then_compare (compare_keys a.key b.key) (compare b.timestamp a.timestamp)

-- `sort_by`, which keeps the order of equal entries.
unfoldable pub insert_result : Entry → List Entry → List Entry
insert_result x [] = x ∷ []
insert_result x (y ∷ results) =
    let rest = insert_result x results in
    if is_gt (compare_results x y) then y ∷ rest else x ∷ y ∷ results

unfoldable pub sort_results : List Entry → List Entry
unfolding insert_result
sort_results [] = []
sort_results (x ∷ results) = insert_result x (sort_results results)

-- `dedup_by`: what has the key of the entry before it goes.
unfoldable pub dedup_from : List ℕ → List Entry → List Entry
dedup_from key [] = []
dedup_from key (x ∷ results) =
    let rest = dedup_from x.key results in if key_eq x.key key then rest else x ∷ rest

unfoldable pub dedup : List Entry → List Entry
unfolding dedup_from
dedup [] = []
dedup (x ∷ results) = x ∷ dedup_from x.key results

abbrev pub scan_immutable : Option MemTable → List ℕ → List ℕ → Result (List Entry)
scan_immutable none start stop = ok []
scan_immutable (some m) start stop = scan_with_timestamps m start stop

abbrev pub len_immutable : Option MemTable → ℕ
len_immutable none = 0
len_immutable (some m) = Memtable.len m

-- A file that is gone counts nothing.
abbrev pub file_length : Option (List ℕ) → ℕ
file_length none = 0
file_length (some bytes) = length bytes

-- What `update_disk_usage` sets the gauge to: the table files in use, and the log.
unfoldable pub tables_size : List OpenTable → DataDir → ℕ
unfolding find_table
tables_size [] dir = 0
tables_size (t ∷ sstables) dir = file_length (find_table t.path dir) + tables_size sstables dir

unfoldable pub disk_usage : StorageEngine → ℕ
unfolding tables_size total_size
disk_usage e = tables_size e.sstables e.data_dir + total_size e.wal.dir

pub record EngineStats : Type 0 where
  pub memtable_entries : ℕ
  pub memtable_bytes : ℕ
  pub num_sstables : ℕ
  pub immutable_memtable_entries : ℕ

abbrev pub stats : StorageEngine → EngineStats
stats e = record {
  memtable_entries = Memtable.len e.memtable;
  memtable_bytes = e.memtable.size_bytes;
  num_sstables = length e.sstables;
  immutable_memtable_entries = len_immutable e.immutable_memtable;
}

module _ ⦃buf : Buf⦄ ⦃snappy : Snappy⦄ where
  unfoldable pub scan_tables : List OpenTable → List ℕ → List ℕ → Result (List Entry)
  scan_tables [] start stop = ok []
  scan_tables (t ∷ sstables) start stop = do
    found ← Reader.scan t.reader start stop
    more ← scan_tables sstables start stop
    ok (found ++ more)

  -- What all sources have, the memtable first and then the tables from the oldest on.
  unfoldable pub collect : StorageEngine → List ℕ → List ℕ → Result (List Entry)
  collect e start stop = do
    recent ← scan_with_timestamps e.memtable start stop
    waiting ← scan_immutable e.immutable_memtable start stop
    stored ← scan_tables e.sstables start stop
    ok (recent ++ (waiting ++ stored))

  unfoldable pub scan : StorageEngine → List ℕ → List ℕ → Result (List Entry)
  scan e start stop = collect e start stop >>= λ results. ok (dedup (sort_results results))
