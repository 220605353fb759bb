-- ===== src/Engine/Compact/Failing.antt =====
-- `put` of src/storage_engine.rs when the compaction that it starts fails.
use cityhall.Base.{ℕ, ◌-◌, ◌≡◌, refl, List, [], ◌∷◌, ◌++◌, length, ltb, true, false}
use cityhall.Types.{Entry, OpType, StorageError, err}
use cityhall.Types.Bytes.{Buf}
use cityhall.Types.Tables.{DataDir, compacted}
use cityhall.Wal
use cityhall.Wal.Record.{Crc32}
use cityhall.Wal.Record.RoundTrip.{IsLoggable}
use cityhall.Wal.Log.{Log, Holds}
use cityhall.Wal.Log.Append.{append_operation-Holds}
use cityhall.Sstable.Snappy.{Snappy}
use cityhall.Sstable.Bloom.{KeyHasher}
use cityhall.Compaction.{SizedPath, select_sstables_for_compaction}
use cityhall.Engine.{StorageEngine, FilterConfig, get, next_id}
use cityhall.Engine.Background.{check_flush_completion, complete_all}
use cityhall.Engine.Compact.{
  sized_paths, paths_of, is_listed, in_directory, compact_sstables, compact_sstables_sync,
  maybe_compact, check_and_compact,
}
use cityhall.Engine.Compact.Newest.{in_directory_other}
use cityhall.Engine.Put.{Moment, put}

module _ ⦃buf : Buf⦄ ⦃snappy : Snappy⦄ ⦃hasher : KeyHasher⦄ ⦃filters : FilterConfig⦄ where
  -- When a compaction is due in an engine without results of the flush thread.
  pub record IsDue (instant : ℕ) (e : StorageEngine) (p : SizedPath) (paths : List SizedPath)
      : Type 0 where
    pub quiet : e.flush_rx ≡ []
    pub enabled : e.compaction_enabled ≡ true
    pub due : ltb (instant - e.last_compaction_check) 1000 ≡ false
    pub many : ltb (length e.data_dir) 4 ≡ false
    pub selected : select_sstables_for_compaction (sized_paths e.data_dir) 4 ≡ p ∷ paths

  abbrev failed : ℕ → DataDir → StorageEngine → StorageEngine
  failed instant dir e = record e {
    flush_rx = [];
    data_dir = dir;
    last_compaction_check = instant;
    sstable_counter = next_id e;
  }

  check_and_compact_fails :
      (instant : ℕ) (e : StorageEngine) (p : SizedPath) (paths : List SizedPath) (dir : DataDir)
      (x : StorageError)
      → IsDue instant e p paths
      → is_listed (compacted e.sstable_counter) e.sstables ≡ false
      → compact_sstables (paths_of (p ∷ paths)) (compacted e.sstable_counter) e.data_dir
        ≡ (dir, err x)
      → check_and_compact instant e ≡ (failed instant dir e, err x)
  unfolding check_and_compact check_flush_completion complete_all maybe_compact
      compact_sstables_sync
  check_and_compact_fails instant e p paths dir x h unlisted fails =
      let e1 : StorageEngine = record e {
        flush_rx = [];
        last_compaction_check = instant;
        sstable_counter = next_id e;
        compaction_enabled = true;
      } in
      let same : in_directory (compacted e.sstable_counter) dir e1 ≡ record e1 { data_dir = dir } =
        in_directory_other (compacted e.sstable_counter) dir e1 unlisted in
      rw (h.quiet, h.enabled, h.due, h.many, h.selected, fails, same) refl

  module _ ⦃crc : Crc32⦄ where
    -- Where a compaction is due whose output has a name that no table has, and it fails, a put of
    -- an entry that fits the log reports the error and every read returns what it returned before,
    -- but the log holds the entry.
    pub put_failing :
        (now : Moment) (key value : List ℕ) (e : StorageEngine) (log : Log) (p : SizedPath)
        (paths : List SizedPath) (dir : DataDir) (x : StorageError)
        → IsLoggable (record { key = key; value = value; timestamp = now.seconds })
        → Holds e.wal log
        → IsDue now.instant e p paths
        → is_listed (compacted e.sstable_counter) e.sstables ≡ false
        → compact_sstables (paths_of (p ∷ paths)) (compacted e.sstable_counter) e.data_dir
          ≡ (dir, err x)
        → (e' : StorageEngine) × (put now key value e ≡ (e', err x))
          × ((j : List ℕ) → get e' j ≡ get e j)
          × Holds e'.wal (
              log
              ++ (OpType.put, record { key = key; value = value; timestamp = now.seconds }) ∷ [])
    unfolding put get
    put_failing now key value e log p paths dir x fits h due unlisted fails =
        let entry : Entry = record { key = key; value = value; timestamp = now.seconds } in
        let (accepted, holds) = append_operation-Holds OpType.put entry e.wal log fits h in
        let e1 : StorageEngine = record e { wal = (Wal.append entry e.wal).0 } in
        let due1 : IsDue now.instant e1 p paths = record {
          quiet = due.quiet;
          enabled = due.enabled;
          due = due.due;
          many = due.many;
          selected = due.selected;
        } in
        (
          failed now.instant dir e1,
          rw (accepted, check_and_compact_fails now.instant e1 p paths dir x due1 unlisted fails)
              refl,
          λ j. refl,
          holds,
        )
