-- ===== src/Engine.antt =====
-- The storage engine of src/storage_engine.rs: its state, reads, and the flush of the memtable. The
-- sizes of the filters, which are computed in floating point, are parameters; metrics are left out.
-- The channels to and from the flush thread are the lists of what was sent and not yet received.
pub mod Flush
pub mod Background
pub mod Compact
pub mod Put
pub mod Scan
pub mod Start
pub mod Runs
pub mod Recovery
pub mod Coherence
use cityhall.Base.{
  ℕ, ◌+◌, ◌%◌, ◌^◌, List, [], ◌∷◌, ◌++◌, length, if◌then◌else◌, Bool, Option, none, some,
}
use cityhall.Types.{ErrorKind, Result, ok, err, panic, io, corrupted_data, StorageError, ◌>>=◌}
use cityhall.Types.Bytes.{Buf}
use cityhall.Types.Tables.{TableName, numbered, DataDir, find_table, write_table}
use cityhall.Memtable
use cityhall.Memtable.{MemTable}
use cityhall.Wal.{Wal, mark_flushed, cleanup_old_segments}
use cityhall.Sstable.Snappy.{Snappy}
use cityhall.Sstable.Bloom.{BloomFilter, KeyHasher}
use cityhall.Sstable.Writer.{default_block_size, write_entries}
use cityhall.Sstable.Reader
use cityhall.Sstable.Reader.{SsTableReader, open_table}

-- The sizes of the filters that a writer makes, and the filter of a table that has none.
pub record FilterConfig : Type 0 where
  pub num_bits : ℕ
  pub num_hash_functions : ℕ
  pub placeholder : BloomFilter

-- `FlushMessage`.
pub data FlushMessage : Type 0 where
  flush : (memtable : MemTable) (path : TableName) (sstable_id : ℕ) → FlushMessage
  shutdown : FlushMessage

pub record FlushResult : Type 0 where
  pub sstable_id : ℕ
  pub path : TableName

-- A reader, and the path of its file.
pub record OpenTable : Type 0 where
  pub path : TableName
  pub reader : SsTableReader

-- The engine, the table files, and the flush thread: whether it runs, what it has not received, and
-- what was not received from it. An instant is a number of milliseconds.
pub record StorageEngine : Type 0 where
  pub wal : Wal
  pub memtable : MemTable
  pub immutable_memtable : Option MemTable
  pub sstables : List OpenTable
  pub data_dir : DataDir
  pub memtable_max_size : ℕ
  pub sstable_counter : ℕ
  pub flush_tx : List FlushMessage
  pub flush_rx : List FlushResult
  pub flush_thread_runs : Bool
  pub background_flush_enabled : Bool
  pub compaction_enabled : Bool
  pub last_compaction_check : ℕ

-- An operation's new state, and its outcome.
abbrev pub Outcome : Type 0
Outcome = StorageEngine × Result (Unit {0})

-- The `?` operator between two operations: a failed one keeps the state that it left.
abbrev pub and_then : Outcome → (StorageEngine → Outcome) → Outcome
and_then (e, ok done) next = next e
and_then (e, err x) next = (e, err x)
and_then (e, panic) next = (e, panic)

-- `iter_mut().rev()`
unfoldable pub newest_first : List OpenTable → List OpenTable
newest_first [] = []
newest_first (t ∷ sstables) = newest_first sstables ++ t ∷ []

-- The value of a table, or the search in the older ones: also behind a corrupted table.
abbrev pub or_older :
    Result (Option (List ℕ × ℕ)) → Result (Option (List ℕ)) → Result (Option (List ℕ))
or_older (ok (some (value, timestamp))) older = ok (some value)
or_older (ok none) older = older
or_older (err corrupted_data) older = older
or_older (err e) older = err e
or_older panic older = panic

abbrev pub or_else : Option (List ℕ) → Result (Option (List ℕ)) → Result (Option (List ℕ))
or_else (some value) more = ok (some value)
or_else none more = more

abbrev pub get_immutable : Option MemTable → List ℕ → Option (List ℕ)
get_immutable none key = none
get_immutable (some m) key = Memtable.get m key

-- The number after the last one, as `fetch_add` counts.
abbrev pub next_id : StorageEngine → ℕ
next_id e = (e.sstable_counter + 1) % 2 ^ 64

abbrev pub cleanup_wal_after_flush : StorageEngine → StorageEngine
cleanup_wal_after_flush e = record e { wal = cleanup_old_segments (mark_flushed e.wal) 0 }

-- A table that was opened goes to the end of the list, and the log is cleaned up.
abbrev pub add_table : StorageEngine → Result OpenTable → Outcome
add_table e (ok t) = (cleanup_wal_after_flush (record e { sstables = e.sstables ++ t ∷ [] }), ok tt)
add_table e (err x) = (e, err x)
add_table e panic = (e, panic)

module _ ⦃buf : Buf⦄ ⦃snappy : Snappy⦄ ⦃hasher : KeyHasher⦄ where
  unfoldable pub get_tables : List OpenTable → List ℕ → Result (Option (List ℕ))
  get_tables [] key = ok none
  get_tables (t ∷ sstables) key = or_older (Reader.get t.reader key) (get_tables sstables key)

  -- The memtable, the immutable one, and the tables from the newest on.
  unfoldable pub get : StorageEngine → List ℕ → Result (Option (List ℕ))
  unfolding get_tables newest_first
  get e key =
      or_else (Memtable.get e.memtable key) (
        or_else (get_immutable e.immutable_memtable key) (get_tables (newest_first e.sstables) key))

  module _ ⦃filters : FilterConfig⦄ where
    abbrev pub open_bytes : TableName → Option (List ℕ) → Result OpenTable
    open_bytes path none = err (io ErrorKind.not_found)
    open_bytes path (some bytes) =
        open_table filters.placeholder bytes >>= λ r. ok (record { path = path; reader = r })

    -- `SsTableReader::open` on a path.
    unfoldable pub open_path : TableName → DataDir → Result OpenTable
    unfolding find_table
    open_path path dir = open_bytes path (find_table path dir)

    -- `flush_memtable_to_disk`; an empty memtable makes no file.
    unfoldable pub flush_memtable_to_disk : MemTable → TableName → DataDir → Result DataDir
    unfolding write_table
    flush_memtable_to_disk m path dir = if Memtable.is_empty m then ok dir else do
      file ← write_entries default_block_size filters.num_bits filters.num_hash_functions m.entries
      ok (write_table path file dir)

    abbrev pub after_write : StorageEngine → TableName → Result DataDir → Outcome
    after_write e path (ok dir) = add_table (record e { data_dir = dir }) (open_path path dir)
    after_write e path (err x) = (e, err x)
    after_write e path panic = (e, panic)

    -- The memtable is replaced before the file is written.
    unfoldable pub flush_memtable_sync : StorageEngine → Outcome
    flush_memtable_sync e =
        if Memtable.is_empty e.memtable
        then (e, ok tt)
        else after_write
            (record e { memtable = Memtable.new e.memtable_max_size; sstable_counter = next_id e })
            (numbered e.sstable_counter)
            (flush_memtable_to_disk e.memtable (numbered e.sstable_counter) e.data_dir)
