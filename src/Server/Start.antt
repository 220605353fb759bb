-- ===== src/Server/Start.antt =====
-- The start of the server in src/commands/server.rs, on what a server before it has left.
use cityhall.Base.{ℕ, ◌*◌, ◌≡◌, refl, subst, ap, ◌∙◌, List, [], true, none, ◌+◌, ◌%◌, ◌^◌}
use cityhall.Types.{Entry, Result, ok}
use cityhall.Types.Bytes.{Buf}
use cityhall.Types.Tables.{DataDir}
use cityhall.Memtable
use cityhall.Memtable.{put_all}
use cityhall.Wal
use cityhall.Wal.{Wal}
use cityhall.Wal.Dir.{SegmentDir}
use cityhall.Wal.Record.{Crc32}
use cityhall.Wal.Record.Recovery.{entries_of}
use cityhall.Wal.Log.{Log, Holds, flush-Holds}
use cityhall.Wal.Log.Recover.{recover-Holds}
use cityhall.Wal.Runs.{crash-Holds, flushed_whole}
use cityhall.Sstable.Snappy.{Snappy}
use cityhall.Sstable.Bloom.{KeyHasher}
use cityhall.Engine.{get, get_tables, newest_first, or_else, StorageEngine, OpenTable, FilterConfig}
use cityhall.Engine.Start.{new_with_config, load_tables, sort_by_stem}

abbrev pub default_memtable_size : ℕ
default_memtable_size = 4 * 1024 * 1024

module _ ⦃buf : Buf⦄ ⦃snappy : Snappy⦄ ⦃hasher : KeyHasher⦄ ⦃filters : FilterConfig⦄
    ⦃crc : Crc32⦄ where
  -- The log is opened first, on the segments that are there, and the engine then recovers from the
  -- same directory: `Wal::new` on `wal` and `Wal::recover` on `data.wal` both take `wal_segments`
  -- next to these paths.
  unfoldable pub start_server : DataDir → SegmentDir → ℕ → ℕ → Result StorageEngine
  start_server tables segments wal_buffer_size now =
      let wal = Wal.new segments wal_buffer_size in
      new_with_config tables wal.dir default_memtable_size wal true now

  -- A log that is opened where one was dropped holds the same, and recovers it.
  reopened :
      (w : Wal) (log : Log) (size : ℕ)
      → Holds w log
      → Holds (Wal.new (Wal.flush w).dir size) log
        × (Wal.recover (Wal.new (Wal.flush w).dir size).dir ≡ ok (entries_of log))
  reopened w log size h =
      let (h1, empty) = flush-Holds w log h in
      let again : Holds (Wal.new (Wal.flush w).dir size) log =
        subst (Holds (Wal.new (Wal.flush w).dir size)) (flushed_whole (Wal.flush w) log h1 empty)
          (crash-Holds (Wal.flush w) log h1 size) in
      let nothing : (Wal.new (Wal.flush w).dir size).current_segment.buffer ≡ [] =
        unfold Wal.new in refl in
      (
        again,
        recover-Holds _ log again ∙ ap (λ l. ok (entries_of l)) (flushed_whole _ log again nothing),
      )

  -- The engine of a server that starts.
  abbrev started : DataDir → List OpenTable × ℕ → Wal → List Entry → ℕ → StorageEngine
  started tables loaded wal entries now = record {
    wal = wal;
    memtable = put_all (Memtable.new default_memtable_size) entries;
    immutable_memtable = none;
    sstables = sort_by_stem loaded.0;
    data_dir = tables;
    memtable_max_size = default_memtable_size;
    sstable_counter = (loaded.1 + 1) % 2 ^ 64;
    flush_tx = [];
    flush_rx = [];
    flush_thread_runs = true;
    background_flush_enabled = true;
    compaction_enabled = true;
    last_compaction_check = now;
  }

  -- A server that starts where a log was dropped, which flushes it, and where no table makes the
  -- reader panic: it starts; its log holds all operations of the one before; and a read finds what
  -- these operations, put one after the other into an empty memtable, leave under the key, and
  -- looks into the tables for any other key.
  pub start_server_recovers :
      (w : Wal) (log : Log) (tables : DataDir) (loaded : List OpenTable × ℕ)
      (wal_buffer_size now : ℕ)
      → Holds w log
      → load_tables tables tables ≡ ok loaded
      → (e : StorageEngine) × (start_server tables (Wal.flush w).dir wal_buffer_size now ≡ ok e)
        × Holds e.wal log
        × ((key : List ℕ)
            → get e key
              ≡ or_else
                  (Memtable.get (put_all (Memtable.new default_memtable_size) (entries_of log)) key)
                  (get_tables (newest_first (sort_by_stem loaded.0)) key))
  unfolding start_server new_with_config get
  start_server_recovers w log tables loaded wal_buffer_size now h loads =
      let (again, recovered) = reopened w log wal_buffer_size h in
      let e =
        started tables loaded (Wal.new (Wal.flush w).dir wal_buffer_size) (entries_of log) now in
      (e, rw (recovered, loads) refl, again, λ key. refl)
