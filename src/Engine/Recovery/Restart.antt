-- ===== src/Engine/Recovery/Restart.antt =====
-- A restart of the engine of src/storage_engine.rs from the log that it wrote.
use cityhall.Base.{ℕ, [], none, true}
use cityhall.Types.Bytes.{Buf}
use cityhall.Memtable
use cityhall.Memtable.{MemTable}
use cityhall.Wal
use cityhall.Wal.{Wal}
use cityhall.Wal.Record.{Crc32}
use cityhall.Sstable.Snappy.{Snappy}
use cityhall.Sstable.Bloom.{KeyHasher}
use cityhall.Engine.{StorageEngine, FilterConfig}

module _ ⦃buf : Buf⦄ ⦃crc : Crc32⦄ where
  module _ ⦃snappy : Snappy⦄ ⦃hasher : KeyHasher⦄ ⦃filters : FilterConfig⦄ where
    -- An engine on empty directories.
    abbrev first_engine : ℕ → ℕ → ℕ → StorageEngine
    first_engine buffer_size max_size now = record {
      wal = Wal.new [] buffer_size;
      memtable = Memtable.new max_size;
      immutable_memtable = none;
      sstables = [];
      data_dir = [];
      memtable_max_size = max_size;
      sstable_counter = 1;
      flush_tx = [];
      flush_rx = [];
      flush_thread_runs = true;
      background_flush_enabled = true;
      compaction_enabled = true;
      last_compaction_check = now;
    }
