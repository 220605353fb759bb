-- ===== src/Examples/Engines.antt =====
-- Runs of the storage engine.
use cityhall.Base.{ℕ, ◌*◌, ◌≡◌, refl, arith, List, [], ◌∷◌, none, some, true, false, All}
use cityhall.Types.{ok}
use cityhall.Types.Keys.{compare_keys}
use cityhall.Types.Entries.{find_key}
use cityhall.Memtable
use cityhall.Memtable.{MemTable}
use cityhall.Wal
use cityhall.Sstable.Writer.Flush.{IsTable}
use cityhall.Engine.{StorageEngine, get, flush_memtable_sync}
use cityhall.Engine.Flush.{IsUsable, get-flush_memtable_sync, get-flush_memtable_sync_stale}
use cityhall.Types.{Entry}
use cityhall.Engine.Background.{check_flush_completion, flush_thread_turn}
use cityhall.Engine.Put.{Moment}
use cityhall.Engine.Runs.{Event, write, thread_turn, map_after, run}
use cityhall.Engine.Start.{new_with_config, with_compaction}
use cityhall.Engine.Coherence.Wait.{IsSettled}
use cityhall.Engine.Coherence.Run.{IsServable}
use cityhall.Engine.Coherence.Start.{get-run, settle-run}
use cityhall.Examples.Instances.{test_buf, test_crc, test_snappy, test_hasher, test_filters}

abbrev pub key_k : List ℕ
key_k = 107 ∷ []

abbrev pub newer_table : MemTable
newer_table = record {
  entries = record { key = key_k; value = 2 ∷ []; timestamp = 6 } ∷ [];
  size_bytes = 50;
  max_size = 50;
}

abbrev pub older_table : MemTable
older_table = record {
  entries = record { key = key_k; value = 1 ∷ []; timestamp = 5 } ∷ [];
  size_bytes = 50;
  max_size = 50;
}

abbrev pub engine : StorageEngine
engine = record {
  wal = Wal.new [] 30;
  memtable = newer_table;
  immutable_memtable = none;
  sstables = [];
  memtable_max_size = 50;
  data_dir = [];
  sstable_counter = 1;
  flush_tx = [];
  flush_rx = [];
  flush_thread_runs = true;
  background_flush_enabled = true;
  compaction_enabled = true;
  last_compaction_check = 0;
}

abbrev pub waiting_engine : StorageEngine
waiting_engine = record engine { immutable_memtable = some older_table }

pub newer_entries-IsTable : IsTable newer_table.entries
newer_entries-IsTable = record {
  ascending = tt;
  entries_fit = (
    record { key_fits = omega arith; value_fits = omega arith; timestamp_fits = omega arith },
    tt,
  );
  small = omega arith;
}

found_newer : Memtable.get newer_table key_k ≡ some (2 ∷ [])
unfolding Memtable.get find_key compare_keys
found_newer = refl

found_older : Memtable.get older_table key_k ≡ some (1 ∷ [])
unfolding Memtable.get find_key compare_keys
found_older = refl

pub filters-IsUsable : IsUsable test_filters
filters-IsUsable = record {
  some_bit = omega arith;
  bits_fit = omega arith;
  hashes_fit = omega arith;
}

get-flush_memtable_sync_example :
    (e' : StorageEngine) × (flush_memtable_sync engine ≡ (e', ok tt))
    × ((key : List ℕ) → get e' key ≡ get engine key)
get-flush_memtable_sync_example =
    get-flush_memtable_sync engine filters-IsUsable refl newer_entries-IsTable

get-flush_memtable_sync_stale_example :
    (e' : StorageEngine) × (flush_memtable_sync waiting_engine ≡ (e', ok tt))
    × (get waiting_engine key_k ≡ ok (some (2 ∷ [])))
    × (get e' key_k ≡ ok (some (1 ∷ [])))
get-flush_memtable_sync_stale_example =
    get-flush_memtable_sync_stale waiting_engine older_table key_k (2 ∷ []) (1 ∷ [])
      filters-IsUsable newer_entries-IsTable refl refl found_newer found_older

-- The flush thread takes a turn in each sleep.
abbrev pub moment : ℕ → Moment
moment n = record { seconds = n; instant = 1000 * n; turns = λ left. 1 }

-- Each of these puts fills the memtable.
abbrev events : List Event
events =
    write (moment 1) key_k (1 ∷ [])
    ∷ thread_turn
    ∷ write (moment 2) key_k (2 ∷ [])
    ∷ write (moment 3) (108 ∷ []) (3 ∷ [])
    ∷ []

events-IsServable : All IsServable events
events-IsServable = (
  (
    record { sizes = omega arith; timestamp_fits = omega arith },
    (1, omega arith, omega arith, omega arith),
  ),
  (
    tt,
    (
      (
        record { sizes = omega arith; timestamp_fits = omega arith },
        (1, omega arith, omega arith, omega arith),
      ),
      (
        (
          record { sizes = omega arith; timestamp_fits = omega arith },
          (1, omega arith, omega arith, omega arith),
        ),
        tt,
      ),
    ),
  ),
)

get-run_example :
    (e e' : StorageEngine) × (new_with_config [] [] 50 (Wal.new [] 30) true 0 ≡ ok e)
    × (run events (with_compaction e false) ≡ (e', ok tt))
    × ((key : List ℕ) → get e' key ≡ ok (map_after events (λ _. none) key))
get-run_example =
    get-run 50 0 (Wal.new [] 30) events filters-IsUsable (omega arith) events-IsServable

settle-run_example :
    (e e' e'' : StorageEngine) × (new_with_config [] [] 50 (Wal.new [] 30) true 0 ≡ ok e)
    × (run events (with_compaction e false) ≡ (e', ok tt))
    × (check_flush_completion (flush_thread_turn e') ≡ (e'', ok tt))
    × IsSettled e''
    × ((key : List ℕ) → get e'' key ≡ get e' key)
settle-run_example =
    settle-run 50 0 (Wal.new [] 30) events filters-IsUsable (omega arith) events-IsServable

abbrev puts : List (ℕ × Entry)
puts =
    (10, record { key = key_k; value = 1 ∷ []; timestamp = 5 })
    ∷ (20, record { key = key_k; value = 2 ∷ 3 ∷ []; timestamp = 6 })
    ∷ []
