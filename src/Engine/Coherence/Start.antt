-- ===== src/Engine/Coherence/Start.antt =====
-- Runs of the engine of src/storage_engine.rs from its first start on.
use cityhall.Base.{inl, Bool, true, false}
use cityhall.Base.{ℕ, ◌^◌, ◌<◌, ◌≡◌, refl, sym, ◌∙◌, arith, List, [], none, true, false, All}
use cityhall.Types.{ok}
use cityhall.Types.Bytes.{Buf}
use cityhall.Memtable
use cityhall.Memtable.{put_all}
use cityhall.Wal
use cityhall.Wal.{Wal, recover_files}
use cityhall.Wal.Dir.{sort_files}
use cityhall.Wal.Record.{Crc32}
use cityhall.Types.Entries.{find_key}
use cityhall.Sstable.Snappy.{Snappy}
use cityhall.Sstable.Bloom.{KeyHasher}
use cityhall.Engine.{StorageEngine, FilterConfig, get, get_tables, newest_first}
use cityhall.Engine.Flush.{IsUsable}
use cityhall.Engine.Start.{new_with_config, with_compaction, load_tables, sort_by_stem}
use cityhall.Engine.Runs.{Event, map_after, run}
use cityhall.Engine.Background.{check_flush_completion, flush_thread_turn}
use cityhall.Engine.Coherence.Wait.{IsSettled, settle-Coherent}
use cityhall.Engine.Coherence.{Coherent, idle}
use cityhall.Engine.Coherence.Run.{IsServable, run-Coherent}

module _ ⦃buf : Buf⦄ ⦃snappy : Snappy⦄ ⦃hasher : KeyHasher⦄ ⦃filters : FilterConfig⦄
    ⦃crc : Crc32⦄ where
  -- An engine on empty directories, with compaction off.
  abbrev pub quiet_engine : ℕ → ℕ → Wal → StorageEngine
  quiet_engine max_size now wal = record {
    wal = wal;
    memtable = Memtable.new max_size;
    immutable_memtable = none;
    sstables = [];
    data_dir = [];
    memtable_max_size = max_size;
    sstable_counter = 1;
    flush_tx = [];
    flush_rx = [];
    flush_thread_runs = true;
    background_flush_enabled = true;
    compaction_enabled = false;
    last_compaction_check = now;
  }

  start-quiet :
      (max_size now : ℕ) (wal : Wal)
      → new_with_config [] [] max_size wal true now
        ≡ ok (with_compaction (quiet_engine max_size now wal) true)
  unfolding new_with_config Wal.recover recover_files sort_files load_tables sort_by_stem put_all
  start-quiet max_size now wal = refl

  pub quiet-Coherent :
      (max_size now : ℕ) (wal : Wal)
      → max_size < 2 ^ 29
      → Coherent (λ enabled last. enabled ≡ false) (quiet_engine max_size now wal) (λ _. none)
  quiet-Coherent max_size now wal small = record {
    reads = λ key. unfold get get_tables newest_first Memtable.get find_key in refl;
    phase = idle refl refl refl;
    ascending = tt;
    entries_fit = tt;
    accounted = record { covers = omega arith };
    near_limit = omega arith;
    same_limit = refl;
    small_limit = small;
    thread_runs = refl;
    in_background = refl;
    keeps = refl;
  }

  -- A new engine, with what holds of its flag and its last check.
  pub started-Coherent :
      {Keeps : Bool → ℕ → Type 0}
      → (max_size now : ℕ) (wal : Wal) → max_size < 2 ^ 29
      → Keeps true now
      → Coherent Keeps (with_compaction (quiet_engine max_size now wal) true) (λ _. none)
  started-Coherent max_size now wal small kept = record {
    reads = λ key. unfold get get_tables newest_first Memtable.get find_key in refl;
    phase = idle refl refl refl;
    ascending = tt;
    entries_fit = tt;
    accounted = record { covers = omega arith };
    near_limit = omega arith;
    same_limit = refl;
    small_limit = small;
    thread_runs = refl;
    in_background = refl;
    keeps = kept;
  }

  -- Any sequence of puts, whose records fit the log, and of turns of the flush thread between
  -- them, from the first start of an engine on, with background flushes, without compaction, with
  -- a memtable limit below 512 MB, and with the thread taking a turn in time whenever a put waits
  -- for it, succeeds, however often the memtable is handed over; then every read returns the last
  -- value that was put under its key, and nothing for a key that was never put.
  pub get-run :
      (max_size now : ℕ) (wal : Wal) (events : List Event)
      → IsUsable filters
      → max_size < 2 ^ 29
      → All IsServable events
      → (e e' : StorageEngine) × (new_with_config [] [] max_size wal true now ≡ ok e)
        × (run events (with_compaction e false) ≡ (e', ok tt))
        × ((key : List ℕ) → get e' key ≡ ok (map_after events (λ _. none) key))
  get-run max_size now wal events usable small fits =
      let (e', ran, c', room) =
        run-Coherent events (quiet_engine max_size now wal) (λ _. none) usable fits (omega arith)
          (λ instant enabled last off. inl off) (quiet-Coherent max_size now wal small) in
      (
        with_compaction (quiet_engine max_size now wal) true,
        e',
        start-quiet max_size now wal,
        ran,
        c'.reads,
      )

  -- In whatever state such a run ends, one turn of the flush thread and one check of its results
  -- succeed, leave no memtable, message or result that waits, and every read returns what it
  -- returned before.
  pub settle-run :
      (max_size now : ℕ) (wal : Wal) (events : List Event)
      → IsUsable filters
      → max_size < 2 ^ 29
      → All IsServable events
      → (e e' e'' : StorageEngine) × (new_with_config [] [] max_size wal true now ≡ ok e)
        × (run events (with_compaction e false) ≡ (e', ok tt))
        × (check_flush_completion (flush_thread_turn e') ≡ (e'', ok tt))
        × IsSettled e''
        × ((key : List ℕ) → get e'' key ≡ get e' key)
  settle-run max_size now wal events usable small fits =
      let (e', ran, c', room) =
        run-Coherent events (quiet_engine max_size now wal) (λ _. none) usable fits (omega arith)
          (λ instant enabled last off. inl off) (quiet-Coherent max_size now wal small) in
      let (e'', checked, settled, c'') = settle-Coherent e' _ usable c' in
      (
        with_compaction (quiet_engine max_size now wal) true,
        e',
        e'',
        start-quiet max_size now wal,
        ran,
        checked,
        settled,
        λ key. c''.reads key ∙ sym (c'.reads key),
      )
