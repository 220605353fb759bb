-- ===== src/Engine/Background.antt =====
-- The background flush of src/storage_engine.rs: the flush thread, the hand-over of a full memtable
-- to it, and what becomes of its results. The two threads meet in the channels and in the files.
use cityhall.Base.{
  ℕ, zero, suc, List, [], ◌∷◌, ◌++◌, if◌then◌else◌, Bool, true, false, Option, none, some,
}
use cityhall.Types.{Result, ok, err, panic, channel_send}
use cityhall.Types.Bytes.{Buf}
use cityhall.Types.Tables.{TableName, numbered, DataDir}
use cityhall.Memtable
use cityhall.Memtable.{MemTable, put_all}
use cityhall.Sstable.Snappy.{Snappy}
use cityhall.Sstable.Bloom.{KeyHasher}
use cityhall.Engine.{
  StorageEngine, FlushMessage, flush, shutdown, FlushResult, OpenTable, FilterConfig, Outcome,
  and_then, next_id, cleanup_wal_after_flush, open_path, flush_memtable_to_disk,
  flush_memtable_sync,
}

abbrev pub max_wait : ℕ
max_wait = 100

abbrev pub is_waiting : Option MemTable → Bool
is_waiting none = false
is_waiting (some m) = true

-- What the flush thread does with the outcome of a write: an error is printed, a panic ends it.
abbrev pub report : StorageEngine → ℕ → TableName → Result DataDir → StorageEngine
report e sstable_id path (ok dir) = record e {
  data_dir = dir;
  flush_rx = e.flush_rx ++ record { sstable_id = sstable_id; path = path } ∷ [];
}
report e sstable_id path (err x) = e
report e sstable_id path panic = record e { flush_tx = []; flush_thread_runs = false }

-- A result of the flush thread: its table is added, and no memtable waits any longer.
abbrev pub complete : StorageEngine → Result OpenTable → Outcome
complete e (ok t) = (
  cleanup_wal_after_flush (record e { sstables = e.sstables ++ t ∷ []; immutable_memtable = none }),
  ok tt,
)
complete e (err x) = (e, err x)
complete e panic = (e, panic)

-- `send`, which fails once the thread is gone.
abbrev pub send : FlushMessage → StorageEngine → Outcome
send message e =
    if e.flush_thread_runs
    then (record e { flush_tx = e.flush_tx ++ message ∷ [] }, ok tt)
    else (e, err channel_send)

module _ ⦃buf : Buf⦄ ⦃snappy : Snappy⦄ ⦃hasher : KeyHasher⦄ ⦃filters : FilterConfig⦄ where
  abbrev pub receive : List FlushMessage → StorageEngine → StorageEngine
  receive [] e = e
  receive (flush memtable path sstable_id ∷ messages) e =
      report (record e { flush_tx = messages }) sstable_id path
        (flush_memtable_to_disk memtable path e.data_dir)
  receive (shutdown ∷ messages) e = record e { flush_tx = []; flush_thread_runs = false }

  -- A turn of the flush thread: it blocks while there is no message.
  unfoldable pub flush_thread_turn : StorageEngine → StorageEngine
  flush_thread_turn e = receive e.flush_tx e

  unfoldable pub run_flush_thread : ℕ → StorageEngine → StorageEngine
  run_flush_thread zero e = e
  run_flush_thread (suc turns) e = run_flush_thread turns (flush_thread_turn e)

  unfoldable pub complete_all : List FlushResult → StorageEngine → Outcome
  complete_all [] e = (e, ok tt)
  complete_all (r ∷ results) e =
      and_then (complete e (open_path r.path e.data_dir)) (λ e'. complete_all results e')

  -- All results are received first.
  unfoldable pub check_flush_completion : StorageEngine → Outcome
  check_flush_completion e = complete_all e.flush_rx (record e { flush_rx = [] })

  -- The loop of `trigger_background_flush`: `turns n` is how many turns the flush thread takes in
  -- the sleep behind which `n` more rounds are left.
  unfoldable pub wait_for_flush : (ℕ → ℕ) → ℕ → StorageEngine → Outcome
  wait_for_flush turns zero e = (e, ok tt)
  wait_for_flush turns (suc n) e =
      if is_waiting e.immutable_memtable
      then and_then (check_flush_completion e) (λ e'.
        wait_for_flush turns n
          (if is_waiting e'.immutable_memtable then run_flush_thread (turns n) e' else e'))
      else (e, ok tt)

  -- The hand-over: a copy of the memtable stays for reads.
  unfoldable pub hand_over : StorageEngine → Outcome
  hand_over e = send (flush e.memtable (numbered e.sstable_counter) e.sstable_counter) (record e {
    memtable = Memtable.new e.memtable_max_size;
    sstable_counter = next_id e;
    immutable_memtable = some (put_all (Memtable.new e.memtable_max_size) e.memtable.entries);
  })

  abbrev pub hand_over_or_flush : StorageEngine → Outcome
  hand_over_or_flush e =
      if is_waiting e.immutable_memtable then flush_memtable_sync e else hand_over e

  unfoldable pub trigger_background_flush : (ℕ → ℕ) → StorageEngine → Outcome
  trigger_background_flush turns e =
      and_then (wait_for_flush turns max_wait e) (λ e'. hand_over_or_flush e')
