-- ===== src/Engine/Coherence.antt =====
-- The memtables, the channels and the table files of src/storage_engine.rs while a flush runs in the
-- background: no turn of either thread changes what is read.
pub mod Wait
pub mod HandOver
pub mod Put
pub mod Run
pub mod Start
use cityhall.Base.{
  ℕ, zero, suc, ◌+◌, ◌^◌, ◌≤◌, ◌<◌, ◌≡◌, refl, sym, ap, ◌∙◌, subst, arith, List, [], ◌∷◌, ◌++◌,
  length, none, some, Option, Bool, true, false, Bool-cases, Option-cases, inl, inr, All,
  if◌then◌else◌,
}
use cityhall.Types.{Entry, ok}
use cityhall.Types.Bytes.{Buf}
use cityhall.Types.Tables.{TableName, numbered, DataDir}
use cityhall.Types.Entries.{IsAscending, find_key}
use cityhall.Memtable
use cityhall.Memtable.{MemTable, put_all}
use cityhall.Memtable.Order.{put_all-new}
use cityhall.Memtable.Size.{IsAccounted, total}
use cityhall.Sstable.Snappy.{Snappy}
use cityhall.Sstable.Bloom.{KeyHasher}
use cityhall.Sstable.Block.Size.{total_weight}
use cityhall.Sstable.Writer.Blocks.{IsTableEntry}
use cityhall.Sstable.Writer.Flush.{IsTable}
use cityhall.Engine.{
  StorageEngine, FlushMessage, flush, FlushResult, OpenTable, FilterConfig, and_then, get,
  get_tables, newest_first, open_path, flush_memtable_to_disk,
}
use cityhall.Engine.Flush.{IsUsable, Answers, get-completed, flush_memtable_to_disk-Answers}
use cityhall.Engine.Background.{
  is_waiting, flush_thread_turn, run_flush_thread, complete_all, check_flush_completion,
  wait_for_flush, hand_over,
}

module _ ⦃buf : Buf⦄ ⦃snappy : Snappy⦄ ⦃hasher : KeyHasher⦄ ⦃filters : FilterConfig⦄ where
  -- Where a background flush is: there is none; its message waits for the thread; its result waits
  -- for the engine.
  pub data FlushPhase (e : StorageEngine) : Type 0 where
    idle : e.immutable_memtable ≡ none → e.flush_tx ≡ [] → e.flush_rx ≡ [] → FlushPhase e
    queued :
        (m old : MemTable) (path : TableName) (id : ℕ)
        → e.immutable_memtable ≡ some m
        → m.entries ≡ old.entries
        → IsTable old.entries
        → Memtable.is_empty old ≡ false
        → e.flush_tx ≡ flush old path id ∷ []
        → e.flush_rx ≡ []
        → FlushPhase e
    written :
        (m : MemTable) (t : OpenTable) (r : FlushResult)
        → e.immutable_memtable ≡ some m
        → e.flush_tx ≡ []
        → e.flush_rx ≡ r ∷ []
        → open_path r.path e.data_dir ≡ ok t
        → Answers t m
        → FlushPhase e

  -- Reads return what a map does, and the memtable and the flush are in order.
  pub record Coherent (Keeps : Bool → ℕ → Type 0) (e : StorageEngine)
      (map_of : List ℕ → Option (List ℕ)) : Type 0 where
    pub reads : (key : List ℕ) → get e key ≡ ok (map_of key)
    pub phase : FlushPhase e
    pub ascending : IsAscending e.memtable.entries
    pub entries_fit : All IsTableEntry e.memtable.entries
    pub accounted : IsAccounted e.memtable
    pub near_limit : e.memtable.size_bytes ≤ e.memtable_max_size + 2 ^ 17
    pub same_limit : e.memtable.max_size ≡ e.memtable_max_size
    pub small_limit : e.memtable_max_size < 2 ^ 29
    pub thread_runs : e.flush_thread_runs ≡ true
    pub in_background : e.background_flush_enabled ≡ true
    pub keeps : Keeps e.compaction_enabled e.last_compaction_check

  module _ {Keeps : Bool → ℕ → Type 0} where
    -- What is read does not depend on the channels and the files.
    Coherent-channels :
        (e : StorageEngine) (map_of : List ℕ → Option (List ℕ)) (tx : List FlushMessage)
        (rx : List FlushResult) (dir : DataDir)
        → Coherent Keeps e map_of
        → FlushPhase (record e { flush_tx = tx; flush_rx = rx; data_dir = dir })
        → Coherent Keeps (record e { flush_tx = tx; flush_rx = rx; data_dir = dir }) map_of
    unfolding get
    Coherent-channels e map_of tx rx dir c phase = record {
      reads = c.reads;
      phase = phase;
      ascending = c.ascending;
      entries_fit = c.entries_fit;
      accounted = c.accounted;
      near_limit = c.near_limit;
      same_limit = c.same_limit;
      small_limit = c.small_limit;
      thread_runs = c.thread_runs;
      in_background = c.in_background;
      keeps = c.keeps;
    }

  pub turn-idle : (e : StorageEngine) → e.flush_tx ≡ [] → flush_thread_turn e ≡ e
  unfolding flush_thread_turn
  turn-idle e h = rw h

  module _ {Keeps : Bool → ℕ → Type 0} where
    -- A turn on a message that waits takes it.
    pub turn-queued :
        (e : StorageEngine) (map_of : List ℕ → Option (List ℕ)) (m old : MemTable)
        (path : TableName) (id : ℕ)
        → IsUsable filters
        → Coherent Keeps e map_of
        → e.immutable_memtable ≡ some m
        → m.entries ≡ old.entries
        → IsTable old.entries
        → Memtable.is_empty old ≡ false
        → e.flush_tx ≡ flush old path id ∷ []
        → e.flush_rx ≡ []
        → Coherent Keeps (flush_thread_turn e) map_of
          × ((flush_thread_turn e).flush_tx ≡ [])
          × ((flush_thread_turn e).immutable_memtable ≡ some m)
          × ((flush_thread_turn e).memtable ≡ e.memtable)
    unfolding flush_thread_turn
    turn-queued e map_of m old path id usable c i same fits filled tx rx =
        let (dir, t, done, opened, answers) =
          flush_memtable_to_disk-Answers old path e.data_dir usable fits filled in
        let r : FlushResult = record { sstable_id = id; path = path } in
        rw (tx, done, rx)
          (
            Coherent-channels e map_of [] (r ∷ []) dir c
                (written m t r i refl refl opened (rw same answers)),
            refl,
            i,
            refl,
          )

    -- A turn of the thread leaves reads as they are.
    pub turn-Coherent :
        (e : StorageEngine) (map_of : List ℕ → Option (List ℕ))
        → IsUsable filters
        → Coherent Keeps e map_of
        → Coherent Keeps (flush_thread_turn e) map_of
    turn-Coherent e map_of usable c = by_phase c.phase
      where
        by_phase : FlushPhase e → Coherent Keeps (flush_thread_turn e) map_of
        by_phase (idle i tx rx) = rw (turn-idle e tx) c
        by_phase (written m t r i tx rx opened answers) = rw (turn-idle e tx) c
        by_phase (queued m old path id i same fits filled tx rx) =
            (turn-queued e map_of m old path id usable c i same fits filled tx rx).0
