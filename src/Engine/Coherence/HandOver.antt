-- ===== src/Engine/Coherence/HandOver.antt =====
-- The hand-over of a full memtable to the flush thread in src/storage_engine.rs.
use cityhall.Base.{Bool}
use cityhall.Base.{
  ℕ, ◌≤◌, ◌<◌, ◌≡◌, refl, arith, List, [], ◌∷◌, none, some, Option, false, Option-cases, inl, inr,
}
use cityhall.Types.{Entry, ok}
use cityhall.Types.Bytes.{Buf}
use cityhall.Types.Tables.{numbered}
use cityhall.Types.Entries.{find_key}
use cityhall.Memtable
use cityhall.Memtable.{MemTable, put_all}
use cityhall.Memtable.Order.{put_all-new}
use cityhall.Memtable.Size.{total}
use cityhall.Sstable.Snappy.{Snappy}
use cityhall.Sstable.Bloom.{KeyHasher}
use cityhall.Sstable.Block.Size.{total_weight}
use cityhall.Sstable.Writer.Flush.{IsTable}
use cityhall.Engine.{StorageEngine, flush, FilterConfig, get, next_id}
use cityhall.Engine.Flush.{IsUsable}
use cityhall.Engine.Background.{hand_over, trigger_background_flush, max_wait}
use cityhall.Engine.Coherence.{queued, Coherent}
use cityhall.Engine.Coherence.Wait.{IsSettled, wait-Settles}

total_weight-le-total : (entries : List Entry) → total_weight entries ≤ total entries
total_weight-le-total [] = omega arith
total_weight-le-total (e ∷ entries) = omega (arith, total_weight-le-total entries)

-- There is room in the memtable.
abbrev pub HasRoom : StorageEngine → Type 0
HasRoom e = e.memtable.size_bytes ≤ e.memtable_max_size

module _ ⦃buf : Buf⦄ ⦃snappy : Snappy⦄ ⦃hasher : KeyHasher⦄ ⦃filters : FilterConfig⦄ where
  module _ {Keeps : Bool → ℕ → Type 0} where
    Coherent-IsTable :
        (e : StorageEngine) (map_of : List ℕ → Option (List ℕ))
        → Coherent Keeps e map_of
        → IsTable e.memtable.entries
    Coherent-IsTable e map_of c = record {
      ascending = c.ascending;
      entries_fit = c.entries_fit;
      small = omega (
        arith,
        c.accounted.covers,
        c.near_limit,
        c.small_limit,
        total_weight-le-total e.memtable.entries,
      );
    }

  abbrev handed_over : StorageEngine → StorageEngine
  handed_over e = record e {
    memtable = Memtable.new e.memtable_max_size;
    sstable_counter = next_id e;
    immutable_memtable = some (put_all (Memtable.new e.memtable_max_size) e.memtable.entries);
    flush_tx = flush e.memtable (numbered e.sstable_counter) e.sstable_counter ∷ [];
  }

  module _ {Keeps : Bool → ℕ → Type 0} where
    get-handed_over :
        (e : StorageEngine) (map_of : List ℕ → Option (List ℕ)) (key : List ℕ)
        → Coherent Keeps e map_of
        → e.immutable_memtable ≡ none
        → get (handed_over e) key ≡ get e key
    unfolding get Memtable.get find_key
    get-handed_over e map_of key c settled =
        rw (put_all-new e.memtable_max_size e.memtable.entries c.ascending, settled)
          (elim (Option-cases (find_key key e.memtable.entries)) [
            | inl absent ↦ rw absent refl
            | inr (x, present) ↦ rw present refl
          ])

    hand_over-Coherent :
        (e : StorageEngine) (map_of : List ℕ → Option (List ℕ))
        → Coherent Keeps e map_of
        → IsSettled e
        → Memtable.is_empty e.memtable ≡ false
        → (hand_over e ≡ (handed_over e, ok tt)) × Coherent Keeps (handed_over e) map_of
    unfolding hand_over
    hand_over-Coherent e map_of c (none_waits, tx, rx) filled = (
      rw (c.thread_runs, tx) refl,
      record {
        reads = λ key. rw (get-handed_over e map_of key c none_waits) (c.reads key);
        phase =
            queued _ e.memtable _ e.sstable_counter refl
              (put_all-new e.memtable_max_size e.memtable.entries c.ascending)
              (Coherent-IsTable e map_of c) filled refl rx;
        ascending = tt;
        entries_fit = tt;
        accounted = record { covers = omega arith };
        near_limit = omega arith;
        same_limit = refl;
        small_limit = c.small_limit;
        thread_runs = c.thread_runs;
        in_background = c.in_background;
        keeps = c.keeps;
      },
    )

    -- Where the thread takes a turn in time, a full memtable goes to the thread, an empty one takes its
    -- place, and reads stay as they are.
    pub trigger-Coherent :
        (turns : ℕ → ℕ) (i : ℕ) (e : StorageEngine) (map_of : List ℕ → Option (List ℕ))
        → IsUsable filters
        → Coherent Keeps e map_of
        → Memtable.is_empty e.memtable ≡ false
        → 0 < i
        → i < max_wait
        → 0 < turns i
        → (e' : StorageEngine) × (trigger_background_flush turns e ≡ (e', ok tt))
          × Coherent Keeps e' map_of
          × HasRoom e'
    unfolding trigger_background_flush
    trigger-Coherent turns i e map_of usable c filled pos below turn =
        let (e', waited, (c', settled, memtable)) =
          wait-Settles turns max_wait i e map_of usable c pos below turn in
        let filled' : Memtable.is_empty e'.memtable ≡ false = rw memtable filled in
        let (handed, c'') = hand_over-Coherent e' map_of c' settled filled' in
        (handed_over e', rw (waited, settled.0, handed) refl, c'', omega arith)
