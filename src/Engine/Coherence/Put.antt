-- ===== src/Engine/Coherence/Put.antt =====
-- `put` of src/storage_engine.rs with the background flush: each put changes reads of its key only.
use cityhall.Base.{Bool}
use cityhall.Base.{
  ℕ, suc, ◌+◌, ◌≤◌, ◌<◌, ◌≡◌, refl, ◌∙◌, arith, List, [], ◌∷◌, length, some, Option, false,
  Bool-cases, inl, inr, All, if◌then◌else◌,
}
use cityhall.Types.{Entry, ok}
use cityhall.Types.Bytes.{Buf}
use cityhall.Types.Keys.{key_eq, key_lt}
use cityhall.Memtable
use cityhall.Memtable.{MemTable, insert_entry, value_of, value_size_of, entry_overhead}
use cityhall.Memtable.Lookup.{find_key-insert_entry}
use cityhall.Memtable.Order.{put-IsAscending}
use cityhall.Memtable.Size.{put-IsAccounted}
use cityhall.Wal.{Wal}
use cityhall.Wal.Record.RoundTrip.{IsLoggable}
use cityhall.Sstable.Snappy.{Snappy}
use cityhall.Sstable.Bloom.{KeyHasher}
use cityhall.Sstable.Writer.Blocks.{IsTableEntry}
use cityhall.Engine.{StorageEngine, FilterConfig, get}
use cityhall.Engine.Background.{max_wait}
use cityhall.Engine.Put.{Moment}
use cityhall.Engine.Runs.{updated}
use cityhall.Engine.Coherence.{FlushPhase, idle, queued, written, Coherent}
use cityhall.Engine.Coherence.HandOver.{HasRoom}

insert_entry-All :
    (e : Entry) (entries : List Entry)
    → IsTableEntry e
    → All IsTableEntry entries
    → All IsTableEntry (insert_entry e entries)
unfolding insert_entry
insert_entry-All e [] fits all = (fits, tt)
insert_entry-All e (x ∷ entries) fits (first, all) = elim (Bool-cases (key_lt e.key x.key)) [
  | inl before ↦ rw before (fits, (first, all))
  | inr after ↦ elim (Bool-cases (key_eq e.key x.key)) [
    | inl same ↦ rw (after, same) (fits, all)
    | inr other ↦ rw (after, other) (first, insert_entry-All e entries fits all)
  ]
]

insert_entry_filled :
    (e : Entry) (entries : List Entry) → (n : ℕ) × (length (insert_entry e entries) ≡ suc n)
unfolding insert_entry
insert_entry_filled e [] = (0, refl)
insert_entry_filled e (x ∷ entries) = elim (Bool-cases (key_lt e.key x.key)) [
  | inl before ↦ (suc (length entries), rw before refl)
  | inr after ↦ elim (Bool-cases (key_eq e.key x.key)) [
    | inl same ↦ (length entries, rw (after, same) refl)
    | inr other ↦ (length (insert_entry e entries), rw (after, other) refl)
  ]
]

module _ (m : MemTable) (key value : List ℕ) (timestamp : ℕ) where
  pub put_grows :
      (Memtable.put m key value timestamp).0.size_bytes
      ≤ m.size_bytes + (length key + length value + entry_overhead)
  unfolding Memtable.put
  put_grows = ground arith

  pub put_room :
      (Memtable.put m key value timestamp).1 ≡ false
      → (Memtable.put m key value timestamp).0.size_bytes ≤ m.max_size
  unfolding Memtable.put
  put_room h = ground arith

  pub put_filled : Memtable.is_empty (Memtable.put m key value timestamp).0 ≡ false
  unfolding Memtable.put
  put_filled =
      let (n, long) =
        insert_entry_filled (record { key = key; value = value; timestamp = timestamp })
          m.entries in
      rw long (ground arith)

  get-put_value :
      (j : List ℕ)
      → Memtable.get (Memtable.put m key value timestamp).0 j
        ≡ (if key_eq j key then some value else Memtable.get m j)
  unfolding Memtable.get Memtable.put
  get-put_value j =
      rw
        (find_key-insert_entry j (record { key = key; value = value; timestamp = timestamp })
          m.entries)
        (elim (Bool-cases (key_eq j key)) [ inl same ↦ rw same refl | inr other ↦ rw other refl ])

abbrev pub with_value : StorageEngine → List ℕ → List ℕ → ℕ → StorageEngine
with_value e key value timestamp = record e {
  memtable = (Memtable.put e.memtable key value timestamp).0;
}

-- The flush thread takes a turn in some sleep of the wait but the last.
abbrev pub IsPrompt : Moment → Type 0
IsPrompt now = (i : ℕ) × (0 < i) × (i < max_wait) × (0 < now.turns i)

module _ ⦃buf : Buf⦄ ⦃snappy : Snappy⦄ ⦃hasher : KeyHasher⦄ ⦃filters : FilterConfig⦄ where
  -- The flush does not depend on the log and the memtable.
  other-FlushPhase :
      (e : StorageEngine) (wal : Wal) (m : MemTable)
      → FlushPhase e
      → FlushPhase (record e { wal = wal; memtable = m })
  other-FlushPhase e wal m (idle i tx rx) = idle i tx rx
  other-FlushPhase e wal m (queued m' old path id i same fits filled tx rx) =
      queued m' old path id i same fits filled tx rx
  other-FlushPhase e wal m (written m' t r i tx rx opened answers) =
      written m' t r i tx rx opened answers

  module _ {Keeps : Bool → ℕ → Type 0} where
    -- Nor does what is read depend on the log.
    pub wal-Coherent :
        (e : StorageEngine) (map_of : List ℕ → Option (List ℕ)) (wal : Wal)
        → Coherent Keeps e map_of
        → Coherent Keeps (record e { wal = wal }) map_of
    unfolding get
    wal-Coherent e map_of wal c = record {
      reads = c.reads;
      phase = other-FlushPhase e wal e.memtable c.phase;
      ascending = c.ascending;
      entries_fit = c.entries_fit;
      accounted = c.accounted;
      near_limit = c.near_limit;
      same_limit = c.same_limit;
      small_limit = c.small_limit;
      thread_runs = c.thread_runs;
      in_background = c.in_background;
      keeps = c.keeps;
    }

  get-with_value :
      (e : StorageEngine) (key value : List ℕ) (timestamp : ℕ) (j : List ℕ)
      → get (with_value e key value timestamp) j
        ≡ (if key_eq j key then ok (some value) else get e j)
  unfolding get
  get-with_value e key value timestamp j =
      rw (get-put_value e.memtable key value timestamp j)
        (elim (Bool-cases (key_eq j key)) [ inl same ↦ rw same refl | inr other ↦ rw other refl ])

  module _ {Keeps : Bool → ℕ → Type 0} where
    pub with_value-Coherent :
        (e : StorageEngine) (map_of : List ℕ → Option (List ℕ)) (key value : List ℕ) (timestamp : ℕ)
        → IsLoggable (record { key = key; value = value; timestamp = timestamp })
        → HasRoom e
        → Coherent Keeps e map_of
        → Coherent Keeps (with_value e key value timestamp) (updated key value map_of)
    unfolding Memtable.put
    with_value-Coherent e map_of key value timestamp fits room c = record {
      reads = λ j. get-with_value e key value timestamp j ∙ elim (Bool-cases (key_eq j key)) [
        | inl same ↦ rw same refl
        | inr other ↦ rw other (c.reads j)
      ];
      phase = other-FlushPhase e e.wal (Memtable.put e.memtable key value timestamp).0 c.phase;
      ascending = put-IsAscending e.memtable key value timestamp c.ascending;
      entries_fit =
          insert_entry-All (record { key = key; value = value; timestamp = timestamp })
            e.memtable.entries
            (record {
              key_fits = omega (arith, fits.sizes);
              value_fits = omega (arith, fits.sizes);
              timestamp_fits = fits.timestamp_fits;
            })
            c.entries_fit;
      accounted = put-IsAccounted e.memtable key value timestamp c.ascending c.accounted;
      near_limit = omega (arith, put_grows e.memtable key value timestamp, fits.sizes, room);
      same_limit = c.same_limit;
      small_limit = c.small_limit;
      thread_runs = c.thread_runs;
      in_background = c.in_background;
      keeps = c.keeps;
    }
