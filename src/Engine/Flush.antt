-- ===== src/Engine/Flush.antt =====
-- What a flush of a memtable does to reads, in src/storage_engine.rs.
use cityhall.Base.{
  ℕ, ◌^◌, ◌<◌, ◌≡◌, refl, ap, List, [], ◌∷◌, ◌++◌, none, some, Option-cases, Bool-cases, inl, inr,
  false,
}
use cityhall.Types.{ok}
use cityhall.Types.Bytes.{Buf}
use cityhall.Types.Tables.{TableName, numbered, DataDir, find_table-write_table, write_table}
use cityhall.Types.Entries.{find_key}
use cityhall.Memtable
use cityhall.Memtable.{MemTable}
use cityhall.Sstable.Snappy.{Snappy}
use cityhall.Sstable.Bloom.{KeyHasher}
use cityhall.Sstable.Writer.{default_block_size}
use cityhall.Sstable.Writer.Flush.{IsTable}
use cityhall.Sstable.Writer.RoundTrip.{open_table-write_entries}
use cityhall.Sstable.Reader
use cityhall.Sstable.Reader.{value_and_timestamp}
use cityhall.Engine.{
  StorageEngine, OpenTable, FilterConfig, newest_first, get_tables, get, open_path,
  flush_memtable_to_disk, flush_memtable_sync, next_id, cleanup_wal_after_flush,
}

-- Sizes that a filter can have.
pub record IsUsable (filters : FilterConfig) : Type 0 where
  pub some_bit : 0 < filters.num_bits
  pub bits_fit : filters.num_bits < 2 ^ 32
  pub hashes_fit : filters.num_hash_functions < 2 ^ 32

pub newest_first-append :
    (sstables : List OpenTable) (t : OpenTable)
    → newest_first (sstables ++ t ∷ []) ≡ t ∷ newest_first sstables
unfolding newest_first
newest_first-append [] t = refl
newest_first-append (x ∷ sstables) t = ap (λ l. l ++ x ∷ []) (newest_first-append sstables t)

module _ ⦃buf : Buf⦄ ⦃snappy : Snappy⦄ ⦃hasher : KeyHasher⦄ where
  -- A table that answers as a memtable does.
  abbrev pub Answers : OpenTable → MemTable → Type 0
  Answers t m =
      (key : List ℕ) → Reader.get t.reader key ≡ ok (value_and_timestamp (find_key key m.entries))

  -- A memtable, the immutable one that waits behind it, and the same reads once the latter is a
  -- table, the newest one.
  pub get-completed :
      (e : StorageEngine) (m : MemTable) (t : OpenTable) (key : List ℕ)
      → e.immutable_memtable ≡ some m
      → Answers t m
      → get
          (cleanup_wal_after_flush
            (record e { sstables = e.sstables ++ t ∷ []; immutable_memtable = none }))
          key
        ≡ get e key
  unfolding get Memtable.get find_key get_tables
  get-completed e m t key waits answers = elim (Option-cases (find_key key m.entries)) [
    | inl absent ↦
        let answer : Reader.get t.reader key ≡ ok (value_and_timestamp (find_key key m.entries)) =
          answers key in
        let a = rw absent at answer in rw (waits, absent, newest_first-append e.sstables t, a)
    | inr (x, present) ↦
        let answer : Reader.get t.reader key ≡ ok (value_and_timestamp (find_key key m.entries)) =
          answers key in
        let a = rw present at answer in rw (waits, present, newest_first-append e.sstables t, a)
  ]

  abbrev flushed : StorageEngine → OpenTable → DataDir → StorageEngine
  flushed e t dir = cleanup_wal_after_flush (record e {
    memtable = Memtable.new e.memtable_max_size;
    sstable_counter = next_id e;
    data_dir = dir;
    sstables = e.sstables ++ t ∷ [];
  })

  get-flushed :
      (e : StorageEngine) (t : OpenTable) (dir : DataDir) (key : List ℕ)
      → e.immutable_memtable ≡ none
      → Answers t e.memtable
      → get (flushed e t dir) key ≡ get e key
  unfolding get Memtable.get find_key get_tables
  get-flushed e t dir key none_waiting answers =
      elim (Option-cases (find_key key e.memtable.entries)) [
        | inl absent ↦
            let answer : Reader.get t.reader key
                ≡ ok (value_and_timestamp (find_key key e.memtable.entries)) =
              answers key in
            let a = rw absent at answer in
            rw (none_waiting, absent, newest_first-append e.sstables t, a)
        | inr (x, present) ↦
            let answer : Reader.get t.reader key
                ≡ ok (value_and_timestamp (find_key key e.memtable.entries)) =
              answers key in
            let a = rw present at answer in
            rw (none_waiting, present, newest_first-append e.sstables t, a)
      ]

  module _ ⦃filters : FilterConfig⦄ where
    -- A memtable that fits a table is written, and its file opens and answers as the memtable.
    pub flush_memtable_to_disk-Answers :
        (m : MemTable) (path : TableName) (dir : DataDir)
        → IsUsable filters
        → IsTable m.entries
        → Memtable.is_empty m ≡ false
        → (dir' : DataDir) × (t : OpenTable) × (flush_memtable_to_disk m path dir ≡ ok dir')
          × (open_path path dir' ≡ ok t)
          × Answers t m
    unfolding flush_memtable_to_disk open_path
    flush_memtable_to_disk-Answers m path dir usable fits filled =
        let (file, r, written, opened, reads, scans) =
          open_table-write_entries default_block_size filters.num_bits filters.num_hash_functions
            m.entries filters.placeholder usable.some_bit usable.bits_fit usable.hashes_fit fits in
        (
          write_table path file dir,
          record { path = path; reader = r },
          rw (filled, written),
          rw (find_table-write_table path file dir, opened),
          reads,
        )

    -- Where no other memtable waits to be flushed and the entries of the memtable fit a table, a
    -- synchronous flush succeeds, and every read returns what it returned before.
    pub get-flush_memtable_sync :
        (e : StorageEngine)
        → IsUsable filters
        → e.immutable_memtable ≡ none
        → IsTable e.memtable.entries
        → (e' : StorageEngine) × (flush_memtable_sync e ≡ (e', ok tt))
          × ((key : List ℕ) → get e' key ≡ get e key)
    unfolding flush_memtable_sync
    get-flush_memtable_sync e usable none_waiting fits =
        elim (Bool-cases (Memtable.is_empty e.memtable)) [
          | inl empty ↦ (e, rw empty refl, λ key. refl)
          | inr filled ↦
              let (dir, t, written, opened, answers) =
                flush_memtable_to_disk-Answers e.memtable (numbered e.sstable_counter) e.data_dir
                  usable fits filled in
              (
                flushed e t dir,
                rw (filled, written, opened) refl,
                λ key. get-flushed e t dir key none_waiting answers,
              )
        ]

    -- Where an older memtable still waits to be flushed, both memtables have a key, and the
    -- entries of the newer one fit a table, a synchronous flush makes reads of the key go back
    -- from the newer value to the older one.
    pub get-flush_memtable_sync_stale :
        (e : StorageEngine) (m : MemTable) (key newer older : List ℕ)
        → IsUsable filters
        → IsTable e.memtable.entries
        → Memtable.is_empty e.memtable ≡ false
        → e.immutable_memtable ≡ some m
        → Memtable.get e.memtable key ≡ some newer
        → Memtable.get m key ≡ some older
        → (e' : StorageEngine) × (flush_memtable_sync e ≡ (e', ok tt))
          × (get e key ≡ ok (some newer))
          × (get e' key ≡ ok (some older))
    unfolding flush_memtable_sync get
    get-flush_memtable_sync_stale e m key newer older usable fits filled waits has has_old =
        let (dir, t, written, opened, answers) =
          flush_memtable_to_disk-Answers e.memtable (numbered e.sstable_counter) e.data_dir usable
            fits filled in
        let nothing : Memtable.get (Memtable.new e.memtable_max_size) key ≡ none =
          unfold Memtable.get find_key in refl in
        (
          flushed e t dir,
          rw (filled, written, opened) refl,
          rw has refl,
          rw (nothing, waits, has_old) refl,
        )
