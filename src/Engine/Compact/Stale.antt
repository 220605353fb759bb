-- ===== src/Engine/Compact/Stale.antt =====
-- A compaction in src/storage_engine.rs next to a table that it leaves alone.
use cityhall.Base.{
  ℕ, ◌<◌, ◌≡◌, refl, ap, ◌∙◌, List, [], ◌∷◌, ◌++◌, append_assoc, some, none, false, All, Bool-cases,
  inl, inr,
}
use cityhall.Types.{Entry, ok}
use cityhall.Types.Bytes.{Buf}
use cityhall.Types.Tables.{TableName, compacted}
use cityhall.Types.Entries.{find_key}
use cityhall.Memtable
use cityhall.Sstable.Snappy.{Snappy}
use cityhall.Sstable.Bloom.{KeyHasher}
use cityhall.Sstable.Writer.Flush.{IsTable}
use cityhall.Sstable.Reader
use cityhall.Compaction.{MergeState, merge_scans}
use cityhall.Compaction.Start.{scans_of}
use cityhall.Engine.{
  StorageEngine, OpenTable, FilterConfig, get, get_immutable, get_tables, next_id,
}
use cityhall.Engine.Flush.{IsUsable, newest_first-append}
use cityhall.Engine.Compact.{
  is_among, is_listed, in_directory, retain_others, remove_all, compact_sstables_sync,
}
use cityhall.Engine.Compact.Newest.{
  Input, IsStored, paths_of_inputs, tables_of, compact_sstables-merged, in_directory_other,
}

retain_others-append :
    (paths : List TableName) (sstables : List OpenTable) (t : OpenTable)
    → is_among t.path paths ≡ false
    → retain_others paths (sstables ++ t ∷ []) ≡ retain_others paths sstables ++ t ∷ []
unfolding retain_others
retain_others-append paths [] t other = rw other refl
retain_others-append paths (x ∷ sstables) t other = elim (Bool-cases (is_among x.path paths)) [
  | inl goes ↦ rw goes (retain_others-append paths sstables t other)
  | inr stays ↦ rw stays (ap (λ l. x ∷ l) (retain_others-append paths sstables t other))
]

module _ ⦃buf : Buf⦄ ⦃snappy : Snappy⦄ ⦃hasher : KeyHasher⦄ where
  -- The last table of the list answers first.
  get-last :
      (e : StorageEngine) (sstables : List OpenTable) (t : OpenTable) (key value : List ℕ)
      (time : ℕ)
      → Memtable.get e.memtable key ≡ none
      → get_immutable e.immutable_memtable key ≡ none
      → e.sstables ≡ sstables ++ t ∷ []
      → Reader.get t.reader key ≡ ok (some (value, time))
      → get e key ≡ ok (some value)
  unfolding get get_tables
  get-last e sstables t key value time absent absent' last answer =
      rw (absent, absent', last, newest_first-append sstables t, answer) refl

  module _ ⦃filters : FilterConfig⦄ where
    -- Where the output of a compaction has a name that no input and no table has, the newest table
    -- is not among the inputs, no memtable has a key, and that table has it with a later timestamp
    -- than what the merge of the inputs writes, which fits a table: the compaction succeeds and
    -- keeps the newest table, but reads of the key go back from its value to the older one.
    pub get-compact_sstables_sync_stale :
        (e : StorageEngine) (inputs : List Input) (s : MergeState) (older : List OpenTable)
        (newest : OpenTable) (key newer : List ℕ) (time : ℕ) (w : Entry)
        → IsUsable filters
        → All (IsStored e.data_dir) inputs
        → is_among (compacted e.sstable_counter) (paths_of_inputs inputs) ≡ false
        → is_listed (compacted e.sstable_counter) e.sstables ≡ false
        → merge_scans (scans_of (tables_of inputs)) ≡ ok s
        → IsTable s.written
        → find_key key s.written ≡ some w
        → Memtable.get e.memtable key ≡ none
        → get_immutable e.immutable_memtable key ≡ none
        → e.sstables ≡ older ++ newest ∷ []
        → is_among newest.path (paths_of_inputs inputs) ≡ false
        → Reader.get newest.reader key ≡ ok (some (newer, time))
        → w.timestamp < time
        → (e' : StorageEngine) × (t : OpenTable) × (compact_sstables_sync (paths_of_inputs inputs) e
            ≡ (e', ok tt))
          × (e'.sstables ≡ retain_others (paths_of_inputs inputs) older ++ newest ∷ t ∷ [])
          × (get e key ≡ ok (some newer))
          × (get e' key ≡ ok (some w.value))
    unfolding compact_sstables_sync
    get-compact_sstables_sync_stale e inputs s older newest key newer time w usable stored new
          unlisted merged fits written absent absent' last other answer later =
        let paths = paths_of_inputs inputs in
        let (dir', stats, t, done, opened, reads) =
          compact_sstables-merged e.data_dir inputs (compacted e.sstable_counter) s usable stored
            new merged fits in
        let e' : StorageEngine = record e {
          sstable_counter = next_id e;
          sstables = retain_others paths e.sstables ++ t ∷ [];
          data_dir = remove_all paths dir';
        } in
        let e1 : StorageEngine = record e { sstable_counter = next_id e } in
        let same : in_directory (compacted e.sstable_counter) dir' e1
            ≡ record e1 { data_dir = dir' } =
          in_directory_other (compacted e.sstable_counter) dir' e1 unlisted in
        let kept : retain_others paths e.sstables ≡ retain_others paths older ++ newest ∷ [] =
          ap (retain_others paths) last ∙ retain_others-append paths older newest other in
        let output : Reader.get t.reader key ≡ ok (some (w.value, w.timestamp)) =
          reads key ∙ rw written refl in
        (
          e',
          t,
          rw (done, opened, same) refl,
          ap (λ l. l ++ t ∷ []) kept
              ∙ append_assoc (retain_others paths older) (newest ∷ []) (t ∷ []),
          get-last e older newest key newer time absent absent' last answer,
          get-last e' (retain_others paths e.sstables) t key w.value w.timestamp absent absent' refl
              output,
        )
