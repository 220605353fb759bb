-- ===== src/Engine/Compact/Newest.antt =====
-- `compact_sstables` of src/compaction.rs on files that the table writer wrote.
use cityhall.Base.{
  ℕ, ◌^◌, ◌≤◌, ◌<◌, ◌≡◌, refl, sym, ap, ◌∙◌, List, [], ◌∷◌, length, get_elem?, some, none, Option,
  true, false, ◌||◌, ap₂, Bool-cases, inl, inr, All,
}
use cityhall.Types.{Entry, ok, ok_injective}
use cityhall.Types.Bytes.{Buf}
use cityhall.Types.Tables.{
  TableName, DataDir, name_eq, find_table, write_table, find_table-write_table,
}
use cityhall.Sstable.Header
use cityhall.Types.Keys.{compare_keys, key_le}
use cityhall.Types.Entries.{IsAscending, find_key}
use cityhall.Sstable.Snappy.{Snappy}
use cityhall.Sstable.Bloom.{KeyHasher}
use cityhall.Sstable.Block.Size.{total_weight}
use cityhall.Sstable.Writer.{default_block_size, write_entries}
use cityhall.Sstable.Writer.Blocks.{IsTableEntry}
use cityhall.Sstable.Writer.Flush.{IsTable}
use cityhall.Sstable.Writer.RoundTrip.{open_table-write_entries}
use cityhall.Sstable.Reader
use cityhall.Sstable.Reader.{SsTableReader, open_table, value_and_timestamp}
use cityhall.Sstable.Reader.Within.{within}
use cityhall.Compaction.{MergeState, merge_scans}
use cityhall.Compaction.Start.{scans_of, IsFilled}
use cityhall.Compaction.Merge.{merge_scans_newest}
use cityhall.Engine.{StorageEngine, OpenTable, FilterConfig, open_path}
use cityhall.Engine.Flush.{IsUsable}
use cityhall.Engine.Compact.{
  CompactionStats, input_size, last_scanned, scan_all, open_all, merge_sstables, compact_sstables,
  is_among, is_listed, reread, reread_from, in_directory,
}

-- A key that the scan of a whole table reaches.
abbrev IsReached : Entry → Type 0
IsReached e = key_le e.key last_scanned ≡ true

nil_le : (key : List ℕ) → key_le [] key ≡ true
unfolding compare_keys
nil_le [] = refl
nil_le (x ∷ key) = refl

within-All :
    (stop : List ℕ) (entries : List Entry)
    → All (λ e. key_le e.key stop ≡ true) entries
    → within [] stop entries ≡ entries
unfolding within
within-All stop [] all = refl
within-All stop (e ∷ entries) (reached, all) =
    rw (nil_le e.key, reached) (ap (λ l. e ∷ l) (within-All stop entries all))

-- A file of the directory with what was written to it.
pub record Input : Type 0 where
  pub path : TableName
  pub entries : List Entry

abbrev pub paths_of_inputs : List Input → List TableName
paths_of_inputs [] = []
paths_of_inputs (x ∷ inputs) = x.path ∷ paths_of_inputs inputs

abbrev pub tables_of : List Input → List (List Entry)
tables_of [] = []
tables_of (x ∷ inputs) = x.entries ∷ tables_of inputs

-- Readers of other files are as before.
pub reread_other :
    (path : TableName) (bytes : List ℕ) (readers : List OpenTable)
    → is_listed path readers ≡ false
    → reread path bytes readers ≡ readers
unfolding reread
reread_other path bytes [] other = refl
reread_other path bytes (t ∷ readers) other = elim (Bool-cases (name_eq path t.path)) [
  | inl same ↦ absurd (let h = rw same at other in cc)
  | inr first ↦
      let others = rw first at other in
      rw first (ap (λ l. t ∷ l) (reread_other path bytes readers others))
]

pub reread_from_other :
    (path : TableName) (bytes : Option (List ℕ)) (readers : List OpenTable)
    → is_listed path readers ≡ false
    → reread_from path bytes readers ≡ readers
reread_from_other path none readers other = refl
reread_from_other path (some bytes) readers other = reread_other path bytes readers other

pub in_directory_other :
    (path : TableName) (dir : DataDir) (e : StorageEngine)
    → is_listed path e.sstables ≡ false
    → in_directory path dir e ≡ record e { data_dir = dir }
unfolding in_directory
in_directory_other path dir e other =
    ap (λ tables. record e { data_dir = dir; sstables = tables })
      (reread_from_other path (find_table path dir) e.sstables other)

module _ ⦃buf : Buf⦄ ⦃snappy : Snappy⦄ ⦃hasher : KeyHasher⦄ ⦃filters : FilterConfig⦄ where
  pub record IsStored (dir : DataDir) (x : Input) : Type 0 where
    pub file : List ℕ
    pub is_there : find_table x.path dir ≡ some file
    pub was_written :
        write_entries default_block_size filters.num_bits filters.num_hash_functions x.entries
        ≡ ok file
    pub fits : IsTable x.entries
    pub filled : IsFilled x.entries
    pub reached : All IsReached x.entries

  open_input :
      (dir : DataDir) (x : Input)
      → IsUsable filters
      → IsStored dir x
      → (t : OpenTable) × (open_path x.path dir ≡ ok t)
        × (Reader.scan t.reader [] last_scanned ≡ ok x.entries)
        × (t.path ≡ x.path)
  unfolding open_path
  open_input dir x usable h =
      let (file, r, written, opened, reads, scans) =
        open_table-write_entries default_block_size filters.num_bits filters.num_hash_functions
          x.entries filters.placeholder usable.some_bit usable.bits_fit usable.hashes_fit h.fits in
      let same : file ≡ h.file = ok_injective file h.file (sym written ∙ h.was_written) in
      (
        record { path = x.path; reader = r },
        rw (h.is_there, ← same, opened) refl,
        scans [] last_scanned ∙ ap ok (within-All last_scanned x.entries h.reached),
        refl,
      )

  open_and_scan :
      (dir : DataDir) (inputs : List Input)
      → IsUsable filters
      → All (IsStored dir) inputs
      → (readers : List OpenTable) × (open_all (paths_of_inputs inputs) dir ≡ ok readers)
        × (scan_all readers ≡ ok (scans_of (tables_of inputs)))
        × ((path : TableName) → is_listed path readers ≡ is_among path (paths_of_inputs inputs))
  unfolding open_all scan_all
  open_and_scan dir [] usable h = ([], refl, refl, λ path. refl)
  open_and_scan dir (x ∷ inputs) usable (first, h) =
      let (t, opened, scanned, named) = open_input dir x usable first in
      let (readers, opened', scanned', listed) = open_and_scan dir inputs usable h in
      (
        t ∷ readers,
        rw (opened, opened') refl,
        rw (scanned, scanned') refl,
        λ path. ap₂ (λ p b. name_eq path p || b) named (listed path),
      )

  All-IsAscending :
      (dir : DataDir) (inputs : List Input)
      → All (IsStored dir) inputs
      → All IsAscending (tables_of inputs)
  All-IsAscending dir [] h = tt
  All-IsAscending dir (x ∷ inputs) (first, h) = (first.fits.ascending, All-IsAscending dir inputs h)

  All-IsFilled :
      (dir : DataDir) (inputs : List Input)
      → All (IsStored dir) inputs
      → All IsFilled (tables_of inputs)
  All-IsFilled dir [] h = tt
  All-IsFilled dir (x ∷ inputs) (first, h) = (first.filled, All-IsFilled dir inputs h)

  -- What a compaction of such files does, by what the merge writes.
  pub compact_sstables-merged :
      (dir : DataDir) (inputs : List Input) (output_path : TableName) (s : MergeState)
      → IsUsable filters
      → All (IsStored dir) inputs
      → is_among output_path (paths_of_inputs inputs) ≡ false
      → merge_scans (scans_of (tables_of inputs)) ≡ ok s
      → IsTable s.written
      → (dir' : DataDir) × (stats : CompactionStats) × (t : OpenTable) × (compact_sstables
            (paths_of_inputs inputs)
            output_path
            dir
          ≡ (dir', ok stats))
        × (open_path output_path dir' ≡ ok t)
        × ((key : List ℕ)
            → Reader.get t.reader key ≡ ok (value_and_timestamp (find_key key s.written)))
  unfolding compact_sstables merge_sstables open_path
  compact_sstables-merged dir inputs output_path s usable stored other merged fits =
      let (readers, opened, scanned, listed) = open_and_scan dir inputs usable stored in
      let same : reread output_path (Header.encode Header.new) readers ≡ readers =
        reread_other output_path (Header.encode Header.new) readers (listed output_path ∙ other) in
      let (file, r, written, opened', reads, scans) =
        open_table-write_entries default_block_size filters.num_bits filters.num_hash_functions
          s.written filters.placeholder usable.some_bit usable.bits_fit usable.hashes_fit fits in
      (
        write_table output_path file (write_table output_path (Header.encode Header.new) dir),
        record {
          input_sstables = length (paths_of_inputs inputs);
          input_bytes = input_size readers;
          output_bytes = length file;
          entries_merged = s.entries_merged;
          duplicates_removed = s.duplicates_removed;
        },
        record { path = output_path; reader = r },
        rw (opened, same, scanned, merged, written) refl,
        rw
            (
              find_table-write_table output_path file
                  (write_table output_path (Header.encode Header.new) dir),
              opened',
            )
            refl,
        reads,
      )

  -- Where the input files were written by the table writer from entries whose keys the scan
  -- reaches, some of them in each, the output is none of them, and what the merge writes fits a
  -- table: a compaction succeeds, its output opens, and for every entry of every input a read of
  -- its key returns that version or one that is no older.
  pub compact_sstables_newest :
      (dir : DataDir) (inputs : List Input) (output_path : TableName)
      → IsUsable filters
      → All (IsStored dir) inputs
      → is_among output_path (paths_of_inputs inputs) ≡ false
      → ((s : MergeState)
          → merge_scans (scans_of (tables_of inputs)) ≡ ok s
          → All IsTableEntry s.written × (total_weight s.written < 2 ^ 30))
      → (dir' : DataDir) × (stats : CompactionStats) × (t : OpenTable) × (compact_sstables
            (paths_of_inputs inputs)
            output_path
            dir
          ≡ (dir', ok stats))
        × (open_path output_path dir' ≡ ok t)
        × ((id : ℕ) (entries : List Entry) (i : ℕ) (e : Entry)
            → get_elem? (tables_of inputs) id ≡ some entries
            → get_elem? entries i ≡ some e
            → (w : Entry) × (Reader.get t.reader e.key ≡ ok (some (w.value, w.timestamp)))
              × (e.timestamp ≤ w.timestamp))
  compact_sstables_newest dir inputs output_path usable stored other small =
      let (s, merged, asc, sources, covers) =
        merge_scans_newest (tables_of inputs) (All-IsAscending dir inputs stored)
          (All-IsFilled dir inputs stored) in
      let fits : IsTable s.written = record {
        ascending = asc;
        entries_fit = (small s merged).0;
        small = (small s merged).1;
      } in
      let (dir', stats, t, done, opened, reads) =
        compact_sstables-merged dir inputs output_path s usable stored other merged fits in
      (
        dir',
        stats,
        t,
        done,
        opened,
        λ id entries i e at at'.
            let (w, there, le) = covers id entries i e at at' in
            (w, reads e.key ∙ rw there refl, le),
      )
