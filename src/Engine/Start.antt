-- ===== src/Engine/Start.antt =====
-- The start of the engine in src/storage_engine.rs: recovery from the log, and the
-- tables of the data directory.
use cityhall.Base.{ℕ, ◌+◌, ◌%◌, ◌^◌, max, List, [], ◌∷◌, leb, if◌then◌else◌, Bool, true, none, some}
use cityhall.Types.{Result, ok, err, panic, ◌>>=◌}
use cityhall.Types.Bytes.{Buf}
use cityhall.Types.Tables.{TableName, parse_stem, DataDir}
use cityhall.Memtable
use cityhall.Memtable.{put_all}
use cityhall.Wal
use cityhall.Wal.{Wal}
use cityhall.Wal.Dir.{SegmentDir}
use cityhall.Wal.Record.{Crc32}
use cityhall.Sstable.Snappy.{Snappy}
use cityhall.Sstable.Bloom.{KeyHasher}
use cityhall.Engine.{StorageEngine, OpenTable, FilterConfig, open_path}

-- `unwrap_or(0)` on the number in a name.
abbrev pub stem_or_zero : TableName → ℕ
stem_or_zero path = elim (parse_stem path) [ none ↦ 0 | some id ↦ id ]

-- `sort_by_key` on the numbers, which keeps the order of equal numbers.
unfoldable pub insert_by_stem : OpenTable → List OpenTable → List OpenTable
insert_by_stem t [] = t ∷ []
insert_by_stem t (u ∷ tables) =
    let rest = insert_by_stem t tables in
    if leb (stem_or_zero t.path) (stem_or_zero u.path) then t ∷ u ∷ tables else u ∷ rest

unfoldable pub sort_by_stem : List OpenTable → List OpenTable
unfolding insert_by_stem
sort_by_stem [] = []
sort_by_stem (t ∷ tables) = insert_by_stem t (sort_by_stem tables)

-- A table that opens is kept, with its number in the greatest one; another file is skipped.
abbrev pub keep_opened : Result OpenTable → List OpenTable × ℕ → Result (List OpenTable × ℕ)
keep_opened (ok t) (tables, greatest) = ok (t ∷ tables, max (stem_or_zero t.path) greatest)
keep_opened (err x) loaded = ok loaded
keep_opened panic loaded = panic

module _ ⦃buf : Buf⦄ ⦃snappy : Snappy⦄ ⦃hasher : KeyHasher⦄ ⦃filters : FilterConfig⦄ where
  -- The readers, in the order of the listing, of the files of a directory.
  unfoldable pub load_tables : DataDir → DataDir → Result (List OpenTable × ℕ)
  load_tables dir [] = ok ([], 0)
  load_tables dir (f ∷ files) = load_tables dir files >>= keep_opened (open_path f.path dir)

  module _ ⦃crc : Crc32⦄ where
    -- `new_with_config`: `segments` is the directory `wal_segments` next to `data.wal`, which is empty
    -- where there is none.
    unfoldable pub new_with_config :
        DataDir → SegmentDir → ℕ → Wal → Bool → ℕ → Result StorageEngine
    new_with_config dir segments memtable_max_size wal background_flush now = do
      entries ← Wal.recover segments
      loaded ← load_tables dir dir
      ok (record {
        wal = wal;
        memtable = put_all (Memtable.new memtable_max_size) entries;
        immutable_memtable = none;
        sstables = sort_by_stem loaded.0;
        data_dir = dir;
        memtable_max_size = memtable_max_size;
        sstable_counter = (loaded.1 + 1) % 2 ^ 64;
        flush_tx = [];
        flush_rx = [];
        flush_thread_runs = background_flush;
        background_flush_enabled = background_flush;
        compaction_enabled = true;
        last_compaction_check = now;
      })

abbrev pub with_compaction : StorageEngine → Bool → StorageEngine
with_compaction e enabled = record e { compaction_enabled = enabled }
