-- ===== src/Engine/Put.antt =====
-- `put` of src/storage_engine.rs. What it reads of the clocks, and how the flush thread runs beside
-- it, are arguments.
use cityhall.Base.{ℕ, List, if◌then◌else◌, Bool}
use cityhall.Types.{Entry, Result, ok}
use cityhall.Types.Bytes.{Buf}
use cityhall.Memtable
use cityhall.Memtable.{MemTable}
use cityhall.Wal
use cityhall.Wal.{Wal}
use cityhall.Wal.Record.{Crc32}
use cityhall.Sstable.Snappy.{Snappy}
use cityhall.Sstable.Bloom.{KeyHasher}
use cityhall.Engine.{StorageEngine, FilterConfig, Outcome, and_then, flush_memtable_sync}
use cityhall.Engine.Background.{trigger_background_flush}
use cityhall.Engine.Compact.{check_and_compact}

-- The time of day in seconds, the instant, and the turns of the flush thread in each sleep.
pub record Moment : Type 0 where
  pub seconds : ℕ
  pub instant : ℕ
  pub turns : ℕ → ℕ

abbrev pub with_wal : StorageEngine → Wal × Result (Unit {0}) → Outcome
with_wal e (wal, outcome) = (record e { wal = wal }, outcome)

module _ ⦃buf : Buf⦄ ⦃snappy : Snappy⦄ ⦃hasher : KeyHasher⦄ ⦃filters : FilterConfig⦄ where
  abbrev pub flush_full : Moment → StorageEngine → Outcome
  flush_full now e =
      if e.background_flush_enabled
      then trigger_background_flush now.turns e
      else flush_memtable_sync e

  -- A memtable that is full after the insertion is flushed.
  abbrev pub with_memtable : Moment → StorageEngine → MemTable × Bool → Outcome
  with_memtable now e (m, is_full) =
      if is_full
      then flush_full now (record e { memtable = m })
      else (record e { memtable = m }, ok tt)

  unfoldable pub put : ⦃crc : Crc32⦄ → Moment → List ℕ → List ℕ → StorageEngine → Outcome
  put now key value e =
      let entry : Entry = record { key = key; value = value; timestamp = now.seconds } in
      and_then (with_wal e (Wal.append entry e.wal)) (λ e1.
        and_then (check_and_compact now.instant e1)
          (λ e2. with_memtable now e2 (Memtable.put e2.memtable key value now.seconds)))
