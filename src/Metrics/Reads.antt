-- ===== src/Metrics/Reads.antt =====
-- What a read of the engine in src/storage_engine.rs counts. Latencies are left out.
use cityhall.Base.{ℕ, ◌≡◌, refl, ap, ◌∙◌, List, [], ◌∷◌, Option, none, some}
use cityhall.Types.{
  Result, ok, err, panic, StorageError, io, corruption, corrupted_data, invalid_format,
  resource_not_found, key_not_found, channel_send, system_time, connection_failed,
  connection_closed, timeout, leader_error, unexpected_response, sync_failed,
}
use cityhall.Types.Bytes.{Buf}
use cityhall.Memtable
use cityhall.Sstable.Snappy.{Snappy}
use cityhall.Sstable.Bloom.{KeyHasher}
use cityhall.Sstable.Reader
use cityhall.Metrics.{Counter, counter_inc}
use cityhall.Metrics.Registry.{Metrics, bloom_filter_fp_rate, whole}
use cityhall.Engine.{
  StorageEngine, OpenTable, newest_first, get, get_tables, get_immutable, or_older, or_else,
}

abbrev pub hit : Metrics → Metrics
hit m = record m { reads_hits = counter_inc m.reads_hits }

abbrev pub miss : Metrics → Metrics
miss m = record m { reads_misses = counter_inc m.reads_misses }

-- What a table's answer counts: one without the key is a false positive of its filter.
abbrev pub count_answer : Result (Option (List ℕ × ℕ)) → Metrics → (Metrics → Metrics) → Metrics
count_answer (ok (some found)) m older = hit m
count_answer (ok none) m older =
    older (record m { bloom_filter_false_positives = counter_inc m.bloom_filter_false_positives })
count_answer (err corrupted_data) m older = older m
count_answer (err x) m older = m
count_answer panic m older = m

abbrev pub count_or_else : Option (List ℕ) → Metrics → Metrics → Metrics
count_or_else (some value) m more = hit m
count_or_else none m more = more

module _ ⦃buf : Buf⦄ ⦃snappy : Snappy⦄ ⦃hasher : KeyHasher⦄ where
  unfoldable pub count_tables : List OpenTable → List ℕ → Metrics → Metrics
  count_tables [] key m = miss m
  count_tables (t ∷ sstables) key m =
      count_answer (Reader.get t.reader key) m (λ m'. count_tables sstables key m')

  -- The metrics behind `get`.
  unfoldable pub count_get : StorageEngine → List ℕ → Metrics → Metrics
  count_get e key m =
      let started = record m { reads_total = counter_inc m.reads_total } in
      count_or_else (Memtable.get e.memtable key) started (
        count_or_else (get_immutable e.immutable_memtable key) started
          (count_tables (newest_first e.sstables) key started))

-- What the counters are after a read with such an outcome: one more of the hits for a value, one more
-- of the misses for none, and neither for an error.
abbrev pub IsCounted : Result (Option (List ℕ)) → Counter → Counter → Metrics → Type 0
IsCounted (ok (some value)) hits misses m =
    (m.reads_hits ≡ counter_inc hits) × (m.reads_misses ≡ misses)
IsCounted (ok none) hits misses m = (m.reads_hits ≡ hits) × (m.reads_misses ≡ counter_inc misses)
IsCounted (err x) hits misses m = (m.reads_hits ≡ hits) × (m.reads_misses ≡ misses)
IsCounted panic hits misses m = (m.reads_hits ≡ hits) × (m.reads_misses ≡ misses)

-- Nothing that a filter found out was counted.
abbrev pub KeepsChecks : Metrics → Metrics → Type 0
KeepsChecks m m' =
    (m'.reads_total ≡ m.reads_total)
    × (m'.bloom_filter_hits ≡ m.bloom_filter_hits)
    × (m'.bloom_filter_misses ≡ m.bloom_filter_misses)

abbrev Counts : Result (Option (List ℕ)) → Metrics → Metrics → Type 0
Counts answer m m' = IsCounted answer m.reads_hits m.reads_misses m' × KeepsChecks m m'

answer-Counts :
    (answer : Result (Option (List ℕ × ℕ))) (rest : Result (Option (List ℕ))) (m : Metrics)
    (older : Metrics → Metrics)
    → ((m' : Metrics) → Counts rest m' (older m'))
    → Counts (or_older answer rest) m (count_answer answer m older)
answer-Counts (ok (some (value, time))) rest m older h = ((refl, refl), (refl, refl, refl))
answer-Counts (ok none) rest m older h =
    h (record m { bloom_filter_false_positives = counter_inc m.bloom_filter_false_positives })
answer-Counts (err x) rest m older h = by_error x
  where
    by_error : (x : StorageError) → Counts (or_older (err x) rest) m (count_answer (err x) m older)
    by_error corrupted_data = h m
    by_error (io k) = ((refl, refl), (refl, refl, refl))
    by_error corruption = ((refl, refl), (refl, refl, refl))
    by_error invalid_format = ((refl, refl), (refl, refl, refl))
    by_error resource_not_found = ((refl, refl), (refl, refl, refl))
    by_error key_not_found = ((refl, refl), (refl, refl, refl))
    by_error channel_send = ((refl, refl), (refl, refl, refl))
    by_error system_time = ((refl, refl), (refl, refl, refl))
    by_error connection_failed = ((refl, refl), (refl, refl, refl))
    by_error connection_closed = ((refl, refl), (refl, refl, refl))
    by_error timeout = ((refl, refl), (refl, refl, refl))
    by_error leader_error = ((refl, refl), (refl, refl, refl))
    by_error unexpected_response = ((refl, refl), (refl, refl, refl))
    by_error sync_failed = ((refl, refl), (refl, refl, refl))
answer-Counts panic rest m older h = ((refl, refl), (refl, refl, refl))

or_else-Counts :
    (first : Option (List ℕ)) (rest : Result (Option (List ℕ))) (m m' : Metrics)
    → Counts rest m m'
    → Counts (or_else first rest) m (count_or_else first m m')
or_else-Counts none rest m m' h = h
or_else-Counts (some value) rest m m' h = ((refl, refl), (refl, refl, refl))

module _ ⦃buf : Buf⦄ ⦃snappy : Snappy⦄ ⦃hasher : KeyHasher⦄ where
  tables-Counts :
      (sstables : List OpenTable) (key : List ℕ) (m : Metrics)
      → Counts (get_tables sstables key) m (count_tables sstables key m)
  unfolding get_tables count_tables
  tables-Counts [] key m = ((refl, refl), (refl, refl, refl))
  tables-Counts (t ∷ sstables) key m =
      answer-Counts (Reader.get t.reader key) (get_tables sstables key) m
        (λ m'. count_tables sstables key m') (λ m'. tables-Counts sstables key m')

  -- Every read is counted once in the total; one that returns a value is counted once as a hit and
  -- one that returns none once as a miss, and a read that fails as neither; and no read counts a
  -- hit or a miss of a filter.
  pub get-IsCounted :
      (e : StorageEngine) (key : List ℕ) (m : Metrics)
      → IsCounted (get e key) m.reads_hits m.reads_misses (count_get e key m)
        × ((count_get e key m).reads_total ≡ counter_inc m.reads_total)
        × ((count_get e key m).bloom_filter_hits ≡ m.bloom_filter_hits)
        × ((count_get e key m).bloom_filter_misses ≡ m.bloom_filter_misses)
  unfolding get count_get
  get-IsCounted e key m =
      let started = record m { reads_total = counter_inc m.reads_total } in
      let stored = tables-Counts (newest_first e.sstables) key started in
      let waiting =
        or_else-Counts (get_immutable e.immutable_memtable key)
          (get_tables (newest_first e.sstables) key) started _ stored in
      let (is_counted, (total, hits, misses)) =
        or_else-Counts (Memtable.get e.memtable key) _ started _ waiting in
      (is_counted, total, hits, misses)

  -- Reads of several keys, one after the other.
  unfoldable pub count_gets : StorageEngine → List (List ℕ) → Metrics → Metrics
  count_gets e [] m = m
  count_gets e (key ∷ keys) m = count_gets e keys (count_get e key m)

  -- In a registry where no check of a filter was counted, the false positive rate is zero after
  -- any reads, however many false positives were counted.
  pub fp_rate-count_gets :
      (e : StorageEngine) (keys : List (List ℕ)) (m : Metrics)
      → m.bloom_filter_hits.value ≡ 0
      → m.bloom_filter_misses.value ≡ 0
      → bloom_filter_fp_rate (count_gets e keys m) ≡ whole 0
  unfolding count_gets bloom_filter_fp_rate
  fp_rate-count_gets e [] m hits misses = rw (hits, misses) refl
  fp_rate-count_gets e (key ∷ keys) m hits misses =
      let (is_counted, total, same_hits, same_misses) = get-IsCounted e key m in
      fp_rate-count_gets e keys (count_get e key m) (ap (λ c. c.value) same_hits ∙ hits)
        (ap (λ c. c.value) same_misses ∙ misses)
