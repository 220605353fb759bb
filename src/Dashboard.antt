-- ===== src/Dashboard.antt =====
-- The metrics of src/http_server.rs: what the two endpoints give of the registry. Serving them is left
-- out; the place of a percentile among the samples and the text of a fraction, which are computed with
-- floating-point numbers, are arguments.
pub mod Scrape
pub mod Endpoints
use cityhall.Base.{ℕ, ◌/◌, List, [], ◌∷◌, ◌++◌}
use cityhall.Text.{Text, codes, newline, space}
use cityhall.Text.Decimal.{to_string}
use cityhall.Metrics.{Histogram, percentile, count}
use cityhall.Metrics.Registry.{
  Metrics, Rate, read_hit_rate, bloom_filter_hit_rate, bloom_filter_fp_rate,
  compaction_space_savings, write_amplification,
}

pub record StorageMetrics : Type 0 where
  pub writes_total : ℕ
  pub reads_total : ℕ
  pub reads_hits : ℕ
  pub reads_misses : ℕ
  pub flushes_total : ℕ
  pub compactions_total : ℕ
  pub hit_rate : Rate
  pub write_latency_p50_us : ℕ
  pub write_latency_p99_us : ℕ
  pub read_latency_p50_us : ℕ
  pub read_latency_p99_us : ℕ
  pub memtable_size_mb : Rate
  pub memtable_entries : ℕ
  pub sstable_count : ℕ
  pub disk_usage_mb : Rate
  pub wal_size_mb : Rate
  pub bloom_hit_rate : Rate
  pub bloom_fp_rate : Rate
  pub space_savings : Rate
  pub amplification : Rate

-- `as f64 / 1_048_576.0`
abbrev pub megabytes : ℕ → Rate
megabytes bytes = record { plus = bytes; minus = 0; over = 1048576 }

-- `percentile(p).as_micros()`: `place` gives the index for a percentage of a number of samples.
abbrev pub micros : (ℕ → ℕ → ℕ) → ℕ → Histogram → ℕ
micros place percent h = percentile (place percent (count h)) h / 1000

-- The part of `get_metrics` that is about the storage.
unfoldable pub storage_metrics : (ℕ → ℕ → ℕ) → Metrics → StorageMetrics
storage_metrics place m = record {
  writes_total = m.writes_total.value;
  reads_total = m.reads_total.value;
  reads_hits = m.reads_hits.value;
  reads_misses = m.reads_misses.value;
  flushes_total = m.flushes_total.value;
  compactions_total = m.compactions_total.value;
  hit_rate = read_hit_rate m;
  write_latency_p50_us = micros place 50 m.write_latency;
  write_latency_p99_us = micros place 99 m.write_latency;
  read_latency_p50_us = micros place 50 m.read_latency;
  read_latency_p99_us = micros place 99 m.read_latency;
  memtable_size_mb = megabytes m.memtable_size_bytes.value;
  memtable_entries = m.memtable_entries.value;
  sstable_count = m.sstable_count.value;
  disk_usage_mb = megabytes m.disk_usage_bytes.value;
  wal_size_mb = megabytes m.wal_size_bytes.value;
  bloom_hit_rate = bloom_filter_hit_rate m;
  bloom_fp_rate = bloom_filter_fp_rate m;
  space_savings = compaction_space_savings m;
  amplification = write_amplification m;
}

pub data Value : Type 0 where
  number : ℕ → Value
  fraction : Rate → Value

-- A call of the macros `counter!` and `gauge!`.
pub record Sample : Type 0 where
  pub kind : Text
  pub name : Text
  pub help : Text
  pub value : Value

abbrev pub counter_sample : Text → Text → Value → Sample
counter_sample name help value = record {
  kind = codes "counter";
  name = name;
  help = help;
  value = value;
}

abbrev pub gauge_sample : Text → Text → Value → Sample
gauge_sample name help value = record {
  kind = codes "gauge";
  name = name;
  help = help;
  value = value;
}

abbrev pub text_of_value : (Rate → Text) → Value → Text
text_of_value show (number n) = to_string n
text_of_value show (fraction r) = show r

abbrev pub help_line : Sample → Text
help_line s = codes "# HELP " ++ (s.name ++ space ∷ s.help)

abbrev pub type_line : Sample → Text
type_line s = codes "# TYPE " ++ (s.name ++ space ∷ s.kind)

abbrev pub value_line : (Rate → Text) → Sample → Text
value_line show s = s.name ++ space ∷ text_of_value show s.value

unfoldable pub text_of_samples : (Rate → Text) → List Sample → Text
text_of_samples show [] = []
text_of_samples show (s ∷ samples) =
    help_line s
    ++ newline
      ∷ (type_line s ++ newline ∷ (value_line show s ++ newline ∷ (text_of_samples show samples)))

unfoldable pub samples : (ℕ → ℕ → ℕ) → Metrics → ℕ → List Sample
samples place m uptime =
    counter_sample (codes "cityhall_writes_total") (codes "Total write operations")
      (number m.writes_total.value)
    ∷ counter_sample (codes "cityhall_reads_total") (codes "Total read operations")
        (number m.reads_total.value)
    ∷ counter_sample (codes "cityhall_reads_hits_total") (codes "Total read hits")
        (number m.reads_hits.value)
    ∷ counter_sample (codes "cityhall_reads_misses_total") (codes "Total read misses")
        (number m.reads_misses.value)
    ∷ counter_sample (codes "cityhall_flushes_total") (codes "Total MemTable flushes")
        (number m.flushes_total.value)
    ∷ counter_sample (codes "cityhall_compactions_total") (codes "Total compaction runs")
        (number m.compactions_total.value)
    ∷ gauge_sample (codes "cityhall_write_latency_p50_us")
        (codes "Write latency 50th percentile microseconds")
        (number (micros place 50 m.write_latency))
    ∷ gauge_sample (codes "cityhall_write_latency_p99_us")
        (codes "Write latency 99th percentile microseconds")
        (number (micros place 99 m.write_latency))
    ∷ gauge_sample (codes "cityhall_read_latency_p50_us")
        (codes "Read latency 50th percentile microseconds")
        (number (micros place 50 m.read_latency))
    ∷ gauge_sample (codes "cityhall_read_latency_p99_us")
        (codes "Read latency 99th percentile microseconds")
        (number (micros place 99 m.read_latency))
    ∷ gauge_sample (codes "cityhall_memtable_size_bytes") (codes "Current MemTable size in bytes")
        (number m.memtable_size_bytes.value)
    ∷ gauge_sample (codes "cityhall_memtable_entries") (codes "Current MemTable entry count")
        (number m.memtable_entries.value)
    ∷ gauge_sample (codes "cityhall_sstable_count") (codes "Number of SSTables on disk")
        (number m.sstable_count.value)
    ∷ gauge_sample (codes "cityhall_disk_usage_bytes") (codes "Total disk usage in bytes")
        (number m.disk_usage_bytes.value)
    ∷ gauge_sample (codes "cityhall_wal_size_bytes") (codes "Current WAL size in bytes")
        (number m.wal_size_bytes.value)
    ∷ gauge_sample (codes "cityhall_read_hit_rate") (codes "Read hit rate (0.0 to 1.0)")
        (fraction (read_hit_rate m))
    ∷ gauge_sample (codes "cityhall_bloom_filter_hit_rate")
        (codes "Bloom filter hit rate (0.0 to 1.0)") (fraction (bloom_filter_hit_rate m))
    ∷ gauge_sample (codes "cityhall_bloom_filter_fp_rate")
        (codes "Bloom filter false positive rate") (fraction (bloom_filter_fp_rate m))
    ∷ gauge_sample (codes "cityhall_compaction_space_savings")
        (codes "Compaction space savings (0.0 to 1.0)") (fraction (compaction_space_savings m))
    ∷ gauge_sample (codes "cityhall_write_amplification") (codes "Write amplification factor")
        (fraction (write_amplification m))
    ∷ gauge_sample (codes "cityhall_uptime_seconds") (codes "Server uptime in seconds")
        (number uptime)
    ∷ []

unfoldable pub get_prometheus_metrics : (Rate → Text) → (ℕ → ℕ → ℕ) → Metrics → ℕ → Text
get_prometheus_metrics show place m uptime = text_of_samples show (samples place m uptime)
