-- ===== src/Metrics/Registry.antt =====
-- `Metrics` of src/metrics.rs: all of the engine's counters, gauges and histograms, and the rates. A
-- rate, computed in floating point, is an exact fraction.
use cityhall.Base.{ℕ, ◌+◌, ◌%◌, ◌^◌, ◌==◌, if◌then◌else◌}
use cityhall.Metrics.{
  Counter, new_counter, counter_reset, Gauge, gauge_set, Histogram, with_capacity, histogram_reset,
}

abbrev pub default_samples : ℕ
default_samples = 10000

pub record Metrics : Type 0 where
  pub writes_total : Counter
  pub writes_bytes : Counter
  pub reads_total : Counter
  pub reads_hits : Counter
  pub reads_misses : Counter
  pub flushes_total : Counter
  pub flush_duration : Histogram
  pub compactions_total : Counter
  pub compaction_bytes_in : Counter
  pub compaction_bytes_out : Counter
  pub compaction_duration : Histogram
  pub bloom_filter_hits : Counter
  pub bloom_filter_misses : Counter
  pub bloom_filter_false_positives : Counter
  pub write_latency : Histogram
  pub read_latency : Histogram
  pub memtable_size_bytes : Gauge
  pub memtable_entries : Gauge
  pub immutable_count : Gauge
  pub sstable_count : Gauge
  pub disk_usage_bytes : Gauge
  pub wal_size_bytes : Gauge

abbrev pub new_gauge : Gauge
new_gauge = record { value = 0 }

abbrev pub new_histogram : Histogram
new_histogram = with_capacity default_samples

unfoldable pub new : Metrics
new = record {
  writes_total = new_counter;
  writes_bytes = new_counter;
  reads_total = new_counter;
  reads_hits = new_counter;
  reads_misses = new_counter;
  flushes_total = new_counter;
  flush_duration = new_histogram;
  compactions_total = new_counter;
  compaction_bytes_in = new_counter;
  compaction_bytes_out = new_counter;
  compaction_duration = new_histogram;
  bloom_filter_hits = new_counter;
  bloom_filter_misses = new_counter;
  bloom_filter_false_positives = new_counter;
  write_latency = new_histogram;
  read_latency = new_histogram;
  memtable_size_bytes = new_gauge;
  memtable_entries = new_gauge;
  immutable_count = new_gauge;
  sstable_count = new_gauge;
  disk_usage_bytes = new_gauge;
  wal_size_bytes = new_gauge;
}

-- `Metrics::reset`, step by step.
unfoldable pub reset : Metrics → Metrics
reset m = record m {
  writes_total = counter_reset m.writes_total;
  writes_bytes = counter_reset m.writes_bytes;
  reads_total = counter_reset m.reads_total;
  reads_hits = counter_reset m.reads_hits;
  reads_misses = counter_reset m.reads_misses;
  flushes_total = counter_reset m.flushes_total;
  compactions_total = counter_reset m.compactions_total;
  compaction_bytes_in = counter_reset m.compaction_bytes_in;
  compaction_bytes_out = counter_reset m.compaction_bytes_out;
  bloom_filter_hits = counter_reset m.bloom_filter_hits;
  bloom_filter_misses = counter_reset m.bloom_filter_misses;
  bloom_filter_false_positives = counter_reset m.bloom_filter_false_positives;
  write_latency = histogram_reset m.write_latency;
  read_latency = histogram_reset m.read_latency;
  flush_duration = histogram_reset m.flush_duration;
  compaction_duration = histogram_reset m.compaction_duration;
  memtable_size_bytes = gauge_set 0 m.memtable_size_bytes;
  memtable_entries = gauge_set 0 m.memtable_entries;
  immutable_count = gauge_set 0 m.immutable_count;
  sstable_count = gauge_set 0 m.sstable_count;
  disk_usage_bytes = gauge_set 0 m.disk_usage_bytes;
  wal_size_bytes = gauge_set 0 m.wal_size_bytes;
}

-- The number (plus - minus) / over.
pub record Rate : Type 0 where
  pub plus : ℕ
  pub minus : ℕ
  pub over : ℕ

-- The checks of the filters: the sum wraps around in a release build.
abbrev pub total_checks : Metrics → ℕ
total_checks m = (m.bloom_filter_hits.value + m.bloom_filter_misses.value) % 2 ^ 64

abbrev pub whole : ℕ → Rate
whole n = record { plus = n; minus = 0; over = 1 }

-- A division with a value for the divisor zero.
abbrev pub ratio_or : Rate → ℕ → ℕ → Rate
ratio_or otherwise part total =
    if total == 0 then otherwise else record { plus = part; minus = 0; over = total }

-- `1.0 - rate`.
abbrev pub one_minus : Rate → Rate
one_minus r = record { plus = r.over + r.minus; minus = r.plus; over = r.over }

unfoldable pub read_hit_rate : Metrics → Rate
read_hit_rate m = ratio_or (whole 0) m.reads_hits.value m.reads_total.value

unfoldable pub read_miss_rate : Metrics → Rate
unfolding read_hit_rate
read_miss_rate m = one_minus (read_hit_rate m)

unfoldable pub bloom_filter_hit_rate : Metrics → Rate
bloom_filter_hit_rate m = ratio_or (whole 0) m.bloom_filter_hits.value (total_checks m)

unfoldable pub bloom_filter_fp_rate : Metrics → Rate
bloom_filter_fp_rate m = ratio_or (whole 0) m.bloom_filter_false_positives.value (total_checks m)

unfoldable pub compaction_space_savings : Metrics → Rate
compaction_space_savings m =
    if m.compaction_bytes_in.value == 0
    then whole 0
    else one_minus (record {
      plus = m.compaction_bytes_out.value;
      minus = 0;
      over = m.compaction_bytes_in.value;
    })

unfoldable pub write_amplification : Metrics → Rate
write_amplification m = ratio_or (whole 1) m.compaction_bytes_out.value m.writes_bytes.value
