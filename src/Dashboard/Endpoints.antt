-- ===== src/Dashboard/Endpoints.antt =====
-- The two endpoints of src/http_server.rs against each other: what a scraper finds under each name is
-- what the API gives.
use cityhall.Base.{ℕ, ◌≡◌, refl, sym, subst, List, [], ◌∷◌, ◌++◌, if◌then◌else◌, Option, none, some}
use cityhall.Types.Keys.{key_eq, compare_keys}
use cityhall.Text.{Text, codes, newline, lines_of}
use cityhall.Text.Trim.{HasNone}
use cityhall.Text.Decimal.{to_string}
use cityhall.Metrics.Registry.{Metrics, Rate}
use cityhall.Dashboard.{StorageMetrics, storage_metrics, samples, get_prometheus_metrics}
use cityhall.Dashboard.Scrape.{scrape_lines, readings, scrape-get_prometheus_metrics}

-- The value of the first reading with a name.
abbrev pub reading_of : Text → List (Text × Option Text) → Option Text
reading_of name [] = none
reading_of name ((other, value) ∷ rest) =
    let later = reading_of name rest in if key_eq name other then value else later

abbrev line_of : Text → Option Text
line_of value = some (value ++ newline ∷ [])

-- What is found under each name against the metrics of the API. Of a size in megabytes the text is the
-- number of bytes.
abbrev pub Agrees : (Rate → Text) → StorageMetrics → ℕ → List (Text × Option Text) → Type 0
Agrees show s uptime found =
    (reading_of (codes "cityhall_writes_total") found ≡ line_of (to_string s.writes_total))
    × (reading_of (codes "cityhall_reads_total") found ≡ line_of (to_string s.reads_total))
    × (reading_of (codes "cityhall_reads_hits_total") found ≡ line_of (to_string s.reads_hits))
    × (reading_of (codes "cityhall_reads_misses_total") found ≡ line_of (to_string s.reads_misses))
    × (reading_of (codes "cityhall_flushes_total") found ≡ line_of (to_string s.flushes_total))
    × (reading_of (codes "cityhall_compactions_total") found
        ≡ line_of (to_string s.compactions_total))
    × (reading_of (codes "cityhall_write_latency_p50_us") found
        ≡ line_of (to_string s.write_latency_p50_us))
    × (reading_of (codes "cityhall_write_latency_p99_us") found
        ≡ line_of (to_string s.write_latency_p99_us))
    × (reading_of (codes "cityhall_read_latency_p50_us") found
        ≡ line_of (to_string s.read_latency_p50_us))
    × (reading_of (codes "cityhall_read_latency_p99_us") found
        ≡ line_of (to_string s.read_latency_p99_us))
    × (reading_of (codes "cityhall_memtable_size_bytes") found
        ≡ line_of (to_string s.memtable_size_mb.plus))
    × (reading_of (codes "cityhall_memtable_entries") found
        ≡ line_of (to_string s.memtable_entries))
    × (reading_of (codes "cityhall_sstable_count") found ≡ line_of (to_string s.sstable_count))
    × (reading_of (codes "cityhall_disk_usage_bytes") found
        ≡ line_of (to_string s.disk_usage_mb.plus))
    × (reading_of (codes "cityhall_wal_size_bytes") found ≡ line_of (to_string s.wal_size_mb.plus))
    × (reading_of (codes "cityhall_read_hit_rate") found ≡ line_of (show s.hit_rate))
    × (reading_of (codes "cityhall_bloom_filter_hit_rate") found ≡ line_of (show s.bloom_hit_rate))
    × (reading_of (codes "cityhall_bloom_filter_fp_rate") found ≡ line_of (show s.bloom_fp_rate))
    × (reading_of (codes "cityhall_compaction_space_savings") found
        ≡ line_of (show s.space_savings))
    × (reading_of (codes "cityhall_write_amplification") found ≡ line_of (show s.amplification))
    × (reading_of (codes "cityhall_uptime_seconds") found ≡ line_of (to_string uptime))

readings-Agrees :
    (show : Rate → Text) (place : ℕ → ℕ → ℕ) (m : Metrics) (uptime : ℕ)
    → Agrees show (storage_metrics place m) uptime (readings show (samples place m uptime))
unfolding samples storage_metrics compare_keys
readings-Agrees show place m uptime = (
  refl, refl, refl, refl, refl, refl, refl, refl, refl, refl, refl, refl, refl, refl, refl, refl,
  refl, refl, refl, refl, refl,
)

-- Where the text of a fraction has no newline: a scraper that passes over the comments finds, in
-- the text of the endpoint for scrapers, under each of the 21 names the metric of this name that
-- the endpoint of the API gives at the same time, a size in bytes, a fraction as its text, and the
-- uptime.
pub scrape-Agrees :
    (show : Rate → Text) (place : ℕ → ℕ → ℕ) (m : Metrics) (uptime : ℕ)
    → ((r : Rate) → HasNone newline (show r))
    → Agrees show
        (storage_metrics place m)
        uptime
        (scrape_lines (lines_of (get_prometheus_metrics show place m uptime)))
scrape-Agrees show place m uptime plain =
    subst (Agrees show (storage_metrics place m) uptime)
      (sym (scrape-get_prometheus_metrics show place m uptime plain))
      (readings-Agrees show place m uptime)
