-- ===== src/Examples/Monitors.antt =====
-- What the metrics of src/metrics.rs are on the way from the reads to the dashboard and the client.
use cityhall.Base.{◌≡◌, refl, [], ◌∷◌, ◌++◌, true, some}
use cityhall.Types.{ok}
use cityhall.Metrics.Registry.{Rate, new, bloom_filter_fp_rate, whole}
use cityhall.Metrics.{counter_inc}
use cityhall.Metrics.Reads.{count_get, count_gets, IsCounted, get-IsCounted, fp_rate-count_gets}
use cityhall.Engine.{get}
use cityhall.Text.{Text, codes, newline, lines_of}
use cityhall.Text.Trim.{HasNone}
use cityhall.Text.Decimal.{reverse, to_string, value_of_digits}
use cityhall.Server.Client.Metrics.{crlf, fmt_u64, body_of}
use cityhall.Server.Client.Reading.{is_grouped, without_commas, fmt_u64-value}
use cityhall.Server.Client.Body.{IsHeaderLine, header_of, body_of-response}
use cityhall.Dashboard.{storage_metrics, get_prometheus_metrics}
use cityhall.Dashboard.Scrape.{scrape_lines}
use cityhall.Dashboard.Endpoints.{Agrees, scrape-Agrees}
use cityhall.Examples.Instances.{test_buf, test_snappy, test_hasher}
use cityhall.Examples.Engines.{engine, key_k}

get-IsCounted_example :
    IsCounted (get engine key_k) new.reads_hits new.reads_misses (count_get engine key_k new)
    × ((count_get engine key_k new).reads_total ≡ counter_inc new.reads_total)
    × ((count_get engine key_k new).bloom_filter_hits ≡ new.bloom_filter_hits)
    × ((count_get engine key_k new).bloom_filter_misses ≡ new.bloom_filter_misses)
get-IsCounted_example = get-IsCounted engine key_k new

fp_rate-count_gets_example :
    bloom_filter_fp_rate (count_gets engine (key_k ∷ (108 ∷ []) ∷ []) new) ≡ whole 0
unfolding new
fp_rate-count_gets_example = fp_rate-count_gets engine (key_k ∷ (108 ∷ []) ∷ []) new refl refl

fmt_u64-value_example :
    (is_grouped 0 (reverse (fmt_u64 (some 1234567))) ≡ true)
    × (without_commas (reverse (fmt_u64 (some 1234567))) ≡ reverse (to_string 1234567))
    × (value_of_digits (without_commas (reverse (fmt_u64 (some 1234567)))) ≡ 1234567)
fmt_u64-value_example = fmt_u64-value 1234567

abbrev status_line : Text
status_line = codes "OK"

abbrev date_line : Text
date_line = codes "a: b"

status_line-IsHeaderLine : IsHeaderLine status_line
status_line-IsHeaderLine = record {
  first = 79;
  rest = codes "K";
  whole = refl;
  one_line = (refl, (refl, tt));
}

date_line-IsHeaderLine : IsHeaderLine date_line
date_line-IsHeaderLine = record {
  first = 97;
  rest = codes ": b";
  whole = refl;
  one_line = (refl, (refl, (refl, (refl, tt))));
}

body_of-response_example :
    body_of (header_of (status_line ∷ date_line ∷ []) ++ (crlf ++ codes "{}")) ≡ ok (codes "{}")
body_of-response_example =
    body_of-response status_line (date_line ∷ []) (codes "{}") status_line-IsHeaderLine
      (date_line-IsHeaderLine, tt)

-- Every fraction is shown as the same word.
abbrev show_always : Rate → Text
show_always r = codes "x"

show_always-HasNone : (r : Rate) → HasNone newline (show_always r)
show_always-HasNone r = (refl, tt)

scrape-Agrees_example :
    Agrees show_always
      (storage_metrics (λ percent total. 0) new)
      5
      (scrape_lines (lines_of (get_prometheus_metrics show_always (λ percent total. 0) new 5)))
scrape-Agrees_example = scrape-Agrees show_always (λ percent total. 0) new 5 show_always-HasNone
