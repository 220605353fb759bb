-- ===== src/Metrics.antt =====
-- The counters, gauges and histograms of src/metrics.rs. An atomic operation is one step on the
-- value; the updates of several threads are some sequence of such steps.
pub mod Values
pub mod Registry
pub mod Reads
use cityhall.Base.{
  ℕ, zero, suc, ◌+◌, ◌-◌, ◌%◌, ◌^◌, List, [], ◌∷◌, ◌++◌, length, set, get_or, ltb, leb,
  if◌then◌else◌, Option, none, some,
}
use cityhall.Types.{Result, ok, panic}

pub record Counter : Type 0 where
  pub value : ℕ

abbrev pub new_counter : Counter
new_counter = record { value = 0 }

abbrev pub counter_add : ℕ → Counter → Counter
counter_add delta c = record { value = (c.value + delta) % 2 ^ 64 }

abbrev pub counter_inc : Counter → Counter
counter_inc c = counter_add 1 c

abbrev pub counter_reset : Counter → Counter
counter_reset c = record { value = 0 }

pub record Gauge : Type 0 where
  pub value : ℕ

abbrev pub gauge_set : ℕ → Gauge → Gauge
gauge_set value g = record { value = value }

abbrev pub gauge_add : ℕ → Gauge → Gauge
gauge_add delta g = record { value = (g.value + delta) % 2 ^ 64 }

-- `fetch_sub` wraps.
abbrev pub gauge_sub : ℕ → Gauge → Gauge
gauge_sub delta g = record { value = (g.value + (2 ^ 64 - delta % 2 ^ 64)) % 2 ^ 64 }

abbrev pub gauge_inc : Gauge → Gauge
gauge_inc g = gauge_add 1 g

abbrev pub gauge_dec : Gauge → Gauge
gauge_dec g = gauge_sub 1 g

-- A duration is a number of nanoseconds.
pub record Histogram : Type 0 where
  pub samples : List ℕ
  pub max_samples : ℕ

abbrev pub with_capacity : ℕ → Histogram
with_capacity max_samples = record { samples = []; max_samples = max_samples }

-- The random index is an argument; `fastrand` panics on an empty range.
unfoldable pub observe : ℕ → ℕ → Histogram → Result Histogram
observe idx duration h =
    if ltb (length h.samples) h.max_samples
    then ok (record h { samples = h.samples ++ duration ∷ [] })
    else if ltb 0 (length h.samples)
    then ok (record h { samples = set h.samples idx duration })
    else panic

unfoldable pub insert_sample : ℕ → List ℕ → List ℕ
insert_sample d [] = d ∷ []
insert_sample d (x ∷ samples) =
    let rest = insert_sample d samples in if leb d x then d ∷ x ∷ samples else x ∷ rest

unfoldable pub sort_samples : List ℕ → List ℕ
unfolding insert_sample
sort_samples [] = []
sort_samples (d ∷ samples) = insert_sample d (sort_samples samples)

-- The index, computed in floating point from the fraction, is an argument.
unfoldable pub percentile : ℕ → Histogram → ℕ
unfolding sort_samples
percentile idx h = get_or (sort_samples h.samples) idx 0

abbrev pub count : Histogram → ℕ
count h = length h.samples

abbrev pub histogram_reset : Histogram → Histogram
histogram_reset h = record h { samples = [] }
