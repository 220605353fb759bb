-- ===== src/Metrics/Values.antt =====
-- What counters, gauges and histograms report.
use cityhall.Base.{
  ℕ, zero, suc, ◌+◌, ◌%◌, ◌^◌, ◌≤◌, ◌<◌, ◌≡◌, refl, ap, ◌∙◌, arith, List, [], ◌∷◌, length, get_or,
}
use cityhall.Base.{leb, leb→le, Bool-cases, inl, inr}
use cityhall.Metrics.{
  Counter, counter_add, Gauge, gauge_add, gauge_sub, Histogram, insert_sample, sort_samples,
  percentile, count,
}

abbrev pub add_all_deltas : List ℕ → Counter → Counter
add_all_deltas [] c = c
add_all_deltas (d ∷ deltas) c = add_all_deltas deltas (counter_add d c)

abbrev pub sum : List ℕ → ℕ
sum [] = 0
sum (d ∷ deltas) = d + sum deltas

-- After any additions, interleaved in any order, a counter has what it had plus their sum, modulo
-- 2^64.
pub counter_sum :
    (deltas : List ℕ) (c : Counter)
    → c.value < 2 ^ 64
    → (add_all_deltas deltas c).value ≡ (c.value + sum deltas) % 2 ^ 64
counter_sum [] c h = omega arith
counter_sum (d ∷ deltas) c h = omega (arith, counter_sum deltas (counter_add d c) (omega arith))

-- Subtracting what was added gives a gauge back, also across the wrap.
pub gauge_sub-gauge_add :
    (g : Gauge) (delta : ℕ)
    → g.value < 2 ^ 64
    → (gauge_sub delta (gauge_add delta g)).value ≡ g.value
gauge_sub-gauge_add g delta h = omega arith

abbrev AtLeast : ℕ → List ℕ → Type 0
AtLeast n [] = Unit
AtLeast n (x ∷ samples) = (n ≤ x) × AtLeast n samples

abbrev IsSorted : List ℕ → Type 0
IsSorted [] = Unit
IsSorted (x ∷ samples) = AtLeast x samples × IsSorted samples

AtLeast-le : (m n : ℕ) (samples : List ℕ) → m ≤ n → AtLeast n samples → AtLeast m samples
AtLeast-le m n [] h a = tt
AtLeast-le m n (x ∷ samples) h (a, rest) = (omega arith, AtLeast-le m n samples h rest)

insert_sample-AtLeast :
    (n d : ℕ) (samples : List ℕ) → n ≤ d → AtLeast n samples → AtLeast n (insert_sample d samples)
unfolding insert_sample
insert_sample-AtLeast n d [] h a = (h, tt)
insert_sample-AtLeast n d (x ∷ samples) h (a, rest) = elim (Bool-cases (leb d x)) [
  | inl before ↦ rw before (h, (a, rest))
  | inr after ↦ rw after (a, insert_sample-AtLeast n d samples h rest)
]

insert_sample-IsSorted :
    (d : ℕ) (samples : List ℕ) → IsSorted samples → IsSorted (insert_sample d samples)
unfolding insert_sample
insert_sample-IsSorted d [] s = (tt, tt)
insert_sample-IsSorted d (x ∷ samples) (a, s) = elim (Bool-cases (leb d x)) [
  | inl before ↦ let le = leb→le _ _ before in rw before ((le, AtLeast-le d x samples le a), (a, s))
  | inr after ↦
      let le : x ≤ d = ground arith in
      rw after (insert_sample-AtLeast x d samples le a, insert_sample-IsSorted d samples s)
]

sort_samples-IsSorted : (samples : List ℕ) → IsSorted (sort_samples samples)
unfolding sort_samples
sort_samples-IsSorted [] = tt
sort_samples-IsSorted (d ∷ samples) =
    insert_sample-IsSorted d (sort_samples samples) (sort_samples-IsSorted samples)

get_or-AtLeast :
    (n i : ℕ) (samples : List ℕ) → AtLeast n samples → i < length samples → n ≤ get_or samples i 0
get_or-AtLeast n i [] a h = absurd (omega arith)
get_or-AtLeast n zero (x ∷ samples) a h = a.0
get_or-AtLeast n (suc i) (x ∷ samples) a h = get_or-AtLeast n i samples a.1 (omega arith)

get_or-IsSorted :
    (samples : List ℕ) (i j : ℕ)
    → IsSorted samples
    → i ≤ j
    → j < length samples
    → get_or samples i 0 ≤ get_or samples j 0
get_or-IsSorted [] i j s h k = absurd (omega arith)
get_or-IsSorted (x ∷ samples) zero zero s h k = omega arith
get_or-IsSorted (x ∷ samples) zero (suc j) s h k = get_or-AtLeast x j samples s.0 (omega arith)
get_or-IsSorted (x ∷ samples) (suc i) zero s h k = absurd (omega arith)
get_or-IsSorted (x ∷ samples) (suc i) (suc j) s h k =
    get_or-IsSorted samples i j s.1 (omega arith) (omega arith)

length-insert_sample :
    (d : ℕ) (samples : List ℕ) → length (insert_sample d samples) ≡ suc (length samples)
unfolding insert_sample
length-insert_sample d [] = refl
length-insert_sample d (x ∷ samples) = elim (Bool-cases (leb d x)) [
  | inl before ↦ rw before
  | inr after ↦ rw after (ap suc (length-insert_sample d samples))
]

length-sort_samples : (samples : List ℕ) → length (sort_samples samples) ≡ length samples
unfolding sort_samples
length-sort_samples [] = refl
length-sort_samples (d ∷ samples) =
    length-insert_sample d (sort_samples samples) ∙ ap suc (length-sort_samples samples)

-- For indices within the samples, a higher percentile of a histogram is not below a lower one.
pub percentile_monotone :
    (h : Histogram) (i j : ℕ) → i ≤ j → j < count h → percentile i h ≤ percentile j h
unfolding percentile
percentile_monotone h i j le k =
    get_or-IsSorted (sort_samples h.samples) i j (sort_samples-IsSorted h.samples) le
      (omega (arith, length-sort_samples h.samples))
