-- ===== src/Market/Latency.antt =====
-- src/sentum/market/RuntimePerformanceMetrics.hpp: the histogram of latencies, and the high-water mark of
-- the queue. Each call is one step; counters wrap at 64 bits in the code, and are natural numbers here.
use sentum.Prelude.{
  ℕ, zero, suc, ◌+◌, ◌≤◌, ◌<◌, ◌≡◌, List, [], ◌∷◌, if◌then◌else◌, ltb, leb, max, length, get_or,
  set, replicate, arith,
}

abbrev pub limits : List ℕ
limits =
    1 ∷ 2 ∷ 4 ∷ 8 ∷ 16 ∷ 32 ∷ 64 ∷ 128 ∷ 256 ∷ 512 ∷ 1000 ∷ 2000 ∷ 4000 ∷ 8000 ∷ 16000 ∷ 32000 ∷ []

pub record LatencyHistogram : Type 0 where
  pub buckets : List ℕ
  pub count : ℕ
  pub total : ℕ
  pub highest : ℕ

abbrev pub new_histogram : LatencyHistogram
new_histogram = record { buckets = replicate 17 0; count = 0; total = 0; highest = 0 }

-- The index of the first limit that is not below the value; the number of limits where there is none.
unfoldable pub bucket_for : ℕ → List ℕ → ℕ
bucket_for value [] = 0
bucket_for value (limit ∷ rest) =
    let later = bucket_for value rest in if leb value limit then 0 else later + 1

unfoldable pub observe : LatencyHistogram → ℕ → LatencyHistogram
observe h microseconds =
    let i = bucket_for microseconds limits in
    record {
      buckets = set h.buckets i (get_or h.buckets i 0 + 1);
      count = h.count + 1;
      total = h.total + microseconds;
      highest = if ltb h.highest microseconds then microseconds else h.highest;
    }

-- The loop of `percentile`: the limit of the first bucket at which the counts reach the target.
unfoldable pub percentile_from : ℕ → List ℕ → List ℕ → ℕ → ℕ → ℕ
percentile_from highest [] bounds target seen = highest
percentile_from highest (n ∷ buckets) [] target seen = highest
percentile_from highest (n ∷ buckets) (limit ∷ bounds) target seen =
    let rest = percentile_from highest buckets bounds target (seen + n) in
    if leb target (seen + n) then limit else rest

abbrev pub observe_queue_depth : ℕ → ℕ → ℕ
observe_queue_depth high_water depth = max high_water depth

unfoldable pub total_of : List ℕ → ℕ
total_of [] = 0
total_of (n ∷ ns) = n + total_of ns

bucket-in : (value : ℕ) (bounds : List ℕ) → bucket_for value bounds ≤ length bounds
unfolding bucket_for
bucket-in value [] = omega arith
bucket-in value (limit ∷ rest) = ground (arith, bucket-in value rest)

total-set :
    (ns : List ℕ) (i : ℕ)
    → i < length ns
    → total_of (set ns i (get_or ns i 0 + 1)) ≡ total_of ns + 1
unfolding total_of
total-set [] i h = absurd (omega (arith, h))
total-set (n ∷ ns) zero h = omega arith
total-set (n ∷ ns) (suc i) h = omega (arith, total-set ns i (omega (arith, h)))

-- An observation falls into one bucket: the buckets go on adding up to the number of observations, and
-- their number stays.
pub observe_counts :
    (h : LatencyHistogram) (microseconds : ℕ)
    → length h.buckets ≡ length limits + 1
    → total_of h.buckets ≡ h.count
    → let after = observe h microseconds in
      (total_of after.buckets ≡ after.count)
      × (microseconds ≤ after.highest)
      × (h.highest ≤ after.highest)
unfolding observe
observe_counts h microseconds sized counted =
    let i = bucket_for microseconds limits in
    let inside = bucket-in microseconds limits in
    let summed = total-set h.buckets i (omega (arith, inside, sized)) in
    (omega (arith, summed, counted), ground arith, ground arith)
