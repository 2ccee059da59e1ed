-- ===== src/Routing/Histogram.antt =====
-- The histogram of durations in internal/routing/pipeline.go, which a deferred call of `Lease` feeds.
-- Durations and bounds are nanoseconds, and the counters of 64 bits are numbers without a bound.
use grunyas.Prelude.{ℕ, ◌+◌, String, none, some, List, [], ◌∷◌, leb, if◌then◌else◌}
use grunyas.Prelude.Assoc
use grunyas.Prelude.Assoc.{Assoc}

-- durationBucketBounds
abbrev pub duration_bucket_bounds : List ℕ
duration_bucket_bounds =
    1_000_000 ∷ 5_000_000 ∷ 10_000_000 ∷ 50_000_000 ∷ 100_000_000 ∷ 500_000_000 ∷ 1_000_000_000
    ∷ 5_000_000_000 ∷ []

pub record PortHistogram : Type 0 where
  pub sum : ℕ
  pub count : ℕ
  pub buckets : List ℕ

-- The zero value.
abbrev pub new_histogram : PortHistogram
new_histogram = record { sum = 0; count = 0; buckets = 0 ∷ 0 ∷ 0 ∷ 0 ∷ 0 ∷ 0 ∷ 0 ∷ 0 ∷ [] }

-- The loop over the bounds.
unfoldable pub add_to_buckets : ℕ → (bounds buckets : List ℕ) → List ℕ
add_to_buckets d [] buckets = buckets
add_to_buckets d (bound ∷ bounds) [] = []
add_to_buckets d (bound ∷ bounds) (n ∷ buckets) =
    let others = add_to_buckets d bounds buckets in
    if leb d bound then (n + 1) ∷ others else n ∷ others

unfoldable pub observe_duration : ℕ → PortHistogram → PortHistogram
unfolding add_to_buckets
observe_duration d h = record {
  sum = h.sum + d;
  count = h.count + 1;
  buckets = add_to_buckets d duration_bucket_bounds h.buckets;
}

-- loadOrStoreHistogram(m, port).observe_duration(d)
unfoldable pub observe_port : String → ℕ → Assoc PortHistogram → Assoc PortHistogram
unfolding observe_duration
observe_port port d m = elim (Assoc.get port m) [
  | none ↦ Assoc.put port (observe_duration d new_histogram) m
  | some h ↦ Assoc.put port (observe_duration d h) m
]

-- Any sequence of observations, of ports and durations.
unfoldable pub observations : List (String × ℕ) → Assoc PortHistogram → Assoc PortHistogram
unfolding observe_port
observations [] m = m
observations ((port, d) ∷ rest) m = observations rest (observe_port port d m)

-- The entries of the maps of buckets that `DecisionDurationHistogramSnapshot` makes.
unfoldable pub bucket_map : (bounds buckets : List ℕ) → List (ℕ × ℕ)
bucket_map [] buckets = []
bucket_map (bound ∷ bounds) [] = []
bucket_map (bound ∷ bounds) (n ∷ buckets) = (bound, n) ∷ bucket_map bounds buckets

unfoldable pub duration_histogram_snapshot : Assoc PortHistogram → Assoc (List (ℕ × ℕ))
unfolding bucket_map
duration_histogram_snapshot [] = []
duration_histogram_snapshot ((port, h) ∷ rest) =
    (port, bucket_map duration_bucket_bounds h.buckets) ∷ duration_histogram_snapshot rest

unfoldable pub duration_sum_snapshot : Assoc PortHistogram → Assoc ℕ
duration_sum_snapshot [] = []
duration_sum_snapshot ((port, h) ∷ rest) = (port, h.sum) ∷ duration_sum_snapshot rest

unfoldable pub duration_count_snapshot : Assoc PortHistogram → Assoc ℕ
duration_count_snapshot [] = []
duration_count_snapshot ((port, h) ∷ rest) = (port, h.count) ∷ duration_count_snapshot rest
