-- ===== src/Monitor/Tests.antt =====
-- The properties of the monitor at concrete latencies, and tests.
use spark_db.Prelude.{ℕ, ◌/◌, ◌≡◌, ◌≤◌, ◌*◌, refl, [], ◌∷◌, Elem, filter, length, ltb}
use spark_db.Monitor.{capped, p99_idx}
use spark_db.Monitor.Stats.{p99_latency, slow_latency}
use spark_db.Monitor.Stats.Percentile.{p99_latency_lem}

oldest_dropped : capped 2 (3 ∷ 1 ∷ 2 ∷ []) ≡ 1 ∷ 2 ∷ []
oldest_dropped = refl

index_of_250 : p99_idx 250 ≡ 247
unfolding p99_idx
index_of_250 = refl

p99_latency_lem_example :
    (slow : ℕ) × (p99_latency (1500 ∷ 1600 ∷ 200 ∷ []) ≡ slow / 1000)
    × Elem slow (1500 ∷ 1600 ∷ 200 ∷ [])
    × (100 * length (filter (λ e. ltb slow e) (1500 ∷ 1600 ∷ 200 ∷ [])) ≤ 3)
p99_latency_lem_example = p99_latency_lem 1500 (1600 ∷ 200 ∷ [])

-- The slowest is reported, less its last 600 nanoseconds.
slowest_reported : p99_latency (1500 ∷ 1600 ∷ 200 ∷ []) ≡ 1
unfolding p99_latency slow_latency p99_idx
slowest_reported = refl
