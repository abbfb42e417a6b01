-- ===== src/Monitor.antt =====
-- internal/monitor/monitor.go: the counters and the latencies that are kept. A duration is a number
-- of nanoseconds.
pub mod Latencies
pub mod Stats
mod Tests
use spark_db.Prelude.{ℕ, ◌+◌, ◌-◌, ◌*◌, ◌/◌, List, [], ◌∷◌, ◌++◌, length, drop, ltb, if◌then◌else◌}

pub record Monitor : Type 0 where
  pub total_queries : ℕ
  pub failed_logins : ℕ
  pub latencies : List ℕ
  pub lat_cap : ℕ

unfoldable pub new : Monitor
new = record { total_queries = 0; failed_logins = 0; latencies = []; lat_cap = 10000 }

-- `m.latencies[len(m.latencies)-m.latCap:]`, if they are too many
abbrev pub capped : ℕ → List ℕ → List ℕ
capped cap lats = if ltb cap (length lats) then drop (length lats - cap) lats else lats

unfoldable pub record_query : ℕ → Monitor → Monitor
record_query duration m = record m {
  total_queries = m.total_queries + 1;
  latencies = capped m.lat_cap (m.latencies ++ duration ∷ []);
}

unfoldable pub record_failed_login : Monitor → Monitor
record_failed_login m = record m { failed_logins = m.failed_logins + 1 }

-- `p99Idx`: the product with 0.99 in float64 has the integer part of the exact product for every
-- number up to `lat_cap`.
unfoldable pub p99_idx : ℕ → ℕ
p99_idx n = let i = (n * 99) / 100 in if ltb i n then i else n - 1
