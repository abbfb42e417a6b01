-- ===== src/Monitor/Stats.antt =====
-- internal/monitor/monitor.go: Stats, less the figures of the process. A latency is reported in whole
-- microseconds, before their division by 1000; the mean is given by the sum of the latencies, in
-- microseconds as well, and their number. `names` is what ListAll of the manager returns.
pub mod Percentile
use spark_db.Prelude.{
  ℕ, zero, suc, ◌+◌, ◌-◌, ◌*◌, ◌/◌, ◌≤◌, ◌<◌, ◌≡◌, refl, ap, ◌∙◌, Bool, true, false, Bool-cases,
  ◌⊎◌, inl, inr, String, List, [], ◌∷◌, ◌++◌, All, Elem, Option, none, some, length, filter,
  length-filter-le, ltb, arith, if◌then◌else◌,
}
use spark_db.Text.{append_str}
use spark_db.Disk.{File, Disk, stat}
use spark_db.Monitor.{Monitor, p99_idx}
use spark_db.Monitor.Latencies.{p99_idx-lt}

-- sort.Slice in ascending order
abbrev pub insert_sorted : ℕ → List ℕ → List ℕ
insert_sorted d [] = d ∷ []
insert_sorted d (e ∷ es) = let rest = insert_sorted d es in if ltb e d then e ∷ rest else d ∷ e ∷ es

abbrev pub ascending : List ℕ → List ℕ
ascending [] = []
ascending (d ∷ ds) = insert_sorted d (ascending ds)

abbrev pub sum : List ℕ → ℕ
sum [] = 0
sum (d ∷ ds) = d + sum ds

-- `sorted[i]`, where `i` is in range
abbrev pub at : List ℕ → ℕ → ℕ
at [] i = 0
at (d ∷ ds) zero = d
at (d ∷ ds) (suc i) = at ds i

-- Microseconds of a duration
abbrev pub microseconds : ℕ → ℕ
microseconds d = d / 1000

-- `sorted[p99Idx]`
unfoldable pub slow_latency : List ℕ → ℕ
slow_latency ds = let sorted = ascending ds in at sorted (p99_idx (length sorted))

unfoldable pub p99_latency : List ℕ → ℕ
unfolding slow_latency
p99_latency [] = 0
p99_latency (d ∷ ds) = microseconds (slow_latency (d ∷ ds))

pub record DatabaseStat : Type 0 where
  pub name : String
  pub size : ℕ

pub record Stats : Type 0 where
  pub total_queries : ℕ
  pub failed_logins : ℕ
  pub active_conns : ℕ
  pub latency_sum : ℕ
  pub latency_count : ℕ
  pub p99_latency : ℕ
  pub num_databases : ℕ
  pub databases : List DatabaseStat

abbrev pub size_of : Option File → ℕ
size_of none = 0
size_of (some f) = length f.content

module _ (data_dir : String) (d : Disk) where
  abbrev pub path_of : String → String
  path_of name = append_str data_dir (append_str "/" name)

  -- a database that is a file, with its journals
  abbrev pub database_stats : List String → List DatabaseStat
  database_stats [] = []
  database_stats (name ∷ names) =
      let rest = database_stats names in
      let path = path_of name in
      let journals =
        size_of (stat (append_str path "-wal") d)
        + size_of (stat (append_str path "-shm") d)
        + size_of (stat (append_str path "-journal") d) in
      elim (stat path d) [
        | none ↦ rest
        | some f ↦ record { name = name; size = length f.content + journals } ∷ rest
      ]

  unfoldable pub stats : List String → Monitor → Stats
  stats names m = record {
    total_queries = m.total_queries;
    failed_logins = m.failed_logins;
    active_conns = length names;
    latency_sum = microseconds (sum m.latencies);
    latency_count = length m.latencies;
    p99_latency = p99_latency m.latencies;
    num_databases = length names;
    databases = database_stats names;
  }
