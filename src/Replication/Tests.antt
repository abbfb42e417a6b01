-- ===== src/Replication/Tests.antt =====
-- The properties of the polls at concrete logs, and tests.
use spark_db.Prelude.{
  ℕ, ◌+◌, Option, ◌≡◌, refl, arith, [], ◌∷◌, none, some, ok, err, errorf, str_eq, if◌then◌else◌,
}
use spark_db.Text.{codes, trim_space, is_space, upper}
use spark_db.Database.System.ReplicationLog.{
  ReplicationEntry, ReplicationTables, get_replication_log,
}
use spark_db.Database.Executor.{execute}
use spark_db.Database.Executor.Examples.{journal}
use spark_db.Replication.{Replica, apply_entry, apply_entries, poll_once, replica_loop}
use spark_db.Replication.Poll.{Polled, replayed, answers}
use spark_db.Replication.Termination.{poll_once_ends}
use spark_db.Replication.Loop.{replica_loop_replays}

abbrev first_entry : ReplicationEntry
first_entry = record { id = 1; database_name = "main"; query = codes "ADD 1" }

abbrev bad_entry : ReplicationEntry
bad_entry = record { id = 2; database_name = "main"; query = codes "BAD" }

abbrev last_entry : ReplicationEntry
last_entry = record { id = 4; database_name = "main"; query = codes "ADD 2" }

abbrev log : ReplicationTables
log = record { entries = first_entry ∷ bad_entry ∷ last_entry ∷ []; next_entry = 5; state = none }

abbrev own_tables : ReplicationTables
own_tables = record {
  entries = [];
  next_entry = 1;
  state = some (record { role = "replica"; primary_url = "http://p"; last_applied_id = 1 });
}

abbrev replica : Replica journal
replica = record {
  served = record { databases = λ n. ok []; mon = none };
  tables = own_tables;
  last_id = 1;
}

-- The log as it is at the first poll.
abbrev early_log : ReplicationTables
early_log = record log { entries = first_entry ∷ bad_entry ∷ []; next_entry = 3 }

poll_once_ends_example :
    (polled : Replica journal) × ((more : ℕ)
      → poll_once journal 0 (answers journal 0 log) (3 + more) replica ≡ some polled)
    × Polled journal 0 log replica polled
poll_once_ends_example =
    poll_once_ends journal 0 log replica
      ((omega arith, (omega arith, tt)), ((omega arith, tt), (tt, tt))) (λ n. ([], refl))

replica_loop_replays_example :
    (last : Replica journal) × (replica_loop journal 0 4
        (answers journal 0 early_log ∷ answers journal 0 log ∷ [])
        replica
      ≡ some last)
    × (last.served ≡ replayed journal 0 (bad_entry ∷ last_entry ∷ []) replica.served)
replica_loop_replays_example =
    replica_loop_replays journal 0 4 (log ∷ []) early_log replica
      (
        ((omega arith, tt), (tt, tt)),
        (last_entry ∷ [], refl),
        ((omega arith, (omega arith, tt)), ((omega arith, tt), (tt, tt))),
      )
      (λ n. ([], refl)) (omega arith)

-- what a poll leaves, where it comes to its end
abbrev left_of : Option (Replica journal) → Replica journal
left_of none = replica
left_of (some polled) = polled

-- The statement that fails is passed over.
replayed_main :
    (left_of (poll_once journal 0 (answers journal 0 log) 3 replica)).served.databases "main"
    ≡ ok (codes "ADD 2" ∷ [])
unfolding poll_once apply_entries apply_entry get_replication_log execute trim_space is_space upper
replayed_main = refl

abbrev two_databases : ReplicationTables
two_databases = record {
  entries = bad_entry ∷ record last_entry { database_name = "other" } ∷ [];
  next_entry = 5;
  state = none;
}

abbrev half_open : Replica journal
half_open = record replica {
  served = record {
    databases = λ n. if str_eq n "main" then ok [] else err (errorf "no such file");
    mon = none;
  };
}

-- A database that does not open stops the poll, and the entries run before it are not saved as run.
stopped :
    ((left_of (poll_once journal 0 (answers journal 0 two_databases) 3 half_open)).last_id ≡ 2)
    × ((left_of (poll_once journal 0 (answers journal 0 two_databases) 3 half_open)).tables
        ≡ own_tables)
unfolding poll_once apply_entries apply_entry get_replication_log execute trim_space is_space upper
stopped = (refl, refl)

-- Without fuel there is no end.
out_of_fuel : poll_once journal 0 (answers journal 0 log) 0 replica ≡ none
unfolding poll_once
out_of_fuel = refl
