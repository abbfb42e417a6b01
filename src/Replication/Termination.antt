-- ===== src/Replication/Termination.antt =====
-- The recursion of a poll ends by itself.
use spark_db.Prelude.{ℕ, suc, ◌+◌, ◌≡◌, some, length, arith}
use spark_db.Database.System.ReplicationLog.{ReplicationTables}
use spark_db.Database.Executor.{Engine}
use spark_db.Replication.{Replica, poll_once}
use spark_db.Replication.Pages.{InOrder, after}
use spark_db.Replication.Poll.{AllOpen, Polled, answers, poll_once_settles}

-- Where the log of the primary is in the order of its ids and every database opens, the recursion
-- of pollOnce comes to its end within one page more than there are pending entries, and in the same
-- state whatever more it is allowed: the pending entries have been run, each once and in their
-- order, and the last of them is the last applied one.
pub poll_once_ends :
    (eng : Engine) (elapsed : ℕ) (t : ReplicationTables) (r : Replica eng)
    → InOrder t.entries
    → AllOpen eng elapsed r.served
    → (polled : Replica eng) × ((more : ℕ)
        → poll_once eng elapsed
            (answers eng elapsed t)
            (suc (length (after r.last_id t.entries)) + more)
            r
          ≡ some polled)
      × Polled eng elapsed t r polled
poll_once_ends eng elapsed t r o open_all =
    poll_once_settles eng elapsed t (suc (length (after r.last_id t.entries))) r o open_all
      (omega arith)
