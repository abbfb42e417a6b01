-- ===== src/Replication.antt =====
-- internal/replication/replication.go: the polls of a replica. The primary's answer to a request is
-- the parameter `primary`: none when the request fails, its status is not 200, or its body does not
-- decode. The recursion of `pollOnce` is on fuel. A statement is taken to last `elapsed`.
pub mod Poll
pub mod Loop
pub mod Termination
pub mod Pages
mod Tests
use Prim.Native.String
use spark_db.Prelude.{
  ℕ, zero, suc, String, Bool, true, false, not, List, [], ◌∷◌, Option, none, some, Result, ok, err,
  wrap, leb, length, str_eq, if◌then◌else◌,
}
use spark_db.Monitor.{Monitor}
use spark_db.Database.System.ReplicationLog.{
  ReplicationEntry, ReplicationTables, get_replication_state, update_replication_applied_id,
}
use spark_db.Database.Executor.{Engine, QueryResponse, execute}

module _ (eng : Engine) where
  -- what the executor works on
  pub record Served : Type 0 where
    pub databases : String → Result eng.Db
    pub mon : Option Monitor

  pub record Replica : Type 0 where
    pub served : Served
    pub tables : ReplicationTables
    pub last_id : ℕ

  abbrev pub ran : String → Result (QueryResponse eng.Value) → Result (Unit {0})
  ran name (ok res) = ok tt
  ran name (err e) = wrap (String.◌++◌ "execute on " name) (err e)

  module _ (elapsed : ℕ) where
    unfoldable pub apply_entry : ReplicationEntry → Served → Result (Unit {0}) × Served
    apply_entry entry s =
        let name = entry.database_name in
        let (res, db, mon) = execute eng elapsed entry.query [] (s.databases name) s.mon in
        (
          ran name res,
          record s { databases = λ n. if str_eq n name then db else s.databases n; mon = mon },
        )

    -- The loop over the entries: whether it came to the end, and `lastID`.
    unfoldable pub apply_entries : List ReplicationEntry → ℕ → Served → Bool × ℕ × Served
    apply_entries [] last_id s = (true, last_id, s)
    apply_entries (entry ∷ entries) last_id s =
        let (r, s') = apply_entry entry s in
        elim r [ err e ↦ (false, last_id, s') | ok _ ↦ apply_entries entries entry.id s' ]

    abbrev pub no_entries : List ReplicationEntry → Bool
    no_entries [] = true
    no_entries (e ∷ entries) = false

    module _ (primary : ℕ → ℕ → Option (List ReplicationEntry)) where
      -- none where the recursion of pollOnce has not come to its end within the fuel
      unfoldable pub poll_once : ℕ → Replica → Option Replica
      poll_once zero r = none
      poll_once (suc fuel) r = elim (primary r.last_id 500) [
        | none ↦ some r
        | some entries ↦
            let (done, last_id, served) = apply_entries entries r.last_id r.served in
            let applied : Replica = record r { served = served; last_id = last_id } in
            let saved : Replica = record applied {
              tables = update_replication_applied_id last_id r.tables;
            } in
            let rest = poll_once fuel saved in
            if no_entries entries
            then some r
            else if not done
            then some applied
            else if leb 500 (length entries)
            then rest
            else some saved
      ]

    -- replicaLoop: a poll at the start and one for each tick, each with what the primary answers then.
    -- `fuel` is that of each poll; none where a poll has not come to its end.
    unfoldable pub replica_loop :
        ℕ → List (ℕ → ℕ → Option (List ReplicationEntry)) → Replica → Option Replica
    replica_loop fuel [] r = some r
    replica_loop fuel (primary ∷ primaries) r = elim (poll_once primary fuel r) [
      | none ↦ none
      | some polled ↦ replica_loop fuel primaries polled
    ]

  -- what replicaLoop starts from
  unfoldable pub starting : Served → ReplicationTables → Replica
  starting served t = record {
    served = served;
    tables = t;
    last_id = (get_replication_state t).last_applied_id;
  }
