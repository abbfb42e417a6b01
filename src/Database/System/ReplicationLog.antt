-- ===== src/Database/System/ReplicationLog.antt =====
-- internal/database/system.go: the tables `replication_log` and `replication_state`. The times are
-- left out.
use spark_db.Prelude.{ℕ, ◌+◌, String, List, [], ◌∷◌, ◌++◌, Option, none, some, ltb, filter, take}
use spark_db.Text.{Text}

pub record ReplicationEntry : Type 0 where
  pub id : ℕ
  pub database_name : String
  pub query : Text

pub record ReplicationState : Type 0 where
  pub role : String
  pub primary_url : String
  pub last_applied_id : ℕ

-- the entries in the order of their ids, the next id, and the row of `replication_state` if any
pub record ReplicationTables : Type 0 where
  pub entries : List ReplicationEntry
  pub next_entry : ℕ
  pub state : Option ReplicationState

unfoldable pub log_replication : String → Text → ReplicationTables → ℕ × ReplicationTables
log_replication database_name query t =
    let row : ReplicationEntry = record {
      id = t.next_entry;
      database_name = database_name;
      query = query;
    } in
    (t.next_entry, record t { entries = t.entries ++ row ∷ []; next_entry = t.next_entry + 1 })

-- `WHERE id > ? ORDER BY id ASC LIMIT ?`
unfoldable pub get_replication_log : ℕ → ℕ → ReplicationTables → List ReplicationEntry
get_replication_log since limit t = take limit (filter (λ e. ltb since e.id) t.entries)

abbrev pub standalone : ReplicationState
standalone = record { role = "standalone"; primary_url = ""; last_applied_id = 0 }

unfoldable pub get_replication_state : ReplicationTables → ReplicationState
get_replication_state t = elim t.state [ none ↦ standalone | some st ↦ st ]

-- an existing row keeps its `last_applied_id`
unfoldable pub init_replication_state : String → String → ReplicationTables → ReplicationTables
init_replication_state role primary_url t = record t {
  state = some (elim t.state [
    | none ↦ record { role = role; primary_url = primary_url; last_applied_id = 0 }
    | some st ↦ record st { role = role; primary_url = primary_url }
  ]);
}

unfoldable pub update_replication_applied_id : ℕ → ReplicationTables → ReplicationTables
update_replication_applied_id id t = record t {
  state = elim t.state [ none ↦ none | some st ↦ some (record st { last_applied_id = id }) ];
}

unfoldable pub clean_replication_log : ℕ → ReplicationTables → ReplicationTables
clean_replication_log before t = record t { entries = filter (λ e. ltb before e.id) t.entries }
