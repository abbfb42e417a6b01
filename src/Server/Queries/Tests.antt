-- ===== src/Server/Queries/Tests.antt =====
-- The properties of the query handlers at concrete requests, and tests.
use spark_db.Prelude.{◌≡◌, ◌⊎◌, refl, true, [], ◌∷◌, none, some, ok, All}
use spark_db.Text.{codes, trim_space, upper, is_space}
use spark_db.Rbac.{has_permission}
use spark_db.Query.Validator.{
  identify_type, required_permission, check_dangerous, first_danger, danger_patterns,
}
use spark_db.Auth.Authenticator.{AuthUser}
use spark_db.Database.System.ReplicationLog.{ReplicationTables}
use spark_db.Database.Executor.{is_write_query}
use spark_db.Database.Executor.Examples.{journal}
use spark_db.Database.Executor.Transactions.{statements}
use spark_db.Server.Queries.{
  State, QueryRequest, TransactionRequest, is_permitted, refusal, first_refusal, denied,
  handle_query, handle_transaction, error_answer,
}
use spark_db.Server.Queries.Guards.{
  IsAllowed, Untouched, handle_query_guard, handle_transaction_guard,
}

abbrev reader : AuthUser
reader = record { id = 4; username = "rita"; role = "readonly"; auth_type = "jwt" }

abbrev log : ReplicationTables
log = record { entries = []; next_entry = 1; state = none }

abbrev start : State journal
start = record { databases = λ n. ok []; replication = some log; mon = none; audit = [] }

abbrev update : QueryRequest journal
update = record { query = codes "UPDATE t"; database = ""; params = [] }

handle_query_guard_example :
    ((((handle_query journal 3 (some reader) (some update) start).0.status ≡ 400)
        ⊎ ((handle_query journal 3 (some reader) (some update) start).0.status ≡ 403))
      × Untouched journal start (handle_query journal 3 (some reader) (some update) start).1)
    ⊎ IsAllowed (some reader) (codes "UPDATE t")
handle_query_guard_example = handle_query_guard journal 3 (some reader) update start

reader_may_not_update :
    (handle_query journal 3 (some reader) (some update) start).0
    ≡ error_answer journal 403 (denied (some reader) (codes "UPDATE t"))
unfolding handle_query refusal check_dangerous first_danger danger_patterns is_permitted
    identify_type required_permission has_permission trim_space is_space upper
reader_may_not_update = refl

abbrev mixed : TransactionRequest journal
mixed = record { queries = codes "SELECT 1" ∷ codes "UPDATE t" ∷ []; database = "" }

handle_transaction_guard_example :
    ((((handle_transaction journal (some reader) (some mixed) start).0.status ≡ 400)
        ⊎ ((handle_transaction journal (some reader) (some mixed) start).0.status ≡ 403))
      × Untouched journal start (handle_transaction journal (some reader) (some mixed) start).1)
    ⊎ All (IsAllowed (some reader)) (statements (codes "SELECT 1" ∷ codes "UPDATE t" ∷ []))
handle_transaction_guard_example = handle_transaction_guard journal (some reader) mixed start

mixed_is_refused : (handle_transaction journal (some reader) (some mixed) start).0.status ≡ 403
unfolding handle_transaction first_refusal refusal check_dangerous first_danger danger_patterns
    is_permitted identify_type required_permission has_permission trim_space is_space upper
mixed_is_refused = refl

-- A statement that begins with WITH is of no type that needs a permission, and is run as a write.
hidden : refusal (some reader) (codes "WITH x DELETE") ≡ none
unfolding refusal check_dangerous first_danger danger_patterns is_permitted identify_type
    required_permission has_permission trim_space is_space upper
hidden = refl

hidden_writes : is_write_query (codes "WITH x DELETE") ≡ true
unfolding is_write_query trim_space is_space upper
hidden_writes = refl

abbrev with_delete : QueryRequest journal
with_delete = record { query = codes "WITH x DELETE"; database = "d"; params = [] }
