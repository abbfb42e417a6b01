-- ===== src/Database/Executor.antt =====
-- internal/database/executor.go, with the responses of pkg/api/types.go and IsWriteQuery of
-- internal/replication/replication.go. The database that `Manager.Open` answers with is the argument
-- `opened`. The package database/sql over SQLite is the parameter `Engine`; the response's field
-- `time` is left out.
pub mod Routing
pub mod Transactions
pub mod Examples
mod Tests
use spark_db.Prelude.{
  ℕ, String, Bool, true, false, not, ◌||◌, List, [], ◌∷◌, ◌++◌, Option, none, some, Error, errorf,
  wrapf, Result, ok, err, wrap, if◌then◌else◌,
}
use spark_db.Text.{Text, codes, trim_space, to_upper, has_prefix, is_empty}
use spark_db.Monitor.{Monitor, record_query}

-- What a query returns: the columns, and for each `Next` what `Scan` returns.
pub record Rows (Value : Type 0) : Type 0 where
  pub columns : Result (List String)
  pub rows : List (Result (List Value))

pub record Engine : Type 1 where
  -- an open database, and a transaction on one
  pub Db : Type 0
  pub Tx : Type 0
  pub Value : Type 0
  -- QueryContext and ExecContext; the latter with LastInsertId and RowsAffected
  pub query : Text → List Value → Db → Result (Rows Value) × Db
  pub exec : Text → List Value → Db → Result (Value × Value) × Db
  pub begin : Db → Result Tx
  pub query_tx : Text → Tx → Result (Rows Value) × Tx
  pub exec_tx : Text → Tx → Result (Value × Value) × Tx
  -- Commit and Rollback of a transaction that was begun on the database
  pub commit : Tx → Db → Result (Unit {0}) × Db
  pub rollback : Tx → Db → Db

pub record QueryResponse (Value : Type 0) : Type 0 where
  pub columns : List String
  pub rows : List (List Value)
  pub error : Option Error

pub record TransactionResponse (Value : Type 0) : Type 0 where
  pub results : List (QueryResponse Value)
  pub error : Option Error

-- the test that picks `Query` or `Exec`, on the statement in upper case
abbrev pub starts_read : Text → Bool
starts_read upper =
    has_prefix upper (codes "SELECT")
    || has_prefix upper (codes "PRAGMA")
    || has_prefix upper (codes "EXPLAIN")

unfoldable pub is_write_query : Text → Bool
is_write_query query = not (starts_read (to_upper (trim_space query)))

module _ {Value : Type 0} where
  abbrev pub failed : Error → QueryResponse Value
  failed e = record { columns = []; rows = []; error = some e }

  -- the loop over `rows.Next()`
  unfoldable pub scan_rows : List (Result (List Value)) → Result (List (List Value))
  scan_rows [] = ok []
  scan_rows (err e ∷ rows) = err e
  scan_rows (ok values ∷ rows) = elim (scan_rows rows) [
    | err e ↦ err e
    | ok all ↦ ok (values ∷ all)
  ]

  abbrev pub rows_response : List String → Result (List (List Value)) → QueryResponse Value
  rows_response columns (ok rows) = record { columns = columns; rows = rows; error = none }
  rows_response columns (err e) = failed e

  abbrev pub columns_response :
      List (Result (List Value)) → Result (List String) → QueryResponse Value
  columns_response rows (ok columns) = rows_response columns (scan_rows rows)
  columns_response rows (err e) = failed e

  -- The response to a query. Its error is part of the response: the Go error is always nil.
  unfoldable pub query_response : Result (Rows Value) → QueryResponse Value
  query_response (ok r) = columns_response r.rows r.columns
  query_response (err e) = failed e

  unfoldable pub exec_response : Result (Value × Value) → QueryResponse Value
  exec_response (ok (last_id, affected)) = record {
    columns = "last_insert_id" ∷ "rows_affected" ∷ [];
    rows = (last_id ∷ affected ∷ []) ∷ [];
    error = none;
  }
  exec_response (err e) = failed e

module _ (eng : Engine) where
  -- `executeQueryContext` and `executeExecContext`
  abbrev pub run_query : Text → List eng.Value → eng.Db → Result (QueryResponse eng.Value) × eng.Db
  run_query q params db =
      if starts_read (to_upper q)
      then (let (r, db') = eng.query q params db in (ok (query_response r), db'))
      else (let (r, db') = eng.exec q params db in (ok (exec_response r), db'))

  abbrev pub observe : ℕ → Option Monitor → Option Monitor
  observe elapsed none = none
  observe elapsed (some m) = some (record_query elapsed m)

  -- the statement takes `elapsed`
  unfoldable pub execute :
      ℕ
      → Text
      → List eng.Value
      → Result eng.Db
      → Option Monitor
      → Result (QueryResponse eng.Value) × Result eng.Db × Option Monitor
  execute elapsed query params (err e) mon = (wrap "open database" (err e), err e, mon)
  execute elapsed query params (ok db) mon =
      let q = trim_space query in
      if is_empty q
      then (ok (failed (errorf "empty query")), ok db, mon)
      else let (res, db') = run_query q params db in (res, ok db', observe elapsed mon)

  -- `executeQueryTxContext` and `executeExecTxContext`
  abbrev pub run_query_tx : Text → eng.Tx → Result (QueryResponse eng.Value) × eng.Tx
  run_query_tx q tx =
      if starts_read (to_upper q)
      then (let (r, tx') = eng.query_tx q tx in (ok (query_response r), tx'))
      else (let (r, tx') = eng.exec_tx q tx in (ok (exec_response r), tx'))

  -- The loop over the statements: the results, the error that ended it early, and the transaction.
  unfoldable pub run_queries :
      List Text
      → List (QueryResponse eng.Value)
      → eng.Tx
      → List (QueryResponse eng.Value) × Option Error × eng.Tx
  run_queries [] results tx = (results, none, tx)
  run_queries (query ∷ queries) results tx =
      let q = trim_space query in
      let skipped = run_queries queries results tx in
      let (r, tx') = run_query_tx q tx in
      if is_empty q then skipped else elim r [
        | err e ↦ (results, some e, tx')
        | ok res ↦ run_queries queries (results ++ res ∷ []) tx'
      ]

  -- the answer and the database after the loop: `Rollback` on an early end, else `Commit`, after
  -- which the deferred `Rollback` does nothing
  abbrev pub finish :
      List (QueryResponse eng.Value)
      → Option Error
      → eng.Tx
      → eng.Db
      → Result (TransactionResponse eng.Value) × eng.Db
  finish results (some e) tx db =
      (ok (record { results = results; error = some (wrapf "query failed" e) }), eng.rollback tx db)
  finish results none tx db =
      let (r, db') = eng.commit tx db in
      elim r [
        | ok _ ↦ (ok (record { results = results; error = none }), db')
        | err e ↦ (wrap "commit transaction" (err e), db')
      ]

  unfoldable pub execute_transaction :
      List Text → Result eng.Db → Result (TransactionResponse eng.Value) × Result eng.Db
  execute_transaction queries (err e) = (wrap "open database" (err e), err e)
  execute_transaction queries (ok db) = elim (eng.begin db) [
    | err e ↦ (wrap "begin transaction" (err e), ok db)
    | ok tx ↦
        let (results, stopped, tx') = run_queries queries [] tx in
        let (r, db') = finish results stopped tx' db in (r, ok db')
  ]
