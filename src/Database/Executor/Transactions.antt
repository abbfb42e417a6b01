-- ===== src/Database/Executor/Transactions.antt =====
-- What a transaction runs, and how it ends.
use spark_db.Prelude.{
  ◌≡◌, refl, ◌∙◌, ap, sym, List, [], ◌∷◌, ◌++◌, length, arith, none, Result, ok, err, wrap,
  append-nil, append_assoc, Bool-cases, Result-cases, inl, inr, if◌then◌else◌,
}
use spark_db.Text.{Text, trim_space, to_upper, is_empty}
use spark_db.Database.Executor.{
  Engine, QueryResponse, TransactionResponse, starts_read, query_response, exec_response,
  run_queries, run_query_tx, finish, execute_transaction,
}

-- The statements of a batch: trimmed, without the blank ones.
abbrev pub statements : List Text → List Text
statements [] = []
statements (q ∷ queries) =
    let rest = statements queries in if is_empty (trim_space q) then rest else trim_space q ∷ rest

module _ (eng : Engine) where
  -- one statement's response, and the transaction after it
  abbrev pub answer : Text → eng.Tx → QueryResponse eng.Value × eng.Tx
  answer q tx =
      if starts_read (to_upper q)
      then (let (r, tx') = eng.query_tx q tx in (query_response r, tx'))
      else (let (r, tx') = eng.exec_tx q tx in (exec_response r, tx'))

  -- Every statement in turn, whatever the others answered.
  unfoldable pub run_all : List Text → eng.Tx → List (QueryResponse eng.Value) × eng.Tx
  run_all [] tx = ([], tx)
  run_all (q ∷ queries) tx =
      let (res, tx') = answer q tx in
      let (results, last) = run_all queries tx' in (res ∷ results, last)

  length-run_all :
      (queries : List Text) (tx : eng.Tx) → length (run_all queries tx).0 ≡ length queries
  unfolding run_all
  length-run_all [] tx = refl
  length-run_all (q ∷ queries) tx = omega (arith, length-run_all queries (answer q tx).1)

  -- The Go error of a statement is always nil.
  run_query_tx-answer :
      (q : Text) (tx : eng.Tx)
      → ((run_query_tx eng q tx).0 ≡ ok (answer q tx).0)
        × ((run_query_tx eng q tx).1 ≡ (answer q tx).1)
  run_query_tx-answer q tx = elim (Bool-cases (starts_read (to_upper q))) [
    | inl e ↦ rw e (refl, refl)
    | inr e ↦ rw e (refl, refl)
  ]

  run_queries-all :
      (queries : List Text) (before : List (QueryResponse eng.Value)) (tx : eng.Tx)
      → run_queries eng queries before tx
        ≡ (before ++ (run_all (statements queries) tx).0, none, (run_all (statements queries) tx).1)
  unfolding run_queries run_all
  run_queries-all [] before tx = rw append-nil refl
  run_queries-all (query ∷ queries) before tx = elim (Bool-cases (is_empty (trim_space query))) [
    | inl e ↦ rw e (run_queries-all queries before tx)
    | inr e ↦
        let (res, tx') = answer (trim_space query) tx in
        let rest = run_queries-all queries (before ++ res ∷ []) tx' in
        let (answered, left) = run_query_tx-answer (trim_space query) tx in
        rw (e, answered, left) (rw (append_assoc before (res ∷ [])) at rest)
  ]

  -- the answer once `Commit` has returned
  abbrev pub committed :
      List (QueryResponse eng.Value) → Result (Unit {0}) → Result (TransactionResponse eng.Value)
  committed results (ok _) = ok (record { results = results; error = none })
  committed results (err e) = wrap "commit transaction" (err e)

  finish-committed :
      (results : List (QueryResponse eng.Value)) (tx : eng.Tx) (db : eng.Db)
      → finish eng results none tx db
        ≡ (committed results (eng.commit tx db).0, (eng.commit tx db).1)
  finish-committed results tx db = elim (Result-cases (eng.commit tx db).0) [
    | inl (u, e) ↦ rw (e, finish) refl
    | inr (failure, e) ↦ rw (e, finish) refl
  ]

  -- A transaction that has begun runs every statement that is not blank, also after one that failed,
  -- and then commits: no statement's failure rolls it back.
  pub transaction_commits :
      (queries : List Text) (db : eng.Db) (tx : eng.Tx)
      → eng.begin db ≡ ok tx
      → execute_transaction eng queries (ok db) ≡ (
        committed
            (run_all (statements queries) tx).0
            (eng.commit (run_all (statements queries) tx).1 db).0,
        ok (eng.commit (run_all (statements queries) tx).1 db).1,
      )
  unfolding execute_transaction
  transaction_commits queries db tx begun =
      let (results, last) = run_all (statements queries) tx in
      rw
        (
          execute_transaction,
          begun,
          run_queries-all queries [] tx,
          finish-committed results last db,
        )
        refl

  committed_lem :
      (results : List (QueryResponse eng.Value)) (r : Result (Unit {0}))
      (res : TransactionResponse eng.Value)
      → committed results r ≡ ok res
      → (res.results ≡ results) × (res.error ≡ none)
  committed_lem results (ok _) res h = ground arith
  committed_lem results (err e) res h = cc

  -- The response of a transaction carries no error of its own, and one result for each statement that
  -- is not blank, in their order.
  pub transaction_results :
      (queries : List Text) (db : eng.Db) (tx : eng.Tx) (res : TransactionResponse eng.Value)
      → eng.begin db ≡ ok tx
      → (execute_transaction eng queries (ok db)).0 ≡ ok res
      → (res.error ≡ none)
        × (res.results ≡ (run_all (statements queries) tx).0)
        × (length res.results ≡ length (statements queries))
  transaction_results queries db tx res begun h =
      let (results, last) = run_all (statements queries) tx in
      let (same, none_left) = committed_lem results (eng.commit last db).0 res (
        sym (
          ap (λ (r : Result (TransactionResponse eng.Value) × Result eng.Db). r.0)
            (transaction_commits queries db tx begun))
        ∙ h) in
      (none_left, same, ap length same ∙ length-run_all (statements queries) tx)
