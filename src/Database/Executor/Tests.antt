-- ===== src/Database/Executor/Tests.antt =====
-- The properties of the executor at concrete statements, and tests.
use spark_db.Prelude.{ℕ, ◌≡◌, refl, List, [], ◌∷◌, none, ok, reported, errorf}
use spark_db.Text.{codes, trim_space, upper, is_space}
use spark_db.Database.Executor.{
  QueryResponse, TransactionResponse, failed, exec_response, execute, run_queries,
  execute_transaction,
}
use spark_db.Database.Executor.Examples.{journal}
use spark_db.Database.Executor.Transactions.{statements, run_all, committed, transaction_commits}

abbrev done : QueryResponse ℕ
done = record {
  columns = "last_insert_id" ∷ "rows_affected" ∷ [];
  rows = (1 ∷ 1 ∷ []) ∷ [];
  error = none;
}

abbrev refused : QueryResponse ℕ
refused = failed (reported "syntax error")

-- The second statement fails; the first and the last are committed.
abbrev batch : List (List ℕ)
batch = codes "ADD 1" ∷ codes "BAD" ∷ codes " " ∷ codes "ADD 2" ∷ []

abbrev answered : TransactionResponse ℕ
answered = record { results = done ∷ refused ∷ done ∷ []; error = none }

half_done :
    execute_transaction journal batch (ok [])
    ≡ (ok answered, ok (codes "ADD 2" ∷ codes "ADD 1" ∷ []))
unfolding execute_transaction run_queries trim_space is_space upper exec_response
half_done = refl

transaction_commits_example : execute_transaction journal batch (ok []) ≡ (
  committed journal
      (run_all journal (statements batch) []).0
      (journal.commit (run_all journal (statements batch) []).1 []).0,
  ok (journal.commit (run_all journal (statements batch) []).1 []).1,
)
transaction_commits_example = transaction_commits journal batch [] [] refl

half_answered : (execute_transaction journal batch (ok [])).0 ≡ ok answered
unfolding execute_transaction run_queries trim_space is_space upper exec_response
half_answered = refl

empty_query :
    execute journal 5 (codes "  ") [] (ok []) none
    ≡ (ok (failed (errorf "empty query")), ok [], none)
unfolding execute trim_space is_space
empty_query = refl
