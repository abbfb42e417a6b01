-- ===== src/Database/Executor/Examples.antt =====
-- An engine that keeps the statements it ran and fails on those that begin with BAD, for the tests.
use spark_db.Prelude.{ℕ, List, [], ◌∷◌, Result, ok, err, reported, if◌then◌else◌}
use spark_db.Text.{Text, codes, has_prefix}
use spark_db.Database.Executor.{Engine, Rows}

abbrev run : Text → List Text → Result (ℕ × ℕ) × List Text
run q done =
    if has_prefix q (codes "BAD")
    then (err (reported "syntax error"), done)
    else (ok (1, 1), q ∷ done)

abbrev one_row : Rows ℕ
one_row = record { columns = ok ("n" ∷ []); rows = ok (7 ∷ []) ∷ [] }

abbrev pub journal : Engine
journal = record {
  Db = List Text;
  Tx = List Text;
  Value = ℕ;
  query = λ q params db. (ok one_row, db);
  exec = λ q params db. run q db;
  begin = λ db. ok db;
  query_tx = λ q tx. (ok one_row, tx);
  exec_tx = λ q tx. run q tx;
  commit = λ tx db. (ok tt, tx);
  rollback = λ tx db. db;
}
