-- ===== src/Commands/Import/Batches.antt =====
-- An import sends each row once, in batches.
use spark_db.Prelude.{
  String, ℕ, zero, suc, ◌≤◌, ◌≡◌, refl, ap, ◌∙◌, List, [], ◌∷◌, ◌++◌, map, length, take, drop,
  append-nil, append_assoc, arith, none, ok, All, append-take, length-take, length-drop,
}
use spark_db.Text.{Text}
use spark_db.Commands.Import.{
  Numbers, Answer, infer_types, create_sql, insert_sql, batches, send_all, import_csv,
}

abbrev pub concat {ℓ} : {A : Type ℓ} → List (List A) → List A
concat [] = []
concat (xs ∷ xss) = xs ++ concat xss

module _ {A : Type 0} where
  pub concat-batches :
      (fuel : ℕ) (rows : List A) → length rows ≤ fuel → concat (batches fuel rows) ≡ rows
  unfolding batches
  concat-batches zero [] h = refl
  concat-batches zero (r ∷ rows) h = absurd (omega arith)
  concat-batches (suc fuel) [] h = refl
  concat-batches (suc fuel) (r ∷ rows) h =
      let rest = concat-batches fuel (drop 100 (r ∷ rows)) (omega (arith, length-drop 99 rows)) in
      ap (λ l. take 100 (r ∷ rows) ++ l) rest ∙ append-take 100 (r ∷ rows)

  pub batches-sizes :
      (fuel : ℕ) (rows : List A) → All (λ b. (1 ≤ length b) × (length b ≤ 100)) (batches fuel rows)
  unfolding batches
  batches-sizes zero rows = tt
  batches-sizes (suc fuel) [] = tt
  batches-sizes (suc fuel) (r ∷ rows) = (
    (omega arith, omega (arith, length-take 99 rows, length-drop 99 rows)),
    batches-sizes fuel (drop 100 (r ∷ rows)),
  )

-- a server that accepts and records every statement
abbrev pub recording : Text → List Text → Answer × List Text
recording stmt sent = (ok none, sent ++ stmt ∷ [])

pub send_all-recording :
    (label : String) (stmts sent : List Text)
    → send_all recording label stmts sent ≡ (ok tt, sent ++ stmts)
unfolding send_all
send_all-recording label [] sent = rw (append-nil sent) refl
send_all-recording label (stmt ∷ stmts) sent =
    send_all-recording label stmts (sent ++ stmt ∷ [])
    ∙ rw (append_assoc sent (stmt ∷ []) stmts) refl

-- Where the server accepts every statement, importCSV succeeds and sends the statement that creates
-- the table, and then one INSERT for each batch: the batches put together are the rows of the file in
-- their order, and each has between one and a hundred rows.
pub import_csv_lem :
    (n : Numbers) (table : Text) (headers row : List Text) (rows : List (List Text))
    → let types = infer_types n headers (row ∷ rows) in
      let groups = batches (length (row ∷ rows)) (row ∷ rows) in
      (import_csv recording n table (headers ∷ row ∷ rows) []
        ≡ (ok tt, create_sql n table headers types ∷ map (insert_sql n table headers types) groups))
      × (concat groups ≡ row ∷ rows)
      × All (λ b. (1 ≤ length b) × (length b ≤ 100)) groups
unfolding import_csv
import_csv_lem n table headers row rows =
    let types = infer_types n headers (row ∷ rows) in
    let groups = batches (length (row ∷ rows)) (row ∷ rows) in
    (
      send_all-recording "insert batch" (map (insert_sql n table headers types) groups)
          (create_sql n table headers types ∷ []),
      concat-batches (length (row ∷ rows)) (row ∷ rows) (omega arith),
      batches-sizes (length (row ∷ rows)) (row ∷ rows),
    )
