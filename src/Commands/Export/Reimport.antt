-- ===== src/Commands/Export/Reimport.antt =====
-- A table that is exported to CSV and imported again.
use mathlib.Core.Path.{subst}
use spark_db.Prelude.{
  ◌≡◌, ◌<◌, refl, sym, ap, ◌∙◌, List, [], ◌∷◌, map, append-nil, length, length-map, drop, arith,
  some, none, ok, All, if◌then◌else◌,
}
use spark_db.Text.{Text}
use spark_db.Client.{Value}
use spark_db.Commands.Import.{
  Numbers, ColType, next_types, infer_from, all_text, infer_types, create_sql, insert_sql,
  render_row, batches, import_csv,
}
use spark_db.Commands.Import.Grammar.{Mode, read, are_literals}
use spark_db.Commands.Import.Literals.{PlainNumbers, literals, read-render_row}
use spark_db.Commands.Import.Batches.{concat, recording, import_csv_lem}
use spark_db.Commands.Export.{csv_value, export_csv}

module _ (n : Numbers) where
  length-next_types : (vs : List Text) (ts : List ColType) → length (next_types n vs ts) ≡ length ts
  unfolding next_types
  length-next_types [] ts = refl
  length-next_types (v ∷ vs) [] = refl
  length-next_types (v ∷ vs) (t ∷ ts) = omega (arith, length-next_types vs ts)

  length-infer_from :
      (rows : List (List Text)) (ts : List ColType) → length (infer_from n rows ts) ≡ length ts
  length-infer_from [] ts = refl
  length-infer_from (row ∷ rows) ts =
      length-infer_from rows (next_types n row ts) ∙ length-next_types row ts

  length-infer_types :
      (headers : List Text) (rows : List (List Text))
      → length (infer_types n headers rows) ≡ length headers
  unfolding infer_types
  length-infer_types headers rows =
      length-infer_from rows (all_text n headers) ∙ length-map (λ h. ColType.text) headers

  -- The row of an INSERT is read as one literal for each value, exactly if all of them are literals.
  abbrev pub Reads : List ColType → List Text → Type 0
  Reads types vs =
      read Mode.start (drop 1 (render_row n types vs))
      ≡ (if are_literals (literals n vs types) then some (literals n vs types, []) else none)

  Reads-row :
      (law : PlainNumbers n) (vs : List Text) (ts : List ColType)
      → 0 < length ts
      → length vs ≡ length ts
      → Reads ts vs
  Reads-row law [] [] filled e = absurd (omega arith)
  Reads-row law (v ∷ vs) [] filled e = absurd (omega arith)
  Reads-row law [] (t ∷ ts) filled e = absurd (omega arith)
  Reads-row law (v ∷ vs) (t ∷ ts) filled e =
      ap (λ s. read Mode.start (drop 1 s)) (sym (append-nil (render_row n (t ∷ ts) (v ∷ vs))))
      ∙ read-render_row n law v vs t ts []

  Reads-rows :
      (law : PlainNumbers n) (ts : List ColType) (rows : List (List Value))
      → 0 < length ts
      → All (λ row. length row ≡ length ts) rows
      → All (λ row. Reads ts (map csv_value row)) rows
  Reads-rows law ts [] filled h = tt
  Reads-rows law ts (row ∷ rows) filled h = (
    Reads-row law (map csv_value row) ts filled (length-map csv_value row ∙ h.0),
    Reads-rows law ts rows filled h.1,
  )

  -- The records that exportCSV writes for a table with a column and a row, each row as long as the
  -- header, read back as they are and imported into a server that accepts every statement, make the
  -- import succeed: the statement that creates the table is followed by one INSERT for each batch,
  -- and the batches put together are the rows of the table in their order. A reader of NULL, quoted
  -- texts and decimal numbers reads each row exactly if every value of it that is written bare is
  -- NULL or a decimal number, and then as one literal for each value: NULL for nil, for an empty
  -- text and for the word null, the value itself where the column holds numbers and ParseFloat
  -- takes it, and else its text. What ParseFloat takes holds no quote, comma or parenthesis.
  pub import_csv-export_csv :
      (law : PlainNumbers n) (table col : Text) (columns : List Text) (row : List Value)
      (rows : List (List Value))
      → All (λ r. length r ≡ length (col ∷ columns)) (row ∷ rows)
      → let records = map (map csv_value) (row ∷ rows) in
        let types = infer_types n (col ∷ columns) records in
        let groups = batches (length records) records in
        (import_csv recording n table (export_csv (col ∷ columns) (row ∷ rows)) [] ≡ (
          ok tt,
          create_sql n table (col ∷ columns) types
              ∷ map (insert_sql n table (col ∷ columns) types) groups,
        ))
        × (concat groups ≡ records)
        × All (λ r. Reads types (map csv_value r)) (row ∷ rows)
  unfolding export_csv
  import_csv-export_csv law table col columns row rows h =
      let records = map (map csv_value) (row ∷ rows) in
      let types = infer_types n (col ∷ columns) records in
      let sized : length types ≡ length (col ∷ columns) =
        length-infer_types (col ∷ columns) records in
      let (sent, whole, sizes) =
        import_csv_lem n table (col ∷ columns) (map csv_value row) (map (map csv_value) rows) in
      let fit : All (λ r. length r ≡ length types) (row ∷ rows) =
        subst (λ k. All (λ r. length r ≡ k) (row ∷ rows)) (sym sized) h in
      (sent, whole, Reads-rows law types (row ∷ rows) (omega arith) fit)
