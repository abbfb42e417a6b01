-- ===== src/Commands/Export/Tests.antt =====
-- The properties of exporting and importing at a small table, and tests.
use spark_db.Prelude.{
  ◌≡◌, ◌⊎◌, refl, false, List, [], ◌∷◌, ◌++◌, map, length, none, some, ok, err, errorf, All, arith,
  if◌then◌else◌,
}
use spark_db.Text.{Text, codes, text_eq, trim_space, is_space, upper}
use spark_db.Client.{Value, null, number, text}
use spark_db.Commands.Import.{
  Numbers, Answer, infer_types, create_sql, insert_sql, render_row, batches, import_csv, import_sql,
  escape_value, doubled, join, quote_ident,
}
use spark_db.Commands.Import.Batches.{concat, recording}
use spark_db.Commands.Import.Literals.{PlainNumbers}
use spark_db.Commands.Import.Failures.{AllAccepted, FailsAt, import_sql_outcome}
use spark_db.Commands.Import.Objects.{Object, infer_json_type, import_json}
use spark_db.Commands.Export.{csv_value, export_csv, export_json}
use spark_db.Commands.Export.Reimport.{Reads, import_csv-export_csv}

-- no text is a number
abbrev words : Numbers
words = record { parses_int = λ t. false; parses_float = λ t. false }

words-PlainNumbers : PlainNumbers words
words-PlainNumbers = record { parses_float-plain = λ s h. absurd (ground arith) }

abbrev columns : List Text
columns = codes "id" ∷ codes "name" ∷ []

abbrev row : List Value
row = number (codes "1") ∷ text (codes "o'b") ∷ []

import_csv-export_csv_example :
    let records = map (map csv_value) (row ∷ []) in
    let types = infer_types words columns records in
    let groups = batches (length records) records in
    (import_csv recording words (codes "t") (export_csv columns (row ∷ [])) [] ≡ (
      ok tt,
      create_sql words (codes "t") columns types
          ∷ map (insert_sql words (codes "t") columns types) groups,
    ))
    × (concat groups ≡ records)
    × All (λ r. Reads words types (map csv_value r)) (row ∷ [])
import_csv-export_csv_example =
    import_csv-export_csv words words-PlainNumbers (codes "t") (codes "id") (codes "name" ∷ []) row
      [] (refl, tt)

-- a server that refuses DROP
abbrev wary : Text → List Text → Answer × List Text
wary stmt sent =
    if text_eq stmt (codes "DROP")
    then (ok (some (errorf "no")), sent)
    else (ok none, sent ++ stmt ∷ [])

abbrev script : List Text
script = codes "A" ∷ codes "DROP" ∷ codes "B" ∷ []

import_sql_outcome_example :
    ((script ≡ []) × (import_sql wary script [] ≡ (err (errorf "no SQL statements found"), [])))
    ⊎ (((import_sql wary script []).0 ≡ ok tt)
        × AllAccepted wary "statement" script [] (import_sql wary script []).1)
    ⊎ FailsAt wary "statement" script [] (import_sql wary script [])
import_sql_outcome_example = import_sql_outcome wary script []

stopped : (import_sql wary script []).1 ≡ codes "A" ∷ []
unfolding import_sql
stopped = refl

abbrev objects : List Object
objects =
    ((codes "a", text (codes "x")) ∷ (codes "b", number (codes "2.5")) ∷ [])
    ∷ ((codes "a", null) ∷ [])
    ∷ []

-- A null or a missing field is stored as the text <nil>, and numbers as texts.
nil_stored : import_json words recording (codes "t") objects [] ≡ (
  ok tt,
  codes "CREATE TABLE IF NOT EXISTS \"t\" (\"a\" TEXT, \"b\" REAL)"
      ∷ codes "INSERT INTO \"t\" (\"a\", \"b\") VALUES ('x','2.5'), ('<nil>','<nil>')"
      ∷ [],
)
unfolding import_json create_sql insert_sql render_row join escape_value doubled batches
    infer_json_type trim_space is_space quote_ident upper
nil_stored = refl

-- Of two columns with one name only the last is exported to JSON.
lost_column :
    export_json (codes "id" ∷ codes "id" ∷ []) ((number (codes "1") ∷ number (codes "2") ∷ []) ∷ [])
    ≡ some (((codes "id", number (codes "2")) ∷ []) ∷ [])
unfolding export_json
lost_column = refl
