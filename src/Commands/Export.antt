-- ===== src/Commands/Export.antt =====
-- cmd/sparkdb/commands/export.go: what `export` makes of a table. The records are those handed to the
-- writers of encoding/csv and encoding/json; `none` where the source panics.
pub mod Reimport
mod Tests
use spark_db.Prelude.{
  ℕ, String, Bool, true, false, not, ◌&&◌, ◌||◌, List, [], ◌∷◌, ◌++◌, map, Option, none, some,
  Error, errorf, wrapf, Result, ok, err, wrap, str_eq, if◌then◌else◌,
}
use spark_db.Text.{Text, codes, is_empty, text_eq}
use spark_db.Client.{Value, null, QueryResponse, Wire, Client, query}
use spark_db.Commands.Import.{quote_ident}
use spark_db.Commands.Shell.{show, with_credentials}

-- the format flag with its default
unfoldable pub export_format : Text → Result Text
export_format flag =
    let chosen = if is_empty flag then codes "csv" else flag in
    if text_eq chosen (codes "csv") || text_eq chosen (codes "json")
    then ok chosen
    else err (errorf "format must be csv or json")

abbrev pub csv_value : Value → Text
csv_value null = []
csv_value v = show v

-- exportCSV: the header and one record for each row
unfoldable pub export_csv : List Text → List (List Value) → List (List Text)
export_csv columns rows = columns ∷ map (map csv_value) rows

-- `rec[col] = row[i]`: a later column of the same name replaces an earlier one
abbrev pub put : Text → Value → List (Text × Value) → List (Text × Value)
put col v [] = (col, v) ∷ []
put col v ((name, w) ∷ fields) =
    let rest = put col v fields in if text_eq name col then (col, v) ∷ fields else (name, w) ∷ rest

-- the object of a row; an index out of range where the row is shorter than the header
abbrev pub object_from : List Text → List Value → List (Text × Value) → Option (List (Text × Value))
object_from [] row fields = some fields
object_from (col ∷ columns) [] fields = none
object_from (col ∷ columns) (v ∷ row) fields = object_from columns row (put col v fields)

unfoldable pub export_json : List Text → List (List Value) → Option (List (List (Text × Value)))
export_json columns [] = some []
export_json columns (row ∷ rows) = elim (object_from columns row []) [
  | none ↦ none
  | some object ↦ elim (export_json columns rows) [
    | none ↦ none
    | some objects ↦ some (object ∷ objects)
  ]
]

abbrev pub response_of : Result QueryResponse → Result QueryResponse
response_of (err e) = err (wrapf "query" e)
response_of (ok res) =
    if not (str_eq res.error "") then err (wrapf "query" (errorf res.error)) else ok res

-- `SELECT * FROM "table"`
abbrev pub select_all : Text → Text
select_all table = codes "SELECT * FROM " ++ quote_ident table

module _ {N : Type 0} (wire : Wire N) where
  abbrev pub fetched : Text → Text → (Result (Unit {0}) × Client) × N → Result QueryResponse × N
  fetched database table ((err e, c), n) = (err e, n)
  fetched database table ((ok _, c), n) =
      let (answer, n') = query wire database (select_all table) [] c n in (response_of answer, n')

  -- runExport up to the output: the format, and the response that is written in it
  unfoldable pub run_export :
      Text → Text → Text → Text → Text → Text → Client → N → Result (Text × QueryResponse) × N
  run_export flag api_key user pass database table c n = elim (export_format flag) [
    | err e ↦ (err e, n)
    | ok chosen ↦
        let (r, n') = fetched database table (with_credentials wire api_key user pass c n) in
        elim r [ err e ↦ (err e, n') | ok res ↦ (ok (chosen, res), n') ]
  ]
