-- ===== src/Commands/Import/Objects.antt =====
-- cmd/sparkdb/commands/import.go: importJSON, and runImport, which picks the format. An object is the
-- list of its fields, with distinct names, in the order in which `range` goes over them.
use spark_db.Prelude.{
  ◌≡◌, ◌≤◌, not, ◌||◌, List, [], ◌∷◌, map, length, arith, All, Result, ok, err, errorf,
  if◌then◌else◌,
}
use spark_db.Text.{Text, codes, text_eq, is_empty}
use spark_db.Client.{Value, null, number, boolean, text, composite}
use spark_db.Commands.Shell.{show}
use spark_db.Commands.Import.{
  Numbers, ColType, Answer, create_sql, insert_sql, batches, send_all, after_create,
}
use spark_db.Commands.Import.Batches.{
  concat, concat-batches, batches-sizes, recording, send_all-recording,
}

abbrev pub Object : Type 0
Object = List (Text × Value)

-- `row[h]`, nil where the field is missing
abbrev pub field_of : Object → Text → Value
field_of [] h = null
field_of ((name, v) ∷ fields) h = if text_eq name h then v else field_of fields h

abbrev pub names : Object → List Text
names o = map (λ field. field.0) o

module _ (n : Numbers) where
  unfoldable pub infer_json_type : Value → ColType
  infer_json_type null = ColType.text
  infer_json_type (number t) = if n.parses_int t then ColType.integer else ColType.real
  infer_json_type (boolean b) = ColType.integer
  infer_json_type (text t) = ColType.text
  infer_json_type (composite t) = ColType.text

  abbrev pub json_types : Object → List Text → List ColType
  json_types first headers = map (λ h. infer_json_type (field_of first h)) headers

  -- the values of an object as the text that fmt.Sprint makes of them
  abbrev pub sprinted : List Text → Object → List Text
  sprinted headers o = map (λ h. show (field_of o h)) headers

  -- `escapeValue(…, "TEXT")` for every column
  abbrev pub text_columns : List Text → List ColType
  text_columns headers = map (λ h. ColType.text) headers

  module _ {C : Type 0} (send : Text → C → Answer × C) where
    -- importJSON from the objects of the file
    unfoldable pub import_json : Text → List Object → C → Result (Unit {0}) × C
    unfolding send_all
    import_json table [] c = (err (errorf "json must contain at least one object"), c)
    import_json table (first ∷ rest) c =
        let headers = names first in
        let rows = map (sprinted headers) (first ∷ rest) in
        let inserts =
          map (insert_sql n table headers (text_columns headers)) (batches (length rows) rows) in
        after_create send inserts (
          send_all send "create table" (create_sql n table headers (json_types first headers) ∷ [])
            c)

-- the format that runImport takes: the flag, or what the extension without its dot stands for
unfoldable pub format_of : Text → Text → Result Text
format_of flag ext =
    if not (is_empty flag)
    then ok flag
    else if text_eq ext (codes "csv")
    then ok (codes "csv")
    else if text_eq ext (codes "json") || text_eq ext (codes "jsonl")
    then ok (codes "json")
    else if text_eq ext (codes "sql")
    then ok (codes "sql")
    else err (errorf "could not infer format from extension, use --format")

-- Where the server accepts every statement, importJSON succeeds and sends the statement that creates
-- the table, and then one INSERT for each batch of between one and a hundred objects: put together,
-- the batches are the objects of the file in their order, each with its values for the fields of the
-- first one.
pub import_json_lem :
    (n : Numbers) (table : Text) (first : Object) (rest : List Object)
    → let headers = names first in
      let rows = map (sprinted n headers) (first ∷ rest) in
      let groups = batches (length rows) rows in
      (import_json n recording table (first ∷ rest) [] ≡ (
        ok tt,
        create_sql n table headers (json_types n first headers)
            ∷ map (insert_sql n table headers (text_columns n headers)) groups,
      ))
      × (concat groups ≡ rows)
      × All (λ b. (1 ≤ length b) × (length b ≤ 100)) groups
unfolding import_json
import_json_lem n table first rest =
    let headers = names first in
    let rows = map (sprinted n headers) (first ∷ rest) in
    let groups = batches (length rows) rows in
    (
      send_all-recording "insert batch"
          (map (insert_sql n table headers (text_columns n headers)) groups)
          (create_sql n table headers (json_types n first headers) ∷ []),
      concat-batches (length rows) rows (omega arith),
      batches-sizes (length rows) rows,
    )
