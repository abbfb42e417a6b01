-- ===== src/Commands/Import.antt =====
-- cmd/sparkdb/commands/import.go and utils.go: what `import` makes of a file. The readers of numbers
-- of the package strconv are the parameter `Numbers`; the server behind the client is `send`. What is
-- printed is left out.
pub mod Grammar
pub mod Literals
pub mod Batches
pub mod Objects
pub mod Failures
mod Tests
use spark_db.Prelude.{
  ℕ, zero, suc, String, Bool, true, false, not, ◌&&◌, ◌||◌, List, [], ◌∷◌, ◌++◌, map, length, take,
  drop, ltb, ◌==◌, Option, none, some, Error, Result, ok, err, errorf, wrapf, wrap, ◌>>=◌,
  if◌then◌else◌,
}
use spark_db.Text.{Text, codes, trim_space, to_upper, text_eq, is_empty, has_prefix, has_suffix}

-- whether strconv.ParseInt(s, 10, 64) and strconv.ParseFloat(s, 64) succeed
pub record Numbers : Type 0 where
  pub parses_int : Text → Bool
  pub parses_float : Text → Bool

-- the type of a column
pub data ColType : Type 0 where
  text : ColType
  integer : ColType
  real : ColType

abbrev pub type_name : ColType → Text
type_name text = codes "TEXT"
type_name integer = codes "INTEGER"
type_name real = codes "REAL"

abbrev pub is_number : ColType → Bool
is_number text = false
is_number integer = true
is_number real = true

-- strings.ReplaceAll(s, "'", "''")
unfoldable pub doubled : Text → Text
doubled [] = []
doubled (c ∷ s) = let rest = doubled s in if c == 39 then 39 ∷ 39 ∷ rest else c ∷ rest

-- strings.Join
unfoldable pub join : Text → List Text → Text
join sep [] = []
join sep (t ∷ []) = t
join sep (t ∷ u ∷ ts) = t ++ (sep ++ join sep (u ∷ ts))

unfoldable pub quote_ident : Text → Text
quote_ident name = codes "\"" ++ (name ++ codes "\"")

abbrev pub quote_idents : List Text → List Text
quote_idents names = map quote_ident names

module _ (n : Numbers) where
  abbrev pub escape_trimmed : Text → ColType → Text
  escape_trimmed val col_type =
      if is_empty val || text_eq (to_upper val) (codes "NULL")
      then codes "NULL"
      else if is_number col_type && n.parses_float val
      then val
      else 39 ∷ (doubled val ++ 39 ∷ [])

  unfoldable pub escape_value : Text → ColType → Text
  escape_value val col_type = escape_trimmed (trim_space val) col_type

  -- the type of a column after one more value
  unfoldable pub next_type : Text → ColType → ColType
  next_type val t =
      if is_empty (trim_space val)
      then t
      else if n.parses_int (trim_space val)
      then (elim t [ text ↦ integer | integer ↦ integer | real ↦ real ])
      else if n.parses_float (trim_space val)
      then (elim t [ text ↦ real | integer ↦ integer | real ↦ real ])
      else text

  -- one row; the values beyond the columns are passed over
  unfoldable pub next_types : List Text → List ColType → List ColType
  next_types [] ts = ts
  next_types (v ∷ vs) [] = []
  next_types (v ∷ vs) (t ∷ ts) = next_type v t ∷ next_types vs ts

  abbrev pub all_text : List Text → List ColType
  all_text headers = map (λ h. text) headers

  abbrev pub infer_from : List (List Text) → List ColType → List ColType
  infer_from [] ts = ts
  infer_from (row ∷ rows) ts = infer_from rows (next_types row ts)

  unfoldable pub infer_types : List Text → List (List Text) → List ColType
  unfolding next_types
  infer_types headers rows = infer_from rows (all_text headers)

  abbrev pub escaped : List Text → List ColType → List Text
  escaped (v ∷ vs) (t ∷ ts) = escape_value v t ∷ escaped vs ts
  escaped _ _ = []

  -- the values of one row in an INSERT
  unfoldable pub render_row : List ColType → List Text → Text
  render_row types row = codes "(" ++ (join (codes ",") (escaped row types) ++ codes ")")

  abbrev pub columns : List Text → List ColType → List Text
  columns (h ∷ hs) (t ∷ ts) = (quote_ident h ++ (codes " " ++ type_name t)) ∷ columns hs ts
  columns _ _ = []

  unfoldable pub create_sql : Text → List Text → List ColType → Text
  create_sql table headers types =
      codes "CREATE TABLE IF NOT EXISTS "
      ++ (quote_ident table
          ++ (codes " (" ++ (join (codes ", ") (columns headers types) ++ codes ")")))

  unfoldable pub insert_sql : Text → List Text → List ColType → List (List Text) → Text
  unfolding render_row
  insert_sql table headers types batch =
      codes "INSERT INTO "
      ++ (quote_ident table
          ++ (codes " ("
              ++ (join (codes ", ") (quote_idents headers)
                  ++ (codes ") VALUES " ++ join (codes ", ") (map (render_row types) batch)))))

-- `data[b:end]` for b = 0, 100, 200, … below the length; `fuel` rounds
unfoldable pub batches : {A : Type 0} → ℕ → List A → List (List A)
batches zero rows = []
batches (suc fuel) [] = []
batches (suc fuel) (r ∷ rows) = take 100 (r ∷ rows) ∷ batches fuel (drop 100 (r ∷ rows))

-- what the server answers to a statement: an error of the call, or the error text of the response
abbrev pub Answer : Type 0
Answer = Result (Option Error)

abbrev pub accepted : String → Answer → Result (Unit {0})
accepted label (ok none) = ok tt
accepted label (ok (some e)) = err (wrapf label e)
accepted label (err e) = err (wrapf label e)

module _ {C : Type 0} (send : Text → C → Answer × C) where
  -- the statements in turn, up to the first that fails
  unfoldable pub send_all : String → List Text → C → Result (Unit {0}) × C
  send_all label [] c = (ok tt, c)
  send_all label (stmt ∷ stmts) c =
      let (answer, c') = send stmt c in
      elim (accepted label answer) [ ok _ ↦ send_all label stmts c' | err e ↦ (err e, c') ]

  abbrev pub after_create : List Text → Result (Unit {0}) × C → Result (Unit {0}) × C
  after_create inserts (ok _, c) = send_all "insert batch" inserts c
  after_create inserts (err e, c) = (err e, c)

  -- importCSV from the rows that the reader returns, the header first
  unfoldable pub import_csv : Numbers → Text → List (List Text) → C → Result (Unit {0}) × C
  unfolding send_all
  import_csv n table [] c = (err (errorf "csv must have at least a header row and one data row"), c)
  import_csv n table (headers ∷ []) c =
      (err (errorf "csv must have at least a header row and one data row"), c)
  import_csv n table (headers ∷ row ∷ rows) c =
      let types = infer_types n headers (row ∷ rows) in
      let inserts =
        map (insert_sql n table headers types) (batches (length (row ∷ rows)) (row ∷ rows)) in
      after_create inserts (send_all "create table" (create_sql n table headers types ∷ []) c)

  -- importSQL from the statements of the file
  unfoldable pub import_sql : List Text → C → Result (Unit {0}) × C
  unfolding send_all
  import_sql [] c = (err (errorf "no SQL statements found"), c)
  import_sql (stmt ∷ stmts) c = send_all "statement" (stmt ∷ stmts) c

-- strings.Split(s, "\n"): the first line and the others
abbrev pub lines_from : Text → Text → List Text
lines_from line [] = line ∷ []
lines_from line (c ∷ s) = elim (c == 10) [
  | true ↦ line ∷ lines_from [] s
  | false ↦ lines_from (line ++ c ∷ []) s
]

abbrev pub is_skipped : Text → Bool
is_skipped line = is_empty (trim_space line) || has_prefix (trim_space line) (codes "--")

abbrev pub unfinished : Text → List Text
unfinished buf = if is_empty (trim_space buf) then [] else trim_space buf ∷ []

-- the loop over the lines, with the text of the statement begun
abbrev pub split_from : Text → List Text → List Text
split_from buf [] = unfinished buf
split_from buf (line ∷ lines) = elim (is_skipped line) [
  | true ↦ split_from buf lines
  | false ↦ elim (has_suffix (trim_space line) (codes ";")) [
    | true ↦ trim_space (buf ++ (line ++ 10 ∷ [])) ∷ split_from [] lines
    | false ↦ split_from (buf ++ (line ++ 10 ∷ [])) lines
  ]
]

unfoldable pub split_sql : Text → List Text
split_sql content = split_from [] (lines_from [] content)
