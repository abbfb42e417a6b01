-- ===== src/Commands/Shell.antt =====
-- cmd/sparkdb/commands/shell.go: the commands `shell` and `query`. The lines of the standard input are
-- a list, and what is printed is kept as lines, less the prompts and the greeting. A function that may
-- end the process returns whether it has, by os.Exit or by a panic of the table, with the state left.
pub mod Buffer
pub mod Statements
mod Tests
use spark_db.Prelude.{
  ℕ, ◌-◌, String, Bool, true, false, not, ◌&&◌, ◌||◌, List, [], ◌∷◌, ◌++◌, map, length, leb, ◌==◌,
  Option, none, some, Error, errorf, wrapf, no_rows, reported, Result, ok, err, wrap, str_eq,
  if◌then◌else◌,
}
use spark_db.Text.{
  Text, codes, text_eq, is_empty, trim_space, to_upper, has_prefix, has_suffix, fields,
}
use spark_db.Format.{padded, table}
use spark_db.Client.{
  Value, null, number, boolean, text, composite, QueryResponse, Wire, Client, set_api_key, login,
  query, list_databases,
}
use spark_db.Commands.Import.{quote_ident}

-- err.Error()
abbrev pub message : Error → Text
message (errorf s) = codes s
message (wrapf s e) = codes s ++ (codes ": " ++ message e)
message no_rows = codes "sql: no rows in result set"
message (reported s) = codes s

-- fmt.Sprint
abbrev pub show : Value → Text
show null = codes "<nil>"
show (number t) = t
show (boolean true) = codes "true"
show (boolean false) = codes "false"
show (text t) = t
show (composite t) = t

-- `v == "…"` for an interface: the dynamic type has to be string
abbrev pub is_text : Value → String → Bool
is_text (text t) s = text_eq t (codes s)
is_text _ s = false

-- strings.TrimSuffix(s, suffix) for a suffix of one character
abbrev pub trim_suffix_of : ℕ → Text → Text
trim_suffix_of k [] = []
trim_suffix_of k (c ∷ []) = if c == k then [] else c ∷ []
trim_suffix_of k (c ∷ d ∷ s) = c ∷ trim_suffix_of k (d ∷ s)

abbrev pub error_line : Text → Text
error_line e = codes "Error: " ++ e

pub record Shell (N : Type 0) : Type 0 where
  pub db : Text
  pub out : List Text
  pub net : N

abbrev pub print : {N : Type 0} → List Text → Shell N → Shell N
print lines sh = record sh { out = sh.out ++ lines }

abbrev pub timed : Text → List Text
timed time = if is_empty time then [] else (codes "Time: " ++ time) ∷ []

abbrev pub query_ok : Text → Text
query_ok time =
    if is_empty time then codes "Query OK" else codes "Query OK (" ++ (time ++ codes ")")

-- the lines of a response, or none where the table panics
abbrev pub response_lines : QueryResponse → Option (List Text)
response_lines res =
    if not (str_eq res.error "")
    then some (error_line (codes res.error) ∷ [])
    else elim res.columns [
      | [] ↦ some (query_ok res.time ∷ [])
      | c ∷ columns ↦ elim (table (c ∷ columns) (map (map show) res.rows)) [
        | none ↦ none
        | some lines ↦ some (lines ++ timed res.time)
      ]
    ]

abbrev pub table_names : List (List Value) → List Text
table_names [] = []
table_names ([] ∷ rows) = table_names rows
table_names ((v ∷ vs) ∷ rows) = (codes "  " ++ show v) ∷ table_names rows

abbrev pub default_of : Value → Text
default_of null = []
default_of v = codes " DEFAULT " ++ show v

-- one column of `\d`, from the six values of PRAGMA table_info
unfoldable pub column_line : Value → Value → Value → Value → Value → Text
column_line name type_of not_null default pk =
    codes "  "
    ++ (padded 20 (show name)
        ++ (codes " "
            ++ (padded 10 (show type_of)
                ++ (codes " "
                    ++ ((if is_text not_null "1" then codes "NO" else codes "YES")
                        ++ (default_of default ++ (if is_text pk "1" then codes " PK" else [])))))))

abbrev pub column_lines : List (List Value) → List Text
column_lines [] = []
column_lines ((a ∷ b ∷ c ∷ d ∷ e ∷ f ∷ more) ∷ rows) = column_line b c d e f ∷ column_lines rows
column_lines (_ ∷ rows) = column_lines rows

abbrev pub database_lines : Text → List Text → List Text
database_lines current [] = []
database_lines current (name ∷ names) =
    (codes "  " ++ (name ++ (if text_eq name current then codes "  <-- current" else [])))
    ∷ database_lines current names

abbrev pub or_line : String → List Text → List Text
or_line s [] = codes s ∷ []
or_line s (l ∷ lines) = l ∷ lines

abbrev pub help_lines : List Text
help_lines =
    codes "Meta-commands:"
    ∷ codes "  \\q          quit"
    ∷ codes "  \\dt         list tables in current db"
    ∷ codes "  \\d <name>   describe table columns"
    ∷ codes "  \\use <db>   switch to a different database"
    ∷ codes "  \\db         show current database"
    ∷ codes "  \\list       list all databases"
    ∷ codes "  \\?          this help"
    ∷ []

abbrev pub is_word : Text → String → Bool
is_word t s = text_eq t (codes s)

-- whether the buffer is run now
abbrev pub is_complete : Text → Bool
is_complete trimmed = has_suffix trimmed (codes ";") || has_prefix (to_upper trimmed) (codes "\\")

module _ {N : Type 0} (wire : Wire N) (c : Client) where
  abbrev pub shown : Option (List Text) → Shell N → Bool × Shell N
  shown none sh = (true, sh)
  shown (some lines) sh = (false, print lines sh)

  -- executeQuery
  unfoldable pub execute_query : Text → Shell N → Bool × Shell N
  execute_query statement sh =
      let (r, n) = query wire sh.db statement [] c sh.net in
      elim r [
        | err e ↦ (false, print (error_line (message e) ∷ []) (record sh { net = n }))
        | ok res ↦ shown (response_lines res) (record sh { net = n })
      ]

  -- a query of a meta-command: its rows between lines
  abbrev pub describe : Text → (List (List Value) → List Text) → Shell N → Shell N
  describe statement lines sh =
      let (r, n) = query wire sh.db statement [] c sh.net in
      elim r [
        | err e ↦ print (error_line (message e) ∷ []) (record sh { net = n })
        | ok res ↦ print (lines res.rows) (record sh { net = n })
      ]

  unfoldable pub list_tables : Shell N → Shell N
  list_tables sh =
      describe
        (codes
          "SELECT name FROM sqlite_master WHERE type='table' AND name NOT LIKE 'sqlite_%' ORDER BY name")
        (λ rows.
          (codes "Tables in '" ++ (sh.db ++ codes "':"))
          ∷ (table_names rows ++ (elim rows [ [] ↦ codes "  (none)" ∷ [] | row ∷ more ↦ [] ])))
        sh

  unfoldable pub describe_table : List Text → Shell N → Shell N
  describe_table [] sh = print (codes "Usage: \\d <table_name>" ∷ []) sh
  describe_table (name ∷ more) sh =
      describe (codes "PRAGMA table_info(" ++ (quote_ident name ++ codes ")"))
        (λ rows. (codes "Columns of " ++ (name ++ codes ":")) ∷ column_lines rows) sh

  unfoldable pub use_database : List Text → Shell N → Shell N
  use_database [] sh = print ((codes "Current database: " ++ sh.db) ∷ []) sh
  use_database (name ∷ more) sh =
      print ((codes "Switched to database '" ++ (name ++ codes "'")) ∷ []) (record sh { db = name })

  unfoldable pub show_databases : Shell N → Shell N
  show_databases sh =
      let (r, n) = list_databases wire c sh.net in
      elim r [
        | err e ↦ print (error_line (message e) ∷ []) (record sh { net = n })
        | ok names ↦
            print
              (codes "Available databases:"
                ∷ or_line "  (create one with: sparkdb create-db <name>)"
                    (database_lines sh.db names))
              (record sh { net = n })
      ]

  -- the switch over the first word
  unfoldable pub run_meta : Text → List Text → Shell N → Bool × Shell N
  run_meta word args sh =
      if is_word word "\\q" || (is_word word "\\quit" || is_word word "exit")
      then (true, print (codes "bye" ∷ []) sh)
      else if is_word word "\\?"
      then (false, print help_lines sh)
      else if is_word word "\\dt"
      then (false, list_tables sh)
      else if is_word word "\\d"
      then (false, describe_table args sh)
      else if is_word word "\\use"
      then (false, use_database args sh)
      else if is_word word "\\db"
      then (false, print ((codes "Current database: " ++ sh.db) ∷ []) sh)
      else if is_word word "\\list"
      then (false, show_databases sh)
      else (false, print ((codes "Unknown meta-command: " ++ (word ++ codes " (try \\?)")) ∷ []) sh)

  abbrev pub meta_of : List Text → Shell N → Bool × Shell N
  meta_of [] sh = (false, sh)
  meta_of (word ∷ args) sh = run_meta word args sh

  unfoldable pub handle_meta : Text → Shell N → Bool × Shell N
  handle_meta line sh = meta_of (fields line) sh

  -- a statement or a meta-command of the buffer
  abbrev pub run_buffer : Text → Shell N → Bool × Shell N
  run_buffer q sh =
      if is_empty q
      then (false, sh)
      else if has_prefix q (codes "\\")
      then handle_meta q sh
      else execute_query q sh

  -- the end of the input
  unfoldable pub finish_input : Text → Shell N → Bool × Shell N
  finish_input buf sh =
      if is_empty (trim_space buf)
      then (false, sh)
      else execute_query (trim_suffix_of b';' (trim_space buf)) sh

  -- One line of the input: whether the process ends, then the buffer, `continuation` and the state.
  unfoldable pub next_line : Text → Text → Bool → Shell N → Bool × Text × Bool × Shell N
  next_line line buf continuation sh =
      let (quit, after_meta) = handle_meta line sh in
      let more = buf ++ (line ++ codes " ") in
      let q = trim_space (trim_suffix_of b';' (trim_space more)) in
      let (ended, after_run) = run_buffer q sh in
      if not continuation && has_prefix line (codes "\\")
      then (quit, buf, continuation, after_meta)
      else if is_complete (trim_space more)
      then (ended, [], false, after_run)
      else (false, more, true, sh)

  -- the loop over the lines
  unfoldable pub shell_loop : List Text → Text → Bool → Shell N → Bool × Shell N
  shell_loop [] buf continuation sh = finish_input buf sh
  shell_loop (raw ∷ lines) buf continuation sh =
      let (ended, buf', continuation', sh') = next_line (trim_space raw) buf continuation sh in
      elim ended [ true ↦ (true, sh') | false ↦ shell_loop lines buf' continuation' sh' ]

module _ {N : Type 0} (wire : Wire N) where
  -- the credentials of runShell, runImport and runExport
  unfoldable pub with_credentials :
      Text → Text → Text → Client → N → (Result (Unit {0}) × Client) × N
  with_credentials api_key user pass c n =
      let ((r, c'), n') = login wire user pass c n in
      if not (is_empty api_key)
      then ((ok tt, set_api_key api_key c), n)
      else if is_empty user || is_empty pass
      then ((err (errorf "credentials required: use --user and --pass, or --api-key"), c), n)
      else ((wrap "login" r, c'), n')

  -- runShell after the credentials: `one_line` is the flag --command
  unfoldable pub run_shell : Client → Text → List Text → Shell N → Bool × Shell N
  run_shell c one_line lines sh =
      if not (is_empty one_line)
      then execute_query wire c one_line sh
      else shell_loop wire c lines [] false sh
