-- ===== src/Commands/Shell/Tests.antt =====
-- The property of the shell's loop at concrete lines, and tests.
use spark_db.Prelude.{◌≡◌, refl, false, List, [], ◌∷◌, ◌++◌, ok, err, errorf}
use spark_db.Text.{Text, codes, is_space, upper, fields, trim_space}
use spark_db.Client.{Value, number, null, Payload, Wire, new, query, auth}
use spark_db.Commands.Shell.{
  Shell, column_line, execute_query, run_meta, handle_meta, use_database, next_line, finish_input,
  shell_loop,
}
use spark_db.Commands.Shell.Statements.{Typed, IsOpen, execute_all, shell_loop-input}

abbrev statement_of : Payload → List Text
statement_of (Payload.query_payload q db params) = q ∷ []
statement_of p = []

-- a server that keeps the statements and answers each without columns
abbrev wire : Wire (List Text)
wire = record {
  send = λ method path headers payload n. (ok [], n ++ statement_of payload);
  decode_login = λ bytes. ok (bytes, "");
  decode_query = λ bytes. ok (record { columns = []; rows = []; error = ""; time = [] });
  decode_transaction = λ bytes. err (errorf "EOF");
  decode_databases = λ bytes. ok ([], "");
}

abbrev start : Shell (List Text)
start = record { db = codes "main"; out = []; net = [] }

abbrev stmts : List Typed
stmts = (codes "INSERT INTO t", codes "VALUES (1)" ∷ []) ∷ (codes "DELETE FROM t", []) ∷ []

insert-IsOpen : IsOpen (codes "INSERT INTO t")
unfolding is_space
insert-IsOpen = record { trimmed = record { first = refl; last = refl }; unended = refl }

values-IsOpen : IsOpen (codes "VALUES (1)")
unfolding is_space
values-IsOpen = record { trimmed = record { first = refl; last = refl }; unended = refl }

delete-IsOpen : IsOpen (codes "DELETE FROM t")
unfolding is_space
delete-IsOpen = record { trimmed = record { first = refl; last = refl }; unended = refl }

shell_loop-input_example :
    shell_loop wire new
      (codes "INSERT INTO t" ∷ codes "VALUES (1);" ∷ codes "DELETE FROM t;" ∷ [])
      []
      false
      start
    ≡ execute_all wire new (codes "INSERT INTO t VALUES (1)" ∷ codes "DELETE FROM t" ∷ []) start
shell_loop-input_example = shell_loop-input wire new stmts start (
  record { first = insert-IsOpen; others = (values-IsOpen, tt); no_meta = refl },
  (record { first = delete-IsOpen; others = tt; no_meta = refl }, tt),
)

sent :
    (shell_loop wire new
      (codes "\\use shop" ∷ codes "SELECT 1" ∷ codes "  ;" ∷ codes "\\q" ∷ codes "SELECT 2;" ∷ [])
      []
      false
      start).1
    ≡ record {
      db = codes "shop";
      out = codes "Switched to database 'shop'" ∷ codes "Query OK" ∷ codes "bye" ∷ [];
      net = codes "SELECT 1" ∷ [];
    }
unfolding shell_loop next_line finish_input handle_meta run_meta use_database execute_query query
    auth new trim_space is_space upper fields
sent = refl

-- The word exit ends no session: it waits for a semicolon and is sent as a statement.
exit_sent :
    shell_loop wire new (codes "exit" ∷ []) [] false start
    ≡ (false, record start { out = codes "Query OK" ∷ []; net = codes "exit" ∷ [] })
unfolding shell_loop next_line finish_input execute_query query auth new trim_space is_space upper
    handle_meta fields run_meta
exit_sent = refl

-- Numbers, which the flags of PRAGMA table_info are, never show as NOT NULL or as a primary key.
numbers_not_shown :
    (name type_of default : Value) (a b : Text)
    → column_line name type_of (number a) default (number b)
      ≡ column_line name type_of null default null
unfolding column_line
numbers_not_shown name type_of default a b = refl
