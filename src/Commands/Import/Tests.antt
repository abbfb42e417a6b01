-- ===== src/Commands/Import/Tests.antt =====
-- An import of a small file, whose values hold quotes.
use spark_db.Prelude.{
  ◌≡◌, refl, Bool, true, false, List, [], ◌∷◌, drop, ◌++◌, ok, some, none, All, arith, ◌&&◌, leb,
}
use spark_db.Text.{Text, codes, text_eq, to_upper, trim_space, is_space, upper}
use spark_db.Commands.Import.{
  Numbers, ColType, doubled, join, escape_value, render_row, next_type, next_types, infer_types,
  create_sql, insert_sql, quote_ident, batches, import_csv, split_sql,
}
use spark_db.Commands.Import.Grammar.{Literal, Mode, read, is_bare, is_sql_number}
use spark_db.Commands.Import.Literals.{PlainNumbers, is_plain, literal_of, read-render_row}
use spark_db.Commands.Import.Batches.{recording}

-- numbers of one digit
abbrev is_digit_text : Text → Bool
is_digit_text (c ∷ []) = leb b'0' c && leb c b'9'
is_digit_text _ = false

abbrev digits : Numbers
digits = record { parses_int = is_digit_text; parses_float = is_digit_text }

is_digit_text-plain : (s : Text) → is_digit_text s ≡ true → All (λ c. is_plain c ≡ true) s
is_digit_text-plain [] h = tt
is_digit_text-plain (c ∷ []) h = (ground arith, tt)
is_digit_text-plain (c ∷ d ∷ s) h = cc

digits-PlainNumbers : PlainNumbers digits
digits-PlainNumbers = record { parses_float-plain = is_digit_text-plain }

read-render_row_example :
    read Mode.start (
      drop 1 (
        render_row digits
          (ColType.integer ∷ ColType.text ∷ [])
          (codes " 7" ∷ codes "it's, 'so')" ∷ [])
        ++ codes ", (8"))
    ≡ some (Literal.bare (codes "7") ∷ Literal.quoted (codes "it's, 'so')") ∷ [], codes ", (8")
unfolding literal_of trim_space is_space upper is_bare is_sql_number
read-render_row_example =
    read-render_row digits digits-PlainNumbers (codes " 7") (codes "it's, 'so')" ∷ [])
      ColType.integer (ColType.text ∷ []) (codes ", (8")

-- ParseFloat takes NaN, which SQL does not have.
abbrev with_nan : Numbers
with_nan = record {
  parses_int = is_digit_text;
  parses_float = λ s. text_eq (to_upper s) (codes "NAN");
}

not_a_number :
    read Mode.start (drop 1 (render_row with_nan (ColType.real ∷ []) (codes "NaN" ∷ []))) ≡ none
unfolding render_row join escape_value trim_space is_space upper is_bare is_sql_number
not_a_number = refl

signed_number : is_sql_number (codes "-1.5e+10") ≡ true
unfolding is_sql_number
signed_number = refl

infinite : is_sql_number (codes "Inf") ≡ false
unfolding is_sql_number
infinite = refl

abbrev header : List Text
header = codes "id" ∷ codes "name" ∷ []

abbrev first : List Text
first = codes "1" ∷ codes "o'b" ∷ []

-- A number turns a text column into one of numbers, and a real value leaves it INTEGER.
types_example :
    infer_types digits
      (codes "a" ∷ codes "b" ∷ [])
      ((codes "x" ∷ codes "1" ∷ []) ∷ (codes "2" ∷ codes "y" ∷ []) ∷ [])
    ≡ ColType.integer ∷ ColType.text ∷ []
unfolding infer_types next_types next_type trim_space is_space
types_example = refl

sent_example : import_csv recording digits (codes "t") (header ∷ first ∷ []) [] ≡ (
  ok tt,
  codes "CREATE TABLE IF NOT EXISTS \"t\" (\"id\" INTEGER, \"name\" TEXT)"
      ∷ codes "INSERT INTO \"t\" (\"id\", \"name\") VALUES (1,'o''b')"
      ∷ [],
)
unfolding import_csv create_sql insert_sql render_row join escape_value doubled batches infer_types
    next_types next_type trim_space is_space quote_ident upper
sent_example = refl

split_example :
    split_sql (codes "-- a note\nCREATE TABLE t\n  (a);\nSELECT 1")
    ≡ codes "CREATE TABLE t\n  (a);" ∷ codes "SELECT 1" ∷ []
unfolding split_sql trim_space is_space
split_example = refl

-- A line that begins with two dashes is dropped inside a text as well.
lost_line :
    split_sql (codes "INSERT INTO t VALUES ('a\n-- b\nc');")
    ≡ codes "INSERT INTO t VALUES ('a\nc');" ∷ []
unfolding split_sql trim_space is_space
lost_line = refl
