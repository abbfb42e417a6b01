-- ===== src/Format/Tests.antt =====
-- The property of the table at concrete rows, and tests.
use spark_db.Prelude.{◌≡◌, refl, none, some, [], ◌∷◌, List}
use spark_db.Text.{Text, codes}
use spark_db.Auth.Strength.{byte_len}
use spark_db.Auth.PasswordHash.{decimal_from}
use spark_db.Format.{widen, widen_all, col_widths, render_line, render_sep, table}

abbrev rows : List (List Text)
rows = (codes "1" ∷ codes "alice" ∷ []) ∷ (codes "2" ∷ codes "bob" ∷ []) ∷ []

two_rows :
    table (codes "id" ∷ codes "name" ∷ []) rows
    ≡ some (
        codes "+-----+-------+"
        ∷ codes "| id  | name  |"
        ∷ codes "+-----+-------+"
        ∷ codes "| 1   | alice |"
        ∷ codes "| 2   | bob   |"
        ∷ codes "+-----+-------+"
        ∷ codes "(2 rows)"
        ∷ [])
unfolding table col_widths widen_all widen render_line render_sep byte_len decimal_from
two_rows = refl

-- A row that is longer than the header is an index out of range.
long_row : table (codes "id" ∷ []) rows ≡ none
unfolding table col_widths widen_all widen byte_len
long_row = refl
