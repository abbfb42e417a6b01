-- ===== src/Format.antt =====
-- internal/format/table.go: the table that the shell prints. A value is given as the text that
-- fmt.Sprint makes of it. A row that is longer than the header makes the source panic by an index out
-- of range: `none`. The text is the list of its lines. `len` counts bytes, and the padding of fmt
-- counts characters.
pub mod Layout
mod Tests
use spark_db.Prelude.{
  ℕ, zero, suc, ◌+◌, ◌-◌, Bool, true, false, List, [], ◌∷◌, ◌++◌, map, length, ltb, ◌==◌, Option,
  none, some, if◌then◌else◌,
}
use spark_db.Text.{Text, codes}
use spark_db.Auth.Strength.{byte_len}
use spark_db.Auth.PasswordHash.{decimal}

-- strings.Repeat of one character
abbrev pub repeated : ℕ → ℕ → Text
repeated c zero = []
repeated c (suc n) = c ∷ repeated c n

-- `for i, val := range row`: a column gets as wide as the value
unfoldable pub widen : List ℕ → List Text → Option (List ℕ)
widen ws [] = some ws
widen [] (v ∷ vs) = none
widen (w ∷ ws) (v ∷ vs) = elim (widen ws vs) [
  | none ↦ none
  | some ws' ↦ some ((if ltb w (byte_len v) then byte_len v else w) ∷ ws')
]

unfoldable pub widen_all : List ℕ → List (List Text) → Option (List ℕ)
widen_all ws [] = some ws
widen_all ws (row ∷ rows) = elim (widen ws row) [ none ↦ none | some ws' ↦ widen_all ws' rows ]

abbrev pub at_least_3 : ℕ → ℕ
at_least_3 w = if ltb w 3 then 3 else w

-- colWidths
unfoldable pub col_widths : List Text → List (List Text) → Option (List ℕ)
col_widths columns rows = elim (widen_all (map byte_len columns) rows) [
  | none ↦ none
  | some ws ↦ some (map at_least_3 ws)
]

-- `%-*s`
abbrev pub padded : ℕ → Text → Text
padded w v = v ++ repeated b' ' (w - length v)

abbrev pub cells : List ℕ → List Text → Text
cells (w ∷ ws) (v ∷ vs) = b' ' ∷ (padded w v ++ (b' ' ∷ b'|' ∷ cells ws vs))
cells _ _ = []

-- one row of the table
unfoldable pub render_line : List ℕ → List Text → Text
render_line ws vs = b'|' ∷ cells ws vs

abbrev pub dashes : List ℕ → Text
dashes [] = []
dashes (w ∷ ws) = repeated b'-' (w + 2) ++ (b'+' ∷ dashes ws)

unfoldable pub render_sep : List ℕ → Text
render_sep ws = b'+' ∷ dashes ws

abbrev pub plural : ℕ → Text
plural n = if n == 1 then [] else codes "s"

abbrev pub count_line : ℕ → Text
count_line n = codes "(" ++ (decimal n ++ (codes " row" ++ (plural n ++ codes ")")))

abbrev pub table_lines : List ℕ → List Text → List (List Text) → List Text
table_lines ws columns rows =
    render_sep ws
    ∷ render_line ws columns
    ∷ render_sep ws
    ∷ (map (render_line ws) rows ++ (render_sep ws ∷ count_line (length rows) ∷ []))

unfoldable pub table : List Text → List (List Text) → Option (List Text)
unfolding render_line render_sep
table [] rows = some []
table (c ∷ columns) rows = elim (col_widths (c ∷ columns) rows) [
  | none ↦ none
  | some ws ↦ some (table_lines ws (c ∷ columns) rows)
]
