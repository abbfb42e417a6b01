-- ===== src/Format/Layout.antt =====
-- The lines of a table are equally long, and its values are read back from them.
use spark_db.Prelude.{
  ℕ, zero, suc, ◌+◌, ◌-◌, ◌≤◌, ◌≡◌, refl, sym, ap, ◌∙◌, List, [], ◌∷◌, ◌++◌, map, length, ltb, take,
  drop, some, arith, All, length-append, length-map, drop-drop, take-append_length,
  drop-append_length, if◌then◌else◌,
}
use spark_db.Text.{Text, trim_right_of}
use spark_db.Auth.Strength.{byte_len}
use spark_db.Format.{
  repeated, widen, widen_all, at_least_3, col_widths, padded, cells, render_line, dashes,
  render_sep, table, count_line,
}

length-le-byte_len : (v : Text) → length v ≤ byte_len v
unfolding byte_len
length-le-byte_len [] = omega arith
length-le-byte_len (c ∷ v) = ground (arith, length-le-byte_len v)

length-repeated : (c n : ℕ) → length (repeated c n) ≡ n
length-repeated c zero = refl
length-repeated c (suc n) = omega (arith, length-repeated c n)

-- the values fit the columns, which are as many
abbrev pub Fits : List ℕ → List Text → Type 0
Fits [] [] = Unit {0}
Fits (w ∷ ws) (v ∷ vs) = (byte_len v ≤ w) × Fits ws vs
Fits _ _ = ⊥

abbrev pub Wider : List ℕ → List ℕ → Type 0
Wider [] [] = Unit {0}
Wider (w ∷ ws) (w' ∷ ws') = (w ≤ w') × Wider ws ws'
Wider _ _ = ⊥

Wider-refl : (ws : List ℕ) → Wider ws ws
Wider-refl [] = tt
Wider-refl (w ∷ ws) = (omega arith, Wider-refl ws)

Wider-trans : (a b c : List ℕ) → Wider a b → Wider b c → Wider a c
Wider-trans [] [] [] h k = tt
Wider-trans (x ∷ a) (y ∷ b) (z ∷ c) h k = (omega (arith, h.0, k.0), Wider-trans a b c h.1 k.1)
Wider-trans [] [] (z ∷ c) h k = k
Wider-trans [] (y ∷ b) c h k = absurd h
Wider-trans (x ∷ a) [] c h k = absurd h
Wider-trans (x ∷ a) (y ∷ b) [] h k = absurd k

Fits-Wider : (ws ws' : List ℕ) (vs : List Text) → Fits ws vs → Wider ws ws' → Fits ws' vs
Fits-Wider [] [] [] h k = tt
Fits-Wider (w ∷ ws) (w' ∷ ws') (v ∷ vs) h k =
    (omega (arith, h.0, k.0), Fits-Wider ws ws' vs h.1 k.1)
Fits-Wider [] [] (v ∷ vs) h k = h
Fits-Wider [] (w' ∷ ws') vs h k = absurd k
Fits-Wider (w ∷ ws) [] vs h k = absurd k
Fits-Wider (w ∷ ws) (w' ∷ ws') [] h k = absurd h

All-Fits :
    (ws ws' : List ℕ) (rows : List (List Text))
    → Wider ws ws'
    → All (λ row. Fits ws row) rows
    → All (λ row. Fits ws' row) rows
All-Fits ws ws' [] k h = tt
All-Fits ws ws' (row ∷ rows) k h = (Fits-Wider ws ws' row h.0 k, All-Fits ws ws' rows k h.1)

-- A row of as many values as there are columns widens them to fit.
widen_lem :
    (ws : List ℕ) (vs : List Text)
    → length vs ≡ length ws
    → (ws' : List ℕ) × (widen ws vs ≡ some ws') × Wider ws ws' × Fits ws' vs
unfolding widen
widen_lem [] [] h = ([], refl, tt, tt)
widen_lem [] (v ∷ vs) h = absurd (omega arith)
widen_lem (w ∷ ws) [] h = absurd (omega arith)
widen_lem (w ∷ ws) (v ∷ vs) h =
    let (ws', e, wider, fits) = widen_lem ws vs (omega arith) in
    (
      (if ltb w (byte_len v) then byte_len v else w) ∷ ws',
      rw e refl,
      (ground arith, wider),
      (ground arith, fits),
    )

length-Wider : (ws ws' : List ℕ) → Wider ws ws' → length ws' ≡ length ws
length-Wider [] [] h = refl
length-Wider (w ∷ ws) (w' ∷ ws') h = omega (arith, length-Wider ws ws' h.1)
length-Wider [] (w' ∷ ws') h = absurd h
length-Wider (w ∷ ws) [] h = absurd h

widen_all_lem :
    (ws : List ℕ) (rows : List (List Text))
    → All (λ row. length row ≡ length ws) rows
    → (ws' : List ℕ) × (widen_all ws rows ≡ some ws')
      × Wider ws ws'
      × All (λ row. Fits ws' row) rows
unfolding widen_all
widen_all_lem ws [] h = (ws, refl, Wider-refl ws, tt)
widen_all_lem ws (row ∷ rows) h =
    let (ws', e, wider, fits) = widen_lem ws row h.0 in
    let (ws'', e', wider', all_fit) = widen_all_lem ws' rows (rw (length-Wider ws ws' wider) h.1) in
    (
      ws'',
      rw (e, widen_all) e',
      Wider-trans ws ws' ws'' wider wider',
      (Fits-Wider ws' ws'' row fits wider', all_fit),
    )

abbrev pub line_width : List ℕ → ℕ
line_width [] = 1
line_width (w ∷ ws) = w + 3 + line_width ws

length-padded : (w : ℕ) (v : Text) → length v ≤ w → length (padded w v) ≡ w
length-padded w v h =
    omega
      (arith, length-append v (repeated b' ' (w - length v)), length-repeated b' ' (w - length v))

length-cells :
    (ws : List ℕ) (vs : List Text) → Fits ws vs → length (cells ws vs) + 1 ≡ line_width ws
length-cells [] [] h = refl
length-cells (w ∷ ws) (v ∷ vs) h = omega (
  arith,
  length-append (padded w v) (b' ' ∷ b'|' ∷ cells ws vs),
  length-padded w v (omega (arith, length-le-byte_len v, h.0)),
  length-cells ws vs h.1,
)
length-cells [] (v ∷ vs) h = absurd h
length-cells (w ∷ ws) [] h = absurd h

length-dashes : (ws : List ℕ) → length (dashes ws) + 1 ≡ line_width ws
length-dashes [] = refl
length-dashes (w ∷ ws) = omega (
  arith,
  length-append (repeated b'-' (w + 2)) (b'+' ∷ dashes ws),
  length-repeated b'-' (w + 2),
  length-dashes ws,
)

-- The values of a line, by the widths of the columns: each without the spaces at its end.
pub read_cells : List ℕ → Text → List Text
read_cells [] line = []
read_cells (w ∷ ws) line =
    trim_right_of b' ' (take w (drop 1 line)) ∷ read_cells ws (drop (w + 3) line)

trim-repeated : (n : ℕ) → trim_right_of b' ' (repeated b' ' n) ≡ []
trim-repeated zero = refl
trim-repeated (suc n) = rw (trim-repeated n) refl

trim-padding : (v : Text) (n : ℕ) → trim_right_of b' ' (v ++ repeated b' ' n) ≡ trim_right_of b' ' v
trim-padding [] n = trim-repeated n
trim-padding (c ∷ v) n = rw (trim-padding v n) refl

read_cells-cells :
    (ws : List ℕ) (vs : List Text)
    → Fits ws vs
    → read_cells ws (cells ws vs) ≡ map (trim_right_of b' ') vs
unfolding read_cells
read_cells-cells [] [] h = refl
read_cells-cells (w ∷ ws) (v ∷ vs) h =
    let cell = padded w v in
    let rest = b' ' ∷ b'|' ∷ cells ws vs in
    let sized : length cell ≡ w = length-padded w v (omega (arith, length-le-byte_len v, h.0)) in
    let front : take w (cell ++ rest) ≡ cell =
      ap (λ n. take n (cell ++ rest)) (sym sized) ∙ take-append_length cell rest in
    let back : drop w (cell ++ rest) ≡ rest =
      ap (λ n. drop n (cell ++ rest)) (sym sized) ∙ drop-append_length cell rest in
    let next : drop (w + 3) (b' ' ∷ (cell ++ rest)) ≡ cells ws vs =
      ap (λ n. drop n (b' ' ∷ (cell ++ rest))) (let e : w + 3 ≡ 1 + (w + 2) = omega arith in e)
      ∙ sym (drop-drop (w + 2) 1 (b' ' ∷ (cell ++ rest)))
      ∙ sym (drop-drop 2 w (cell ++ rest))
      ∙ ap (λ l. drop 2 l) back in
    rw (front, next, trim-padding v (w - length v), read_cells-cells ws vs h.1) refl
read_cells-cells [] (v ∷ vs) h = absurd h
read_cells-cells (w ∷ ws) [] h = absurd h

Wider-at_least_3 : (ws : List ℕ) → Wider ws (map at_least_3 ws)
Wider-at_least_3 [] = tt
Wider-at_least_3 (w ∷ ws) = (ground arith, Wider-at_least_3 ws)

Fits-byte_len : (vs : List Text) → Fits (map byte_len vs) vs
Fits-byte_len [] = tt
Fits-byte_len (v ∷ vs) = (omega arith, Fits-byte_len vs)

col_widths_lem :
    (columns : List Text) (rows : List (List Text))
    → All (λ row. length row ≡ length columns) rows
    → (ws : List ℕ) × (col_widths columns rows ≡ some ws)
      × Fits ws columns
      × All (λ row. Fits ws row) rows
unfolding col_widths
col_widths_lem columns rows h =
    let start = map byte_len columns in
    let (ws, e, wider, fits) = widen_all_lem start rows (rw (length-map byte_len columns) h) in
    let grown = Wider-at_least_3 ws in
    (
      map at_least_3 ws,
      rw (e, col_widths) refl,
      Fits-Wider start (map at_least_3 ws) columns (Fits-byte_len columns)
          (Wider-trans start ws (map at_least_3 ws) wider grown),
      All-Fits ws (map at_least_3 ws) rows grown fits,
    )

module _ (ws : List ℕ) where
  -- the values of a line of the table
  abbrev pub read_line : Text → List Text
  read_line line = read_cells ws (drop 1 line)

  abbrev pub trimmed : List Text → List Text
  trimmed = map (trim_right_of b' ')

  -- a line as wide as the columns, from which the values are read back
  abbrev pub Shows : List Text → Text → Type 0
  Shows vs line = (length line ≡ line_width ws) × (read_line line ≡ trimmed vs)

  render_line-Shows : (vs : List Text) → Fits ws vs → Shows vs (render_line ws vs)
  unfolding render_line
  render_line-Shows vs h = (omega (arith, length-cells ws vs h), read_cells-cells ws vs h)

  abbrev pub AllShow : List (List Text) → List Text → Type 0
  AllShow [] [] = Unit {0}
  AllShow (row ∷ rows) (line ∷ lines) = Shows row line × AllShow rows lines
  AllShow _ _ = ⊥

  AllShow-rows :
      (rows : List (List Text))
      → All (λ row. Fits ws row) rows
      → AllShow rows (map (render_line ws) rows)
  AllShow-rows [] h = tt
  AllShow-rows (row ∷ rows) h = (render_line-Shows row h.0, AllShow-rows rows h.1)

-- Where every row has as many values as there are columns, and there is a column, the table is the
-- header and one line for each row in order, between three equal separators, and the count of the
-- rows. All but the count have the same number of characters, and at the places of the columns the
-- values are read back from the lines, less the spaces at their ends: none is cut off.
pub table_lem :
    (c : Text) (columns : List Text) (rows : List (List Text))
    → All (λ row. length row ≡ length (c ∷ columns)) rows
    → (ws : List ℕ) × (sep : Text) × (header : Text) × (lines : List Text) × (table
          (c ∷ columns)
          rows
        ≡ some (sep ∷ header ∷ sep ∷ (lines ++ (sep ∷ count_line (length rows) ∷ []))))
      × (length sep ≡ line_width ws)
      × Shows ws (c ∷ columns) header
      × AllShow ws rows lines
unfolding table render_sep
table_lem c columns rows h =
    let (ws, e, fits, rows_fit) = col_widths_lem (c ∷ columns) rows h in
    (
      ws,
      render_sep ws,
      render_line ws (c ∷ columns),
      map (render_line ws) rows,
      rw (e, table) refl,
      omega (arith, length-dashes ws),
      render_line-Shows ws (c ∷ columns) fits,
      AllShow-rows ws rows rows_fit,
    )
