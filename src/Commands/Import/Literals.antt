-- ===== src/Commands/Import/Literals.antt =====
-- The values that `import` writes into an INSERT, as a reader of SQL finds them.
use spark_db.Prelude.{
  ℕ, ◌≡◌, refl, sym, ap, ◌∙◌, Bool, true, false, not, ◌&&◌, ◌||◌, List, [], ◌∷◌, ◌++◌, drop,
  append_assoc, append-nil, arith, Option, none, some, All, Bool-cases, inl, inr, ◌==◌, ==_iff,
  if◌then◌else◌,
}
use spark_db.Text.{Text, codes, trim_space, to_upper, text_eq, is_empty}
use spark_db.Commands.Import.Grammar.{
  Literal, quoted, bare, Mode, start, inside, closing, word, before, read, is_literal, are_literals,
}
use spark_db.Commands.Import.{
  Numbers, ColType, is_number, doubled, join, escape_value, escaped, render_row,
}

-- A character of a number: no quote, comma or parenthesis.
abbrev pub is_plain : ℕ → Bool
is_plain c = not (c == 39) && (not (c == b',') && not (c == b')'))

-- what strconv documents of the syntax of floating-point numbers
pub record PlainNumbers (n : Numbers) : Type 0 where
  pub parses_float-plain : (s : Text) → n.parses_float s ≡ true → All (λ c. is_plain c ≡ true) s

-- what is to be stored for a value
unfoldable pub literal_of : Numbers → Text → ColType → Literal
literal_of n val t =
    if is_empty (trim_space val) || text_eq (to_upper (trim_space val)) (codes "NULL")
    then bare (codes "NULL")
    else if is_number t && n.parses_float (trim_space val)
    then bare (trim_space val)
    else quoted (trim_space val)

read-doubled :
    (w t rest : Text) → read (inside w) (doubled t ++ 39 ∷ rest) ≡ read (closing (w ++ t)) rest
unfolding doubled
read-doubled w [] rest = rw (append-nil w) refl
read-doubled w (c ∷ t) rest = elim (Bool-cases (c == 39)) [
  | inl e ↦
      let quote : c ≡ 39 = (==_iff c 39).0 e in
      rw (quote, sym (append_assoc w (39 ∷ []) t)) (read-doubled (w ++ 39 ∷ []) t rest)
  | inr e ↦
      let step : read (inside w) (c ∷ (doubled t ++ 39 ∷ rest))
          ≡ read (inside (w ++ c ∷ [])) (doubled t ++ 39 ∷ rest) =
        rw (e, read) refl in
      let later = read-doubled (w ++ c ∷ []) t rest in
      rw (e) (step ∙ (rw (append_assoc w (c ∷ []) t) at later))
]

read-word :
    (w t rest : Text)
    → All (λ c. is_plain c ≡ true) t
    → read (word w) (t ++ rest) ≡ read (word (w ++ t)) rest
read-word w [] rest h = rw (append-nil w) refl
read-word w (c ∷ t) rest (plain, h) =
    let comma : (c == b',') ≡ false = ground arith in
    let paren : (c == b')') ≡ false = ground arith in
    let step : read (word w) (c ∷ (t ++ rest)) ≡ read (word (w ++ c ∷ [])) (t ++ rest) =
      rw (comma, read, paren) refl in
    let later = read-word (w ++ c ∷ []) t rest h in step ∙ (rw (append_assoc w (c ∷ []) t) at later)

read-bare :
    (s rest : Text)
    → is_empty s ≡ false
    → All (λ c. is_plain c ≡ true) s
    → read start (s ++ rest) ≡ read (word s) rest
read-bare [] rest h plain = cc
read-bare (c ∷ s) rest h (p, plain) =
    let quote : (c == 39) ≡ false = ground arith in
    let step : read start (c ∷ (s ++ rest)) ≡ read (word (c ∷ [])) (s ++ rest) =
      rw (quote, read) refl in
    step ∙ read-word (c ∷ []) s rest plain

-- the mode in which a literal ends
abbrev ended : Literal → Mode
ended (quoted w) = closing w
ended (bare w) = word w

read-escape_value :
    (n : Numbers)
    → PlainNumbers n
    → (val : Text) (t : ColType) (rest : Text)
    → read start (escape_value n val t ++ rest) ≡ read (ended (literal_of n val t)) rest
unfolding escape_value literal_of
read-escape_value n law val t rest =
    elim (Bool-cases
      (is_empty (trim_space val) || text_eq (to_upper (trim_space val)) (codes "NULL"))) [
        | inl null ↦ rw (null) refl
        | inr value ↦ elim (Bool-cases (is_number t && n.parses_float (trim_space val))) [
          | inl number ↦
              rw (value, number)
                (read-bare (trim_space val) rest (ground arith)
                  (law.parses_float-plain (trim_space val) (ground arith)))
          | inr other ↦
              rw (value, other, append_assoc (doubled (trim_space val)) (39 ∷ []) rest)
                (read-doubled [] (trim_space val) rest)
        ]
      ]

abbrev pub literals : Numbers → List Text → List ColType → List Literal
literals n (v ∷ vs) (t ∷ ts) = literal_of n v t ∷ literals n vs ts
literals n _ _ = []

read-comma :
    (l : Literal) (rest : Text)
    → read (ended l) (b',' ∷ rest) ≡ (if is_literal l then before l (read start rest) else none)
read-comma (quoted w) rest = refl
read-comma (bare w) rest = refl

read-paren :
    (l : Literal) (rest : Text)
    → read (ended l) (b')' ∷ rest) ≡ (if is_literal l then some (l ∷ [], rest) else none)
read-paren (quoted w) rest = refl
read-paren (bare w) rest = refl

-- the literals, and what stands after them, where all of them are literals of SQL
abbrev pub read_all : List Literal → Text → Option (List Literal × Text)
read_all ls rest = if are_literals ls then some (ls, rest) else none

read_all-one :
    (l : Literal) (rest : Text)
    → (if is_literal l then some (l ∷ [], rest) else none) ≡ read_all (l ∷ []) rest
read_all-one l rest = elim (Bool-cases (is_literal l)) [ inl e ↦ rw (e) refl | inr e ↦ rw (e) refl ]

read_all-before :
    (l : Literal) (ls : List Literal) (rest : Text)
    → (if is_literal l then before l (read_all ls rest) else none) ≡ read_all (l ∷ ls) rest
read_all-before l ls rest = elim (Bool-cases (is_literal l)) [
  | inl e ↦ elim (Bool-cases (are_literals ls)) [
    | inl all ↦ rw (e, all) refl
    | inr some_not ↦ rw (e, some_not) refl
  ]
  | inr e ↦ rw (e) refl
]

read-join :
    (n : Numbers)
    → PlainNumbers n
    → (v : Text) (vs : List Text) (t : ColType) (ts : List ColType) (rest : Text)
    → read start (join (codes ",") (escaped n (v ∷ vs) (t ∷ ts)) ++ b')' ∷ rest)
      ≡ read_all (literals n (v ∷ vs) (t ∷ ts)) rest
unfolding join
read-join n law v [] t ts rest =
    read-escape_value n law v t (b')' ∷ rest)
    ∙ read-paren (literal_of n v t) rest
    ∙ read_all-one (literal_of n v t) rest
read-join n law v (w ∷ vs) t [] rest =
    read-escape_value n law v t (b')' ∷ rest)
    ∙ read-paren (literal_of n v t) rest
    ∙ read_all-one (literal_of n v t) rest
read-join n law v (w ∷ vs) t (u ∷ ts) rest =
    let more : Text = join (codes ",") (escaped n (w ∷ vs) (u ∷ ts)) in
    let l = literal_of n v t in
    rw (append_assoc (escape_value n v t) (b',' ∷ more) (b')' ∷ rest)) (
      read-escape_value n law v t (b',' ∷ (more ++ b')' ∷ rest))
      ∙ read-comma l (more ++ b')' ∷ rest)
      ∙ ap (λ r. if is_literal l then before l r else none) (read-join n law w vs u ts rest)
      ∙ read_all-before l (literals n (w ∷ vs) (u ∷ ts)) rest)

-- A reader of NULL, quoted texts and decimal numbers reads the row of an INSERT as one literal for
-- each value, or not at all: NULL for an empty value or the word null, the value itself where the
-- column holds numbers and ParseFloat takes it, and else its text, whatever quotes, commas or
-- parentheses it holds. It reads the row exactly if every value that is written bare is NULL or a
-- decimal number, which NaN and Inf are not. What follows the row is not touched. There is a value
-- and a column, and what ParseFloat takes holds no quote, comma or parenthesis.
pub read-render_row :
    (n : Numbers) (law : PlainNumbers n) (v : Text) (vs : List Text) (t : ColType)
    (ts : List ColType) (rest : Text)
    → read start (drop 1 (render_row n (t ∷ ts) (v ∷ vs) ++ rest)) ≡ (
        if are_literals (literals n (v ∷ vs) (t ∷ ts))
        then some (literals n (v ∷ vs) (t ∷ ts), rest)
        else none)
unfolding render_row
read-render_row n law v vs t ts rest =
    rw (append_assoc (join (codes ",") (escaped n (v ∷ vs) (t ∷ ts))) (codes ")") rest)
      (read-join n law v vs t ts rest)
