-- ===== src/Commands/Import/Grammar.antt =====
-- A reader of the lists of literals that SQLite's grammar has in VALUES: NULL, texts between quotes, and
-- decimal numbers with or without a sign. Spaces are not skipped, and hexadecimal numbers are left out.
use spark_db.Prelude.{
  ℕ, Bool, true, false, ◌&&◌, ◌||◌, List, [], ◌∷◌, ◌++◌, leb, ◌==◌, Option, none, some,
  if◌then◌else◌,
}
use spark_db.Text.{Text, codes, to_upper, text_eq}

-- a literal of SQL: between quotes, where a quote is written twice, or bare as NULL and numbers are
pub data Literal : Type 0 where
  quoted : Text → Literal
  bare : Text → Literal

-- the parts of a decimal number, by what has been read last
pub data Part : Type 0 where
  begin : Part
  sign : Part
  whole : Part
  -- a point without a digit before it
  point : Part
  fraction : Part
  -- the letter e, and the sign behind it
  exponent : Part
  raised : Part
  power : Part
  -- no number
  wrong : Part

abbrev is_decimal : ℕ → Bool
is_decimal c = leb b'0' c && leb c b'9'

abbrev is_sign : ℕ → Bool
is_sign c = c == b'+' || c == b'-'

abbrev is_e : ℕ → Bool
is_e c = c == b'e' || c == b'E'

abbrev after_whole : ℕ → Part
after_whole c =
    if is_decimal c
    then whole
    else if c == b'.'
    then fraction
    else if is_e c
    then exponent
    else wrong

abbrev after_sign : ℕ → Part
after_sign c = if is_decimal c then whole else if c == b'.' then point else wrong

abbrev step : Part → ℕ → Part
step begin c = if is_sign c then sign else after_sign c
step sign c = after_sign c
step whole c = after_whole c
step point c = if is_decimal c then fraction else wrong
step fraction c = if is_decimal c then fraction else if is_e c then exponent else wrong
step exponent c = if is_decimal c then power else if is_sign c then raised else wrong
step raised c = if is_decimal c then power else wrong
step power c = if is_decimal c then power else wrong
step wrong c = wrong

abbrev is_whole : Part → Bool
is_whole whole = true
is_whole fraction = true
is_whole power = true
is_whole _ = false

abbrev number_from : Part → Text → Bool
number_from p [] = is_whole p
number_from p (c ∷ s) = number_from (step p c) s

-- a decimal number
unfoldable pub is_sql_number : Text → Bool
is_sql_number s = number_from begin s

-- what is a literal without quotes
unfoldable pub is_bare : Text → Bool
unfolding is_sql_number
is_bare w = text_eq (to_upper w) (codes "NULL") || is_sql_number w

-- where a reader of a list of literals stands, with what it has read of the current one
pub data Mode : Type 0 where
  start : Mode
  inside : Text → Mode
  -- after a quote inside: the end of the literal, or half of a doubled quote
  closing : Text → Mode
  word : Text → Mode

abbrev pub before : Literal → Option (List Literal × Text) → Option (List Literal × Text)
before l none = none
before l (some (ls, rest)) = some (l ∷ ls, rest)

-- `literal,literal,…)`: the literals, and what stands after the parenthesis
abbrev pub read : Mode → Text → Option (List Literal × Text)
read m [] = none
read start (c ∷ s) = elim (c == 39) [ true ↦ read (inside []) s | false ↦ read (word (c ∷ [])) s ]
read (inside w) (c ∷ s) = elim (c == 39) [
  | true ↦ read (closing w) s
  | false ↦ read (inside (w ++ c ∷ [])) s
]
read (closing w) (c ∷ s) = elim (c == 39) [
  | true ↦ read (inside (w ++ 39 ∷ [])) s
  | false ↦ elim (c == b',') [
    | true ↦ before (quoted w) (read start s)
    | false ↦ elim (c == b')') [ true ↦ some (quoted w ∷ [], s) | false ↦ none ]
  ]
]
read (word w) (c ∷ s) = elim (c == b',') [
  | true ↦ if is_bare w then before (bare w) (read start s) else none
  | false ↦ elim (c == b')') [
    | true ↦ if is_bare w then some (bare w ∷ [], s) else none
    | false ↦ read (word (w ++ c ∷ [])) s
  ]
]

-- a literal that SQL has
abbrev pub is_literal : Literal → Bool
is_literal (quoted w) = true
is_literal (bare w) = is_bare w

abbrev pub are_literals : List Literal → Bool
are_literals [] = true
are_literals (l ∷ ls) = is_literal l && are_literals ls
