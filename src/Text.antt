-- ===== src/Text.antt =====
-- The functions of Go's `strings` package that the program calls, over a text given as the list of
-- its code points (a valid UTF-8 string). `to_upper` is exact on ASCII and on the two other
-- characters whose upper case is ASCII; every other character has a non-ASCII upper case, and stays
-- itself here, which no comparison with an ASCII text can tell apart.
pub mod Case
pub mod Search
use Prim.Native.Char.{code}
use spark_db.Prelude.{
  ℕ, ◌+◌, ◌-◌, Option, none, some, String, Bool, true, false, ◌&&◌, ◌||◌, List, [], ◌∷◌, ◌++◌, map,
  leb, ◌==◌, if◌then◌else◌,
}

abbrev pub Text : Type 0
Text = List ℕ

abbrev pub codes : String → Text
codes String.[] = []
codes (String.◌∷◌ c s) = code c ∷ codes s

-- `s + t`
abbrev pub append_str : String → String → String
append_str String.[] t = t
append_str (String.◌∷◌ c s) t = String.◌∷◌ c (append_str s t)

-- unicode.IsSpace
unfoldable pub is_space : ℕ → Bool
is_space c =
    (leb 9 c && leb c 13)
    || c == 32
    || c == 0x85
    || c == 0xa0
    || c == 0x1680
    || (leb 0x2000 c && leb c 0x200a)
    || c == 0x2028
    || c == 0x2029
    || c == 0x202f
    || c == 0x205f
    || c == 0x3000

-- unicode.ToUpper
unfoldable pub upper : ℕ → ℕ
upper c =
    if leb b'a' c && leb c b'z'
    then c - 32
    else if c == 0x131
    then b'I'
    else if c == 0x17f
    then b'S'
    else c

-- strings.ToUpper
abbrev pub to_upper : Text → Text
to_upper = map upper

abbrev pub trim_left : Text → Text
trim_left [] = []
trim_left (c ∷ s) = let rest = trim_left s in if is_space c then rest else c ∷ s

-- `c ∷ rest` without the space at its end
abbrev pub cons_trimmed : ℕ → Text → Text
cons_trimmed c [] = if is_space c then [] else c ∷ []
cons_trimmed c (d ∷ s) = c ∷ d ∷ s

abbrev pub trim_right : Text → Text
trim_right [] = []
trim_right (c ∷ s) = cons_trimmed c (trim_right s)

-- strings.TrimSpace
unfoldable pub trim_space : Text → Text
trim_space s = trim_right (trim_left s)

-- strings.HasPrefix(s, prefix)
abbrev pub has_prefix : Text → Text → Bool
has_prefix s [] = true
has_prefix [] (d ∷ p) = false
has_prefix (c ∷ s) (d ∷ p) = c == d && has_prefix s p

-- strings.Contains(s, sub)
abbrev pub contains : Text → Text → Bool
contains [] sub = has_prefix [] sub
contains (c ∷ s) sub = has_prefix (c ∷ s) sub || contains s sub

abbrev pub text_eq : Text → Text → Bool
text_eq [] [] = true
text_eq (c ∷ s) (d ∷ t) = c == d && text_eq s t
text_eq _ _ = false

-- strings.HasSuffix(s, suffix)
abbrev pub has_suffix : Text → Text → Bool
has_suffix [] t = text_eq [] t
has_suffix (c ∷ s) t = text_eq (c ∷ s) t || has_suffix s t

abbrev pub is_empty : Text → Bool
is_empty [] = true
is_empty (c ∷ s) = false

-- strings.Fields: `word` is the field read so far
abbrev pub fields_from : Text → Text → List Text
fields_from word [] = if is_empty word then [] else word ∷ []
fields_from word (c ∷ s) =
    let next = fields_from [] s in
    let more = fields_from (word ++ c ∷ []) s in
    if is_space c then (if is_empty word then next else word ∷ next) else more

unfoldable pub fields : Text → List Text
fields = fields_from []

-- strings.TrimRight(s, cutset) for a cutset of one character
abbrev pub trim_right_of : ℕ → Text → Text
trim_right_of k [] = []
trim_right_of k (c ∷ s) =
    let rest = trim_right_of k s in if is_empty rest && c == k then [] else c ∷ rest

-- unicode.ToLower: exact on ASCII and on the two other characters whose lower case is ASCII
unfoldable pub lower : ℕ → ℕ
lower c =
    if leb b'A' c && leb c b'Z'
    then c + 32
    else if c == 0x130
    then b'i'
    else if c == 0x212a
    then b'k'
    else c

-- strings.ToLower
abbrev pub to_lower : Text → Text
to_lower = map lower

-- strings.SplitN(s, sep, 2) for a separator of one character: the parts before and after the first
-- one, or none where there is no second part
abbrev pub split_2 : ℕ → Text → Option (Text × Text)
split_2 sep [] = none
split_2 sep (c ∷ s) =
    let rest = split_2 sep s in
    if c == sep then some ([], s) else elim rest [ none ↦ none | some (a, b) ↦ some (c ∷ a, b) ]
