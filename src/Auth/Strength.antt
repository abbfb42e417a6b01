-- ===== src/Auth/Strength.antt =====
-- internal/auth/password.go, `ValidatePasswordStrength`. `len` counts the bytes of the UTF-8 form,
-- and the loop walks the characters.
pub mod Policy
mod Tests
use spark_db.Prelude.{
  ℕ, ◌+◌, String, Bool, true, false, ◌&&◌, not, Option, none, some, [], ◌∷◌, ltb, leb,
  if◌then◌else◌,
}
use spark_db.Text.{Text}

-- utf8.RuneLen
abbrev pub rune_len : ℕ → ℕ
rune_len c = if ltb c 0x80 then 1 else if ltb c 0x800 then 2 else if ltb c 0x10000 then 3 else 4

-- len(password)
unfoldable pub byte_len : Text → ℕ
byte_len [] = 0
byte_len (c ∷ s) = rune_len c + byte_len s

pub record Found : Type 0 where
  pub upper : Bool
  pub lower : Bool
  pub digit : Bool

abbrev pub is_upper : ℕ → Bool
is_upper c = leb b'A' c && leb c b'Z'

abbrev pub is_lower : ℕ → Bool
is_lower c = leb b'a' c && leb c b'z'

abbrev pub is_digit : ℕ → Bool
is_digit c = leb b'0' c && leb c b'9'

-- one round of the loop
unfoldable pub note : Found → ℕ → Found
note f c =
    if is_upper c
    then record f { upper = true }
    else if is_lower c
    then record f { lower = true }
    else if is_digit c
    then record f { digit = true }
    else f

unfoldable pub scan : Found → Text → Found
scan f [] = f
scan f (c ∷ s) = scan (note f c) s

-- The error's message; `none` is success.
unfoldable pub validate_password_strength : Text → Option String
validate_password_strength password =
    let f = scan (record { upper = false; lower = false; digit = false }) password in
    if ltb (byte_len password) 8
    then some "password must be at least 8 characters"
    else if not f.upper
    then some "password must contain at least one uppercase letter"
    else if not f.lower
    then some "password must contain at least one lowercase letter"
    else if not f.digit
    then some "password must contain at least one digit"
    else none
