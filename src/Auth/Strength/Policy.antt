-- ===== src/Auth/Strength/Policy.antt =====
-- The password policy as a predicate.
use spark_db.Prelude.{ℕ, ◌≤◌, ◌≡◌, Bool, true, false, ◌||◌, ◌↔◌, [], ◌∷◌, arith, none}
use spark_db.Text.{Text}
use spark_db.Auth.Strength.{
  Found, byte_len, is_upper, is_lower, is_digit, note, scan, validate_password_strength,
}

-- Some character passes the test.
abbrev pub any : (ℕ → Bool) → Text → Bool
any p [] = false
any p (c ∷ s) = p c || any p s

scan_lem :
    (f : Found) (s : Text)
    → scan f s ≡ record {
      upper = f.upper || any is_upper s;
      lower = f.lower || any is_lower s;
      digit = f.digit || any is_digit s;
    }
unfolding scan note
scan_lem f [] = ground arith
scan_lem f (c ∷ s) = ground (arith, scan_lem (note f c) s)

-- A password is accepted exactly when its UTF-8 form has at least eight bytes and it holds an upper
-- case letter, a lower case letter and a digit, all of ASCII.
pub strength_iff :
    (s : Text)
    → (validate_password_strength s ≡ none) ↔ (
        (8 ≤ byte_len s)
        × (any is_upper s ≡ true)
        × (any is_lower s ≡ true)
        × (any is_digit s ≡ true))
unfolding validate_password_strength
strength_iff s = ground (arith, scan_lem (record { upper = false; lower = false; digit = false }) s)
