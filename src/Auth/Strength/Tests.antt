-- ===== src/Auth/Strength/Tests.antt =====
-- The password policy at concrete passwords, and tests.
use spark_db.Prelude.{◌≡◌, refl, none, some, ◌∷◌, []}
use spark_db.Text.{codes}
use spark_db.Auth.Strength.{byte_len, note, scan, validate_password_strength}

passwords :
    (validate_password_strength (codes "NewStr0ng!") ≡ none)
    × (validate_password_strength (codes "Sh0rt") ≡ some "password must be at least 8 characters")
    × (validate_password_strength (codes "admin") ≡ some "password must be at least 8 characters")
    × (validate_password_strength (codes "longenough1")
        ≡ some "password must contain at least one uppercase letter")
unfolding validate_password_strength scan note byte_len
passwords = (refl, refl, refl, refl)

-- six characters of nine bytes
six_characters : validate_password_strength (b'A' ∷ b'a' ∷ b'1' ∷ 0xe9 ∷ 0xe9 ∷ 0xe9 ∷ []) ≡ none
unfolding validate_password_strength scan note byte_len
six_characters = refl
