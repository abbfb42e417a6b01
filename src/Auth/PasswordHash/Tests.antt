-- ===== src/Auth/PasswordHash/Tests.antt =====
-- Hashes made by a function that stands for Argon2: it keeps the first byte of the password.
use spark_db.Prelude.{
  ◌≡◌, refl, ◌>>=◌, true, [], ◌∷◌, ok, err, errorf, arith, ℕ, zero, suc, ◌%◌, ◌-◌,
}
use spark_db.Text.{Text, codes, text_eq}
use spark_db.Disk.{Bytes}
use spark_db.Auth.PasswordHash.{Argon2, hash_password, verify_password, verify_parts, split_on}
use spark_db.Auth.PasswordHash.RoundTrip.{default_key, verify_password-hash_password}

abbrev zeros : ℕ → Bytes
zeros zero = []
zeros (suc n) = 0 ∷ zeros n

abbrev first_byte : Text → ℕ
first_byte [] = 0
first_byte (c ∷ s) = c % 256

abbrev toy : Argon2
toy = record {
  version = 19;
  id_key = λ password salt time memory threads n. first_byte password ∷ zeros (n - 1);
}

verify_password-hash_password_example :
    ((given : Text)
      → (hash_password toy (ok (1 ∷ 2 ∷ [])) (codes "secret") >>= verify_password toy given)
        ≡ ok (
            text_eq
              (default_key toy (1 ∷ 2 ∷ []) (codes "secret"))
              (default_key toy (1 ∷ 2 ∷ []) given)))
    × ((hash_password toy (ok (1 ∷ 2 ∷ [])) (codes "secret")
          >>= verify_password toy (codes "secret"))
        ≡ ok true)
verify_password-hash_password_example =
    verify_password-hash_password toy (1 ∷ 2 ∷ []) (codes "secret") (ground arith) (omega arith)
      (ground arith) refl

malformed :
    verify_password toy (codes "secret") (codes "$1$abc") ≡ err (errorf "invalid hash format")
unfolding verify_password verify_parts split_on
malformed = refl
