-- ===== src/Auth/Sessions/Lifetime.antt =====
-- A session from its creation to its end.
use spark_db.Prelude.{
  ℕ, ◌+◌, ltb, ◌≡◌, refl, ap, false, any, Result, ok, err, wrapf, no_rows, if◌then◌else◌,
}
use spark_db.Text.{Text}
use spark_db.Disk.{Bytes}
use spark_db.Encryption.Hex.{encode_hex}
use spark_db.Database.System.{SystemDb}
use spark_db.Database.System.Credentials.{has_token, create_session}
use spark_db.Database.System.Credentials.Validity.{session_lifetime}
use spark_db.Auth.Authenticator.{Services}
use spark_db.Auth.Sessions.{generate, validate, invalidate}

module _ (s : Services) (bytes : Bytes) (now duration user_id : ℕ) (db : SystemDb)
    (fresh : any (has_token (s.sha256_hex (encode_hex bytes))) db.sessions ≡ false) where
  abbrev pub token : Text
  token = encode_hex bytes

  abbrev pub made : Result (Text × ℕ) × SystemDb
  made = generate s (ok bytes) now duration user_id db

  generate_lem : made ≡ (
    ok (token, now + duration),
    (create_session user_id (s.sha256_hex token) (now + duration) db).1,
  )
  unfolding generate create_session
  generate_lem = rw (fresh) refl

  -- The token that Generate returns is validated as its user's until the duration has passed, and not
  -- from then on or once it is invalidated, where no stored session has its hash.
  pub validate-generate :
      (later : ℕ)
      → (made.0 ≡ ok (token, now + duration))
        × (validate s later token made.1 ≡ (
            if ltb later (now + duration)
            then ok user_id
            else err (wrapf "invalid session" no_rows)))
        × (validate s later token (invalidate s token made.1)
            ≡ err (wrapf "invalid session" no_rows))
  unfolding validate invalidate
  validate-generate later =
      let (valid, ended) =
        session_lifetime later user_id (now + duration) (s.sha256_hex token) db fresh in
      (
        ap (λ r. r.0) generate_lem,
        rw (ap (λ r. r.1) generate_lem) valid,
        rw (ap (λ r. r.1) generate_lem) ended,
      )
