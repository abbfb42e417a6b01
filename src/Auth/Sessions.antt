-- ===== src/Auth/Sessions.antt =====
-- internal/auth/session.go: SessionManager over the system database. `random` stands for the bytes that
-- crypto/rand returns; times and durations are numbers of one unit, of which a day has `day`.
pub mod Lifetime
mod Tests
use spark_db.Prelude.{ℕ, ◌+◌, ◌==◌, String, Result, ok, err, wrap, if◌then◌else◌}
use spark_db.Text.{Text}
use spark_db.Disk.{Bytes}
use spark_db.Encryption.Hex.{encode_hex}
use spark_db.Database.System.{SystemDb}
use spark_db.Database.System.Credentials.{create_session, validate_session, delete_session}
use spark_db.Auth.Authenticator.{Services}

-- the `duration` of NewSessionManager
unfoldable pub session_duration : ℕ → ℕ → ℕ
session_duration day duration = if duration == 0 then day else duration

module _ (s : Services) where
  -- what Generate returns once the row is inserted or refused
  abbrev pub generated : Text → ℕ → Result (Unit {0}) × SystemDb → Result (Text × ℕ) × SystemDb
  generated raw expires (ok _, db) = (ok (raw, expires), db)
  generated raw expires (err e, db) = (wrap "store session" (err e), db)

  unfoldable pub generate : Result Bytes → ℕ → ℕ → ℕ → SystemDb → Result (Text × ℕ) × SystemDb
  generate (err e) now duration user_id db = (wrap "generate token" (err e), db)
  generate (ok bytes) now duration user_id db =
      generated (encode_hex bytes) (now + duration)
        (create_session user_id (s.sha256_hex (encode_hex bytes)) (now + duration) db)

  unfoldable pub validate : ℕ → Text → SystemDb → Result ℕ
  validate now raw db = validate_session now (s.sha256_hex raw) db

  unfoldable pub invalidate : Text → SystemDb → SystemDb
  invalidate raw db = delete_session (s.sha256_hex raw) db
