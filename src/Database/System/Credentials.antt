-- ===== src/Database/System/Credentials.antt =====
-- internal/database/system.go: the statements over `api_keys` and `sessions`. A comparison of an
-- expiry with `datetime('now')` is one of clock readings.
pub mod Validity
mod Tests
use spark_db.Prelude.{
  newest_first, ℕ, ◌+◌, String, Bool, true, false, ◌&&◌, not, List, [], ◌∷◌, ◌++◌, Option, none,
  some, ltb, ◌==◌, str_eq, find, any, filter, Result, ok, err, ◌>>=◌, wrap, no_rows, reported,
  if◌then◌else◌,
}
use spark_db.Text.{Text}
use spark_db.Database.System.{User, ApiKey, Session, SystemDb}
use spark_db.Database.System.Users.{has_id, scan}

-- `CreateAPIKey`; a foreign key is not enforced on this connection
unfoldable pub create_api_key :
    ℕ → ℕ → String → String → Text → Option ℕ → Text → SystemDb → SystemDb
create_api_key now user_id key_hash name prefix expires_at encrypted_key db =
    let row : ApiKey = record {
      id = db.next_key;
      user_id = user_id;
      key_hash = key_hash;
      name = name;
      prefix = prefix;
      created_at = now;
      expires_at = expires_at;
      encrypted_key = encrypted_key;
    } in
    record db { api_keys = db.api_keys ++ row ∷ []; next_key = db.next_key + 1 }

unfoldable pub get_api_key : ℕ → SystemDb → Result ApiKey
get_api_key id db = wrap "get api key" (scan (find (λ k. k.id == id) db.api_keys))

unfoldable pub delete_api_key : ℕ → SystemDb → SystemDb
delete_api_key id db = record db { api_keys = filter (λ k. not (k.id == id)) db.api_keys }

-- `ORDER BY created_at DESC`; rows of one time stay in the order of their ids
unfoldable pub list_api_keys : SystemDb → List ApiKey
list_api_keys db = newest_first (λ k. k.created_at) db.api_keys

-- `expires_at IS NULL OR expires_at > datetime('now')`
abbrev pub is_current : ℕ → Option ℕ → Bool
is_current now none = true
is_current now (some e) = ltb now e

abbrev pub opens : ℕ → String → ApiKey → Bool
opens now key_hash k = str_eq k.key_hash key_hash && is_current now k.expires_at

-- The query does not read `password_change_required`.
abbrev pub without_change : User → User
without_change u = record u { password_change_required = false }

-- the first row of `api_keys k JOIN users u ON k.user_id = u.id WHERE …`
unfoldable pub first_owner : ℕ → String → List ApiKey → List User → Option User
first_owner now key_hash [] users = none
first_owner now key_hash (k ∷ keys) users =
    let rest = first_owner now key_hash keys users in
    if opens now key_hash k
    then elim (find (has_id k.user_id) users) [ none ↦ rest | some u ↦ some (without_change u) ]
    else rest

unfoldable pub find_user_by_api_key : ℕ → String → SystemDb → Result User
find_user_by_api_key now key_hash db =
    wrap "find by api key" (scan (first_owner now key_hash db.api_keys db.users))

abbrev pub has_token : String → Session → Bool
has_token token s = str_eq s.token token

-- `token` is UNIQUE
unfoldable pub create_session : ℕ → String → ℕ → SystemDb → Result (Unit {0}) × SystemDb
create_session user_id token_hash expires_at db =
    let row : Session = record { user_id = user_id; token = token_hash; expires_at = expires_at } in
    if any (has_token token_hash) db.sessions
    then (err (reported "UNIQUE constraint failed: sessions.token"), db)
    else (ok tt, record db { sessions = db.sessions ++ row ∷ [] })

unfoldable pub validate_session : ℕ → String → SystemDb → Result ℕ
validate_session now token_hash db = do
  s ←
      wrap "invalid session"
        (scan (find (λ s. has_token token_hash s && ltb now s.expires_at) db.sessions))
  ok s.user_id

unfoldable pub delete_session : String → SystemDb → SystemDb
delete_session token_hash db = record db {
  sessions = filter (λ s. not (has_token token_hash s)) db.sessions;
}
