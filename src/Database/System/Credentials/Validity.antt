-- ===== src/Database/System/Credentials/Validity.antt =====
-- Which API keys and session tokens name a user.
use spark_db.Prelude.{
  ◌==◌, true, ℕ, String, ◌≡◌, refl, Bool, false, ◌&&◌, not, List, [], ◌∷◌, ◌++◌, arith, Option,
  some, Bool-cases, Option-cases, inl, inr, ==_iff, eq_refl, str_eq, ltb, find, find-test,
  find-append_none, find-filter-none, any, ok, err, no_rows, wrapf, if◌then◌else◌,
}
use spark_db.Text.{Text}
use spark_db.Database.System.{User, ApiKey, Session, SystemDb}
use spark_db.Database.System.Users.{has_id, get_user}
use spark_db.Database.System.Credentials.{
  get_api_key, opens, is_current, without_change, first_owner, find_user_by_api_key, create_api_key,
  has_token, create_session, validate_session, delete_session,
}

first_owner_sound :
    (now : ℕ) (h : String) (keys : List ApiKey) (users : List User) (u : User)
    → first_owner now h keys users ≡ some u
    → (v : User) × (find (has_id u.id) users ≡ some v) × (u ≡ without_change v)
unfolding first_owner
first_owner_sound now h [] users u e = cc
first_owner_sound now h (k ∷ keys) users u e = elim (Bool-cases (opens now h k)) [
  | inl o ↦ elim (Option-cases (find (has_id k.user_id) users)) [
    | inl missing ↦ first_owner_sound now h keys users u (rw (o, missing, first_owner) at e)
    | inr (v, found) ↦
        let at_key = find-test (has_id k.user_id) users v found in
        (v, ground (arith, ==_iff v.id k.user_id), ground arith)
  ]
  | inr o ↦ first_owner_sound now h keys users u (rw o at e)
]

-- The user whom a key names is a row of `users`, but for the flag that the query leaves out.
pub find_user_by_api_key_sound :
    (now : ℕ) (key_hash : String) (db : SystemDb) (u : User)
    → find_user_by_api_key now key_hash db ≡ ok u
    → (v : User) × (get_user u.id db ≡ ok v) × (u ≡ without_change v)
unfolding find_user_by_api_key get_user
find_user_by_api_key_sound now key_hash db u e =
    let (v, found, same) = first_owner_sound now key_hash db.api_keys db.users u (ground arith) in
    (v, rw found refl, same)

first_owner-append :
    (now : ℕ) (h : String) (keys later : List ApiKey) (users : List User)
    → any (λ k. str_eq k.key_hash h) keys ≡ false
    → first_owner now h (keys ++ later) users ≡ first_owner now h later users
unfolding first_owner
first_owner-append now h [] later users fresh = refl
first_owner-append now h (k ∷ keys) later users fresh =
    ground (arith, first_owner-append now h keys later users)

-- A key that is created with a new hash opens the account of its user, as stored at the time of the
-- request, until the key expires.
pub api_key_lifetime :
    (created now user_id : ℕ) (key_hash name : String) (prefix encrypted : Text)
    (expires : Option ℕ) (db : SystemDb) (u : User)
    → any (λ k. str_eq k.key_hash key_hash) db.api_keys ≡ false
    → get_user user_id db ≡ ok u
    → find_user_by_api_key now key_hash
        (create_api_key created user_id key_hash name prefix expires encrypted db)
      ≡ (if is_current now expires
          then ok (without_change u)
          else err (wrapf "find by api key" no_rows))
unfolding find_user_by_api_key create_api_key get_user first_owner
api_key_lifetime created now user_id key_hash name prefix encrypted expires db u fresh found =
    let row : ApiKey = record {
      id = db.next_key;
      user_id = user_id;
      key_hash = key_hash;
      name = name;
      prefix = prefix;
      created_at = created;
      expires_at = expires;
      encrypted_key = encrypted;
    } in
    ground (
      arith,
      first_owner-append now key_hash db.api_keys (row ∷ []) db.users fresh,
      eq_refl key_hash,
    )

any-and :
    (p q : Session → Bool) (xs : List Session) → any p xs ≡ false → any (λ x. p x && q x) xs ≡ false
any-and p q [] h = refl
any-and p q (x ∷ xs) h = ground (arith, any-and p q xs)

-- A session is valid from its creation to its expiry, and no longer once it is deleted.
pub session_lifetime :
    (now user_id expires : ℕ) (token : String) (db : SystemDb)
    → any (has_token token) db.sessions ≡ false
    → (validate_session now token (create_session user_id token expires db).1
        ≡ (if ltb now expires then ok user_id else err (wrapf "invalid session" no_rows)))
      × (validate_session now token
            (delete_session token (create_session user_id token expires db).1)
          ≡ err (wrapf "invalid session" no_rows))
unfolding validate_session create_session delete_session
session_lifetime now user_id expires token db fresh =
    let row : Session = record { user_id = user_id; token = token; expires_at = expires } in
    (
      ground (
        arith,
        find-append_none (λ s. has_token token s && ltb now s.expires_at) db.sessions (row ∷ []),
        any-and (has_token token) (λ s. ltb now s.expires_at) db.sessions fresh,
        eq_refl token,
      ),
      ground (
        arith,
        find-filter-none (λ s. has_token token s && ltb now s.expires_at)
            (λ s. not (has_token token s)) (db.sessions ++ row ∷ []) (λ s h. ground arith),
      ),
    )

-- A key that is created under an unused id is found by its id.
pub get_api_key-create_api_key :
    (now user_id : ℕ) (key_hash name : String) (prefix encrypted : Text) (expires : Option ℕ)
    (db : SystemDb)
    → any (λ k. k.id == db.next_key) db.api_keys ≡ false
    → get_api_key db.next_key (create_api_key now user_id key_hash name prefix expires encrypted db)
      ≡ ok (record {
        id = db.next_key;
        user_id = user_id;
        key_hash = key_hash;
        name = name;
        prefix = prefix;
        created_at = now;
        expires_at = expires;
        encrypted_key = encrypted;
      })
unfolding get_api_key create_api_key
get_api_key-create_api_key now user_id key_hash name prefix encrypted expires db fresh =
    let row : ApiKey = record {
      id = db.next_key;
      user_id = user_id;
      key_hash = key_hash;
      name = name;
      prefix = prefix;
      created_at = now;
      expires_at = expires;
      encrypted_key = encrypted;
    } in
    let same : (db.next_key == db.next_key) ≡ true = (==_iff db.next_key db.next_key).1 refl in
    rw (find-append_none (λ k. k.id == db.next_key) db.api_keys (row ∷ []) fresh, same) refl

pub get_user-create_api_key :
    (id now user_id : ℕ) (key_hash name : String) (prefix encrypted : Text) (expires : Option ℕ)
    (db : SystemDb)
    → get_user id (create_api_key now user_id key_hash name prefix expires encrypted db)
      ≡ get_user id db
unfolding get_user create_api_key
get_user-create_api_key id now user_id key_hash name prefix encrypted expires db = refl
