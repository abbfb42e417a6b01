-- ===== src/Auth/ApiKeys/Lifetime.antt =====
-- An API key from its creation on: whom it authenticates, and to whom it is revealed.
use spark_db.Prelude.{
  ℕ, ◌<◌, ◌==◌, String, ◌≡◌, refl, ap, false, [], ◌∷◌, ◌++◌, length, arith, none, any, str_eq, All,
  Result, ok, err, errorf, if◌then◌else◌,
}
use spark_db.Text.{Text, codes, is_empty}
use spark_db.Disk.{Bytes}
use spark_db.Encryption.Hex.{encode_hex}
use spark_db.Encryption.Cipher.{Aead, decrypt}
use spark_db.Encryption.Cipher.RoundTrip.{Opens, decrypt-append}
use spark_db.Database.System.{User, SystemDb}
use spark_db.Database.System.Users.{get_user}
use spark_db.Database.System.Credentials.{create_api_key, without_change}
use spark_db.Database.System.Credentials.Validity.{
  api_key_lifetime, get_api_key-create_api_key, get_user-create_api_key,
}
use spark_db.Auth.Base64.{encode_base64, decode_base64-encode_base64}
use spark_db.Auth.Authenticator.{
  Services, Authenticator, verified, unless_locked, authenticate_api_key,
}
use spark_db.Auth.ApiKeys.{
  shown_prefix, generate_key, encrypt_raw_key, decrypt_raw_key, opened_key, generate_api_key,
  reveal_api_key,
}

-- the raw key that the random bytes give
abbrev pub raw_key : Bytes → Text
raw_key bytes = codes "vl_" ++ encode_hex bytes

encode_base64-filled : (bs : Bytes) → is_empty bs ≡ false → is_empty (encode_base64 bs) ≡ false
unfolding encode_base64
encode_base64-filled [] h = h
encode_base64-filled (a ∷ []) h = refl
encode_base64-filled (a ∷ b ∷ []) h = refl
encode_base64-filled (a ∷ b ∷ c ∷ rest) h = refl

append-filled : (xs ys : Bytes) → 0 < length xs → is_empty (xs ++ ys) ≡ false
append-filled [] ys h = absurd (omega arith)
append-filled (x ∷ xs) ys h = refl

module _ (s : Services) (a : Aead) (sha256 : Text → Bytes) (bytes nonce : Bytes) (now : ℕ)
    (secret : Text) (user_id : ℕ) (name : String) (db : SystemDb)
    (accepted : a.new_gcm (sha256 secret) ≡ ok tt) where
  abbrev pub encrypted : Bytes
  encrypted = nonce ++ a.seal (sha256 secret) nonce (raw_key bytes)

  abbrev pub created : Result Text × SystemDb
  created = generate_api_key s a sha256 (ok bytes) (ok nonce) now secret user_id name db

  generate_api_key_lem : created ≡ (
    ok (raw_key bytes),
    create_api_key now user_id
        (s.sha256_hex (raw_key bytes))
        name
        (shown_prefix (raw_key bytes))
        none
        (encode_base64 encrypted)
        db,
  )
  unfolding generate_api_key generate_key encrypt_raw_key
  generate_api_key_lem = rw (accepted) refl

  -- The key that GenerateAPIKey returns authenticates its user, as stored then, at every later time at
  -- which the user is not locked, where no stored key has the same hash.
  pub authenticate_api_key-generate_api_key :
      (later : ℕ) (u : User) (server : Authenticator)
      → any (λ k. str_eq k.key_hash (s.sha256_hex (raw_key bytes))) db.api_keys ≡ false
      → get_user user_id db ≡ ok u
      → (created.0 ≡ ok (raw_key bytes))
        × (authenticate_api_key s later (raw_key bytes) (record server { system_db = created.1 })
            ≡ unless_locked s later "apikey" (without_change u))
  unfolding authenticate_api_key
  authenticate_api_key-generate_api_key later u server fresh found = (
    ap (λ r. r.0) generate_api_key_lem,
    rw
        (
          ap (λ r. r.1) generate_api_key_lem,
          api_key_lifetime now later user_id (s.sha256_hex (raw_key bytes)) name
              (shown_prefix (raw_key bytes)) (encode_base64 encrypted) none db u fresh found,
        )
        refl,
  )

  decrypt_raw_key-encrypted :
      Opens a
      → length nonce ≡ a.nonce_size
      → All (λ b. b < 256) encrypted
      → decrypt_raw_key s a sha256 secret (encode_base64 encrypted) ≡ ok (raw_key bytes)
  unfolding decrypt_raw_key
  decrypt_raw_key-encrypted law fits small =
      let opens : opened_key s a sha256 (sha256 secret) encrypted ≡ ok (raw_key bytes) =
        unfold decrypt in decrypt-append a law (sha256 secret) nonce fits (raw_key bytes) in
      rw (decode_base64-encode_base64 encrypted small, accepted, opens) refl

  -- RevealAPIKey gives the key that GenerateAPIKey returned to whoever knows the password of the
  -- key's user, and nothing to anybody else. The id of a new key is unused, AES-GCM opens what it
  -- sealed, and its output is bytes.
  pub reveal_api_key-generate_api_key :
      (password : Text) (u : User)
      → Opens a
      → length nonce ≡ a.nonce_size
      → 0 < a.nonce_size
      → All (λ b. b < 256) encrypted
      → any (λ k. k.id == db.next_key) db.api_keys ≡ false
      → get_user user_id db ≡ ok u
      → reveal_api_key s a sha256 db.next_key password secret created.1 ≡ (
          if verified (s.verify_password password u.password_hash)
          then ok (raw_key bytes)
          else err (errorf "invalid password"))
  unfolding reveal_api_key
  reveal_api_key-generate_api_key password u law fits positive small fresh found =
      let filled : is_empty (encode_base64 encrypted) ≡ false =
        encode_base64-filled encrypted (
          append-filled nonce (a.seal (sha256 secret) nonce (raw_key bytes))
            (rw (fits) positive)) in
      rw
        (
          ap (λ r. r.1) generate_api_key_lem,
          get_api_key-create_api_key now user_id (s.sha256_hex (raw_key bytes)) name
              (shown_prefix (raw_key bytes)) (encode_base64 encrypted) none db fresh,
          filled,
          get_user-create_api_key user_id now user_id (s.sha256_hex (raw_key bytes)) name
              (shown_prefix (raw_key bytes)) (encode_base64 encrypted) none db,
          found,
          decrypt_raw_key-encrypted law fits small,
        )
        refl
