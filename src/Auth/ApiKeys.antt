-- ===== src/Auth/ApiKeys.antt =====
-- internal/auth/apikey.go, and the methods of internal/auth/auth.go that make an API key and reveal
-- it. SHA-256 is the parameter `sha256`, AES-GCM is `Aead`; `random` stands for the bytes that
-- crypto/rand returns, of the key and of the nonce.
pub mod Lifetime
pub mod Disclosure
mod Tests
use spark_db.Prelude.{
  ℕ, String, Bool, true, false, List, [], ◌∷◌, ◌++◌, length, take, drop, ltb, none, Result, ok, err,
  ◌>>=◌, wrap, errorf, if◌then◌else◌,
}
use spark_db.Text.{Text, codes, is_empty}
use spark_db.Disk.{Bytes}
use spark_db.Encryption.Hex.{encode_hex}
use spark_db.Encryption.Cipher.{Aead}
use spark_db.Database.System.{User, ApiKey, SystemDb}
use spark_db.Database.System.Users.{get_user}
use spark_db.Database.System.Credentials.{create_api_key, get_api_key}
use spark_db.Auth.Base64.{encode_base64, decode_base64}
use spark_db.Auth.Authenticator.{Services, verified}

-- `prefix` of a key: its first twelve characters
abbrev pub shown_prefix : Text → Text
shown_prefix raw = if ltb 12 (length raw) then take 12 raw ++ codes "..." else raw

module _ (s : Services) (a : Aead) (sha256 : Text → Bytes) where
  -- APIKeyManager.Generate: the raw key and its hash
  unfoldable pub generate_key : Result Bytes → Result (Text × String)
  generate_key random = do
    bytes ← wrap "generate key" random
    ok (codes "vl_" ++ encode_hex bytes, s.sha256_hex (codes "vl_" ++ encode_hex bytes))

  unfoldable pub encrypt_raw_key : Result Bytes → Text → Text → Result Text
  encrypt_raw_key random secret raw = do
    _ ← wrap "new cipher" (a.new_gcm (sha256 secret))
    nonce ← wrap "nonce" random
    ok (encode_base64 (nonce ++ a.seal (sha256 secret) nonce raw))

  abbrev pub opened_key : Bytes → Bytes → Result Text
  opened_key key bytes =
      if ltb (length bytes) a.nonce_size
      then err (errorf "ciphertext too short")
      else wrap "decrypt" (a.open_sealed key (take a.nonce_size bytes) (drop a.nonce_size bytes))

  unfoldable pub decrypt_raw_key : Text → Text → Result Text
  decrypt_raw_key secret encrypted = do
    bytes ← wrap "decode" (decode_base64 encrypted)
    _ ← wrap "new cipher" (a.new_gcm (sha256 secret))
    opened_key (sha256 secret) bytes

  abbrev pub stored_key :
      ℕ → ℕ → String → SystemDb → Result (Text × (String × Text)) → Result Text × SystemDb
  stored_key now user_id name db (ok (raw, (hashed, encrypted))) =
      (ok raw, create_api_key now user_id hashed name (shown_prefix raw) none encrypted db)
  stored_key now user_id name db (err e) = (err e, db)

  unfoldable pub generate_api_key :
      Result Bytes → Result Bytes → ℕ → Text → ℕ → String → SystemDb → Result Text × SystemDb
  unfolding generate_key encrypt_raw_key
  generate_api_key random nonce now secret user_id name db = stored_key now user_id name db (do
    key ← wrap "generate API key" (generate_key random)
    encrypted ← wrap "encrypt key" (encrypt_raw_key nonce secret key.0)
    ok (key.0, (key.1, encrypted)))

  -- the end of RevealAPIKey, once the key's user is known
  abbrev pub revealed : Text → Text → ApiKey → User → Result Text
  revealed secret password k u =
      if verified (s.verify_password password u.password_hash)
      then wrap "decrypt key" (decrypt_raw_key secret k.encrypted_key)
      else err (errorf "invalid password")

  unfoldable pub reveal_api_key : ℕ → Text → Text → SystemDb → Result Text
  unfolding decrypt_raw_key
  reveal_api_key id password secret db = wrap "get api key" (get_api_key id db) >>= λ k.
      if is_empty k.encrypted_key
      then err (errorf "no encrypted key stored")
      else wrap "get user" (get_user k.user_id db) >>= revealed secret password k
