-- ===== src/Encryption/Cipher.antt =====
-- internal/encryption/cipher.go. AES-GCM is the parameter `Aead`; the bytes that crypto/rand returns
-- are the argument `random`.
pub mod RoundTrip
pub mod Examples
mod Tests
use spark_db.Prelude.{
  ◌+◌, ℕ, String, Bool, true, false, ◌||◌, List, [], ◌∷◌, ◌++◌, length, take, drop, ltb, ◌==◌,
  str_eq, Result, ok, err, ◌>>=◌, wrap, errorf, if◌then◌else◌,
}
use spark_db.Text.{Text, is_empty}
use spark_db.Disk.{Bytes, Disk, read_file, write_file}
use spark_db.Encryption.Hex.{decode_hex}

pub record Aead : Type 0 where
  -- aes.NewCipher with cipher.NewGCM, for a key
  pub new_gcm : Bytes → Result (Unit {0})
  pub nonce_size : ℕ
  -- Seal(nil, nonce, plaintext, nil) and Open(nil, nonce, ciphertext, nil), under the key
  pub seal : Bytes → Bytes → Bytes → Bytes
  pub open_sealed : Bytes → Bytes → Bytes → Result Bytes

-- A cipher is its key.
abbrev pub Cipher : Type 0
Cipher = Bytes

abbrev pub valid_size : ℕ → Bool
valid_size n = n == 16 || (n == 24 || n == 32)

abbrev pub wrap_first : String → Result (Unit {0}) × Disk → Result (Unit {0}) × Disk
wrap_first label (r, d) = (wrap label r, d)

-- what a method that writes a file returns, and the disk it leaves
abbrev pub written : String → String → Result Bytes → Disk → Result (Unit {0}) × Disk
written label path (ok content) d = wrap_first label (write_file path content d)
written label path (err e) d = (err e, d)

module _ (a : Aead) where
  unfoldable pub new_cipher : Bytes → Result Cipher
  new_cipher key =
      if valid_size (length key)
      then (do _ ← wrap "create cipher" (a.new_gcm key); ok key)
      else err (errorf "invalid key size: must be 16, 24, or 32 bytes")

  unfoldable pub new_cipher_from_hex : Text → Result Cipher
  unfolding new_cipher
  new_cipher_from_hex hex_key = do key ← wrap "decode hex key" (decode_hex hex_key); new_cipher key

  unfoldable pub encrypt : Result Bytes → Cipher → Bytes → Result Bytes
  encrypt random key plaintext = do
    nonce ← wrap "generate nonce" random
    ok (nonce ++ a.seal key nonce plaintext)

  -- EncryptReader, of what reading the input gave
  unfoldable pub encrypt_reader : Result Bytes → Cipher → Result Bytes → Result Bytes
  unfolding encrypt
  encrypt_reader random key input = do
    plaintext ← wrap "read input" input
    encrypt random key plaintext

  unfoldable pub decrypt : Cipher → Bytes → Result Bytes
  decrypt key sealed =
      if ltb (length sealed) a.nonce_size
      then err (errorf "ciphertext too short")
      else wrap "decrypt" (a.open_sealed key (take a.nonce_size sealed) (drop a.nonce_size sealed))

  unfoldable pub encrypt_copy :
      Result Bytes → Cipher → String → String → Disk → Result (Unit {0}) × Disk
  unfolding encrypt
  encrypt_copy random key src dst d =
      written "write destination" dst
        (do
          plaintext ← wrap "read source" (read_file src d)
          wrap "encrypt" (encrypt random key plaintext))
        d

  unfoldable pub encrypt_file : Result Bytes → Cipher → String → Disk → Result (Unit {0}) × Disk
  unfolding encrypt
  encrypt_file random key path d =
      written "write file" path
        (do
          plaintext ← wrap "read file" (read_file path d)
          wrap "encrypt" (encrypt random key plaintext))
        d

  unfoldable pub decrypt_copy : Cipher → String → String → Disk → Result (Unit {0}) × Disk
  unfolding decrypt
  decrypt_copy key src dst d =
      written "write destination" dst
        (do
          ciphertext ← wrap "read source" (read_file src d)
          wrap "decrypt" (decrypt key ciphertext))
        d

  unfoldable pub decrypt_file : Cipher → String → Disk → Result (Unit {0}) × Disk
  unfolding decrypt
  decrypt_file key path d =
      written "write file" path
        (do
          ciphertext ← wrap "read file" (read_file path d)
          wrap "decrypt" (decrypt key ciphertext))
        d

  abbrev pub or_else : Text → Text → Text
  or_else [] s = s
  or_else (c ∷ r) s = c ∷ r

  -- the key of the configuration, or the content of the key file
  abbrev pub configured_key : Text → String → Disk → Result Text
  configured_key [] key_file d =
      if str_eq key_file "" then ok [] else wrap "read key file" (read_file key_file d)
  configured_key (c ∷ key) key_file d = ok (c ∷ key)

  -- `env` is the variable SPARKDB_ENCRYPTION_KEY
  unfoldable pub get_cipher : Text → String → Text → Disk → Result Cipher
  unfolding new_cipher_from_hex
  get_cipher key key_file env d = configured_key key key_file d >>= λ configured.
      if is_empty (or_else configured env)
      then err (errorf "no encryption key found")
      else new_cipher_from_hex (or_else configured env)
