-- ===== src/Commands/Crypto.antt =====
-- cmd/sparkdb/commands/crypto.go: the commands that draw a key, make a certificate, and encrypt and
-- decrypt a file. `flag` is the flag --key, `env` the variable SPARKDB_ENCRYPTION_KEY, `random` what
-- crypto/rand returns. Of what is printed only the key is kept.
pub mod RoundTrip
mod Tests
use spark_db.Prelude.{String, Result, ok, err, ◌>>=◌, wrap, errorf, if◌then◌else◌}
use spark_db.Text.{Text, is_empty}
use spark_db.Disk.{Bytes, Disk}
use spark_db.Encryption.Hex.{encode_hex}
use spark_db.Encryption.Cipher.{
  Aead, Cipher, or_else, new_cipher_from_hex, encrypt_file, decrypt_file, wrap_first,
}
use spark_db.Encryption.Certificates.{Issuer, generate_self_signed_cert}

-- GenerateKey of internal/encryption/cipher.go
unfoldable pub draw_key : Result Bytes → Result Bytes
draw_key random = wrap "generate key" random

-- the key that `gen-key` prints
unfoldable pub run_gen_key : Result Bytes → Result Text
unfolding draw_key
run_gen_key random = do key ← wrap "generate key" (draw_key random); ok (encode_hex key)

unfoldable pub run_gen_cert : Issuer → String → String → Disk → Result (Unit {0}) × Disk
run_gen_cert i cert_file key_file d =
    wrap_first "generate cert" (generate_self_signed_cert i cert_file key_file d)

module _ (a : Aead) where
  unfoldable pub given_cipher : Text → Text → Result Cipher
  given_cipher flag env =
      if is_empty (or_else a flag env)
      then err (errorf "encryption key required (--key or SPARKDB_ENCRYPTION_KEY)")
      else wrap "init cipher" (new_cipher_from_hex a (or_else a flag env))

  unfoldable pub run_encrypt : Result Bytes → Text → Text → String → Disk → Result (Unit {0}) × Disk
  unfolding given_cipher
  run_encrypt random flag env path d = elim (given_cipher flag env) [
    | err e ↦ (err e, d)
    | ok key ↦ wrap_first "encrypt" (encrypt_file a random key path d)
  ]

  unfoldable pub run_decrypt : Text → Text → String → Disk → Result (Unit {0}) × Disk
  unfolding given_cipher
  run_decrypt flag env path d = elim (given_cipher flag env) [
    | err e ↦ (err e, d)
    | ok key ↦ wrap_first "decrypt" (decrypt_file a key path d)
  ]
