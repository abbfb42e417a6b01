-- ===== src/Encryption/Cipher/Examples.antt =====
-- A transparent AEAD of two-byte nonces that puts a tag before the plaintext, for the tests.
use spark_db.Prelude.{[], ◌∷◌, Result, ok, err, reported, refl}
use spark_db.Disk.{Bytes}
use spark_db.Encryption.Cipher.{Aead}
use spark_db.Encryption.Cipher.RoundTrip.{Opens}

abbrev untagged : Bytes → Result Bytes
untagged [] = err (reported "message authentication failed")
untagged (t ∷ p) = ok p

abbrev pub tagging : Aead
tagging = record {
  new_gcm = λ _. ok tt;
  nonce_size = 2;
  seal = λ _ _ p. 99 ∷ p;
  open_sealed = λ _ _ p. untagged p;
}

pub tagging-Opens : Opens tagging
tagging-Opens = record { open_sealed-seal = λ _ _ _ _. refl }
