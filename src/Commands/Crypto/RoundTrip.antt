-- ===== src/Commands/Crypto/RoundTrip.antt =====
-- A file that `sparkdb encrypt` encrypted is decrypted by `sparkdb decrypt`.
use spark_db.Prelude.{◌<◌, String, ◌≡◌, refl, ap, ◌∙◌, true, Result, ok, err, All, length}
use spark_db.Text.{Text}
use spark_db.Disk.{Bytes, Disk, read_file}
use spark_db.Encryption.Hex.{encode_hex}
use spark_db.Encryption.Cipher.{Aead, valid_size, or_else, wrap_first, encrypt_file, decrypt_file}
use spark_db.Encryption.Cipher.RoundTrip.{
  Opens, new_cipher_from_hex-encode_hex, decrypt_file-encrypt_file,
}
use spark_db.Commands.Crypto.{draw_key, run_gen_key, given_cipher, run_encrypt, run_decrypt}
use spark_db.Commands.Init.Written.{encode_hex-filled}

wrap_first-ok :
    (label : String) (r : Result (Unit {0}) × Disk)
    → r.0 ≡ ok tt
    → wrap_first label r ≡ (ok tt, r.1)
wrap_first-ok label (ok _, d) h = refl
wrap_first-ok label (err e, d) h = absurd (let wrong : err e ≡ ok tt = h in cc)

module _ (a : Aead) (law : Opens a) (key nonce : Bytes) (bytes : All (λ b. b < 256) key)
    (size : valid_size (length key) ≡ true) (accepts : a.new_gcm key ≡ ok tt)
    (fits : length nonce ≡ a.nonce_size) where
  given_cipher-key :
      (flag env : Text) → or_else a flag env ≡ encode_hex key → given_cipher a flag env ≡ ok key
  unfolding given_cipher
  given_cipher-key flag env same =
      rw (same, encode_hex-filled key size, new_cipher_from_hex-encode_hex a key bytes size accepts)
        refl

  run_encrypt-key :
      (flag env : Text) (path : String) (d : Disk)
      → or_else a flag env ≡ encode_hex key
      → (encrypt_file a (ok nonce) key path d).0 ≡ ok tt
      → run_encrypt a (ok nonce) flag env path d ≡ (ok tt, (encrypt_file a (ok nonce) key path d).1)
  unfolding run_encrypt
  run_encrypt-key flag env path d same done =
      rw (given_cipher-key flag env same, run_encrypt)
        (wrap_first-ok "encrypt" (encrypt_file a (ok nonce) key path d) done)

  run_decrypt-key :
      (flag env : Text) (path : String) (d : Disk)
      → or_else a flag env ≡ encode_hex key
      → (decrypt_file a key path d).0 ≡ ok tt
      → run_decrypt a flag env path d ≡ (ok tt, (decrypt_file a key path d).1)
  unfolding run_decrypt
  run_decrypt-key flag env path d same done =
      rw (given_cipher-key flag env same, run_decrypt)
        (wrap_first-ok "decrypt" (decrypt_file a key path d) done)

  -- A file that is there and writable is encrypted with the key that gen-key printed, and decrypted
  -- with it again, where each command has the key by its flag or, without a flag, by the variable:
  -- both commands succeed, the file has its content again and no other file changes. The key has a
  -- size that AES takes, the nonce has its size, and AES-GCM opens what it sealed.
  pub run_decrypt-run_encrypt :
      (flag env flag' env' text : Text) (path other : String) (p : Bytes) (d : Disk)
      → run_gen_key (ok key) ≡ ok text
      → or_else a flag env ≡ text
      → or_else a flag' env' ≡ text
      → read_file path d ≡ ok p
      → d.writable path ≡ true
      → let after = run_encrypt a (ok nonce) flag env path d in
        let back = run_decrypt a flag' env' path after.1 in
        (after.0 ≡ ok tt) × (back.0 ≡ ok tt) × (read_file other back.1 ≡ read_file other d)
  unfolding run_gen_key draw_key
  run_decrypt-run_encrypt flag env flag' env' text path other p d drawn has has' here free =
      let printed : ok (encode_hex key) ≡ ok text = drawn in
      let same : encode_hex key ≡ text = cc in
      let after = encrypt_file a (ok nonce) key path d in
      let (done, undone, kept) =
        decrypt_file-encrypt_file a law key nonce fits path other p d here free in
      let there = run_encrypt-key flag env path d (rw (same) has) done in
      let back = run_decrypt-key flag' env' path after.1 (rw (same) has') undone in
      rw (there) (refl, ap (λ r. r.0) back, ap (λ r. read_file other r.1) back ∙ kept)
