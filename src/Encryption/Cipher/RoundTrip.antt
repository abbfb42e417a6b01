-- ===== src/Encryption/Cipher/RoundTrip.antt =====
-- What encryption writes is read back, in memory and on the disk.
use spark_db.Prelude.{
  ◌<◌, if◌then◌else◌, String, ◌≡◌, refl, true, false, ◌++◌, length, ltb, ok, ◌>>=◌,
  take-append_length, drop-append_length, arith, str_eq, eq_refl, All, length-append, sym,
}
use spark_db.Disk.{Bytes, Disk, read_file, stored}
use spark_db.Disk.Files.{write_file-writable, read_file-stored, restored}
use spark_db.Encryption.Hex.{encode_hex, decode_hex-encode_hex}
use spark_db.Encryption.Cipher.{
  Aead, Cipher, valid_size, new_cipher, new_cipher_from_hex, encrypt, encrypt_reader, decrypt,
  encrypt_copy, encrypt_file, decrypt_copy, decrypt_file,
}

-- what crypto/cipher documents of an AEAD: Open undoes Seal under the same key and nonce
pub record Opens (a : Aead) : Type 0 where
  pub open_sealed-seal :
      (key nonce plaintext : Bytes)
      → length nonce ≡ a.nonce_size
      → a.open_sealed key nonce (a.seal key nonce plaintext) ≡ ok plaintext

-- DecryptCopy of a file that decrypts, to a writable target.
pub decrypt_copy-decrypt :
    (a : Aead) (key : Cipher) (src dst : String) (sealed p : Bytes) (d : Disk)
    → read_file src d ≡ ok sealed
    → decrypt a key sealed ≡ ok p
    → d.writable dst ≡ true
    → decrypt_copy a key src dst d ≡ (ok tt, stored dst p d)
unfolding decrypt_copy
decrypt_copy-decrypt a key src dst sealed p d here opens free =
    rw (here, opens, write_file-writable dst p d free) refl

-- EncryptFile of a file that is there and can be written.
pub encrypt_file-stored :
    (a : Aead) (key : Cipher) (nonce : Bytes) (path : String) (p : Bytes) (d : Disk)
    → read_file path d ≡ ok p
    → d.writable path ≡ true
    → encrypt_file a (ok nonce) key path d ≡ (ok tt, stored path (nonce ++ a.seal key nonce p) d)
unfolding encrypt_file encrypt
encrypt_file-stored a key nonce path p d here free =
    rw (here, write_file-writable path (nonce ++ a.seal key nonce p) d free) refl

module _ (a : Aead) (law : Opens a) (key nonce : Bytes) (fits : length nonce ≡ a.nonce_size) where
  pub decrypt-append : (p : Bytes) → decrypt a key (nonce ++ a.seal key nonce p) ≡ ok p
  unfolding decrypt
  decrypt-append p =
      let long : ltb (length (nonce ++ a.seal key nonce p)) a.nonce_size ≡ false =
        ground (arith, length-append nonce (a.seal key nonce p)) in
      rw
        (
          long,
          sym fits,
          take-append_length nonce (a.seal key nonce p),
          drop-append_length nonce (a.seal key nonce p),
          law.open_sealed-seal key nonce p fits,
        )
        refl

  -- Decrypt of what Encrypt returns is the plaintext.
  pub decrypt-encrypt : (p : Bytes) → (encrypt a (ok nonce) key p >>= decrypt a key) ≡ ok p
  unfolding encrypt
  decrypt-encrypt p = decrypt-append p

  -- What EncryptReader returns is decrypted to what was read.
  pub decrypt-encrypt_reader :
      (p : Bytes) → (encrypt_reader a (ok nonce) key (ok p) >>= decrypt a key) ≡ ok p
  unfolding encrypt_reader
  decrypt-encrypt_reader p = decrypt-encrypt p

  encrypt_copy-stored :
      (src dst : String) (p : Bytes) (d : Disk)
      → read_file src d ≡ ok p
      → d.writable dst ≡ true
      → encrypt_copy a (ok nonce) key src dst d
        ≡ (ok tt, stored dst (nonce ++ a.seal key nonce p) d)
  unfolding encrypt_copy encrypt
  encrypt_copy-stored src dst p d here free =
      rw (here, write_file-writable dst (nonce ++ a.seal key nonce p) d free) refl

  -- A file copied by EncryptCopy and copied back by DecryptCopy has its content again, where both
  -- targets are writable: both calls succeed, and no other file than the two targets changes.
  pub decrypt_copy-encrypt_copy :
      (src sealed dst : String) (p : Bytes) (d : Disk)
      → read_file src d ≡ ok p
      → d.writable sealed ≡ true
      → d.writable dst ≡ true
      → let after = encrypt_copy a (ok nonce) key src sealed d in
        let back = decrypt_copy a key sealed dst after.1 in
        (after.0 ≡ ok tt)
        × (back.0 ≡ ok tt)
        × ((other : String)
            → read_file other back.1 ≡ (
                if str_eq dst other
                then ok p
                else if str_eq sealed other
                then ok (nonce ++ a.seal key nonce p)
                else read_file other d))
  decrypt_copy-encrypt_copy src sealed dst p d here free free' =
      let ciphertext : Bytes = nonce ++ a.seal key nonce p in
      let once : Disk = stored sealed ciphertext d in
      let there : read_file sealed once ≡ ok ciphertext =
        rw (read_file-stored sealed sealed ciphertext d, eq_refl sealed) refl in
      rw
        (
          encrypt_copy-stored src sealed p d here free,
          decrypt_copy-decrypt a key sealed dst ciphertext p once there (decrypt-append p) free',
        )
        (
          refl,
          refl,
          λ other.
              rw (read_file-stored dst other p once, read_file-stored sealed other ciphertext d)
                refl,
        )

  -- A file encrypted in place and then decrypted in place has its content again, where it is writable:
  -- both calls succeed, and no other file changes.
  pub decrypt_file-encrypt_file :
      (path other : String) (p : Bytes) (d : Disk)
      → read_file path d ≡ ok p
      → d.writable path ≡ true
      → let after = encrypt_file a (ok nonce) key path d in
        let back = decrypt_file a key path after.1 in
        (after.0 ≡ ok tt) × (back.0 ≡ ok tt) × (read_file other back.1 ≡ read_file other d)
  unfolding decrypt_file
  decrypt_file-encrypt_file path other p d here free =
      let ciphertext : Bytes = nonce ++ a.seal key nonce p in
      let once : Disk = stored path ciphertext d in
      let there : read_file path once ≡ ok ciphertext =
        rw (read_file-stored path path ciphertext d, eq_refl path) refl in
      rw
        (
          encrypt_file-stored a key nonce path p d here free,
          there,
          decrypt-append p,
          write_file-writable path p once free,
        )
        (refl, refl, restored path other p ciphertext d here)

-- A key of 16, 24 or 32 bytes that AES accepts is read back from its hexadecimal form.
pub new_cipher_from_hex-encode_hex :
    (a : Aead) (key : Bytes)
    → All (λ b. b < 256) key
    → valid_size (length key) ≡ true
    → a.new_gcm key ≡ ok tt
    → new_cipher_from_hex a (encode_hex key) ≡ ok key
unfolding new_cipher_from_hex new_cipher
new_cipher_from_hex-encode_hex a key small size accepted =
    rw (decode_hex-encode_hex key small, size, accepted) refl
