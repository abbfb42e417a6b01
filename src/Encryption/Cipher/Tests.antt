-- ===== src/Encryption/Cipher/Tests.antt =====
-- Encryption run on concrete files.
use spark_db.Prelude.{◌≡◌, refl, true, [], ◌∷◌, ok, err, errorf, lookup}
use spark_db.Disk.{Bytes, Disk, read_file}
use spark_db.Encryption.Cipher.Examples.{tagging, tagging-Opens}
use spark_db.Encryption.Cipher.{encrypt, decrypt, encrypt_file, decrypt_file}
use spark_db.Encryption.Cipher.RoundTrip.{decrypt_file-encrypt_file}

abbrev key : Bytes
key = 1 ∷ 2 ∷ 3 ∷ 4 ∷ 5 ∷ 6 ∷ 7 ∷ 8 ∷ 9 ∷ 10 ∷ 11 ∷ 12 ∷ 13 ∷ 14 ∷ 15 ∷ 255 ∷ []

abbrev disk : Disk
disk = record {
  files =
      ("data/shop.db", record { content = 7 ∷ 8 ∷ []; modified = 3 })
      ∷ ("data/notes", record { content = 9 ∷ []; modified = 4 })
      ∷ [];
  clock = 5;
  writable = λ _. true;
}

sealed_example :
    encrypt tagging (ok (40 ∷ 41 ∷ [])) key (7 ∷ 8 ∷ []) ≡ ok (40 ∷ 41 ∷ 99 ∷ 7 ∷ 8 ∷ [])
unfolding encrypt
sealed_example = refl

short_example : decrypt tagging key (40 ∷ []) ≡ err (errorf "ciphertext too short")
unfolding decrypt
short_example = refl

decrypt_file-encrypt_file_example :
    let after = encrypt_file tagging (ok (40 ∷ 41 ∷ [])) key "data/shop.db" disk in
    let back = decrypt_file tagging key "data/shop.db" after.1 in
    (after.0 ≡ ok tt)
    × (back.0 ≡ ok tt)
    × (read_file "data/notes" back.1 ≡ read_file "data/notes" disk)
unfolding read_file lookup
decrypt_file-encrypt_file_example =
    decrypt_file-encrypt_file tagging tagging-Opens key (40 ∷ 41 ∷ []) refl "data/shop.db"
      "data/notes" (7 ∷ 8 ∷ []) disk refl refl
