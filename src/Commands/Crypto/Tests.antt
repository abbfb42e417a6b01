-- ===== src/Commands/Crypto/Tests.antt =====
-- A file encrypted with the flag and decrypted with the variable.
use spark_db.Prelude.{◌<◌, ◌≡◌, refl, [], ◌∷◌, true, All, arith, ok, err, errorf, lookup}
use spark_db.Disk.{Bytes, Disk, read_file}
use spark_db.Encryption.Hex.{encode_hex}
use spark_db.Encryption.Cipher.Examples.{tagging, tagging-Opens}
use spark_db.Commands.Crypto.{draw_key, run_gen_key, given_cipher, run_encrypt, run_decrypt}
use spark_db.Commands.Crypto.RoundTrip.{run_decrypt-run_encrypt}

abbrev key : Bytes
key = 1 ∷ 2 ∷ 3 ∷ 4 ∷ 5 ∷ 6 ∷ 7 ∷ 8 ∷ 9 ∷ 10 ∷ 11 ∷ 12 ∷ 13 ∷ 14 ∷ 15 ∷ 255 ∷ []

small : All (λ b. b < 256) key
small = search arith

abbrev disk : Disk
disk = record {
  files = ("main", record { content = 42 ∷ []; modified = 1 }) ∷ [];
  clock = 3;
  writable = λ path. true;
}

abbrev encrypted : Disk
encrypted = (run_encrypt tagging (ok (8 ∷ 9 ∷ [])) (encode_hex key) [] "main" disk).1

run_decrypt-run_encrypt_example :
    ((run_encrypt tagging (ok (8 ∷ 9 ∷ [])) (encode_hex key) [] "main" disk).0 ≡ ok tt)
    × ((run_decrypt tagging [] (encode_hex key) "main" encrypted).0 ≡ ok tt)
    × (read_file "main" (run_decrypt tagging [] (encode_hex key) "main" encrypted).1
        ≡ read_file "main" disk)
unfolding run_gen_key draw_key encode_hex read_file lookup
run_decrypt-run_encrypt_example =
    run_decrypt-run_encrypt tagging tagging-Opens key (8 ∷ 9 ∷ []) small refl refl refl
      (encode_hex key) [] [] (encode_hex key) (encode_hex key) "main" "main" (42 ∷ []) disk refl
      refl refl refl refl

no_key :
    (run_decrypt tagging [] [] "main" disk).0
    ≡ err (errorf "encryption key required (--key or SPARKDB_ENCRYPTION_KEY)")
unfolding run_decrypt given_cipher
no_key = refl
