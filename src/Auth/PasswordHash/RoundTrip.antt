-- ===== src/Auth/PasswordHash/RoundTrip.antt =====
-- A password verifies against its own hash, and another one only with the same key.
use spark_db.Prelude.{
  ◌^◌, ◌<◌, ◌≡◌, refl, ap, ◌∙◌, true, [], ◌∷◌, ◌++◌, length, All, ok, ◌>>=◌, arith,
}
use spark_db.Text.{Text, codes, text_eq, is_space}
use spark_db.Disk.{Bytes}
use spark_db.Auth.Base64.{encode_base64, decode_base64-encode_base64}
use spark_db.Auth.PasswordHash.{
  Argon2, decimal, decimal_from, memory_default, encoded, hash_password, scan_unsigned,
  scan_version, scan_params, split_on, verify_parts, verify_password,
}
use spark_db.Auth.PasswordHash.Parsing.{
  split_on-part, split_on-last, Digits-Without, decimal-Digits, scan_int-decimal,
  encode_base64-Without, encode_base64-bytes,
}

abbrev pub params : Text
params = codes "m=65536,t=3,p=4"

-- the six parts of an encoded hash
split_on-encoded :
    (a : Argon2) (salt hash : Bytes)
    → All (λ b. b < 256) salt
    → All (λ b. b < 256) hash
    → split_on b'$' (encoded a salt hash)
      ≡ []
        ∷ codes "argon2id"
        ∷ (codes "v=" ++ decimal a.version)
        ∷ params
        ∷ encode_base64 salt
        ∷ encode_base64 hash
        ∷ []
unfolding encoded decimal_from
split_on-encoded a salt hash small_salt small_hash =
    let version : Text = codes "v=" ++ decimal a.version in
    let last = encode_base64 hash in
    let tail : Text = encode_base64 salt ++ (b'$' ∷ last) in
    split_on-part b'$' [] (codes "argon2id" ++ b'$' ∷ (version ++ b'$' ∷ (params ++ b'$' ∷ tail)))
      tt
    ∙ ap (λ l. [] ∷ l)
        (split_on-part b'$' (codes "argon2id") (version ++ b'$' ∷ (params ++ b'$' ∷ tail))
            (ground arith)
          ∙ ap (λ l. codes "argon2id" ∷ l)
              (split_on-part b'$' version (params ++ b'$' ∷ tail)
                  (refl, (refl, Digits-Without (decimal a.version) (decimal-Digits a.version)))
                ∙ ap (λ l. version ∷ l)
                    (split_on-part b'$' params tail (ground arith)
                      ∙ ap (λ l. params ∷ l)
                          (split_on-part b'$' (encode_base64 salt) last
                              (encode_base64-Without salt small_salt)
                            ∙ ap (λ l. encode_base64 salt ∷ l)
                                (split_on-last b'$' last
                                  (encode_base64-Without hash small_hash))))))

scan_params-default : (a : Argon2) → scan_params a params ≡ ok (memory_default, (3, 4))
unfolding scan_params scan_unsigned is_space
scan_params-default a = refl

scan_version-decimal :
    (a : Argon2)
    → a.version < 2 ^ 63
    → scan_version a (codes "v=" ++ decimal a.version) ≡ ok (a.version, [])
unfolding scan_version
scan_version-decimal a h = scan_int-decimal a.version h

-- the key of a password under the salt of the random bytes and the default cost
abbrev pub default_key : Argon2 → Bytes → Text → Bytes
default_key a bytes password = a.id_key password (encode_base64 bytes) 3 memory_default 4 32

text_eq_refl : (t : Text) → text_eq t t ≡ true
text_eq_refl [] = refl
text_eq_refl (c ∷ t) = ground (arith, text_eq_refl t)

verifies :
    (a : Argon2) (bytes : Bytes) (password : Text)
    → All (λ b. b < 256) bytes
    → a.version < 2 ^ 63
    → All (λ b. b < 256) (default_key a bytes password)
    → length (default_key a bytes password) ≡ 32
    → (given : Text)
    → (hash_password a (ok bytes) password >>= verify_password a given)
      ≡ ok (text_eq (default_key a bytes password) (default_key a bytes given))
unfolding hash_password verify_password verify_parts
verifies a bytes password small version small_key full given =
    let salt = encode_base64 bytes in
    let hash = default_key a bytes password in
    rw
      (
        split_on-encoded a salt hash (encode_base64-bytes bytes small) small_key,
        verify_parts,
        scan_version-decimal a version,
        scan_params-default a,
        decode_base64-encode_base64 salt (encode_base64-bytes bytes small),
        decode_base64-encode_base64 hash small_key,
        full,
      )
      refl

-- VerifyPassword reads back what HashPassword encodes: it compares the stored key with the key of the
-- given password under the same salt and cost, so the password itself verifies. Argon2 returns bytes,
-- and as many as it is asked for.
pub verify_password-hash_password :
    (a : Argon2) (bytes : Bytes) (password : Text)
    → All (λ b. b < 256) bytes
    → a.version < 2 ^ 63
    → All (λ b. b < 256) (default_key a bytes password)
    → length (default_key a bytes password) ≡ 32
    → ((given : Text)
        → (hash_password a (ok bytes) password >>= verify_password a given)
          ≡ ok (text_eq (default_key a bytes password) (default_key a bytes given)))
      × ((hash_password a (ok bytes) password >>= verify_password a password) ≡ ok true)
verify_password-hash_password a bytes password small version small_key full = (
  verifies a bytes password small version small_key full,
  verifies a bytes password small version small_key full password
      ∙ ap ok (text_eq_refl (default_key a bytes password)),
)
