-- ===== src/Auth/ApiKeys/Tests.antt =====
-- API keys made from concrete random bytes.
use spark_db.Prelude.{◌≡◌, refl, arith, [], ◌∷◌, ok}
use spark_db.Text.{Text, codes}
use spark_db.Disk.{Bytes}
use spark_db.Encryption.Hex.{encode_hex, hex_digit}
use spark_db.Encryption.Cipher.Examples.{tagging, tagging-Opens}
use spark_db.Database.System.Examples.{alice, two_users}
use spark_db.Database.System.Users.{get_user}
use spark_db.Database.System.Credentials.{without_change}
use spark_db.Auth.Authenticator.{auth_user, authenticate_api_key}
use spark_db.Auth.Authenticator.Examples.{plain, server}
use spark_db.Auth.ApiKeys.{reveal_api_key}
use spark_db.Auth.ApiKeys.Lifetime.{
  created, raw_key, authenticate_api_key-generate_api_key, reveal_api_key-generate_api_key,
}

abbrev sha256 : Text → Bytes
sha256 t = 1 ∷ 2 ∷ []

abbrev bytes : Bytes
bytes = 16 ∷ 255 ∷ []

abbrev nonce : Bytes
nonce = 40 ∷ 41 ∷ []

raw_key_example : raw_key bytes ≡ codes "vl_10ff"
unfolding encode_hex hex_digit
raw_key_example = refl

authenticate_api_key-generate_api_key_example :
    let made = created plain tagging sha256 bytes nonce 3 (115 ∷ []) 1 "ci" two_users refl in
    (made.0 ≡ ok (raw_key bytes))
    × (authenticate_api_key plain 9 (raw_key bytes) (record server { system_db = made.1 })
        ≡ ok (auth_user "apikey" (without_change alice)))
unfolding get_user
authenticate_api_key-generate_api_key_example =
    authenticate_api_key-generate_api_key plain tagging sha256 bytes nonce 3 (115 ∷ []) 1 "ci"
      two_users refl 9 alice server refl refl

reveal_api_key-generate_api_key_example :
    let made = created plain tagging sha256 bytes nonce 3 (115 ∷ []) 1 "ci" two_users refl in
    reveal_api_key plain tagging sha256 1 (codes "secret") (115 ∷ []) made.1 ≡ ok (raw_key bytes)
unfolding get_user
reveal_api_key-generate_api_key_example =
    reveal_api_key-generate_api_key plain tagging sha256 bytes nonce 3 (115 ∷ []) 1 "ci" two_users
      refl (codes "secret") alice tagging-Opens refl (omega arith)
      (unfold encode_hex hex_digit in ground arith) refl refl
