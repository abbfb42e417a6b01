-- ===== src/Encryption/Certificates/Examples.antt =====
-- An issuer whose certificates hold the key that they belong to, for the tests.
use spark_db.Prelude.{
  ℕ, String, [], ◌∷◌, ◌==◌, ◌&&◌, str_eq, refl, Result, ok, err, reported, if◌then◌else◌,
}
use spark_db.Text.{text_eq}
use spark_db.Disk.{Bytes}
use spark_db.Encryption.Certificates.{Issuer, issued}
use spark_db.Encryption.Certificates.Usable.{Issues}

abbrev kind : String → ℕ
kind block = if str_eq block "CERTIFICATE" then 1 else 2

abbrev pair_of : Bytes → Bytes → Result (Unit {0})
pair_of (b ∷ cert) (c ∷ key) =
    if b == 1 && (c == 2 && text_eq cert key)
    then ok tt
    else err (reported "tls: private key does not match public key")
pair_of _ _ = err (reported "tls: failed to find any PEM data")

abbrev pub paper : Issuer
paper = record {
  private_key = ok (7 ∷ 8 ∷ []);
  serial = ok 5;
  create_certificate = λ serial key. ok key;
  marshal_key = λ key. ok key;
  pem = λ block der. kind block ∷ der;
  key_pair = pair_of;
}

pub paper-Issues : Issues paper
unfolding issued
paper-Issues = record {
  private = 7 ∷ 8 ∷ [];
  certificate = 7 ∷ 8 ∷ [];
  marshalled = 7 ∷ 8 ∷ [];
  issues = refl;
  marshals = refl;
  pairs = refl;
}
