-- ===== src/Encryption/Certificates.antt =====
-- internal/encryption/tls.go. The packages crypto/ecdsa, crypto/x509, encoding/pem and crypto/tls are
-- the parameter `Issuer`. A file is created and written at once.
pub mod Usable
pub mod Files
pub mod Examples
mod Tests
use spark_db.Prelude.{
  ℕ, String, List, [], ◌∷◌, Bool, ◌&&◌, Result, ok, err, ◌>>=◌, wrap, wrapf, if◌then◌else◌,
}
use spark_db.Disk.{Bytes, Disk, stat, read_file, write_file}
use spark_db.Database.Manager.{is_present}

pub record Issuer : Type 0 where
  -- ecdsa.GenerateKey and rand.Int, with what crypto/rand returns
  pub private_key : Result Bytes
  pub serial : Result ℕ
  -- x509.CreateCertificate of the template with the serial number, signed by the key
  pub create_certificate : ℕ → Bytes → Result Bytes
  -- x509.MarshalECPrivateKey
  pub marshal_key : Bytes → Result Bytes
  -- pem.Encode of a block of the given type
  pub pem : String → Bytes → Bytes
  -- tls.X509KeyPair of the contents of the two files
  pub key_pair : Bytes → Bytes → Result (Unit {0})

module _ (i : Issuer) where
  -- the private key and the certificate
  unfoldable pub issued : Result (Bytes × Bytes)
  issued = do
    key ← wrap "generate key" i.private_key
    serial ← wrap "generate serial" i.serial
    der ← wrap "create certificate" (i.create_certificate serial key)
    ok (key, der)

  -- after the creation of the key file, which is there, and empty, when the key cannot be marshalled
  abbrev pub write_key : Result Bytes → String → Result (Unit {0}) × Disk → Result (Unit {0}) × Disk
  write_key marshalled key_path (err e, d) = (err (wrapf "create key file" e), d)
  write_key (err e) key_path (ok _, d) = (err (wrapf "marshal key" e), d)
  write_key (ok der) key_path (ok _, d) = write_file key_path (i.pem "EC PRIVATE KEY" der) d

  -- after the writing of the certificate
  abbrev pub then_write_key : Bytes → String → Result (Unit {0}) × Disk → Result (Unit {0}) × Disk
  then_write_key key key_path (err e, d) = (err (wrapf "create cert file" e), d)
  then_write_key key key_path (ok _, d) =
      write_key (i.marshal_key key) key_path (write_file key_path [] d)

  unfoldable pub generate_self_signed_cert : String → String → Disk → Result (Unit {0}) × Disk
  generate_self_signed_cert cert_path key_path d = elim issued [
    | err e ↦ (err e, d)
    | ok pair ↦ then_write_key pair.0 key_path (write_file cert_path (i.pem "CERTIFICATE" pair.1) d)
  ]

  unfoldable pub tls_server_config : String → String → Disk → Result (Unit {0})
  tls_server_config cert_file key_file d =
      wrap "load TLS cert"
        (do cert ← read_file cert_file d; key ← read_file key_file d; i.key_pair cert key)

  unfoldable pub ensure_cert_files : String → String → Disk → Result (Unit {0}) × Disk
  unfolding generate_self_signed_cert
  ensure_cert_files cert_file key_file d =
      if is_present (stat cert_file d) && is_present (stat key_file d)
      then (ok tt, d)
      else generate_self_signed_cert cert_file key_file d
