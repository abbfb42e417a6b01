-- ===== src/Encryption/Certificates/Files.antt =====
-- Which files EnsureCertFiles touches, and that it leaves alone what loads.
use spark_db.Prelude.{
  String, [], ◌≡◌, refl, ◌∙◌, true, false, ◌&&◌, Result, ok, err, str_eq, arith, Option-cases,
  Bool-cases, Result-cases, inl, inr,
}
use spark_db.Disk.{Bytes, Disk, stat, read_file, write_file}
use spark_db.Disk.Files.{stat-stored}
use spark_db.Database.Manager.{is_present}
use spark_db.Encryption.Certificates.{
  Issuer, issued, generate_self_signed_cert, ensure_cert_files, tls_server_config, write_key,
  then_write_key,
}

module _ (i : Issuer) where
  loaded-present :
      (cert key : String) (d : Disk)
      → tls_server_config i cert key d ≡ ok tt
      → is_present (stat cert d) && is_present (stat key d) ≡ true
  unfolding tls_server_config read_file
  loaded-present cert key d h = elim (Option-cases (stat cert d)) [
    | inl c ↦ absurd (let stuck : err _ ≡ ok tt = (let raw = h in rw (c) at raw) in cc)
    | inr (f, c) ↦ elim (Option-cases (stat key d)) [
      | inl k ↦ absurd (let stuck : err _ ≡ ok tt = (let raw = h in rw (c, k) at raw) in cc)
      | inr (g, k) ↦ rw (c, k) refl
    ]
  ]

  -- What loads is left alone.
  pub ensure_cert_files-loaded :
      (cert key : String) (d : Disk)
      → tls_server_config i cert key d ≡ ok tt
      → ensure_cert_files i cert key d ≡ (ok tt, d)
  unfolding ensure_cert_files
  ensure_cert_files-loaded cert key d h = rw (loaded-present cert key d h) refl

  write_file-other :
      (path other : String) (content : Bytes) (d : Disk)
      → str_eq path other ≡ false
      → stat other (write_file path content d).1 ≡ stat other d
  unfolding write_file
  write_file-other path other content d h = elim (Bool-cases (d.writable path)) [
    | inl e ↦ rw e (ground (arith, stat-stored path other content d))
    | inr e ↦ rw e refl
  ]

  write_key-other :
      (marshalled : Result Bytes) (key other : String) (created : Result (Unit {0}) × Disk)
      → str_eq key other ≡ false
      → stat other (write_key i marshalled key created).1 ≡ stat other created.1
  write_key-other marshalled key other (err e, d) h = refl
  write_key-other (err e) key other (ok _, d) h = refl
  write_key-other (ok der) key other (ok _, d) h = write_file-other key other _ d h

  then_write_key-other :
      (private : Bytes) (key other : String) (created : Result (Unit {0}) × Disk)
      → str_eq key other ≡ false
      → stat other (then_write_key i private key created).1 ≡ stat other created.1
  then_write_key-other private key other (err e, d) h = refl
  then_write_key-other private key other (ok _, d) h =
      write_key-other (i.marshal_key private) key other (write_file key [] d) h
      ∙ write_file-other key other [] d h

  generate-other :
      (cert key other : String) (d : Disk)
      → str_eq cert other ≡ false
      → str_eq key other ≡ false
      → stat other (generate_self_signed_cert i cert key d).1 ≡ stat other d
  unfolding generate_self_signed_cert
  generate-other cert key other d c k = elim (Result-cases (issued i)) [
    | inr (e, failed) ↦ rw (failed, generate_self_signed_cert) refl
    | inl (pair, made) ↦
        rw (made, generate_self_signed_cert)
          (then_write_key-other pair.0 key other (write_file cert (i.pem "CERTIFICATE" pair.1) d) k
            ∙ write_file-other cert other _ d c)
  ]

  -- EnsureCertFiles touches no third file.
  pub ensure_cert_files-other :
      (cert key other : String) (d : Disk)
      → str_eq cert other ≡ false
      → str_eq key other ≡ false
      → stat other (ensure_cert_files i cert key d).1 ≡ stat other d
  unfolding ensure_cert_files
  ensure_cert_files-other cert key other d c k =
      elim (Bool-cases (is_present (stat cert d) && is_present (stat key d))) [
        | inl e ↦ rw e refl
        | inr e ↦ rw e (generate-other cert key other d c k)
      ]
