-- ===== src/Encryption/Certificates/Usable.antt =====
-- The certificate that EnsureCertFiles leaves.
use spark_db.Prelude.{
  String, [], ◌≡◌, refl, ok, false, true, some, ◌&&◌, str_eq, eq_refl, Bool-cases, inl, inr,
  if◌then◌else◌,
}
use spark_db.Disk.{Bytes, Disk, stat, read_file, write_file, stored}
use spark_db.Disk.Files.{stat-stored}
use spark_db.Database.Manager.{is_present}
use spark_db.Encryption.Certificates.{
  Issuer, issued, generate_self_signed_cert, ensure_cert_files, tls_server_config,
}

-- the packages issue a certificate, and they read it back with its key
pub record Issues (i : Issuer) : Type 0 where
  pub private : Bytes
  pub certificate : Bytes
  pub marshalled : Bytes
  pub issues : issued i ≡ ok (private, certificate)
  pub marshals : i.marshal_key private ≡ ok marshalled
  pub pairs :
      i.key_pair (i.pem "CERTIFICATE" certificate) (i.pem "EC PRIVATE KEY" marshalled) ≡ ok tt

module _ (i : Issuer) (law : Issues i) where
  -- the disk with both files
  abbrev certified : String → String → Disk → Disk
  certified cert key d =
      stored key (i.pem "EC PRIVATE KEY" law.marshalled)
        (stored key [] (stored cert (i.pem "CERTIFICATE" law.certificate) d))

  stat-certified :
      (cert key other : String) (d : Disk)
      → stat other (certified cert key d) ≡ (
          if str_eq key other
          then some (record { content = i.pem "EC PRIVATE KEY" law.marshalled; modified = d.clock })
          else if str_eq cert other
          then some (record { content = i.pem "CERTIFICATE" law.certificate; modified = d.clock })
          else stat other d)
  stat-certified cert key other d =
      let cert_pem = i.pem "CERTIFICATE" law.certificate in
      let d1 = stored cert cert_pem d in
      rw
        (
          stat-stored key other (i.pem "EC PRIVATE KEY" law.marshalled) (stored key [] d1),
          stat-stored key other [] d1,
          stat-stored cert other cert_pem d,
        )
        (elim (Bool-cases (str_eq key other)) [ inl e ↦ rw e refl | inr e ↦ rw e refl ])

  module _ (cert key : String) (d : Disk) (cert_free : d.writable cert ≡ true)
      (key_free : d.writable key ≡ true) where
    generates : generate_self_signed_cert i cert key d ≡ (ok tt, certified cert key d)
    unfolding generate_self_signed_cert write_file
    generates =
        rw (law.issues, generate_self_signed_cert)
          (rw (cert_free) (rw (key_free) (rw (law.marshals) (rw (key_free) refl))))

    module _ (apart : str_eq key cert ≡ false) where
      certified-loads : tls_server_config i cert key (certified cert key d) ≡ ok tt
      unfolding tls_server_config read_file
      certified-loads =
          rw
            (
              stat-certified cert key cert d,
              stat-certified cert key key d,
              apart,
              eq_refl cert,
              eq_refl key,
              law.pairs,
            )
            refl

      certified-present :
          is_present (stat cert (certified cert key d))
            && is_present (stat key (certified cert key d))
          ≡ true
      certified-present =
          rw
            (
              stat-certified cert key cert d,
              stat-certified cert key key d,
              apart,
              eq_refl cert,
              eq_refl key,
            )
            refl

      -- Where a certificate can be issued and its two files, which are not one, can be written and are
      -- not both there, EnsureCertFiles succeeds: the server then loads the certificate, every other
      -- file is as before, and EnsureCertFiles leaves what it wrote when it is run again.
      pub ensure_cert_files_usable :
          is_present (stat cert d) && is_present (stat key d) ≡ false
          → let d' = (ensure_cert_files i cert key d).1 in
            ((ensure_cert_files i cert key d).0 ≡ ok tt)
            × (tls_server_config i cert key d' ≡ ok tt)
            × ((other : String)
                → str_eq cert other ≡ false
                → str_eq key other ≡ false
                → stat other d' ≡ stat other d)
            × (ensure_cert_files i cert key d' ≡ (ok tt, d'))
      unfolding ensure_cert_files
      ensure_cert_files_usable missing =
          rw (missing, generates)
            (
              refl,
              certified-loads,
              λ other c k. rw (stat-certified cert key other d, k, c) refl,
              rw (certified-present) refl,
            )
