-- ===== src/Server/Startup/Secured.antt =====
-- The certificate and the key of encryption, as a second start finds them.
use spark_db.Prelude.{
  String, [], ◌∷◌, ◌≡◌, refl, sym, ap, Bool, true, false, not, ◌||◌, Option, Result, ok, err,
  str_eq, Bool-cases, Result-cases, inl, inr, none, some,
}
use spark_db.Text.{Text}
use spark_db.Disk.{Disk, stat, read_file}
use spark_db.Encryption.Cipher.{Aead, Cipher, get_cipher, configured_key}
use spark_db.Encryption.Certificates.{Issuer, ensure_cert_files, tls_server_config}
use spark_db.Encryption.Certificates.Files.{ensure_cert_files-loaded, ensure_cert_files-other}
use spark_db.Config.{DatabaseConfig, EncryptionConfig, TlsConfig}
use spark_db.Server.Startup.{cipher_of, load_tls, set_up_tls, manager_of}

abbrev pub is_ok : {A : Type 0} → Result A → Bool
is_ok (ok a) = true
is_ok (err e) = false

module _ (i : Issuer) where
  load_tls-ok :
      (c : TlsConfig) (ready : Result (Unit {0}) × Disk) (tls : Bool) (d : Disk)
      → load_tls i c ready ≡ (ok tls, d)
      → (true ≡ tls) × (tls_server_config i c.cert_file c.key_file d ≡ ok tt) × (ready.1 ≡ d)
  load_tls-ok c (err e, d0) tls d h = (let stuck : err _ ≡ ok tls = ap (λ p. p.0) h in cc)
  load_tls-ok c (ok _, d0) tls d h =
      let same : d0 ≡ d = ap (λ p. p.1) h in
      elim (Result-cases (tls_server_config i c.cert_file c.key_file d0)) [
        | inr (e, failed) ↦
            (let stuck : err _ ≡ ok tls = (let raw = ap (λ p. p.0) h in rw (failed) at raw) in cc)
        | inl (t, loads) ↦
            let done : ok true ≡ ok tls = (let raw = ap (λ p. p.0) h in rw (loads) at raw) in
            (cc, rw (sym same) loads, same)
      ]

  -- TLS that is set up once is set up again without a change.
  pub set_up_tls_idem :
      (c : TlsConfig) (tls : Bool) (d d' : Disk)
      → set_up_tls i c d ≡ (ok tls, d')
      → (tls ≡ c.enabled)
        × (not c.enabled || is_ok (tls_server_config i c.cert_file c.key_file d') ≡ true)
        × (set_up_tls i c d' ≡ (ok tls, d'))
  unfolding set_up_tls
  set_up_tls_idem c tls d d' h = elim (Bool-cases c.enabled) [
    | inr e ↦
        let done : ok false ≡ ok tls = (let raw = ap (λ p. p.0) h in rw (e) at raw) in
        let off : false ≡ tls = cc in rw (e, sym off) (refl, refl, refl)
    | inl e ↦
        let (on, loads, same) = load_tls-ok c _ tls d' (let raw = h in rw (e) at raw) in
        rw (e, sym on, loads)
          (
            refl,
            refl,
            elim (Bool-cases c.auto_cert) [
              | inl auto ↦
                  rw (auto, ensure_cert_files-loaded i c.cert_file c.key_file d' loads, loads) refl
              | inr auto ↦ rw (auto, loads) refl
            ],
          )
  ]

  load_tls-disk :
      (c : TlsConfig) (ready : Result (Unit {0}) × Disk) → (load_tls i c ready).1 ≡ ready.1
  load_tls-disk c (err e, d) = refl
  load_tls-disk c (ok _, d) = refl

  pub set_up_tls-other :
      (c : TlsConfig) (other : String) (d : Disk)
      → str_eq c.cert_file other ≡ false
      → str_eq c.key_file other ≡ false
      → stat other (set_up_tls i c d).1 ≡ stat other d
  unfolding set_up_tls
  set_up_tls-other c other d apart apart' = elim (Bool-cases c.enabled) [
    | inr e ↦ rw e refl
    | inl e ↦ elim (Bool-cases c.auto_cert) [
      | inl auto ↦
          let ready = ensure_cert_files i c.cert_file c.key_file d in
          rw (e, auto, load_tls-disk c ready)
            (ensure_cert_files-other i c.cert_file c.key_file other d apart apart')
      | inr auto ↦ rw (e, auto) refl
    ]
  ]

module _ (a : Aead) where
  configured_key-kept :
      (key : Text) (key_file : String) (d d' : Disk)
      → stat key_file d' ≡ stat key_file d
      → configured_key a key key_file d' ≡ configured_key a key key_file d
  unfolding read_file
  configured_key-kept [] key_file d d' same = rw (same) refl
  configured_key-kept (k ∷ key) key_file d d' same = refl

  pub cipher_of-kept :
      (c : EncryptionConfig) (env : Text) (d d' : Disk)
      → stat c.key_file d' ≡ stat c.key_file d
      → cipher_of a c env d' ≡ cipher_of a c env d
  unfolding cipher_of get_cipher
  cipher_of-kept c env d d' same = rw (configured_key-kept c.key c.key_file d d' same) refl

pub manager_of-cipher :
    (Handle : Type 0) (temp : Result String) (c : DatabaseConfig) (key : Option Cipher)
    → (manager_of {Handle = Handle} temp c key).cipher ≡ key
manager_of-cipher Handle temp c none = refl
manager_of-cipher Handle temp c (some key) = refl
