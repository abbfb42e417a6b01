-- ===== src/Auth/ApiKeys/Disclosure.antt =====
-- To whom RevealAPIKey gives a key.
use spark_db.Prelude.{
  ℕ, String, ◌≡◌, true, Result, ok, err, wrap, Bool-cases, Result-cases, inl, inr,
}
use spark_db.Text.{Text, is_empty}
use spark_db.Disk.{Bytes}
use spark_db.Encryption.Cipher.{Aead}
use spark_db.Database.System.{User, ApiKey, SystemDb}
use spark_db.Database.System.Users.{get_user}
use spark_db.Database.System.Credentials.{get_api_key}
use spark_db.Auth.Authenticator.{Services, verified}
use spark_db.Auth.ApiKeys.{decrypt_raw_key, reveal_api_key}

module _ (s : Services) (a : Aead) (sha256 : Text → Bytes) where
  -- the stored key with this id decrypts to `raw`, and the password is that of its user
  pub record Disclosed (id : ℕ) (password secret raw : Text) (db : SystemDb) : Type 0 where
    pub key : ApiKey
    pub owner : User
    pub stored : get_api_key id db ≡ ok key
    pub owned : get_user key.user_id db ≡ ok owner
    pub right : verified (s.verify_password password owner.password_hash) ≡ true
    pub decrypts : decrypt_raw_key s a sha256 secret key.encrypted_key ≡ ok raw

  wrap-ok : {A : Type 0} (label : String) (r : Result A) (x : A) → wrap label r ≡ ok x → r ≡ ok x
  wrap-ok label (ok y) x h = h
  wrap-ok label (err e) x h = (let stuck : err _ ≡ ok _ = h in cc)

  -- RevealAPIKey gives a key only for the password of the key's user.
  pub reveal_api_key_sound :
      (id : ℕ) (password secret raw : Text) (db : SystemDb)
      → reveal_api_key s a sha256 id password secret db ≡ ok raw
      → Disclosed id password secret raw db
  unfolding reveal_api_key
  reveal_api_key_sound id password secret raw db h = elim (Result-cases (get_api_key id db)) [
    | inr (e, missing) ↦ (let stuck : err _ ≡ ok _ = rw (missing, reveal_api_key) at h in cc)
    | inl (k, stored) ↦ elim (Bool-cases (is_empty k.encrypted_key)) [
      | inl none_stored ↦
          (let stuck : err _ ≡ ok _ = rw (stored, reveal_api_key, none_stored) at h in cc)
      | inr some_stored ↦ elim (Result-cases (get_user k.user_id db)) [
        | inr (e, missing) ↦
            (let stuck : err _ ≡ ok _ = rw (stored, reveal_api_key, some_stored, missing) at h in
              cc)
        | inl (u, owned) ↦
            elim (Bool-cases (verified (s.verify_password password u.password_hash))) [
              | inr wrong ↦
                  (let stuck : err _ ≡ ok _ =
                      rw (stored, reveal_api_key, some_stored, owned, wrong) at h in
                    cc)
              | inl right ↦ record {
                key = k;
                owner = u;
                stored = stored;
                owned = owned;
                right = right;
                decrypts =
                    wrap-ok "decrypt key" (decrypt_raw_key s a sha256 secret k.encrypted_key) raw
                      (rw (stored, reveal_api_key, some_stored, owned, right) at h);
              }
            ]
      ]
    ]
  ]
