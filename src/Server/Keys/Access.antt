-- ===== src/Server/Keys/Access.antt =====
-- Who may manage API keys, and who is shown one.
use spark_db.Prelude.{
  ℕ, String, ◌≡◌, refl, true, false, ◌⊎◌, inl, inr, Bool-cases, Result-cases, Option, none, some,
  Result,
}
use spark_db.Text.{Text, is_empty}
use spark_db.Disk.{Bytes}
use spark_db.Encryption.Cipher.{Aead}
use spark_db.Rbac.{perm_backup}
use spark_db.Rbac.Separation.{admin_only}
use spark_db.Database.System.{SystemDb}
use spark_db.Auth.Authenticator.{Services, AuthUser}
use spark_db.Auth.ApiKeys.{reveal_api_key}
use spark_db.Auth.ApiKeys.Disclosure.{Disclosed, reveal_api_key_sound}
use spark_db.Server.Users.Guards.{IsAdmin}
use spark_db.Server.Keys.{
  KeyRequest, PathId, Body, may_manage_keys, handle_reveal_key, handle_key_request,
}

may_manage_keys-IsAdmin : (user : Option AuthUser) → may_manage_keys user ≡ true → IsAdmin user
unfolding may_manage_keys
may_manage_keys-IsAdmin none h = cc
may_manage_keys-IsAdmin (some u) h = record {
  who = u;
  known = refl;
  admin = admin_only u.role perm_backup (inr (inr (inl refl))) h;
}

module _ (s : Services) (a : Aead) (sha256 : Text → Bytes) (secret : Text) where
  -- a request that reveals the key `raw` to whoever gives the password of the key's user
  pub record Asked (req : KeyRequest) (raw : Text) (db : SystemDb) : Type 0 where
    pub id : ℕ
    pub password : Text
    pub request : req ≡ KeyRequest.reveal (PathId.number id) (some password)
    pub disclosed : Disclosed s a sha256 id password secret raw db

  handle_reveal_key_sound :
      (user : Option AuthUser) (id : PathId) (password : Option Text) (db : SystemDb) (raw : Text)
      (name : String)
      → (handle_reveal_key s a sha256 secret user id password db).0.body ≡ Body.key_body raw name
      → Asked (KeyRequest.reveal id password) raw db
  unfolding handle_reveal_key
  handle_reveal_key_sound none id password db raw name h = cc
  handle_reveal_key_sound (some u) PathId.missing password db raw name h = cc
  handle_reveal_key_sound (some u) PathId.malformed password db raw name h = cc
  handle_reveal_key_sound (some u) (PathId.number id) none db raw name h = cc
  handle_reveal_key_sound (some u) (PathId.number id) (some password) db raw name h =
      elim (Bool-cases (is_empty password)) [
        | inl e ↦ (let stuck : Body.error_body _ ≡ Body.key_body _ _ = rw (e) at h in cc)
        | inr e ↦ elim (Result-cases (reveal_api_key s a sha256 id password secret db)) [
          | inr (x, failed) ↦
              (let stuck : Body.error_body _ ≡ Body.key_body _ _ = rw (e, failed) at h in cc)
          | inl (raw', given) ↦
              let same : Body.key_body raw' "" ≡ Body.key_body raw name = rw (e, given) at h in
              let equal : raw' ≡ raw = cc in
              record {
                id = id;
                password = password;
                request = refl;
                disclosed =
                    reveal_api_key_sound s a sha256 id password secret raw db (rw (equal) at given);
              }
        ]
      ]

  handle_reveal_key_keeps :
      (user : Option AuthUser) (id : PathId) (password : Option Text) (db : SystemDb)
      → (handle_reveal_key s a sha256 secret user id password db).1 ≡ db
  unfolding handle_reveal_key
  handle_reveal_key_keeps none id password db = refl
  handle_reveal_key_keeps (some u) PathId.missing password db = refl
  handle_reveal_key_keeps (some u) PathId.malformed password db = refl
  handle_reveal_key_keeps (some u) (PathId.number id) none db = refl
  handle_reveal_key_keeps (some u) (PathId.number id) (some password) db =
      elim (Bool-cases (is_empty password)) [
        | inl e ↦ rw (e) refl
        | inr e ↦ elim (Result-cases (reveal_api_key s a sha256 id password secret db)) [
          | inl (raw, r) ↦ rw (e, r) refl
          | inr (x, r) ↦ rw (e, r) refl
        ]
      ]

  -- what is left to a user who may not manage keys
  handle_key_request_refused :
      (random nonce : Result Bytes) (now : ℕ) (user : Option AuthUser) (req : KeyRequest)
      (db : SystemDb)
      → may_manage_keys user ≡ false
      → ((handle_key_request s a sha256 secret random nonce now user req db).1 ≡ db)
        × ((raw : Text) (name : String)
            → (handle_key_request s a sha256 secret random nonce now user req db).0.body
              ≡ Body.key_body raw name
            → Asked req raw db)
  unfolding handle_key_request
  handle_key_request_refused random nonce now user KeyRequest.list db e =
      rw (e) (refl, λ raw name h. cc)
  handle_key_request_refused random nonce now user (KeyRequest.delete id) db e =
      rw (e) (refl, λ raw name h. cc)
  handle_key_request_refused random nonce now user (KeyRequest.create name) db e =
      rw (e) (refl, λ raw name' h. cc)
  handle_key_request_refused random nonce now user (KeyRequest.reveal id password) db e = (
    handle_reveal_key_keeps user id password db,
    λ raw name h. handle_reveal_key_sound user id password db raw name h,
  )

  -- A request about API keys is one of an administrator; or it changes nothing, and if its answer
  -- shows a key then it gave the password of the key's user.
  pub handle_key_request_guard :
      (random nonce : Result Bytes) (now : ℕ) (user : Option AuthUser) (req : KeyRequest)
      (db : SystemDb)
      → IsAdmin user
        ⊎ (((handle_key_request s a sha256 secret random nonce now user req db).1 ≡ db)
            × ((raw : Text) (name : String)
                → (handle_key_request s a sha256 secret random nonce now user req db).0.body
                  ≡ Body.key_body raw name
                → Asked req raw db))
  handle_key_request_guard random nonce now user req db = elim (Bool-cases (may_manage_keys user)) [
    | inl e ↦ inl (may_manage_keys-IsAdmin user e)
    | inr e ↦ inr (handle_key_request_refused random nonce now user req db e)
  ]
