-- ===== src/Server/Startup/Steps.antt =====
-- The steps of a New that returned a server.
use spark_db.Prelude.{
  ℕ, String, ◌≡◌, refl, sym, ap, Bool, Option, Result, ok, err, wrapf, Result-cases, inl, inr,
}
use spark_db.Text.{Text}
use spark_db.Disk.{Bytes, Disk}
use spark_db.Encryption.Cipher.{Aead, Cipher}
use spark_db.Encryption.Certificates.{Issuer}
use spark_db.Config.{Config}
use spark_db.Database.System.{SystemDb}
use spark_db.Database.System.ReplicationLog.{init_replication_state}
use spark_db.Auth.Authenticator.{Services}
use spark_db.Auth.Accounts.{ensure_default_admin}
use spark_db.Server.Startup.{
  Stored, Server, cipher_of, set_up_tls, server_of, secured, administered, new_server,
}

module _ (a : Aead) (s : Services) (i : Issuer) (Handle : Type 0) (minute : ℕ)
    (opened : Result (Unit {0})) (temp : Result String) (env : Text) (random : Bytes) where
  -- the steps of a New that returned a server
  pub record Started (now : ℕ) (c : Config) (st st' : Stored) (server : Server Handle)
      : Type 0 where
    pub key : Option Cipher
    pub keyed : cipher_of a c.encryption env st.disk ≡ ok key
    pub opens : opened ≡ ok tt
    pub admin : ensure_default_admin s now st.system_db ≡ (ok tt, st'.system_db)
    pub replicates :
        init_replication_state c.replication.role c.replication.primary_url st.replication
        ≡ st'.replication
    pub tls : set_up_tls i c.tls st.disk ≡ (ok server.tls_enabled, st'.disk)
    pub built :
        server_of a s i Handle minute now opened temp env random c key st'.system_db
          server.tls_enabled
        ≡ server

  secured-ok :
      (now : ℕ) (c : Config) (key : Option Cipher) (st st' : Stored) (server : Server Handle)
      (ready : Result Bool × Disk)
      → secured a s i Handle minute now opened temp env random c key st ready ≡ (ok server, st')
      → (ready ≡ (ok server.tls_enabled, st'.disk))
        × (record st { disk = st'.disk } ≡ st')
        × (server_of a s i Handle minute now opened temp env random c key st.system_db
              server.tls_enabled
            ≡ server)
  secured-ok now c key st st' server (err e, d) h =
      (let stuck : err e ≡ ok server = ap (λ p. p.0) h in cc)
  secured-ok now c key st st' server (ok tls, d) h =
      let left : record st { disk = d } ≡ st' = ap (λ p. p.1) h in
      let made : ok
            (server_of a s i Handle minute now opened temp env random c key st.system_db tls)
          ≡ ok server =
        ap (λ p. p.0) h in
      let same : server_of a s i Handle minute now opened temp env random c key st.system_db tls
          ≡ server =
        cc in
      rw (sym same, sym left) (refl, refl, refl)

  administered-ok :
      (now : ℕ) (c : Config) (key : Option Cipher) (st st' : Stored) (server : Server Handle)
      (admin : Result (Unit {0}) × SystemDb)
      → cipher_of a c.encryption env st.disk ≡ ok key
      → opened ≡ ok tt
      → ensure_default_admin s now st.system_db ≡ admin
      → administered a s i Handle minute now opened temp env random c key st admin
        ≡ (ok server, st')
      → Started now c st st' server
  administered-ok now c key st st' server (err e, db) k o same h =
      (let stuck : err _ ≡ ok server = ap (λ p. p.0) h in cc)
  administered-ok now c key st st' server (ok _, db) k o same h =
      let begun : Stored = record st {
        system_db = db;
        replication =
            init_replication_state c.replication.role c.replication.primary_url st.replication;
      } in
      let (tls, left, built) = secured-ok now c key begun st' server _ h in
      let db_left : db ≡ st'.system_db = ap (λ x. x.system_db) left in
      record {
        key = key;
        keyed = k;
        opens = o;
        admin = rw (sym db_left) same;
        replicates = ap (λ x. x.replication) left;
        tls = tls;
        built = rw (sym db_left) built;
      }

  pub new_server-Started :
      (now : ℕ) (c : Config) (st st' : Stored) (server : Server Handle)
      → new_server a s i Handle minute now opened temp env random c st ≡ (ok server, st')
      → Started now c st st' server
  unfolding new_server
  new_server-Started now c st st' server h =
      elim (Result-cases (cipher_of a c.encryption env st.disk)) [
        | inr (e, failed) ↦
            (let stuck : err e ≡ ok server =
                (let raw = ap (λ p. p.0) h in rw (failed, new_server) at raw) in
              cc)
        | inl (key, keyed) ↦ elim (Result-cases opened) [
          | inr (e, failed) ↦
              (let stuck : err (wrapf "init system database" e) ≡ ok server =
                  (let raw = ap (λ p. p.0) h in rw (keyed, failed, new_server) at raw) in
                cc)
          | inl (t, opens) ↦
              administered-ok now c key st st' server _ keyed opens refl
                (let raw = h in rw (keyed, opens, new_server) at raw)
        ]
      ]
