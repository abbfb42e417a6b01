-- ===== src/Server/Startup/Success.antt =====
-- New succeeds when its steps do.
use spark_db.Prelude.{ℕ, String, ◌≡◌, Bool, Option, Result, ok, err}
use spark_db.Text.{Text}
use spark_db.Disk.{Bytes, Disk}
use spark_db.Encryption.Cipher.{Aead, Cipher}
use spark_db.Encryption.Certificates.{Issuer}
use spark_db.Config.{Config}
use spark_db.Database.System.{SystemDb}
use spark_db.Database.System.ReplicationLog.{init_replication_state}
use spark_db.Auth.Authenticator.{Services}
use spark_db.Auth.Accounts.{ensure_default_admin}
use spark_db.Server.Startup.{
  Stored, cipher_of, set_up_tls, server_of, secured, administered, new_server,
}

module _ (a : Aead) (s : Services) (i : Issuer) (Handle : Type 0) (minute now : ℕ)
    (temp : Result String) (env : Text) (random : Bytes) where
  secured-tls :
      (c : Config) (key : Option Cipher) (tls : Bool) (st : Stored) (ready : Result Bool × Disk)
      → ready.0 ≡ ok tls
      → (secured a s i Handle minute now (ok tt) temp env random c key st ready).0
        ≡ ok (server_of a s i Handle minute now (ok tt) temp env random c key st.system_db tls)
  secured-tls c key tls st (err e, d) h = absurd (let wrong : err e ≡ ok tls = h in cc)
  secured-tls c key tls st (ok b, d) h = (let same : ok b ≡ ok tls = h in cc)

  administered-tls :
      (c : Config) (key : Option Cipher) (tls : Bool) (st : Stored)
      (admin : Result (Unit {0}) × SystemDb)
      → admin.0 ≡ ok tt
      → (set_up_tls i c.tls st.disk).0 ≡ ok tls
      → (administered a s i Handle minute now (ok tt) temp env random c key st admin).0
        ≡ ok (server_of a s i Handle minute now (ok tt) temp env random c key admin.1 tls)
  administered-tls c key tls st (err e, db) h ready = absurd (let wrong : err e ≡ ok tt = h in cc)
  administered-tls c key tls st (ok _, db) h ready =
      secured-tls c key tls
        (record st {
          system_db = db;
          replication =
              init_replication_state c.replication.role c.replication.primary_url st.replication;
        })
        (set_up_tls i c.tls st.disk) ready

  -- New succeeds when its steps do.
  pub new_server-ok :
      (c : Config) (key : Option Cipher) (tls : Bool) (st : Stored)
      → cipher_of a c.encryption env st.disk ≡ ok key
      → (ensure_default_admin s now st.system_db).0 ≡ ok tt
      → (set_up_tls i c.tls st.disk).0 ≡ ok tls
      → (new_server a s i Handle minute now (ok tt) temp env random c st).0
        ≡ ok (
            server_of a s i Handle minute now
              (ok tt)
              temp
              env
              random
              c
              key
              (ensure_default_admin s now st.system_db).1
              tls)
  unfolding new_server
  new_server-ok c key tls st keyed admin ready =
      rw (keyed, new_server)
        (administered-tls c key tls st (ensure_default_admin s now st.system_db) admin ready)
