-- ===== src/Server/Startup.antt =====
-- New of internal/server/server.go: from a configuration to a server. `opened` is whether NewSystemDB
-- opens the file of the system database, whose tables are those of `Stored`; `temp` is the directory of
-- os.MkdirTemp, `env` the variable SPARKDB_ENCRYPTION_KEY, `minute` a minute on the clock, `random`
-- the bytes that NewJWTManager draws where the secret is empty. The replication engine is left out.
pub mod Secured
pub mod Steps
pub mod Restart
pub mod Success
mod Tests
use spark_db.Prelude.{
  ℕ, ◌*◌, String, Bool, true, false, Option, none, some, Result, ok, err, ◌>>=◌, wrap, wrapf,
  if◌then◌else◌,
}
use spark_db.Text.{Text, is_empty}
use spark_db.Disk.{Bytes, Disk}
use spark_db.Encryption.Hex.{encode_hex}
use spark_db.Encryption.Cipher.{Aead, Cipher, get_cipher}
use spark_db.Encryption.Certificates.{Issuer, ensure_cert_files, tls_server_config}
use spark_db.Config.{ℤ, pos, negsuc, Config, DatabaseConfig, EncryptionConfig, TlsConfig}
use spark_db.Database.Manager.{Manager, new_manager, new_encrypted_manager}
use spark_db.Database.System.{SystemDb}
use spark_db.Database.System.ReplicationLog.{ReplicationTables, init_replication_state}
use spark_db.Auth.LoginLimiter.{new_login_rate_limiter}
use spark_db.Auth.Authenticator.{Services, Authenticator}
use spark_db.Auth.Accounts.{ensure_default_admin}
use spark_db.Backup.{BackupManager}

-- what outlives a server
pub record Stored : Type 0 where
  pub system_db : SystemDb
  pub replication : ReplicationTables
  pub disk : Disk

pub record Server (Handle : Type 0) : Type 0 where
  pub db_manager : Manager Handle
  pub authenticator : Authenticator
  pub backup_mgr : BackupManager
  pub tls_enabled : Bool

-- a limit on connections; none where it is not positive
abbrev pub limit_of : ℤ → ℕ
limit_of (pos n) = n
limit_of (negsuc n) = 0

abbrev pub manager_of :
    {Handle : Type 0} → Result String → DatabaseConfig → Option Cipher → Manager Handle
manager_of temp c none = new_manager c.data_dir c.wal_mode (limit_of c.max_conns)
manager_of temp c (some key) =
    new_encrypted_manager temp c.data_dir c.wal_mode (limit_of c.max_conns) key

-- NewJWTManager's secret
abbrev pub secret_or : Bytes → Text → Text
secret_or random secret = if is_empty secret then encode_hex random else secret

module _ (a : Aead) where
  unfoldable pub cipher_of : EncryptionConfig → Text → Disk → Result (Option Cipher)
  cipher_of c env d =
      if c.enabled
      then (do key ← wrap "encryption" (get_cipher a c.key c.key_file env d); ok (some key))
      else ok none

module _ (i : Issuer) where
  -- whether there is TLS
  abbrev pub load_tls : TlsConfig → Result (Unit {0}) × Disk → Result Bool × Disk
  load_tls c (err e, d) = (err (wrapf "ensure TLS certs" e), d)
  load_tls c (ok _, d) =
      ((do _ ← wrap "TLS config" (tls_server_config i c.cert_file c.key_file d); ok true), d)

  unfoldable pub set_up_tls : TlsConfig → Disk → Result Bool × Disk
  set_up_tls c d =
      if c.enabled
      then load_tls c
          (if c.auto_cert then ensure_cert_files i c.cert_file c.key_file d else (ok tt, d))
      else (ok false, d)

module _ (a : Aead) (s : Services) (i : Issuer) (Handle : Type 0) (minute now : ℕ)
    (opened : Result (Unit {0})) (temp : Result String) (env : Text) (random : Bytes) where
  abbrev pub server_of : Config → Option Cipher → SystemDb → Bool → Server Handle
  server_of c key db tls = record {
    db_manager = manager_of temp c.database key;
    authenticator = record {
      system_db = db;
      login_limiter = new_login_rate_limiter 5 (15 * minute);
      secret = secret_or random c.auth.jwt_secret;
      duration = 1440 * minute;
    };
    backup_mgr = record { backup_dir = c.backup.dir; data_dir = c.database.data_dir; cipher = key };
    tls_enabled = tls;
  }

  -- from TLS on
  abbrev pub secured :
      Config → Option Cipher → Stored → Result Bool × Disk → Result (Server Handle) × Stored
  secured c key st (err e, d) = (err e, record st { disk = d })
  secured c key st (ok tls, d) = (ok (server_of c key st.system_db tls), record st { disk = d })

  -- from the system database on
  abbrev pub administered :
      Config
      → Option Cipher
      → Stored
      → Result (Unit {0}) × SystemDb
      → Result (Server Handle) × Stored
  administered c key st (err e, db) =
      (err (wrapf "ensure default admin" e), record st { system_db = db })
  administered c key st (ok _, db) =
      secured c key
        (record st {
          system_db = db;
          replication =
              init_replication_state c.replication.role c.replication.primary_url st.replication;
        })
        (set_up_tls i c.tls st.disk)

  unfoldable pub new_server : Config → Stored → Result (Server Handle) × Stored
  unfolding cipher_of set_up_tls
  new_server c st = elim (cipher_of a c.encryption env st.disk) [
    | err e ↦ (err e, st)
    | ok key ↦ elim opened [
      | err e ↦ (err (wrapf "init system database" e), st)
      | ok _ ↦ administered c key st (ensure_default_admin s now st.system_db)
    ]
  ]
