-- ===== src/Commands/Admin.antt =====
-- cmd/sparkdb/commands/admin.go: a database and an account made from the command line. `load` is Load
-- on the file of the flag --config; the rest is as in the database manager and the accounts. What is
-- printed is left out.
mod Tests
use spark_db.Prelude.{
  ℕ, String, Bool, Option, some, none, Result, ok, err, ◌>>=◌, wrap, wrapf, if◌then◌else◌,
}
use spark_db.Text.{Text}
use spark_db.Disk.{Bytes, Disk}
use spark_db.Encryption.Cipher.{Aead, Cipher, get_cipher}
use spark_db.Config.{Config, EncryptionConfig}
use spark_db.Database.Manager.{Driver, Manager, open_db, close_db}
use spark_db.Database.System.{SystemDb, User}
use spark_db.Auth.Authenticator.{Services}
use spark_db.Auth.Accounts
use spark_db.Server.Startup.{manager_of}

module _ (a : Aead) where
  -- the key where encryption is enabled
  unfoldable pub command_cipher : EncryptionConfig → Text → Disk → Result (Option Cipher)
  command_cipher c env d =
      if c.enabled then (do key ← get_cipher a c.key c.key_file env d; ok (some key)) else ok none

  module _ (s : Driver) (join : String → String → String) (load : Disk → Result Config)
      (temp : Result String) (env : Text) where
    -- the configuration and a manager with its directories and its cipher
    unfoldable pub command_manager : Disk → Result (Config × Manager s.Handle)
    unfolding command_cipher
    command_manager d = do
      c ← load d
      key ← command_cipher c.encryption env d
      ok (c, manager_of temp c.database key)

    -- after Open; the error of Close is dropped
    abbrev pub then_closed :
        Result Bytes
        → String
        → Result s.Handle × (Manager s.Handle × Disk)
        → Result (Unit {0}) × Disk
    then_closed random name (err e, (m, d)) = (err (wrapf "create database" e), d)
    then_closed random name (ok h, (m, d)) = (ok tt, (close_db s a join random name m d).1.1)

    unfoldable pub run_create_db : Result Bytes → String → Disk → Result (Unit {0}) × Disk
    unfolding command_manager
    run_create_db random name d = elim (command_manager d) [
      | err e ↦ (err e, d)
      | ok made ↦ then_closed random name (open_db s a join name made.1 d)
    ]

-- `opened` is whether NewSystemDB opens the system database
unfoldable pub run_create_user :
    Services
    → Result Config
    → Result (Unit {0})
    → ℕ
    → String
    → Text
    → String
    → SystemDb
    → Result User × SystemDb
run_create_user s loaded opened now username password role db =
    elim (do c ← loaded; wrap "open system database" opened) [
      | err e ↦ (err e, db)
      | ok _ ↦
          let (created, db') = Accounts.create_user s now username password role db in
          (wrap "create user" created, db')
    ]
