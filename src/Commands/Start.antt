-- ===== src/Commands/Start.antt =====
-- cmd/sparkdb/commands/start.go: the server of a configuration file. Serving itself is left out.
use spark_db.Prelude.{ℕ, String, Option, Result, ok, err}
use spark_db.Text.{Text}
use spark_db.Disk.{Bytes, Disk}
use spark_db.Encryption.Cipher.{Aead}
use spark_db.Encryption.Certificates.{Issuer}
use spark_db.Config.{Config, load_file}
use spark_db.Auth.Authenticator.{Services}
use spark_db.Server.Startup.{Stored, Server, new_server}

-- the parameters of load_file and of new_server
module _ (viper : Option Bytes → Result Config) (find : Disk → Option Bytes) (a : Aead)
    (s : Services) (i : Issuer) (Handle : Type 0) (minute now : ℕ) (opened : Result (Unit {0}))
    (temp : Result String) (env : Text) (random : Bytes) where
  unfoldable pub run_start : String → Stored → Result (Server Handle) × Stored
  unfolding load_file new_server
  run_start cfg_path st = elim (load_file viper find cfg_path st.disk) [
    | err e ↦ (err e, st)
    | ok c ↦ new_server a s i Handle minute now opened temp env random c st
  ]
