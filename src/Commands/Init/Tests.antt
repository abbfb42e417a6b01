-- ===== src/Commands/Init/Tests.antt =====
-- A project with a key and a certificate, set up and started.
use spark_db.Prelude.{
  ◌<◌, String, ◌≡◌, refl, [], ◌∷◌, true, All, Option, Result, ok, some, none, arith, lookup, insert,
}
use spark_db.Disk.{Bytes, Disk, read_file, write_file}
use spark_db.Encryption.Cipher.Examples.{tagging}
use spark_db.Encryption.Certificates.{
  ensure_cert_files, generate_self_signed_cert, issued, tls_server_config,
}
use spark_db.Encryption.Certificates.Examples.{paper}
use spark_db.Config.{Config, pos}
use spark_db.Database.Manager.Examples.{join}
use spark_db.Database.System.Users.{get_user_by_username}
use spark_db.Database.System.Examples.{two_users}
use spark_db.Database.System.Users
use spark_db.Auth.Authenticator.Examples.{plain}
use spark_db.Auth.Accounts.{ensure_default_admin}
use spark_db.Server.Startup.{Stored, Server, set_up_tls}
use spark_db.Commands.Init.{InitOptions, Host, init_config, init_project, prepare_project}
use spark_db.Commands.Init.Starting.{start-init_project}
use spark_db.Commands.Init.Written.{configured, project}
use spark_db.Commands.Start.{run_start}

abbrev options : InitOptions
options = record {
  dir = "";
  port = pos 9600;
  gen_cert = true;
  gen_key = true;
  data_dir = "";
  backup_dir = "";
}

abbrev host : Host
host = record { abs = λ path. ok "/srv"; mkdir_all = λ path. ok tt; join = join; encode = λ c. [] }

abbrev key : Bytes
key = 1 ∷ 2 ∷ 3 ∷ 4 ∷ 5 ∷ 6 ∷ 7 ∷ 8 ∷ 9 ∷ 10 ∷ 11 ∷ 12 ∷ 13 ∷ 14 ∷ 15 ∷ 255 ∷ []

small : All (λ b. b < 256) key
small = search arith

abbrev empty : Stored
empty = record {
  system_db = two_users;
  replication = record { entries = []; next_entry = 1; state = none };
  disk = record { files = []; clock = 0; writable = λ path. true };
}

-- the random bytes of the secret of tokens
abbrev secret : Bytes
secret = 4 ∷ 5 ∷ []

abbrev viper : Option Bytes → Result Config
viper content = ok (configured (project host options "/srv" secret key))

abbrev disk : Disk
disk = (init_project host options (ok secret) (ok key) empty.disk).1

start-init_project_example :
    ((init_project host options (ok secret) (ok key) empty.disk).0 ≡ ok "/srv/config.json")
    × ((server : Server String) × ((run_start viper
            (λ d. none)
            tagging
            plain
            paper
            String
            60
            5
            (ok tt)
            (ok "/tmp")
            []
            []
            "/srv/config.json"
            (record empty { disk = disk })).0
          ≡ ok server)
        × (server.tls_enabled ≡ true)
        × (server.db_manager.cipher ≡ some key))
unfolding init_project prepare_project init_config set_up_tls ensure_cert_files
    generate_self_signed_cert tls_server_config issued ensure_default_admin Users.create_user
    get_user_by_username lookup read_file write_file Users.get_user insert
start-init_project_example =
    start-init_project host options "/srv" refl (λ path. refl) viper (λ d. none) tagging plain paper
      String 60 5 (ok "/tmp") [] [] secret key empty refl refl small refl refl refl refl refl refl
