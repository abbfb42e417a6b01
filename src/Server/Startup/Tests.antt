-- ===== src/Server/Startup/Tests.antt =====
-- A server without encryption, with a certificate to be made, started twice.
use spark_db.Prelude.{String, ◌≡◌, refl, [], ◌∷◌, false, true, ok, none, some, lookup, insert}
use spark_db.Disk.{read_file, write_file}
use spark_db.Encryption.Cipher.Examples.{tagging}
use spark_db.Encryption.Certificates.{
  ensure_cert_files, generate_self_signed_cert, issued, tls_server_config,
}
use spark_db.Encryption.Certificates.Examples.{paper}
use spark_db.Config.{Config, pos}
use spark_db.Database.System.Examples.{two_users, two_users-IsConsistent}
use spark_db.Database.System.Users
use spark_db.Database.System.Users.{get_user_by_username}
use spark_db.Auth.Authenticator.Examples.{plain}
use spark_db.Auth.Accounts.{ensure_default_admin}
use spark_db.Server.Startup.{Stored, Server, cipher_of, set_up_tls, server_of, new_server}
use spark_db.Server.Startup.Restart.{IsReady, new_server-again}

abbrev config : Config
config = record {
  server = record { host = "0.0.0.0"; port = pos 9600; read_only = false; allowed_origins = [] };
  database = record { data_dir = "."; wal_mode = true; max_conns = pos 100 };
  auth = record { enabled = false; jwt_secret = 4 ∷ [] };
  tls = record { enabled = true; cert_file = "a.crt"; key_file = "a.key"; auto_cert = true };
  encryption = record { enabled = false; key = []; key_file = "" };
  backup = record { dir = "backups"; schedule = ""; keep_count = pos 10 };
  replication = record { role = "primary"; primary_url = ""; api_key = ""; poll_interval = pos 5 };
}

abbrev found : Stored
found = record {
  system_db = two_users;
  replication = record {
    entries = [];
    next_entry = 1;
    state = some (record { role = "replica"; primary_url = "http://a"; last_applied_id = 7 });
  };
  disk = record { files = []; clock = 0; writable = λ path. true };
}

abbrev left : Stored
left = (new_server tagging plain paper String 60 5 (ok tt) (ok "/tmp") [] [] config found).1

abbrev server : Server String
server =
    server_of tagging plain paper String 60 5 (ok tt) (ok "/tmp") [] [] config none left.system_db
      true

starts :
    new_server tagging plain paper String 60 5 (ok tt) (ok "/tmp") [] [] config found
    ≡ (ok server, left)
unfolding new_server cipher_of set_up_tls ensure_cert_files generate_self_signed_cert
    tls_server_config issued ensure_default_admin Users.create_user get_user_by_username lookup
    read_file write_file Users.get_user insert
starts = refl

new_server-again_example :
    IsReady tagging plain paper String 60 (ok tt) (ok "/tmp") [] [] config found left server
    × (new_server tagging plain paper String 60 9 (ok tt) (ok "/tmp") [] [] config left
        ≡ (ok server, left))
new_server-again_example =
    new_server-again tagging plain paper String 60 (ok tt) (ok "/tmp") [] [] 5 9 config found left
      server two_users-IsConsistent refl refl starts
