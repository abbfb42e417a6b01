-- ===== src/Commands/Init.antt =====
-- cmd/sparkdb/commands/init.go: the configuration that `sparkdb init` writes. filepath.Abs,
-- os.MkdirAll, filepath.Join and encoding/json are the parameter `Host`; the two draws of crypto/rand
-- are arguments. What is printed is left out.
pub mod Written
pub mod Starting
mod Tests
use spark_db.Prelude.{
  String, Bool, true, [], Result, ok, err, ◌>>=◌, wrap, wrapf, str_eq, if◌then◌else◌,
}
use spark_db.Text.{Text, append_str}
use spark_db.Disk.{Bytes, Disk, write_file}
use spark_db.Encryption.Hex.{encode_hex}
use spark_db.Config.{ℤ, pos, DatabaseConfig, TlsConfig, BackupConfig, ReplicationConfig}

pub record InitOptions : Type 0 where
  pub dir : String
  pub port : ℤ
  pub gen_cert : Bool
  pub gen_key : Bool
  pub data_dir : String
  pub backup_dir : String

-- initConfig, its nested structs of the fields that Config has as well
pub record InitConfig : Type 0 where
  pub host : String
  pub port : ℤ
  pub database : DatabaseConfig
  pub jwt_secret : Text
  pub tls : TlsConfig
  pub encryption_enabled : Bool
  pub encryption_key : Text
  pub backup : BackupConfig
  pub replication : ReplicationConfig

pub record Host : Type 0 where
  pub abs : String → Result String
  pub mkdir_all : String → Result (Unit {0})
  pub join : String → String → String
  -- the JSON of a configuration
  pub encode : InitConfig → Bytes

abbrev pub or_default : String → String → String
or_default given default = if str_eq given "" then default else given

-- the encryption key in the configuration, drawn when it is asked for
abbrev pub drawn_key : Bool → Result Bytes → Result Text
drawn_key gen_key drawn =
    if gen_key then (do key ← wrap "generate encryption key" drawn; ok (encode_hex key)) else ok []

module _ (h : Host) where
  abbrev pub data_dir_of : InitOptions → String → String
  data_dir_of o abs_dir = or_default o.data_dir (h.join abs_dir "data")

  abbrev pub backup_dir_of : InitOptions → String → String
  backup_dir_of o abs_dir = or_default o.backup_dir (h.join abs_dir "backups")

  -- the configuration, with the key if one was drawn
  unfoldable pub init_config : InitOptions → String → Bytes → Text → InitConfig
  init_config o abs_dir jwt_secret key = record {
    host = "0.0.0.0";
    port = o.port;
    database = record { data_dir = data_dir_of o abs_dir; wal_mode = true; max_conns = pos 100 };
    jwt_secret = encode_hex jwt_secret;
    tls = record {
      enabled = o.gen_cert;
      cert_file = h.join abs_dir "sparkdb.crt";
      key_file = h.join abs_dir "sparkdb.key";
      auto_cert = o.gen_cert;
    };
    encryption_enabled = o.gen_key;
    encryption_key = key;
    backup = record { dir = backup_dir_of o abs_dir; schedule = ""; keep_count = pos 10 };
    replication = record {
      role = "standalone";
      primary_url = "";
      api_key = "";
      poll_interval = pos 5;
    };
  }

  -- the directory of the project and its configuration
  unfoldable pub prepare_project :
      InitOptions → Result Bytes → Result Bytes → Result (String × InitConfig)
  unfolding init_config
  prepare_project o secret drawn = do
    abs_dir ← wrap "resolve path" (h.abs (or_default o.dir "."))
    _ ← wrap "create directory" (h.mkdir_all abs_dir)
    _ ←
        wrap (append_str "create directory " (data_dir_of o abs_dir))
          (h.mkdir_all (data_dir_of o abs_dir))
    _ ←
        wrap (append_str "create directory " (backup_dir_of o abs_dir))
          (h.mkdir_all (backup_dir_of o abs_dir))
    jwt_secret ← wrap "generate jwt secret" secret
    key ← drawn_key o.gen_key drawn
    ok (abs_dir, init_config o abs_dir jwt_secret key)

  abbrev pub config_path : String → String
  config_path abs_dir = h.join abs_dir "config.json"

  -- after the writing of the configuration
  abbrev pub initialised : String → Result (Unit {0}) × Disk → Result String × Disk
  initialised path (err e, d) = (err (wrapf "create config.json" e), d)
  initialised path (ok _, d) = (ok path, d)

  -- the path of the configuration
  unfoldable pub init_project :
      InitOptions → Result Bytes → Result Bytes → Disk → Result String × Disk
  unfolding prepare_project
  init_project o secret drawn d = elim (prepare_project o secret drawn) [
    | err e ↦ (err e, d)
    | ok project ↦
        initialised (config_path project.0)
          (write_file (config_path project.0) (h.encode project.1) d)
  ]
