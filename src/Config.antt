-- ===== src/Config.antt =====
-- internal/config/config.go: the checks that Load makes on what viper has read, the argument.
pub mod Valid
pub mod Examples
mod Tests
use spark_db.Prelude.{
  ℕ, String, List, Bool, true, false, not, ◌&&◌, ◌||◌, ltb, leb, str_eq, Result, ok, err, errorf,
  Option, some, ◌>>=◌, if◌then◌else◌,
}
use spark_db.Text.{Text, is_empty}
use spark_db.Disk.{Bytes, Disk, read_file}

-- Go's int
pub data ℤ : Type 0 where
  pos : ℕ → ℤ
  -- `negsuc n` is -1 - n
  negsuc : ℕ → ℤ

pub record ServerConfig : Type 0 where
  pub host : String
  pub port : ℤ
  pub read_only : Bool
  pub allowed_origins : List String

pub record DatabaseConfig : Type 0 where
  pub data_dir : String
  pub wal_mode : Bool
  pub max_conns : ℤ

pub record AuthConfig : Type 0 where
  pub enabled : Bool
  pub jwt_secret : Text

pub record TlsConfig : Type 0 where
  pub enabled : Bool
  pub cert_file : String
  pub key_file : String
  pub auto_cert : Bool

pub record EncryptionConfig : Type 0 where
  pub enabled : Bool
  pub key : Text
  pub key_file : String

pub record BackupConfig : Type 0 where
  pub dir : String
  pub schedule : String
  pub keep_count : ℤ

pub record ReplicationConfig : Type 0 where
  pub role : String
  pub primary_url : String
  pub api_key : String
  pub poll_interval : ℤ

pub record Config : Type 0 where
  pub server : ServerConfig
  pub database : DatabaseConfig
  pub auth : AuthConfig
  pub tls : TlsConfig
  pub encryption : EncryptionConfig
  pub backup : BackupConfig
  pub replication : ReplicationConfig

abbrev pub is_port : ℤ → Bool
is_port (pos n) = leb 1 n && leb n 65535
is_port (negsuc n) = false

-- `x < 1`
abbrev pub below_one : ℤ → Bool
below_one (pos n) = ltb n 1
below_one (negsuc n) = true

abbrev pub is_negative : ℤ → Bool
is_negative (pos n) = false
is_negative (negsuc n) = true

abbrev pub is_role : String → Bool
is_role role = str_eq role "primary" || (str_eq role "replica" || str_eq role "standalone")

-- `if condition { return nil, fmt.Errorf(…) }`
abbrev pub refuse_if : Bool → String → Result (Unit {0})
refuse_if true message = err (errorf message)
refuse_if false message = ok tt

abbrev pub default_role : String → String
default_role role = if str_eq role "" then "standalone" else role

-- the values that Load puts in place of others
abbrev pub normalised : Config → Config
normalised c = record c {
  database = record c.database {
    max_conns = if below_one c.database.max_conns then pos 1 else c.database.max_conns;
  };
  backup = record c.backup {
    keep_count = if is_negative c.backup.keep_count then pos 0 else c.backup.keep_count;
  };
  replication = record c.replication {
    role = default_role c.replication.role;
    poll_interval =
        if below_one c.replication.poll_interval then pos 5 else c.replication.poll_interval;
  };
}

abbrev pub lacks_certificate : TlsConfig → Bool
lacks_certificate t =
    (t.enabled && not t.auto_cert) && (str_eq t.cert_file "" || str_eq t.key_file "")

abbrev pub lacks_key : EncryptionConfig → Bool
lacks_key e = e.enabled && (is_empty e.key && str_eq e.key_file "")

abbrev pub is_replica : ReplicationConfig → Bool
is_replica r = str_eq (default_role r.role) "replica"

unfoldable pub load : Config → Result Config
load c = do
  _ ← refuse_if (not (is_port c.server.port)) "invalid server port"
  _ ←
      refuse_if (lacks_certificate c.tls)
        "tls enabled without auto_cert: cert_file and key_file must be set"
  _ ← refuse_if (lacks_key c.encryption) "encryption enabled but no key or key_file provided"
  _ ← refuse_if (not (is_role (default_role c.replication.role))) "invalid replication role"
  _ ←
      refuse_if (is_replica c.replication && str_eq c.replication.primary_url "")
        "replica role requires primary_url"
  _ ←
      refuse_if (is_replica c.replication && str_eq c.replication.api_key "")
        "replica role requires api_key for authentication with primary"
  ok (normalised c)

-- Load from a file: `viper` is what viper makes of the file's content with its defaults and the
-- environment, `find` the content of the file that it finds by itself. `path` is the flag --config.
unfoldable pub load_file :
    (Option Bytes → Result Config) → (Disk → Option Bytes) → String → Disk → Result Config
unfolding load
load_file viper find path d =
    if str_eq path ""
    then viper (find d) >>= load
    else (do content ← read_file path d; c ← viper (some content); load c)
