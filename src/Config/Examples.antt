-- ===== src/Config/Examples.antt =====
-- A configuration without encryption and TLS, for the tests.
use spark_db.Prelude.{[], false, true}
use spark_db.Config.{Config, pos}

abbrev pub local : Config
local = record {
  server = record { host = "0.0.0.0"; port = pos 9600; read_only = false; allowed_origins = [] };
  database = record { data_dir = "data"; wal_mode = true; max_conns = pos 100 };
  auth = record { enabled = false; jwt_secret = [] };
  tls = record { enabled = false; cert_file = ""; key_file = ""; auto_cert = true };
  encryption = record { enabled = false; key = []; key_file = "" };
  backup = record { dir = "backups"; schedule = ""; keep_count = pos 10 };
  replication = record {
    role = "standalone";
    primary_url = "";
    api_key = "";
    poll_interval = pos 5;
  };
}
