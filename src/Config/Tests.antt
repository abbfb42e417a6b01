-- ===== src/Config/Tests.antt =====
-- A configuration with numbers that Load puts right.
use spark_db.Prelude.{◌≡◌, refl, true, false, [], ok, err, errorf}
use spark_db.Config.{ℤ, Config, load, normalised}
use spark_db.Config.Valid.{IsValid, load-IsValid}

abbrev given : Config
given = record {
  server = record { host = "0.0.0.0"; port = ℤ.pos 9600; read_only = false; allowed_origins = [] };
  database = record { data_dir = "."; wal_mode = true; max_conns = ℤ.negsuc 2 };
  auth = record { enabled = true; jwt_secret = [] };
  tls = record { enabled = true; cert_file = "a.crt"; key_file = "a.key"; auto_cert = false };
  encryption = record { enabled = false; key = []; key_file = "" };
  backup = record { dir = "backups"; schedule = ""; keep_count = ℤ.pos 10 };
  replication = record { role = ""; primary_url = ""; api_key = ""; poll_interval = ℤ.pos 0 };
}

load-IsValid_example :
    IsValid (normalised given) × (load (normalised given) ≡ ok (normalised given))
unfolding load
load-IsValid_example = load-IsValid given (normalised given) refl

lonely_replica :
    load (record given { replication = record given.replication { role = "replica" } })
    ≡ err (errorf "replica role requires primary_url")
unfolding load
lonely_replica = refl
